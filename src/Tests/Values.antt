-- ===== src/Tests/Values.antt =====
-- The theorems on keys and weights at concrete inputs, and runs of the algorithms (src/util.cpp,
-- src/group_weights_cache.cpp).
use libelliptics_proxy.Base.{ℕ, ◌≡◌, refl, ◌↔◌, pos, true, false, [], ◌∷◌, arith}
use libelliptics_proxy.Result.{ok}
use libelliptics_proxy.Sorting.{insert_sorted, sort, set_difference, unique}
use libelliptics_proxy.Ids.{Key, key_less}
use libelliptics_proxy.Ids.Conversion.{bare, library_key, key_less-library_key}
use libelliptics_proxy.Ids.Order.{IsValidKey, key_less_trans}
use libelliptics_proxy.Weights.{no_groups, add_all, get}
use libelliptics_proxy.Weights.Choice.{get-add_all}
use libelliptics_proxy.Tests.Fixtures.{pair_weights, key, id_key}

-- Runs.
set_difference_run :
    set_difference (sort (pos 3 ∷ pos 1 ∷ pos 3 ∷ [])) (pos 3 ∷ []) ≡ pos 1 ∷ pos 3 ∷ []
unfolding set_difference sort insert_sorted
set_difference_run = refl

unique_run : unique (pos 1 ∷ pos 1 ∷ pos 2 ∷ []) ≡ pos 1 ∷ pos 2 ∷ []
unfolding unique
unique_run = refl

-- Keys.
abbrev low_key : Key
low_key = id_key (1 ∷ 2 ∷ []) (pos 0)

abbrev high_key : Key
high_key = id_key (1 ∷ 2 ∷ []) (pos 1)

low_key-IsValid : IsValidKey 2 low_key
low_key-IsValid = λ e. record { sized = refl; column = 0; typed = refl; small = omega arith }

high_key-IsValid : IsValidKey 2 high_key
high_key-IsValid = λ e. record { sized = refl; column = 1; typed = refl; small = omega arith }

key-IsValid : IsValidKey 2 key
key-IsValid = λ e. cc

low_high : key_less 2 low_key high_key ≡ true
unfolding key_less
low_high = refl

high_name : key_less 2 high_key key ≡ true
unfolding key_less
high_name = refl

key_less_trans_example : key_less 2 low_key key ≡ true
key_less_trans_example =
    key_less_trans 2 low_key high_key key low_key-IsValid high_key-IsValid key-IsValid low_high
      high_name

key_less-library_key_example :
    ((key_less 2 low_key high_key ≡ false) × (key_less 2 high_key low_key ≡ false))
    ↔ (bare (library_key low_key) ≡ bare (library_key high_key))
key_less-library_key_example =
    key_less-library_key 2 low_key high_key low_key-IsValid high_key-IsValid

-- Weights: of the points up to 7, the last falls to the second pair.
abbrev last_point : ℕ → ℕ
last_point total = total

get-add_all_example : get last_point (add_all no_groups pair_weights) ≡ ok (pos 3 ∷ pos 4 ∷ [])
get-add_all_example =
    get-add_all last_point pair_weights (omega arith, (omega arith, tt)) (omega arith)
