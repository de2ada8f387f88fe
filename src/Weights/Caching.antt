-- ===== src/Weights/Caching.antt =====
-- `update`, `choose` and `initialized` of `group_weights_cache_impl` (src/group_weights_cache.cpp).
use libelliptics_proxy.Base.{
  ℕ, ◌<◌, ◌≡◌, ◌≢◌, refl, ap, true, false, not, ◌||◌, List, [], ◌∷◌, none, some, arith, ltb, ◌==◌,
  word, All, is_empty, Bool-cases, inl, inr, if◌then◌else◌,
}
use libelliptics_proxy.OrderedMap.{find, at_or, lower_bound}
use libelliptics_proxy.OrderedMap.Laws.{
  find-assign, is_empty-assign, is_empty-insert, find-insert_new,
}
use libelliptics_proxy.Result.{throw, runtime_error, nothing_found}
use libelliptics_proxy.Weights.{
  GroupWithWeight, SizedGroups, MetabaseGroupWeightsResponse, Cache, no_groups, add_all, get,
  collect, update, choose, initialized,
}
use libelliptics_proxy.Weights.Choice.{IsPositive, weight_sum, pick, get-add_all}

-- The groups that an answer offers for a number of copies: the last list of that size, or `gs`.
abbrev pub offered : ℕ → List GroupWithWeight → List SizedGroups → List GroupWithWeight
offered count gs [] = gs
offered count gs (s ∷ ss) = offered count (if s.size == count then s.weighted_groups else gs) ss

-- Positive weights whose sum fits 64 bits.
pub record IsBalanced (gs : List GroupWithWeight) : Type 0 where
  pub positive : All IsPositive gs
  pub fits : weight_sum gs < word

abbrev pub IsBalancedSize : SizedGroups → Type 0
IsBalancedSize s = IsBalanced s.weighted_groups

pub at_or-collect :
    (count : ℕ) (ss : List SizedGroups) (m : Cache) (gs : List GroupWithWeight)
    → at_or ltb no_groups count m ≡ add_all no_groups gs
    → at_or ltb no_groups count (collect m ss) ≡ add_all no_groups (offered count gs ss)
unfolding collect
at_or-collect count [] m gs h = h
at_or-collect count (s ∷ ss) m gs h =
    at_or-collect count ss _ _
      (ground (arith, h, find-assign count s.size (add_all no_groups s.weighted_groups) m))

is_empty-collect :
    (ss : List SizedGroups) (m : Cache) → is_empty m ≡ false → is_empty (collect m ss) ≡ false
unfolding collect
is_empty-collect [] m h = h
is_empty-collect (s ∷ ss) m h = is_empty-collect ss _ (is_empty-assign s.size _ m)

pub offered-IsBalanced :
    (count : ℕ) (ss : List SizedGroups) (gs : List GroupWithWeight)
    → IsBalanced gs
    → All IsBalancedSize ss
    → IsBalanced (offered count gs ss)
offered-IsBalanced count [] gs h a = h
offered-IsBalanced count (s ∷ ss) gs h a = elim (Bool-cases (s.size == count)) [
  | inl e ↦ rw e (offered-IsBalanced count ss s.weighted_groups a.0 a.1)
  | inr e ↦ rw e (offered-IsBalanced count ss gs h a.1)
]

pub is_empty-collect_nil : (ss : List SizedGroups) → is_empty (collect [] ss) ≡ is_empty ss
unfolding collect
is_empty-collect_nil [] = refl
is_empty-collect_nil (s ∷ ss) = is_empty-collect ss _ (is_empty-assign s.size _ [])

not_empty : (ss : List SizedGroups) → ss ≢ [] → is_empty (collect [] ss) ≡ false
not_empty [] h = absurd (h refl)
not_empty (s ∷ ss) h = is_empty-collect_nil (s ∷ ss)

pub at_or-nil : (count : ℕ) → at_or ltb no_groups count [] ≡ add_all no_groups []
unfolding add_all find
at_or-nil count = refl

-- After an update by an answer that is not empty, whose weights are positive with sums that fit 64
-- bits, `choose` takes the group in whose share of the weights the random point lies, among those
-- that the answer offers for that number of copies.
pub choose-update :
    (draw : ℕ → ℕ) (count : ℕ) (cache : Cache) (resp : MetabaseGroupWeightsResponse)
    → resp.info ≢ []
    → All IsBalancedSize resp.info
    → let gs = offered count [] resp.info in
      ((update cache resp).0 ≡ true)
      × ((choose draw count (update cache resp).1).0 ≡ pick (draw (weight_sum gs)) gs)
unfolding update choose
choose-update draw count cache resp h a =
    let gs = offered count [] resp.info in
    let b : IsBalanced gs =
      offered-IsBalanced count resp.info [] (record { positive = tt; fits = omega arith }) a in
    rw (not_empty resp.info h, update)
      (
        refl,
        rw (at_or-collect count resp.info [] [] (at_or-nil count))
            (get-add_all draw gs b.positive b.fits),
      )

-- `update` reports whether the answer offered anything; if it did not, the cache stays, and if it
-- did, the cache counts as initialized.
pub update_lem :
    (cache : Cache) (resp : MetabaseGroupWeightsResponse)
    → ((update cache resp).0 ≡ not (is_empty resp.info))
      × (initialized (update cache resp).1 ≡ (initialized cache || not (is_empty resp.info)))
      × (is_empty resp.info ≡ true → (update cache resp).1 ≡ cache)
unfolding update initialized
update_lem cache resp = ground (arith, is_empty-collect_nil resp.info)

-- A call of `choose` for a number of copies that the cache lacks throws, and yet leaves an entry
-- for it, though it holds the lock for readers only: the cache then counts as initialized.
pub choose_missing :
    (draw : ℕ → ℕ) (count : ℕ) (cache : Cache)
    → find ltb count cache ≡ none
    → ((choose draw count cache).0 ≡ throw (runtime_error nothing_found))
      × (find ltb count (choose draw count cache).1 ≡ some no_groups)
      × (initialized (choose draw count cache).1 ≡ true)
unfolding choose initialized get lower_bound
choose_missing draw count cache h = (
  ap (get draw) (at_or_none cache h),
  find-insert_new ltb count no_groups cache (ground arith) h,
  rw (is_empty-insert count no_groups cache),
)
  where
    at_or_none : (m : Cache) → find ltb count m ≡ none → at_or ltb no_groups count m ≡ no_groups
    at_or_none m e = ground arith
