-- ===== src/Base/Int.antt =====
-- `int` values: integers over the native numbers, and their conversion to `size_t`.
use Prim.Native.Nat.{ℕ, suc, ◌+◌, ◌-◌, ◌≤◌, ◌%◌, ◌^◌}
use mathlib.Core.Path.{◌≡◌}
use mathlib.Core.Bool.{Bool, true}
use native.Mathlib.Omega.{arith}
use libelliptics_proxy.Base.Tests.{ltb, leb, ◌==◌, if◌then◌else◌}

-- `negsuc n` is -(n + 1).
pub data ℤ : Type 0 where
  pos : ℕ → ℤ
  negsuc : ℕ → ℤ

abbrev pub pos_part : ℤ → ℕ
pos_part (pos n) = n
pos_part (negsuc n) = 0

abbrev pub neg_part : ℤ → ℕ
neg_part (pos n) = 0
neg_part (negsuc n) = suc n

abbrev pub sub_ℕ : ℕ → ℕ → ℤ
sub_ℕ a b = if leb b a then pos (a - b) else negsuc (b - a - 1)

infixl 65 ◌-ℤ◌
unfoldable pub ◌-ℤ◌ : ℤ → ℤ → ℤ
a -ℤ b = sub_ℕ (pos_part a + neg_part b) (neg_part a + pos_part b)

abbrev pub ltb_ℤ : ℤ → ℤ → Bool
ltb_ℤ a b = ltb (pos_part a + neg_part b) (pos_part b + neg_part a)

abbrev pub eqb_ℤ : ℤ → ℤ → Bool
eqb_ℤ a b = pos_part a + neg_part b == pos_part b + neg_part a

infix 50 ◌≤ℤ◌
abbrev pub ◌≤ℤ◌ : ℤ → ℤ → Type 0
a ≤ℤ b = pos_part a + neg_part b ≤ pos_part b + neg_part a

pub eqb_ℤ→eq : (a b : ℤ) → eqb_ℤ a b ≡ true → a ≡ b
eqb_ℤ→eq a b h = ground arith

pub eqb_ℤ_self : (a : ℤ) → eqb_ℤ a a ≡ true
eqb_ℤ_self a = ground arith

-- The modulus of `size_t` and `uint64_t`.
abbrev pub word : ℕ
word = 2 ^ 64

-- The conversion of an `int` to `size_t`.
unfoldable pub to_size : ℤ → ℕ
to_size (pos n) = n % word
to_size (negsuc n) = word - 1 - n % word

-- The 32-bit pattern of an integer, and the `int` that a pattern stands for.
abbrev pub int_pattern : ℤ → ℕ
int_pattern (pos n) = n % 2 ^ 32
int_pattern (negsuc n) = 2 ^ 32 - 1 - n % 2 ^ 32

abbrev pub int_of_pattern : ℕ → ℤ
int_of_pattern w = if ltb w (2 ^ 31) then pos w else negsuc (2 ^ 32 - 1 - w)

-- The difference of two `int`s, wrapped around to 32 bits.
unfoldable pub sub_int : ℤ → ℤ → ℤ
unfolding ◌-ℤ◌
sub_int a b = int_of_pattern (int_pattern (a -ℤ b))
