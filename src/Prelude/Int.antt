-- ===== src/Prelude/Int.antt =====
-- Signed 64-bit values as integers over the native numbers.
use Prim.Native.Nat.{ℕ, zero, suc, ◌+◌, ◌-◌, ◌*◌, ◌/◌, ◌≤◌, ◌<◌}
use mathlib.Core.Path.{◌≡◌, refl}
use mathlib.Core.Bool.{Bool}
use native.Mathlib.Omega.{arith}
use analytics_hub.Prelude.Tests.{ltb, leb, if◌then◌else◌}

-- `negsuc n` is -(n + 1).
pub data ℤ : Type 0 where
  pos : ℕ → ℤ
  negsuc : ℕ → ℤ

abbrev pub pos_part : ℤ → ℕ
pos_part (pos n) = n
pos_part (negsuc n) = 0

abbrev pub neg_part : ℤ → ℕ
neg_part (pos n) = 0
neg_part (negsuc n) = suc n

infix 50 ◌≤ℤ◌ ◌<ℤ◌
abbrev pub ◌≤ℤ◌ : ℤ → ℤ → Type 0
a ≤ℤ b = pos_part a + neg_part b ≤ pos_part b + neg_part a

abbrev pub ◌<ℤ◌ : ℤ → ℤ → Type 0
a <ℤ b = pos_part a + neg_part b < pos_part b + neg_part a

abbrev pub ltb_ℤ : ℤ → ℤ → Bool
ltb_ℤ a b = ltb (pos_part a + neg_part b) (pos_part b + neg_part a)

abbrev pub leb_ℤ : ℤ → ℤ → Bool
leb_ℤ a b = leb (pos_part a + neg_part b) (pos_part b + neg_part a)

-- -n
abbrev pub neg : ℕ → ℤ
neg zero = pos 0
neg (suc n) = negsuc n

-- a - b, as an integer.
abbrev pub sub_ℕ : ℕ → ℕ → ℤ
sub_ℕ a b = if leb b a then pos (a - b) else neg (b - a)

-- a + n
abbrev pub add_ℕ : ℤ → ℕ → ℤ
add_ℕ (pos a) n = pos (a + n)
add_ℕ (negsuc a) n = sub_ℕ n (suc a)

-- The division of `i64`, towards 0, by a positive number, and the product with one.
abbrev pub div_ℕ : ℤ → ℕ → ℤ
div_ℕ (pos a) k = pos (a / k)
div_ℕ (negsuc a) k = neg (suc a / k)

abbrev pub mul_ℕ : ℤ → ℕ → ℤ
mul_ℕ (pos a) k = pos (a * k)
mul_ℕ (negsuc a) k = neg (suc a * k)

-- The difference of two integers, and the distance of one from 0.
unfoldable pub sub_ℤ : ℤ → ℤ → ℤ
sub_ℤ a b = sub_ℕ (pos_part a + neg_part b) (pos_part b + neg_part a)

unfoldable pub add_ℤ : ℤ → ℤ → ℤ
add_ℤ a b = sub_ℕ (pos_part a + pos_part b) (neg_part a + neg_part b)

abbrev pub abs_ℤ : ℤ → ℕ
abs_ℤ a = pos_part a + neg_part a

pub pos_part-neg : (n : ℕ) → pos_part (neg n) ≡ 0
pos_part-neg zero = refl
pos_part-neg (suc n) = refl

pub neg_part-neg : (n : ℕ) → neg_part (neg n) ≡ n
neg_part-neg zero = refl
neg_part-neg (suc n) = refl

pub pos_part-sub_ℕ : (a b : ℕ) → pos_part (sub_ℕ a b) ≡ a - b
pos_part-sub_ℕ a b = ground (arith, pos_part-neg (b - a))

pub neg_part-sub_ℕ : (a b : ℕ) → neg_part (sub_ℕ a b) ≡ b - a
neg_part-sub_ℕ a b = ground (arith, neg_part-neg (b - a))
