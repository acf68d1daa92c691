-- ===== src/Prelude/Int.antt =====
-- `std::int64_t` where no operation leaves its range: the integers, over the native numbers.
use Prim.Native.Nat.{ℕ, suc, ◌+◌, ◌-◌, ◌≤◌, ◌<◌}
use mathlib.Core.Path.{◌≡◌, refl}
use native.Mathlib.Omega.{arith}
use iocp_http_runtime.Prelude.Tests.{leb, if◌then◌else◌}

-- `negsuc n` is -(n + 1).
pub data ℤ : Type 0 where
  pos : ℕ → ℤ
  negsuc : ℕ → ℤ

abbrev pub pos_part : ℤ → ℕ
pos_part (pos n) = n
pos_part (negsuc n) = 0

abbrev pub neg_part : ℤ → ℕ
neg_part (pos n) = 0
neg_part (negsuc n) = suc n

-- a - b, as an integer.
abbrev pub sub_ℕ : ℕ → ℕ → ℤ
sub_ℕ a b = if leb b a then pos (a - b) else negsuc (b - a - 1)

infixl 65 ◌+ℤ◌ ◌-ℤ◌
infix 50 ◌≤ℤ◌
unfoldable pub ◌+ℤ◌ : ℤ → ℤ → ℤ
a +ℤ b = sub_ℕ (pos_part a + pos_part b) (neg_part a + neg_part b)

unfoldable pub ◌-ℤ◌ : ℤ → ℤ → ℤ
a -ℤ b = sub_ℕ (pos_part a + neg_part b) (neg_part a + pos_part b)

abbrev pub ◌≤ℤ◌ : ℤ → ℤ → Type 0
a ≤ℤ b = pos_part a + neg_part b ≤ pos_part b + neg_part a

pub +ℤ_parts :
    (a b : ℤ)
    → pos_part (a +ℤ b) + neg_part a + neg_part b ≡ neg_part (a +ℤ b) + pos_part a + pos_part b
unfolding ◌+ℤ◌
+ℤ_parts a b = ground arith

pub -ℤ_parts :
    (a b : ℤ)
    → pos_part (a -ℤ b) + neg_part a + pos_part b ≡ neg_part (a -ℤ b) + pos_part a + neg_part b
unfolding ◌-ℤ◌
-ℤ_parts a b = ground arith

-- One of the two parts of an integer is zero.
pub one_part : (a : ℤ) → 0 < pos_part a → neg_part a ≡ 0
one_part (pos n) h = refl
one_part (negsuc n) h = absurd (omega arith)

pub eq_of_parts : (a b : ℤ) → pos_part a + neg_part b ≡ pos_part b + neg_part a → a ≡ b
eq_of_parts a b h = ground arith

-- What is taken away, at most the positive part, comes off it.
pub -ℤ_within :
    (a : ℤ) (n : ℕ)
    → n ≤ pos_part a
    → (pos_part (a -ℤ pos n) ≡ pos_part a - n) × (neg_part (a -ℤ pos n) ≡ neg_part a)
unfolding ◌-ℤ◌
-ℤ_within (pos m) n h = ground arith
-ℤ_within (negsuc m) n h = ground arith

pub sub-sub : (a : ℤ) (m n : ℕ) → a -ℤ pos m -ℤ pos n ≡ a -ℤ pos (m + n)
sub-sub a m n =
    eq_of_parts _ _
      (omega (arith, -ℤ_parts (a -ℤ pos m) (pos n), -ℤ_parts a (pos m), -ℤ_parts a (pos (m + n))))

pub sub_zero : (a : ℤ) → a -ℤ pos 0 ≡ a
sub_zero a = eq_of_parts _ _ (omega (arith, -ℤ_parts a (pos 0)))
