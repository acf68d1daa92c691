-- ===== src/Prelude/Bits.antt =====
-- `|` of fields that do not overlap is their sum, at every shift: the native operation is given by
-- its binary digits.
use Prim.Native.Nat.{
  ℕ, zero, suc, ◌+◌, ◌*◌, ◌/◌, ◌%◌, ◌^◌, ◌≤◌, ◌<◌, max, bit_or, digits, bit_or-bitwise,
}
use mathlib.Core.Path.{◌≡◌, refl, sym, ap, ◌∙◌}
use native.Mathlib.Nat.{pow-suc}
use native.Mathlib.Omega.{arith}

abbrev or_digits : ℕ → ℕ → ℕ → ℕ
or_digits = digits (λ rest. rest) max

-- Any fuel from the first number on gives the same digits.
or_digits-enough : (k l x y : ℕ) → x ≤ k → x ≤ l → or_digits k x y ≡ or_digits l x y
or_digits-enough zero zero x y p q = refl
or_digits-enough zero (suc l) zero y p q = refl
or_digits-enough zero (suc l) (suc x) y p q = absurd (omega arith)
or_digits-enough (suc k) zero zero y p q = refl
or_digits-enough (suc k) zero (suc x) y p q = absurd (omega arith)
or_digits-enough (suc k) (suc l) zero y p q = refl
or_digits-enough (suc k) (suc l) (suc x) y p q =
    ap (λ high. high * 2 + max (suc x % 2) (y % 2))
      (or_digits-enough k l (suc x / 2) (y / 2) (omega arith) (omega arith))

-- The halves and the lowest digit.
bit_or-halves : (x y : ℕ) → bit_or x y ≡ bit_or (x / 2) (y / 2) * 2 + max (x % 2) (y % 2)
bit_or-halves zero y = omega (arith, bit_or-bitwise 0 y, bit_or-bitwise 0 (y / 2))
bit_or-halves (suc x) y =
    bit_or-bitwise (suc x) y
    ∙ ap (λ high. high * 2 + max (suc x % 2) (y % 2))
        (or_digits-enough x (suc x / 2) (suc x / 2) (y / 2) (omega arith) (omega arith)
          ∙ sym (bit_or-bitwise (suc x / 2) (y / 2)))

bit_or-zero_below : (k x : ℕ) → x ≤ k → bit_or x 0 ≡ x
bit_or-zero_below k zero h = refl
bit_or-zero_below zero (suc x) h = absurd (omega arith)
bit_or-zero_below (suc k) (suc x) h =
    omega (arith, bit_or-halves (suc x) 0, bit_or-zero_below k (suc x / 2) (omega arith))

-- A field shifted over another one that fits below it.
pub bit_or-shifted : (k high low : ℕ) → low < 2 ^ k → bit_or (high * 2 ^ k) low ≡ high * 2 ^ k + low
bit_or-shifted zero high low h =
    ap (λ n. bit_or (high * 1) n) {x = low} {y = 0} (omega arith)
    ∙ bit_or-zero_below (high * 1) (high * 1) (omega arith)
    ∙ omega arith
bit_or-shifted (suc k) high low h =
    let double : high * 2 ^ suc k ≡ (high * 2 ^ k) * 2 =
      omega (arith, ap (λ n. high * n) (pow-suc 2 k)) in
    let below : low / 2 < 2 ^ k = omega (arith, pow-suc 2 k) in
    let half : high * 2 ^ suc k / 2 ≡ high * 2 ^ k = omega (arith, double) in
    bit_or-halves (high * 2 ^ suc k) low
    ∙ ap (λ n. bit_or n (low / 2) * 2 + max (high * 2 ^ suc k % 2) (low % 2)) half
    ∙ omega (arith, bit_or-shifted k high (low / 2) below, double)

pub bit_or-lt : (k x y : ℕ) → x < 2 ^ k → y < 2 ^ k → bit_or x y < 2 ^ k
bit_or-lt zero x y hx hy =
    let zeros : bit_or x y ≡ bit_or 0 0 =
      ap (λ n. bit_or n y) {x = x} {y = 0} (omega arith)
      ∙ ap (bit_or 0) {x = y} {y = 0} (omega arith) in
    omega (arith, zeros)
bit_or-lt (suc k) x y hx hy =
    let halves : bit_or (x / 2) (y / 2) < 2 ^ k =
      bit_or-lt k (x / 2) (y / 2) (omega (arith, pow-suc 2 k)) (omega (arith, pow-suc 2 k)) in
    omega (arith, bit_or-halves x y, pow-suc 2 k, halves)

bit_or_comm_below : (k x y : ℕ) → x ≤ k → bit_or x y ≡ bit_or y x
bit_or_comm_below k zero y h = bit_or-bitwise 0 y ∙ sym (bit_or-zero_below y y (omega arith))
bit_or_comm_below zero (suc x) y h = absurd (omega arith)
bit_or_comm_below (suc k) (suc x) y h = omega (
  arith,
  bit_or-halves (suc x) y,
  bit_or-halves y (suc x),
  bit_or_comm_below k (suc x / 2) (y / 2) (omega arith),
)

pub bit_or_comm : (x y : ℕ) → bit_or x y ≡ bit_or y x
bit_or_comm x y = bit_or_comm_below x x y (omega arith)

pub zero-bit_or : (x : ℕ) → bit_or 0 x ≡ x
zero-bit_or x = bit_or-bitwise 0 x

-- Four octets, the first one highest, as `|` joins them.
abbrev pub or_octets : ℕ → ℕ → ℕ → ℕ → ℕ
or_octets a b c d = bit_or (bit_or (bit_or (a * 2 ^ 24) (b * 2 ^ 16)) (c * 2 ^ 8)) d

pub or_octets-sum :
    (a b c d : ℕ)
    → b < 256
    → c < 256
    → d < 256
    → or_octets a b c d ≡ a * 2 ^ 24 + b * 2 ^ 16 + c * 2 ^ 8 + d
or_octets-sum a b c d hb hc hd =
    ap (λ n. bit_or (bit_or n (c * 2 ^ 8)) d)
      (bit_or-shifted 24 a (b * 2 ^ 16) (omega arith) ∙ regroup₁)
    ∙ ap (λ n. bit_or n d) (bit_or-shifted 16 (a * 256 + b) (c * 2 ^ 8) (omega arith) ∙ regroup₂)
    ∙ bit_or-shifted 8 ((a * 256 + b) * 256 + c) d (omega arith)
    ∙ omega arith
  where
    regroup₁ : a * 2 ^ 24 + b * 2 ^ 16 ≡ (a * 256 + b) * 2 ^ 16
    regroup₁ = omega arith

    regroup₂ : (a * 256 + b) * 2 ^ 16 + c * 2 ^ 8 ≡ ((a * 256 + b) * 256 + c) * 2 ^ 8
    regroup₂ = omega arith
