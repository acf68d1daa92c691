-- ===== src/Protocol/Http2/Hpack/RoundTrip.antt =====
-- Reading back the integers that were written.
use native.Mathlib.Nat.{mul-add-mod_self_right, mod-eq_of_lt, pow-le-pow_right}
use iocp_http_runtime.Prelude.{
  ℕ, ◌+◌, ◌-◌, ◌*◌, ◌/◌, ◌%◌, ◌^◌, ◌≤◌, ◌<◌, ◌≡◌, ◌∙◌, List, ◌++◌, arith, ltb, Bool-cases, inl, inr,
  ltb→lt, ltb-false→le, ok, bit_or, bit_or-shifted, bit_or_comm,
}
use iocp_http_runtime.Protocol.Http2.Hpack.Integers.{
  read_continuation, read_decoded_integer, encode_continuation, encode_integer,
}

continued : (x : ℕ) → x < 128 → bit_or x 128 ≡ 128 + x
continued x h = bit_or_comm x 128 ∙ omega (arith, bit_or-shifted 7 1 x (omega arith))

read_28 :
    (n value : ℕ) (rest : List ℕ)
    → value + n * 2 ^ 28 < 2 ^ 32
    → read_continuation (encode_continuation 1 n ++ rest) value 28 ≡ ok (value + n * 2 ^ 28, rest)
unfolding read_continuation encode_continuation
read_28 n value rest h = ground arith

read_21 :
    (n value : ℕ) (rest : List ℕ)
    → value + n * 2 ^ 21 < 2 ^ 32
    → read_continuation (encode_continuation 2 n ++ rest) value 21 ≡ ok (value + n * 2 ^ 21, rest)
unfolding read_continuation encode_continuation
read_21 n value rest h = elim (Bool-cases (ltb n 128)) [
  | inl e ↦ ground arith
  | inr e ↦ ground (
    arith,
    continued (n % 128) (omega arith),
    read_28 (n / 2 ^ 7) ((value + n % 128 * 2 ^ 21) % 2 ^ 32) rest (omega arith),
  )
]

read_14 :
    (n value : ℕ) (rest : List ℕ)
    → value + n * 2 ^ 14 < 2 ^ 32
    → read_continuation (encode_continuation 3 n ++ rest) value 14 ≡ ok (value + n * 2 ^ 14, rest)
unfolding read_continuation encode_continuation
read_14 n value rest h = elim (Bool-cases (ltb n 128)) [
  | inl e ↦ ground arith
  | inr e ↦ ground (
    arith,
    continued (n % 128) (omega arith),
    read_21 (n / 2 ^ 7) ((value + n % 128 * 2 ^ 14) % 2 ^ 32) rest (omega arith),
  )
]

read_7 :
    (n value : ℕ) (rest : List ℕ)
    → value + n * 2 ^ 7 < 2 ^ 32
    → read_continuation (encode_continuation 4 n ++ rest) value 7 ≡ ok (value + n * 2 ^ 7, rest)
unfolding read_continuation encode_continuation
read_7 n value rest h = elim (Bool-cases (ltb n 128)) [
  | inl e ↦ ground arith
  | inr e ↦ ground (
    arith,
    continued (n % 128) (omega arith),
    read_14 (n / 2 ^ 7) ((value + n % 128 * 2 ^ 7) % 2 ^ 32) rest (omega arith),
  )
]

read_0 :
    (n value : ℕ) (rest : List ℕ)
    → value + n * 2 ^ 0 < 2 ^ 32
    → read_continuation (encode_continuation 5 n ++ rest) value 0 ≡ ok (value + n * 2 ^ 0, rest)
unfolding read_continuation encode_continuation
read_0 n value rest h = elim (Bool-cases (ltb n 128)) [
  | inl e ↦ ground arith
  | inr e ↦ ground (
    arith,
    continued (n % 128) (omega arith),
    read_7 (n / 2 ^ 7) ((value + n % 128 * 2 ^ 0) % 2 ^ 32) rest (omega arith),
  )
]

-- The bits below a prefix.
low_bits : (p h v : ℕ) → v < 2 ^ p → (h * 2 ^ p + v) % 2 ^ p ≡ v
low_bits p h v small = mul-add-mod_self_right h (2 ^ p) v ∙ mod-eq_of_lt small

-- An integer of 32 bits that was written into the low bits of an octet, of the width of the prefix,
-- is read back as it was, and what follows is left to read.
pub read-encode_integer :
    (p h value : ℕ) (rest : List ℕ)
    → value < 2 ^ 32
    → p ≤ 8
    → read_decoded_integer (encode_integer (h * 2 ^ p) value p ++ rest) p ≡ ok (value, rest)
unfolding read_decoded_integer encode_integer
read-encode_integer p h value rest small width = elim (Bool-cases (ltb value (2 ^ p - 1))) [
  | inl e ↦ ground (
    arith,
    bit_or-shifted p h value (omega (arith, ltb→lt _ _ e)),
    low_bits p h value (omega (arith, ltb→lt _ _ e)),
  )
  | inr e ↦ ground (
    arith,
    bit_or-shifted p h (2 ^ p - 1) (omega (arith, positive)),
    low_bits p h (2 ^ p - 1) (omega (arith, positive)),
    read_0 (value - (2 ^ p - 1)) (2 ^ p - 1) rest,
    ltb-false→le _ _ e,
    positive,
  )
]
  where
    positive : 0 < 2 ^ p
    positive = pow-le-pow_right {n = 2} (omega arith) {i = 0} {j = p} (omega arith)
