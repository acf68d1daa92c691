-- ===== src/Protocol/Http2/Hpack/Integers.antt =====
-- The prefix integers of HPACK: `ReadDecodedInteger` and `EncodeInteger` of
-- src/protocol/http2/http2_hpack.cpp. What is left to read stands for `data`, `offset` and `size`;
-- the shift of an octet wraps at 32 bits, as the compiler of the project has it.
use iocp_http_runtime.Prelude.{
  ℕ, zero, suc, ◌+◌, ◌-◌, ◌*◌, ◌/◌, ◌%◌, ◌^◌, List, [], ◌∷◌, if◌then◌else◌, ltb, true, false,
  Result, ok, throws, runtime_error, bit_or,
}

-- The loop over the continuation octets, `m` bits into the number.
unfoldable pub read_continuation : List ℕ → ℕ → ℕ → Result (ℕ × List ℕ)
read_continuation [] value m = throws runtime_error
read_continuation (byte ∷ rest) value m =
    let value' = (value + byte % 128 * 2 ^ m) % 2 ^ 32 in
    elim (ltb byte 128) [
      | true ↦ ok (value', rest)
      | false ↦ elim (ltb 28 (m + 7)) [
        | true ↦ throws runtime_error
        | false ↦ read_continuation rest value' (m + 7)
      ]
    ]

unfoldable pub read_decoded_integer : List ℕ → ℕ → Result (ℕ × List ℕ)
read_decoded_integer [] prefix_bits = throws runtime_error
read_decoded_integer (byte ∷ rest) prefix_bits =
    let value = byte % 2 ^ prefix_bits in
    if ltb value (2 ^ prefix_bits - 1) then ok (value, rest) else read_continuation rest value 0

-- The loop of `EncodeInteger`. Each round takes 7 of 32 bits: five rounds.
unfoldable pub encode_continuation : ℕ → ℕ → List ℕ
encode_continuation zero remaining = remaining % 128 ∷ []
encode_continuation (suc fuel) remaining =
    let rest = encode_continuation fuel (remaining / 2 ^ 7) in
    if ltb remaining 128 then remaining % 128 ∷ [] else bit_or (remaining % 128) 128 ∷ rest

-- What the last octet of the output, `first`, becomes, with the octets behind it.
unfoldable pub encode_integer : ℕ → ℕ → ℕ → List ℕ
encode_integer first value prefix_bits =
    let mask = 2 ^ prefix_bits - 1 in
    if ltb value mask
    then bit_or first value ∷ []
    else bit_or first mask ∷ encode_continuation 5 (value - mask)
