-- ===== src/Protocol/Sample/Codec/Decode.antt =====
-- The decoder against a description over the plain list of received bytes.
use iocp_http_runtime.Prelude.{
  ℕ, ◌+◌, ◌-◌, ◌*◌, ◌^◌, ◌≤◌, ◌<◌, ◌≡◌, refl, ap, ◌∙◌, List, [], ◌∷◌, arith, if◌then◌else◌, ltb,
  length, take, drop, get_elem?, some, ok, Octets, or_octets-sum, bit_or-shifted,
}
use iocp_http_runtime.Buffer.Sequence.{BufferSequence, at, copy_to}
use iocp_http_runtime.Buffer.Sequence.Read.{bytes, IsSequence, at-bytes, copy_to-bytes}
use iocp_http_runtime.Protocol.Sample.Codec.{
  SampleMessage, FrameDecodeResult, complete, no_error, body_too_small, payload_too_large,
  is_incomplete, is_error, read_big_endian32, decode_message, decode_body, decode,
}

-- The message in a body of `n` bytes.
unfoldable pub message_of : ℕ → List ℕ → SampleMessage
message_of n (i ∷ j ∷ payload) = record { id = i * 256 + j; payload = take (n - 2) payload }
message_of n _ = record { id = 0; payload = [] }

-- What the first bytes of a stream hold: nothing yet, an error, or one message and its length.
unfoldable pub frame_of : ℕ → List ℕ → FrameDecodeResult
unfolding message_of
frame_of maximum (a ∷ b ∷ c ∷ d ∷ body) =
    let n = a * 2 ^ 24 + b * 2 ^ 16 + c * 2 ^ 8 + d in
    if ltb n 2
    then is_error body_too_small
    else if ltb maximum (n - 2)
    then is_error payload_too_large
    else if ltb (length body) n
    then is_incomplete
    else record {
      status = complete;
      error = no_error;
      consumed_bytes = 4 + n;
      message = message_of n body;
    }
frame_of maximum _ = is_incomplete

module _ {s : BufferSequence} (v : IsSequence s) {xs : List ℕ} (holds : bytes s ≡ xs) where
  at-holds : (i : ℕ) {b : ℕ} → get_elem? xs i ≡ some b → at s i ≡ ok b
  at-holds i e = at-bytes i v ∙ ground (arith, ap (λ ys. get_elem? ys i) holds, e)

  size-holds : s.size ≡ length xs
  size-holds = v.sized ∙ ap length holds

  copy-holds :
      (offset n : ℕ) → offset + n ≤ length xs → copy_to s offset n ≡ ok (take n (drop offset xs))
  copy-holds offset n h = copy_to-bytes offset n v ∙ ground (arith, holds, ap length holds)

decode_message_lem :
    {s : BufferSequence} (a b c d i j : ℕ) (payload : List ℕ) (n total : ℕ)
    → IsSequence s
    → bytes s ≡ a ∷ b ∷ c ∷ d ∷ i ∷ j ∷ payload
    → i < 256
    → j < 256
    → n ≤ length payload
    → decode_message s n total
      ≡ ok (record {
        status = complete;
        error = no_error;
        consumed_bytes = total;
        message = record { id = i * 256 + j; payload = take n payload };
      })
unfolding decode_message
decode_message_lem {s} a b c d i j payload n total v e hi hj h = ground (
  arith,
  at-holds v e 4 {b = i} refl,
  at-holds v e 5 {b = j} refl,
  copy-holds v e 6 n (omega arith),
  bit_or-shifted 8 i j hj,
)

read_big_endian32_lem :
    {s : BufferSequence} (a b c d : ℕ) (body : List ℕ)
    → IsSequence s
    → bytes s ≡ a ∷ b ∷ c ∷ d ∷ body
    → b < 256
    → c < 256
    → d < 256
    → read_big_endian32 s 0 ≡ ok (a * 2 ^ 24 + b * 2 ^ 16 + c * 2 ^ 8 + d)
unfolding read_big_endian32
read_big_endian32_lem {s} a b c d body v e hb hc hd = ground (
  arith,
  at-holds v e 0 {b = a} refl,
  at-holds v e 1 {b = b} refl,
  at-holds v e 2 {b = c} refl,
  at-holds v e 3 {b = d} refl,
  or_octets-sum a b c d hb hc hd,
)

decode_of :
    (maximum : ℕ) {s : BufferSequence} (xs : List ℕ)
    → IsSequence s
    → bytes s ≡ xs
    → Octets xs
    → decode maximum s ≡ ok (frame_of maximum xs)
unfolding decode decode_body frame_of
decode_of maximum {s} [] v e o = ground (arith, size-holds v e)
decode_of maximum {s} (a ∷ []) v e o = ground (arith, size-holds v e)
decode_of maximum {s} (a ∷ b ∷ []) v e o = ground (arith, size-holds v e)
decode_of maximum {s} (a ∷ b ∷ c ∷ []) v e o = ground (arith, size-holds v e)
decode_of maximum {s} (a ∷ b ∷ c ∷ d ∷ []) v e o =
    ground (arith, size-holds v e, read_big_endian32_lem a b c d [] v e o.1.0 o.1.1.0 o.1.1.1.0)
decode_of maximum {s} (a ∷ b ∷ c ∷ d ∷ i ∷ []) v e o =
    ground
      (arith, size-holds v e, read_big_endian32_lem a b c d (i ∷ []) v e o.1.0 o.1.1.0 o.1.1.1.0)
decode_of maximum {s} (a ∷ b ∷ c ∷ d ∷ i ∷ j ∷ payload) v e o =
    let n = a * 2 ^ 24 + b * 2 ^ 16 + c * 2 ^ 8 + d in
    ground (
      arith,
      size-holds v e,
      read_big_endian32_lem a b c d (i ∷ j ∷ payload) v e o.1.0 o.1.1.0 o.1.1.1.0,
      decode_message_lem a b c d i j payload (n - 2) (4 + n) v e o.1.1.1.1.0 o.1.1.1.1.1.0,
    )

-- On any valid sequence of octets, split in two spans or not, Decode throws nothing and finds what
-- the plain list of the bytes holds.
pub decode_refines :
    (maximum : ℕ) {s : BufferSequence}
    → IsSequence s
    → Octets (bytes s)
    → decode maximum s ≡ ok (frame_of maximum (bytes s))
decode_refines maximum {s} v o = decode_of maximum (bytes s) v refl o
