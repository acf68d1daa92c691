-- ===== src/Protocol/Sample/Codec/RoundTrip.antt =====
-- Decoding what was encoded, and encoding what was decoded.
use iocp_http_runtime.Prelude.{
  ℕ, zero, suc, ◌+◌, ◌-◌, ◌*◌, ◌%◌, ◌^◌, ◌≤◌, ◌<◌, ◌≡◌, refl, ap, ◌∙◌, List, [], ◌∷◌, ◌++◌, arith,
  length, take, ok, Octets, length-append, length-take, take-append_left,
}
use iocp_http_runtime.Buffer.Sequence.{BufferSequence}
use iocp_http_runtime.Buffer.Sequence.Read.{bytes, IsSequence}
use iocp_http_runtime.Protocol.Sample.Codec.{
  FrameDecodeResult, complete, no_error, is_incomplete, write_big_endian32, write_big_endian16,
  decode, encode,
}
use iocp_http_runtime.Protocol.Sample.Codec.Decode.{frame_of, decode_refines}

-- The frame of a message, whatever the limit.
abbrev pub frame : ℕ → List ℕ → List ℕ
frame id payload =
    write_big_endian32 ((2 + length payload) % 2 ^ 32) ++ (write_big_endian16 id ++ payload)

abbrev pub decoded : ℕ → List ℕ → FrameDecodeResult
decoded id payload = record {
  status = complete;
  error = no_error;
  consumed_bytes = 6 + length payload;
  message = record { id = id; payload = payload };
}

frame_of-frame :
    (maximum id : ℕ) (payload rest : List ℕ)
    → maximum ≤ 2 ^ 32 - 7
    → length payload ≤ maximum
    → id < 2 ^ 16
    → frame_of maximum (frame id payload ++ rest) ≡ decoded id payload
unfolding frame_of
frame_of-frame maximum id payload rest small h hid =
    ground (arith, length-append payload rest, take-append_left payload rest (length payload) refl)

-- A message within the limit is encoded, and the decoder finds it again at the front of any
-- sequence that begins with its frame, and asks to consume exactly the frame.
pub decode-encode :
    (maximum id : ℕ) (payload rest : List ℕ) {s : BufferSequence}
    → maximum ≤ 2 ^ 32 - 7
    → length payload ≤ maximum
    → id < 2 ^ 16
    → IsSequence s
    → Octets (bytes s)
    → bytes s ≡ frame id payload ++ rest
    → (encode maximum id payload ≡ ok (frame id payload))
      × (decode maximum s ≡ ok (decoded id payload))
unfolding encode
decode-encode maximum id payload rest {s} small h hid v o e = (
  ground arith,
  decode_refines maximum v o
      ∙ ap ok (ap (frame_of maximum) e ∙ frame_of-frame maximum id payload rest small h hid),
)

frame_of-prefix :
    (maximum id : ℕ) (payload : List ℕ) (k : ℕ)
    → maximum ≤ 2 ^ 32 - 7
    → length payload ≤ maximum
    → k < 6 + length payload
    → frame_of maximum (take k (frame id payload)) ≡ is_incomplete
unfolding frame_of
frame_of-prefix maximum id payload zero small h past = refl
frame_of-prefix maximum id payload (suc zero) small h past = refl
frame_of-prefix maximum id payload (suc (suc zero)) small h past = refl
frame_of-prefix maximum id payload (suc (suc (suc zero))) small h past = refl
frame_of-prefix maximum id payload (suc (suc (suc (suc zero)))) small h past = ground arith
frame_of-prefix maximum id payload (suc (suc (suc (suc (suc zero))))) small h past = ground arith
frame_of-prefix maximum id payload (suc (suc (suc (suc (suc (suc k)))))) small h past =
    ground (arith, length-take k payload)

-- A frame that has not arrived whole is incomplete, wherever it is cut.
pub decode-prefix :
    (maximum id : ℕ) (payload : List ℕ) (k : ℕ) {s : BufferSequence}
    → maximum ≤ 2 ^ 32 - 7
    → length payload ≤ maximum
    → k < length (frame id payload)
    → IsSequence s
    → Octets (bytes s)
    → bytes s ≡ take k (frame id payload)
    → decode maximum s ≡ ok is_incomplete
decode-prefix maximum id payload k {s} small h cut v o e =
    decode_refines maximum v o
    ∙ ap ok (ap (frame_of maximum) e ∙ frame_of-prefix maximum id payload k small h (omega arith))

-- Encoding what stands behind a complete header gives the received bytes back.
encode-again :
    (maximum a b c d i j n : ℕ) (payload : List ℕ)
    → Octets (a ∷ b ∷ c ∷ d ∷ i ∷ j ∷ [])
    → n ≡ a * 2 ^ 24 + b * 2 ^ 16 + c * 2 ^ 8 + d
    → 2 ≤ n
    → n - 2 ≤ maximum
    → n ≤ 2 + length payload
    → encode maximum (i * 256 + j) (take (n - 2) payload)
      ≡ ok (take (4 + n) (a ∷ b ∷ c ∷ d ∷ i ∷ j ∷ payload))
unfolding encode
encode-again maximum a b c d i j n payload o e low fits here =
    ground (arith, length-take (n - 2) payload, sizes, heads, parts)
  where
    size : (2 + length (take (n - 2) payload)) % 2 ^ 32 ≡ n
    size = omega (arith, length-take (n - 2) payload)

    sizes : write_big_endian32 ((2 + length (take (n - 2) payload)) % 2 ^ 32) ≡ a ∷ b ∷ c ∷ d ∷ []
    sizes = ap write_big_endian32 size ∙ ground arith

    heads : write_big_endian16 (i * 256 + j) ≡ i ∷ j ∷ []
    heads = ground arith

    parts :
        take (4 + n) (a ∷ b ∷ c ∷ d ∷ i ∷ j ∷ payload)
        ≡ a ∷ b ∷ c ∷ d ∷ i ∷ j ∷ take (n - 2) payload
    parts =
        ap (λ k. take k (a ∷ b ∷ c ∷ d ∷ i ∷ j ∷ payload)) {x = 4 + n}
          {y = suc (suc (suc (suc (suc (suc (n - 2))))))} (omega arith)

frame_of_sound :
    (maximum : ℕ) (xs : List ℕ) {r : FrameDecodeResult}
    → Octets xs
    → frame_of maximum xs ≡ r
    → r.status ≡ complete
    → (r.consumed_bytes ≤ length xs)
      × (encode maximum r.message.id r.message.payload ≡ ok (take r.consumed_bytes xs))
unfolding frame_of
frame_of_sound maximum [] o e h = ground arith
frame_of_sound maximum (a ∷ []) o e h = ground arith
frame_of_sound maximum (a ∷ b ∷ []) o e h = ground arith
frame_of_sound maximum (a ∷ b ∷ c ∷ []) o e h = ground arith
frame_of_sound maximum (a ∷ b ∷ c ∷ d ∷ []) o e h = ground arith
frame_of_sound maximum (a ∷ b ∷ c ∷ d ∷ i ∷ []) o e h = ground arith
frame_of_sound maximum (a ∷ b ∷ c ∷ d ∷ i ∷ j ∷ payload) o e h =
    let n = a * 2 ^ 24 + b * 2 ^ 16 + c * 2 ^ 8 + d in
    ground (arith, encode-again maximum a b c d i j n payload (omega arith) refl)

-- What the decoder accepts is a frame: it does not ask to consume more than has arrived, and the
-- encoder turns the message back into exactly the consumed bytes.
pub encode-decode :
    (maximum : ℕ) {s : BufferSequence} {r : FrameDecodeResult}
    → IsSequence s
    → Octets (bytes s)
    → decode maximum s ≡ ok r
    → r.status ≡ complete
    → (r.consumed_bytes ≤ length (bytes s))
      × (encode maximum r.message.id r.message.payload ≡ ok (take r.consumed_bytes (bytes s)))
encode-decode maximum {s} {r} v o e h =
    frame_of_sound maximum (bytes s) {r = r} o (cc (decode_refines maximum v o, e)) h
