-- ===== src/Protocol/Http2/Frames/Header.antt =====
-- The 9-byte frame header: what is decoded from what was encoded.
use iocp_http_runtime.Prelude.{
  ℕ, ◌*◌, ◌/◌, ◌%◌, ◌^◌, ◌≤◌, ◌<◌, ◌≡◌, ◌≢◌, refl, ap, ap₂, ◌∙◌, List, ◌∷◌, ◌++◌, arith, length,
  get_elem?, some, ok, bit_or, bit_or-shifted, or_octets, or_octets-sum, bit_or-lt, zero-bit_or,
  octet,
}
use iocp_http_runtime.Buffer.Sequence.{BufferSequence, at}
use iocp_http_runtime.Buffer.Sequence.Read.{bytes, IsSequence, at-bytes}
use iocp_http_runtime.Protocol.Http2.Frames.{FrameHeader, decode_header, encode_header}

-- A header whose fields fit the wire format.
pub record FitsWire (h : FrameHeader) : Type 0 where
  pub length_fits : h.length < 2 ^ 24
  pub type_fits : h.type < 256
  pub flags_fit : h.flags < 256
  pub stream_id_fits : h.stream_id < 2 ^ 31

-- What `DecodeHeader` makes of nine octets.
decode_header_lem :
    {s : BufferSequence} (b0 b1 b2 t f b5 b6 b7 b8 : ℕ) (rest : List ℕ)
    → IsSequence s
    → bytes s ≡ b0 ∷ b1 ∷ b2 ∷ t ∷ f ∷ b5 ∷ b6 ∷ b7 ∷ b8 ∷ rest
    → decode_header s
      ≡ ok (
          some (record {
            length = or_octets 0 b0 b1 b2;
            type = t;
            flags = f;
            stream_id = bit_or (bit_or (or_octets 0 0 (b5 % 128) b6) (b7 * 2 ^ 8)) b8 % 2 ^ 31;
          }))
unfolding decode_header
decode_header_lem {s} b0 b1 b2 t f b5 b6 b7 b8 rest v e = ground (
  arith,
  v.sized,
  ap length e,
  got 0 {b = b0} refl,
  got 1 {b = b1} refl,
  got 2 {b = b2} refl,
  got 3 {b = t} refl,
  got 4 {b = f} refl,
  got 5 {b = b5} refl,
  got 6 {b = b6} refl,
  got 7 {b = b7} refl,
  got 8 {b = b8} refl,
)
  where
    got :
        (i : ℕ) {b : ℕ}
        → get_elem? (b0 ∷ b1 ∷ b2 ∷ t ∷ f ∷ b5 ∷ b6 ∷ b7 ∷ b8 ∷ rest) i ≡ some b
        → at s i ≡ ok b
    got i g = at-bytes i v ∙ ground (arith, ap (λ ys. get_elem? ys i) e, g)

-- The stream id of a decoded header is made of 16 bits: the two high octets are not shifted.
stream_id-low :
    (b5 b6 b7 b8 : ℕ)
    → b6 < 256
    → b7 < 256
    → b8 < 256
    → bit_or (bit_or (or_octets 0 0 (b5 % 128) b6) (b7 * 2 ^ 8)) b8 % 2 ^ 31 < 2 ^ 16
stream_id-low b5 b6 b7 b8 h6 h7 h8 =
    omega (arith, bit_or-lt 16 _ b8 (bit_or-lt 16 _ (b7 * 2 ^ 8) first (omega arith)) (omega arith))
  where
    first : or_octets 0 0 (b5 % 128) b6 < 2 ^ 16
    first = omega (arith, or_octets-sum 0 0 (b5 % 128) b6 (omega arith) (omega arith) h6)

stream_id-small :
    (n : ℕ)
    → n < 2 ^ 16
    → bit_or
          (bit_or (or_octets 0 0 (n / 2 ^ 24 % 128 % 128) (octet n 16)) (octet n 8 * 2 ^ 8))
          (n % 256)
        % 2 ^ 31
      ≡ n
stream_id-small n h =
    ap (λ x. bit_or (bit_or x (octet n 8 * 2 ^ 8)) (n % 256) % 2 ^ 31) none_high
    ∙ ap (λ x. bit_or x (n % 256) % 2 ^ 31) (zero-bit_or (octet n 8 * 2 ^ 8))
    ∙ omega (arith, bit_or-shifted 8 (octet n 8) (n % 256) (omega arith))
  where
    none_high : or_octets 0 0 (n / 2 ^ 24 % 128 % 128) (octet n 16) ≡ 0
    none_high = omega (
      arith,
      or_octets-sum 0 0 (n / 2 ^ 24 % 128 % 128) (octet n 16) (omega arith) (omega arith)
          (omega arith),
    )

-- An encoded header decodes to itself if its stream id is below 2 ^ 16: the length, the type, the
-- flags and the stream id come back, whatever follows on the wire.
pub decode-encode_header :
    {s : BufferSequence} (h : FrameHeader) (rest : List ℕ)
    → FitsWire h
    → h.stream_id < 2 ^ 16
    → IsSequence s
    → bytes s ≡ encode_header h ++ rest
    → decode_header s ≡ ok (some h)
unfolding encode_header
decode-encode_header {s} h rest w small v e =
    decode_header_lem _ _ _ _ _ _ _ _ _ rest v e
    ∙ ap₂ (λ n i. ok (some (record h { length = n; stream_id = i }))) size
        (stream_id-small h.stream_id small)
  where
    size : or_octets 0 (octet h.length 16) (octet h.length 8) (h.length % 256) ≡ h.length
    size = omega (
      arith,
      or_octets-sum 0 (octet h.length 16) (octet h.length 8) (h.length % 256) (omega arith)
          (omega arith) (omega arith),
      w.length_fits,
    )

-- Every other header is lost: with a stream id of 2 ^ 16 or more, an encoded header never decodes
-- to itself, though the wire format has room for 31 bits.
pub decode-encode_header_lossy :
    {s : BufferSequence} (h : FrameHeader) (rest : List ℕ)
    → FitsWire h
    → 2 ^ 16 ≤ h.stream_id
    → IsSequence s
    → bytes s ≡ encode_header h ++ rest
    → decode_header s ≢ ok (some h)
unfolding encode_header
decode-encode_header_lossy {s} h rest w large v e same = ground (arith, low, id_same)
  where
    n : ℕ
    n = h.stream_id

    low :
        bit_or
            (bit_or (or_octets 0 0 (n / 2 ^ 24 % 128 % 128) (octet n 16)) (octet n 8 * 2 ^ 8))
            (n % 256)
          % 2 ^ 31
        < 2 ^ 16
    low =
        stream_id-low (n / 2 ^ 24 % 128) (octet n 16) (octet n 8) (n % 256) (omega arith)
          (omega arith) (omega arith)

    id_same :
        bit_or
            (bit_or (or_octets 0 0 (n / 2 ^ 24 % 128 % 128) (octet n 16)) (octet n 8 * 2 ^ 8))
            (n % 256)
          % 2 ^ 31
        ≡ n
    id_same = cc (decode_header_lem _ _ _ _ _ _ _ _ _ rest v e, same)
