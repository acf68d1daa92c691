-- ===== src/Protocol/Http2/Hpack/Literal.antt =====
-- Strings and literal headers: what `EncodeString` and `Encode` write, the decoder reads.
use iocp_http_runtime.Prelude.{
  ℕ, ◌+◌, ◌-◌, ◌/◌, ◌%◌, ◌^◌, ◌≤◌, ◌<◌, ◌≡◌, refl, sym, ap, ◌∙◌, List, [], ◌∷◌, ◌++◌, arith, ltb,
  true, Bool-cases, Option-cases, inl, inr, some, length, take, drop, length-append,
  take-append_left, drop-append_left, append_assoc, ok, bit_or, bit_or-shifted,
}
use iocp_http_runtime.Protocol.Http2.Hpack.StaticTable.{TableEntry}
use iocp_http_runtime.Protocol.Http2.Hpack.Integers.{
  read_decoded_integer, encode_integer, encode_continuation,
}
use iocp_http_runtime.Protocol.Http2.Hpack.Table.{HpackCodec, lookup}
use iocp_http_runtime.Protocol.Http2.Hpack.Evict.{IsValid}
use iocp_http_runtime.Protocol.Http2.Hpack.RoundTrip.{read-encode_integer}
use iocp_http_runtime.Protocol.Http2.Hpack.Search.{find_index-lookup, same_string→eq}
use iocp_http_runtime.Protocol.Http2.Hpack.{
  Huffman, HttpHeader, same_name, find_index, encode_string, encode_name, decode_string,
  decode_literal,
}

-- What the codec can carry: a header whose texts the Huffman coder decodes from their codes, and
-- whose codes have a length of 32 bits.
pub record IsEncodable (huffman : Huffman) (header : HttpHeader) : Type 0 where
  pub name_lossless : huffman.decode (huffman.encode header.name) ≡ some header.name
  pub value_lossless : huffman.decode (huffman.encode header.value) ≡ some header.value
  pub name_code : length (huffman.encode header.name) < 2 ^ 32
  pub value_code : length (huffman.encode header.value) < 2 ^ 32

-- The octets that a flag opens: the first has its top bits from the flag.
pub opens_128 :
    (value : ℕ)
    → (byte : ℕ) × (more : List ℕ) × (encode_integer 0x80 value 7 ≡ byte ∷ more) × (128 ≤ byte)
unfolding encode_integer
opens_128 value = elim (Bool-cases (ltb value 127)) [
  | inl e ↦
      (bit_or 0x80 value, [], ground arith, omega (arith, bit_or-shifted 7 1 value (ground arith)))
  | inr e ↦ (
    bit_or 0x80 127,
    encode_continuation 5 (value - 127),
    ground arith,
    omega (arith, bit_or-shifted 7 1 127 (omega arith)),
  )
]

pub opens_64 :
    (value : ℕ)
    → (byte : ℕ) × (more : List ℕ) × (encode_integer 0x40 value 6 ≡ byte ∷ more)
      × (byte / 64 ≡ 1)
      × (byte < 128)
unfolding encode_integer
opens_64 value = elim (Bool-cases (ltb value 63)) [
  | inl e ↦
      let sum : bit_or 0x40 value ≡ 64 + value =
        omega (arith, bit_or-shifted 6 1 value (ground arith)) in
      let low : value < 63 = ground arith in
      (bit_or 0x40 value, [], ground arith, omega (arith, sum), omega (arith, sum))
  | inr e ↦
      let sum : bit_or 0x40 63 ≡ 127 = omega (arith, bit_or-shifted 6 1 63 (omega arith)) in
      (
        bit_or 0x40 63,
        encode_continuation 5 (value - 63),
        ground arith,
        omega (arith, sum),
        omega (arith, sum),
      )
]

decode_string_lem :
    (huffman : Huffman) (byte n : ℕ) (more left : List ℕ) {text : List ℕ}
    → 128 ≤ byte
    → read_decoded_integer (byte ∷ more) 7 ≡ ok (n, left)
    → n ≤ length left
    → huffman.decode (take n left) ≡ some text
    → decode_string huffman (byte ∷ more) ≡ ok (text, drop n left)
unfolding decode_string
decode_string_lem huffman byte n more left high read room got =
    ground (arith, high, read, room, got)

module _ (huffman : Huffman) where
  -- A string is read back, and what follows is left.
  pub decode-encode_string :
      (text rest : List ℕ)
      → huffman.decode (huffman.encode text) ≡ some text
      → length (huffman.encode text) < 2 ^ 32
      → decode_string huffman (encode_string huffman text true ++ rest) ≡ ok (text, rest)
  unfolding encode_string
  decode-encode_string text rest lossless small =
      let (byte, more, e, high) = opens_128 (length code % 2 ^ 32) in
      let opened : encode_string huffman text true ++ rest ≡ byte ∷ (more ++ (code ++ rest)) =
        append_assoc (encode_integer 0x80 (length code % 2 ^ 32) 7) code rest
        ∙ ap (λ xs. xs ++ (code ++ rest)) e in
      ap (decode_string huffman) opened
      ∙ decode_string_lem huffman byte (length code) (more ++ (code ++ rest)) (code ++ rest) high
          (ap (λ xs. read_decoded_integer xs 7) (ap (λ xs. xs ++ (code ++ rest)) (sym e)) ∙ read)
          (omega (arith, length-append code rest))
          (ap huffman.decode (take-append_left code rest (length code) refl) ∙ lossless)
      ∙ ap (λ xs. ok (text, xs)) (drop-append_left code rest (length code) refl)
    where
      code : List ℕ
      code = huffman.encode text

      read :
          read_decoded_integer (encode_integer 0x80 (length code % 2 ^ 32) 7 ++ (code ++ rest)) 7
          ≡ ok (length code, code ++ rest)
      read =
          ap (λ n. read_decoded_integer (encode_integer 0x80 n 7 ++ (code ++ rest)) 7)
            {x = length code % 2 ^ 32} {y = length code} (omega arith)
          ∙ read-encode_integer 7 1 (length code) (code ++ rest) small (omega arith)

  -- The name of a literal, by index or in full, then its value.
  pub decode_literal_lem :
      {codec : HpackCodec} (peer : HpackCodec) (header : HttpHeader) (rest : List ℕ)
      → IsValid codec
      → peer.dynamic_table ≡ codec.dynamic_table
      → IsEncodable huffman header
      → decode_literal huffman peer
          (encode_name huffman (find_index codec (same_name header)) header.name
            ++ (encode_string huffman header.value true ++ rest))
          6
        ≡ ok (header, rest)
  unfolding decode_literal
  decode_literal_lem {codec} peer header rest v same fits =
      elim (Option-cases (find_index codec (same_name header))) [
        | inl missing ↦ rw missing (
            ground (
              arith,
              read_name,
              decode-encode_string header.name tail fits.name_lossless fits.name_code,
              value_lem,
            ))
        | inr (index, found) ↦ rw found (by_index index (find_index-lookup peer v same found))
      ]
    where
      tail : List ℕ
      tail = encode_string huffman header.value true ++ rest

      value_lem : decode_string huffman tail ≡ ok (header.value, rest)
      value_lem = decode-encode_string header.value rest fits.value_lossless fits.value_code

      read_name :
          read_decoded_integer
            ((encode_integer 0x40 0 6 ++ encode_string huffman header.name true) ++ tail)
            6
          ≡ ok (0, encode_string huffman header.name true ++ tail)
      read_name =
          ap (λ xs. read_decoded_integer xs 6)
            (append_assoc (encode_integer 0x40 0 6) (encode_string huffman header.name true) tail)
          ∙ read-encode_integer 6 1 0 (encode_string huffman header.name true ++ tail) (omega arith)
              (omega arith)

      by_index :
          (index : ℕ)
          → (entry : TableEntry) × (0 < index)
            × (index < 2 ^ 32)
            × (lookup peer index ≡ ok entry)
            × (same_name header entry ≡ true)
          → decode_literal huffman peer (encode_integer 0x40 (index % 2 ^ 32) 6 ++ tail) 6
            ≡ ok (header, rest)
      by_index index (entry, some_index, small, resolved, passes) = ground (
        arith,
        read-encode_integer 6 1 index tail small (omega arith),
        resolved,
        same_string→eq entry.name header.name passes,
        value_lem,
      )
