-- ===== src/Protocol/Http2/Hpack/Block.antt =====
-- Whole header blocks: what `Encode` writes, `Decode` reads.
use iocp_http_runtime.Prelude.{
  ℕ, zero, suc, ◌+◌, ◌^◌, ◌≤◌, ◌<◌, ◌≡◌, refl, sym, ap, ◌∙◌, List, [], ◌∷◌, ◌++◌, arith, ltb, Bool,
  true, false, Option, none, some, length, length-append, append_assoc, append-nil, Result, ok,
  throws, runtime_error, ◌>>=◌, add_size,
}
use iocp_http_runtime.Protocol.Http2.Hpack.Table.{HpackCodec, entry_size}
use iocp_http_runtime.Protocol.Http2.Hpack.Evict.{weight, total}
use iocp_http_runtime.Protocol.Http2.Hpack.{
  Huffman, HttpHeader, encode_field, encode_fields, decode_field, decode_loop, field_size, push,
  encode, decode,
}
use iocp_http_runtime.Protocol.Http2.Hpack.Coder.{coder}
use iocp_http_runtime.Protocol.Http2.Hpack.Lossless.{Coded, coder-lossless}
use iocp_http_runtime.Protocol.Http2.Hpack.Literal.{IsEncodable}
use iocp_http_runtime.Protocol.Http2.Hpack.Field.{Synced, decode_field-encode_field}

decode_field-nil :
    (huffman : Huffman) (codec : HpackCodec) {out : Option HttpHeader × HpackCodec × List ℕ}
    → decode_field huffman codec [] ≡ ok out
    → ⊥
unfolding decode_field
decode_field-nil huffman codec e = cc e

-- A round of the loop of `Decode` that reads a header within the limit on the list.
decode_loop-step :
    (huffman : Huffman) (fuel : ℕ) (codec : HpackCodec) (input : List ℕ) {codec' : HpackCodec}
    {header : HttpHeader} {rest : List ℕ} (headers : List HttpHeader) (size : ℕ)
    → decode_field huffman codec input ≡ ok (some header, codec', rest)
    → size + weight header ≤ codec.maximum_header_list_size
    → codec.maximum_header_list_size < 2 ^ 64
    → decode_loop huffman (suc fuel) codec input headers size
      ≡ decode_loop huffman fuel codec' rest (headers ++ header ∷ []) (size + weight header)
unfolding decode_loop
decode_loop-step huffman fuel codec [] headers size e within small =
    absurd (decode_field-nil huffman codec e)
decode_loop-step huffman fuel codec (byte ∷ more) {codec'} {header} {rest} headers size e within
      small =
    ap (λ result. result >>= counted) e
    ∙ ap
        (limited (
          decode_loop huffman fuel codec' rest (headers ++ header ∷ [])
            (add_size size (entry_size header))))
        over
    ∙ ap (λ n. decode_loop huffman fuel codec' rest (headers ++ header ∷ []) n) count
  where
    limited : Result (List HttpHeader × HpackCodec) → Bool → Result (List HttpHeader × HpackCodec)
    limited more true = throws runtime_error
    limited more false = more

    counted : Option HttpHeader × HpackCodec × List ℕ → Result (List HttpHeader × HpackCodec)
    counted out =
        let size' = add_size size (field_size huffman out.0) in
        limited (decode_loop huffman fuel out.1 out.2 (push huffman headers out.0) size')
          (ltb codec.maximum_header_list_size size')

    count : add_size size (entry_size header) ≡ size + weight header
    count = omega arith

    over : ltb codec.maximum_header_list_size (add_size size (entry_size header)) ≡ false
    over = rw count (ground arith)

abbrev pub AllEncodable : Huffman → List HttpHeader → Type 0
AllEncodable huffman [] = Unit {0}
AllEncodable huffman (header ∷ headers) = IsEncodable huffman header × AllEncodable huffman headers

module _ (huffman : Huffman) where
  decode_loop-encode_fields :
      (headers : List HttpHeader) (fuel size : ℕ) (before : List HttpHeader)
      {codec peer : HpackCodec}
      → Synced codec peer
      → AllEncodable huffman headers
      → size + total headers ≤ peer.maximum_header_list_size
      → peer.maximum_header_list_size < 2 ^ 63
      → length (encode_fields huffman codec headers).0 ≤ fuel
      → (peer' : HpackCodec) × (decode_loop huffman fuel peer
            (encode_fields huffman codec headers).0
            before
            size
          ≡ ok (before ++ headers, peer'))
        × Synced (encode_fields huffman codec headers).1 peer'
        × (peer'.maximum_header_list_size ≡ peer.maximum_header_list_size)
  unfolding encode_fields decode_loop
  decode_loop-encode_fields [] fuel size before {codec} {peer} s fits within small enough =
      (peer, ap (λ xs. ok (xs, peer)) (sym (append-nil before)), s, refl)
  decode_loop-encode_fields (header ∷ headers) zero size before {codec} {peer} s fits within small
        enough =
      let others = (encode_fields huffman (encode_field huffman codec header).1 headers).0 in
      let first = decode_field-encode_field huffman header others s fits.0 (omega arith) in
      absurd
        (omega (arith, first.4, enough, length-append (encode_field huffman codec header).0 others))
  decode_loop-encode_fields (header ∷ headers) (suc fuel) size before {codec} {peer} s fits within
        small enough =
      let bytes = (encode_field huffman codec header).0 in
      let others = (encode_fields huffman (encode_field huffman codec header).1 headers).0 in
      let (peer', read, s', kept, some_byte) =
        decode_field-encode_field huffman header others s fits.0 (omega arith) in
      let rest =
        decode_loop-encode_fields headers fuel (size + weight header) (before ++ header ∷ []) s'
          fits.1 (omega (arith, kept, within)) (omega (arith, kept, small))
          (omega (arith, length-append bytes others, some_byte, enough)) in
      (
        rest.0,
        decode_loop-step huffman fuel peer (bytes ++ others) before size read (omega arith)
              (omega arith)
            ∙ rest.1
            ∙ ap (λ xs. ok (xs, rest.0)) (append_assoc before (header ∷ []) headers),
        rest.2,
        rest.3 ∙ kept,
      )

-- What the coder of the program can carry: texts of octets without octet 220, whose codes have a
-- length of 32 bits.
abbrev pub AllCoded : List HttpHeader → Type 0
AllCoded [] = Unit {0}
AllCoded (header ∷ headers) =
    (Coded header.name
      × Coded header.value
      × (length (coder.encode header.name) < 2 ^ 32)
      × (length (coder.encode header.value) < 2 ^ 32))
    × AllCoded headers

AllCoded-AllEncodable : (headers : List HttpHeader) → AllCoded headers → AllEncodable coder headers
AllCoded-AllEncodable [] h = tt
AllCoded-AllEncodable (header ∷ headers) (h, others) = (
  record {
    name_lossless = coder-lossless header.name h.0;
    value_lossless = coder-lossless header.value h.1;
    name_code = h.2;
    value_code = h.3;
  },
  AllCoded-AllEncodable headers others,
)

-- A header block that was encoded with no table size to announce is decoded, by a decoder whose
-- dynamic table agrees with the encoder's, to the headers that were encoded, if no text has octet
-- 220 or a Huffman code of 2 ^ 32 octets or more, and the sizes are within the decoder's limit on the
-- list, which is below 2 ^ 63; and the two tables go on agreeing.
pub decode-encode_block :
    (headers : List HttpHeader) {codec peer : HpackCodec}
    → Synced codec peer
    → codec.pending_table_size_update ≡ none
    → AllCoded headers
    → total headers ≤ peer.maximum_header_list_size
    → peer.maximum_header_list_size < 2 ^ 63
    → (peer' : HpackCodec) × (decode coder peer (encode coder codec headers).0
        ≡ ok (headers, peer'))
      × Synced (encode coder codec headers).1 peer'
      × (peer'.maximum_header_list_size ≡ peer.maximum_header_list_size)
unfolding encode decode
decode-encode_block headers {codec} {peer} s idle fits within small =
    rw (idle, encode)
      (decode_loop-encode_fields coder headers (length (encode_fields coder codec headers).0) 0 [] s
        (AllCoded-AllEncodable headers fits) (omega (arith, within)) small (omega arith))
