-- ===== src/Protocol/Http2/Hpack/Field.antt =====
-- One header of a block: what `Encode` writes for it, a round of `Decode` reads, and the two dynamic
-- tables go on agreeing.
use iocp_http_runtime.Prelude.{
  ℕ, ◌/◌, ◌%◌, ◌^◌, ◌≤◌, ◌<◌, ◌≡◌, refl, sym, ap, ap₂, ◌∙◌, List, ◌∷◌, ◌++◌, arith, true,
  Option-cases, inl, inr, Option, none, some, length, length-append, append_assoc, ok,
}
use iocp_http_runtime.Protocol.Http2.Hpack.StaticTable.{TableEntry}
use iocp_http_runtime.Protocol.Http2.Hpack.Integers.{encode_integer}
use iocp_http_runtime.Protocol.Http2.Hpack.Table.{HpackCodec, lookup, add_dynamic_entry}
use iocp_http_runtime.Protocol.Http2.Hpack.Evict.{IsValid, weight, newest, add_dynamic_entry-newest}
use iocp_http_runtime.Protocol.Http2.Hpack.RoundTrip.{read-encode_integer}
use iocp_http_runtime.Protocol.Http2.Hpack.Search.{find_index-lookup, same_string→eq}
use iocp_http_runtime.Protocol.Http2.Hpack.{
  Huffman, HttpHeader, same_field, same_name, find_index, encode_string, encode_name, encode_field,
  decode_indexed, decode_added, decode_field,
}
use iocp_http_runtime.Protocol.Http2.Hpack.Literal.{
  IsEncodable, opens_128, opens_64, decode_literal_lem,
}

-- The first octet chooses the branch.
decode_field-indexed :
    (huffman : Huffman) (codec : HpackCodec) (byte : ℕ) (more : List ℕ)
    → 128 ≤ byte
    → decode_field huffman codec (byte ∷ more) ≡ decode_indexed huffman codec (byte ∷ more)
unfolding decode_field
decode_field-indexed huffman codec byte more high = ground arith

decode_field-added :
    (huffman : Huffman) (codec : HpackCodec) (byte : ℕ) (more : List ℕ)
    → byte / 64 ≡ 1
    → byte < 128
    → decode_field huffman codec (byte ∷ more) ≡ decode_added huffman codec (byte ∷ more)
unfolding decode_field
decode_field-added huffman codec byte more prefix low = ground arith

-- Encoder and decoder agree on the dynamic table and its limit.
pub record Synced (codec peer : HpackCodec) : Type 0 where
  pub same_table : peer.dynamic_table ≡ codec.dynamic_table
  pub same_limit : peer.current_dynamic_table_limit ≡ codec.current_dynamic_table_limit
  pub codec_valid : IsValid codec
  pub peer_valid : IsValid peer

-- They agree after both have added a header, too.
Synced-added :
    {codec peer : HpackCodec} (header : HttpHeader)
    → Synced codec peer
    → weight header < 2 ^ 63
    → Synced (add_dynamic_entry codec header) (add_dynamic_entry peer header)
      × ((add_dynamic_entry peer header).maximum_header_list_size ≡ peer.maximum_header_list_size)
Synced-added {codec} {peer} header s small =
    let mine = add_dynamic_entry-newest header s.codec_valid small in
    let theirs = add_dynamic_entry-newest header s.peer_valid small in
    (
      record {
        same_table =
            ap (λ c. c.dynamic_table) theirs.0
            ∙ ap₂ (λ limit table. newest limit (header ∷ table)) s.same_limit s.same_table
            ∙ sym (ap (λ c. c.dynamic_table) mine.0);
        same_limit =
            ap (λ c. c.current_dynamic_table_limit) theirs.0
            ∙ s.same_limit
            ∙ sym (ap (λ c. c.current_dynamic_table_limit) mine.0);
        codec_valid = mine.1;
        peer_valid = theirs.1;
      },
      ap (λ c. c.maximum_header_list_size) theirs.0,
    )

module _ (huffman : Huffman) where
  opens_name :
      (found : Option ℕ) (name : List ℕ)
      → (byte : ℕ) × (more : List ℕ) × (encode_name huffman found name ≡ byte ∷ more)
        × (byte / 64 ≡ 1)
        × (byte < 128)
  opens_name none name =
      let (byte, more, e, prefix, low) = opens_64 0 in
      (
        byte,
        more ++ encode_string huffman name true,
        ap (λ xs. xs ++ encode_string huffman name true) e,
        prefix,
        low,
      )
  opens_name (some index) name = opens_64 (index % 2 ^ 32)

  -- One header, as an index or as a literal that both tables then hold.
  pub decode_field-encode_field :
      {codec peer : HpackCodec} (header : HttpHeader) (rest : List ℕ)
      → Synced codec peer
      → IsEncodable huffman header
      → weight header < 2 ^ 63
      → (peer' : HpackCodec) × (decode_field huffman peer
            ((encode_field huffman codec header).0 ++ rest)
          ≡ ok (some header, peer', rest))
        × Synced (encode_field huffman codec header).1 peer'
        × (peer'.maximum_header_list_size ≡ peer.maximum_header_list_size)
        × (0 < length (encode_field huffman codec header).0)
  unfolding encode_field decode_indexed decode_added
  decode_field-encode_field {codec} {peer} header rest s fits small =
      elim (Option-cases (find_index codec (same_field header))) [
        | inr (index, found) ↦
            rw (found, encode_field)
              (indexed index (find_index-lookup peer s.codec_valid s.same_table found))
        | inl missing ↦ rw (missing, encode_field) added
      ]
    where
      taken :
          (index : ℕ) (entry : TableEntry)
          → index < 2 ^ 32
          → lookup peer index ≡ ok entry
          → decode_indexed huffman peer (encode_integer 0x80 (index % 2 ^ 32) 7 ++ rest)
            ≡ ok (some entry, peer, rest)
      taken index entry narrow resolved =
          ground (arith, read-encode_integer 7 1 index rest narrow (omega arith), resolved)

      indexed :
          (index : ℕ)
          → (entry : TableEntry) × (0 < index)
            × (index < 2 ^ 32)
            × (lookup peer index ≡ ok entry)
            × (same_field header entry ≡ true)
          → (peer' : HpackCodec) × (decode_field huffman peer
                (encode_integer 0x80 (index % 2 ^ 32) 7 ++ rest)
              ≡ ok (some header, peer', rest))
            × Synced codec peer'
            × (peer'.maximum_header_list_size ≡ peer.maximum_header_list_size)
            × (0 < length (encode_integer 0x80 (index % 2 ^ 32) 7))
      indexed index (entry, some_index, narrow, resolved, passes) =
          let (byte, more, e, high) = opens_128 (index % 2 ^ 32) in
          let same : entry ≡ header =
            ap₂ (λ n v. record { name = n; value = v })
              (same_string→eq entry.name header.name (ground (arith, passes)))
              (same_string→eq entry.value header.value (ground (arith, passes))) in
          let opened : encode_integer 0x80 (index % 2 ^ 32) 7 ++ rest ≡ byte ∷ (more ++ rest) =
            ap (λ xs. xs ++ rest) e in
          (
            peer,
            ap (decode_field huffman peer) opened
                ∙ decode_field-indexed huffman peer byte (more ++ rest) high
                ∙ ap (decode_indexed huffman peer) (sym opened)
                ∙ taken index entry narrow resolved
                ∙ ap (λ x. ok (some x, peer, rest)) same,
            s,
            refl,
            omega (arith, ap length e),
          )

      name : List ℕ
      name = encode_name huffman (find_index codec (same_name header)) header.name

      value : List ℕ
      value = encode_string huffman header.value true

      kept :
          decode_added huffman peer (name ++ (value ++ rest))
          ≡ ok (some header, add_dynamic_entry peer header, rest)
      kept =
          ground
            (arith, decode_literal_lem huffman peer header rest s.codec_valid s.same_table fits)

      added :
          (peer' : HpackCodec) × (decode_field huffman peer (
              (encode_name huffman (find_index codec (same_name header)) header.name
                ++ encode_string huffman header.value true)
              ++ rest)
            ≡ ok (some header, peer', rest))
          × Synced (add_dynamic_entry codec header) peer'
          × (peer'.maximum_header_list_size ≡ peer.maximum_header_list_size)
          × (0
              < length (
                  encode_name huffman (find_index codec (same_name header)) header.name
                  ++ encode_string huffman header.value true))
      added =
          let (byte, more, e, prefix, low) =
            opens_name (find_index codec (same_name header)) header.name in
          let opened : (name ++ value) ++ rest ≡ byte ∷ (more ++ (value ++ rest)) =
            append_assoc name value rest ∙ ap (λ xs. xs ++ (value ++ rest)) e in
          let both = Synced-added header s small in
          (
            add_dynamic_entry peer header,
            ap (decode_field huffman peer) opened
                ∙ decode_field-added huffman peer byte (more ++ (value ++ rest)) prefix low
                ∙ ap (λ xs. decode_added huffman peer (xs ++ (value ++ rest))) (sym e)
                ∙ kept,
            both.0,
            both.1,
            omega (arith, ap length e, length-append name value),
          )
