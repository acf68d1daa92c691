-- ===== src/Protocol/Http2/Hpack.antt =====
-- src/protocol/http2/http2_hpack.cpp, HpackCodec: header compression. The functions take the Huffman
-- coder of the same file as an argument: Coder has it. A string is the list of its octets. `Decode` throws without giving the
-- codec back: the connection that called it is closed.
pub mod StaticTable
pub mod Integers
pub mod Table
pub mod Evict
pub mod RoundTrip
pub mod Search
pub mod Literal
pub mod Field
pub mod Block
pub mod HuffmanTable
pub mod Coder
pub mod CoderBits
pub mod Written
pub mod Walks
pub mod Lossless
use iocp_http_runtime.Prelude.{
  ℕ, zero, suc, ◌+◌, ◌-◌, ◌/◌, ◌%◌, ◌^◌, List, [], ◌∷◌, ◌++◌, if◌then◌else◌, ltb, leb, ◌==◌, ◌&&◌,
  Bool, true, false, Option, none, some, length, take, drop, Result, ok, throws, runtime_error,
  undefined, ◌>>=◌, add_size,
}
use iocp_http_runtime.Protocol.Http2.Hpack.StaticTable.{TableEntry, static_table}
use iocp_http_runtime.Protocol.Http2.Hpack.Integers.{read_decoded_integer, encode_integer}
use iocp_http_runtime.Protocol.Http2.Hpack.Table.{
  HpackCodec, entry_size, lookup, add_dynamic_entry, set_dynamic_table_size,
}

abbrev pub HttpHeader : Type 0
HttpHeader = TableEntry

-- `HuffmanEncoder::Encode` and `HuffmanDecoder::Decode`.
pub record Huffman : Type 0 where
  pub encode : List ℕ → List ℕ
  pub decode : List ℕ → Option (List ℕ)

-- `==` of `std::string`.
unfoldable pub same_string : List ℕ → List ℕ → Bool
same_string [] [] = true
same_string [] (y ∷ ys) = false
same_string (x ∷ xs) [] = false
same_string (x ∷ xs) (y ∷ ys) = (x == y) && same_string xs ys

-- The index of the first entry that a test accepts, counted from `index`.
unfoldable pub find_entry : (TableEntry → Bool) → ℕ → List TableEntry → Option ℕ
find_entry test index [] = none
find_entry test index (entry ∷ table) =
    let rest = find_entry test (suc index) table in if test entry then some index else rest

-- The searches of `Encode`: the static table from its entry 1 on, then the dynamic table.
unfoldable pub find_index : HpackCodec → (TableEntry → Bool) → Option ℕ
unfolding find_entry
find_index codec test = elim (find_entry test 1 (drop 1 static_table)) [
  | some index ↦ some index
  | none ↦ find_entry test (length static_table) codec.dynamic_table
]

abbrev pub same_field : HttpHeader → TableEntry → Bool
same_field header entry = same_string entry.name header.name && same_string entry.value header.value

abbrev pub same_name : HttpHeader → TableEntry → Bool
same_name header entry = same_string entry.name header.name

module _ (huffman : Huffman) where
  unfoldable pub encode_string : List ℕ → Bool → List ℕ
  encode_string value true =
      let encoded = huffman.encode value in
      encode_integer 0x80 (length encoded % 2 ^ 32) 7 ++ encoded
  encode_string value false = encode_integer 0x00 (length value % 2 ^ 32) 7 ++ value

  -- The name of a literal, as an index where one is found.
  abbrev pub encode_name : Option ℕ → List ℕ → List ℕ
  encode_name none name = encode_integer 0x40 0 6 ++ encode_string name true
  encode_name (some index) name = encode_integer 0x40 (index % 2 ^ 32) 6

  -- The bytes of one header, and the codec behind it. An index is cast to 32 bits.
  unfoldable pub encode_field : HpackCodec → HttpHeader → List ℕ × HpackCodec
  encode_field codec header = elim (find_index codec (same_field header)) [
    | some index ↦ (encode_integer 0x80 (index % 2 ^ 32) 7, codec)
    | none ↦ (
      encode_name (find_index codec (same_name header)) header.name
          ++ encode_string header.value true,
      add_dynamic_entry codec header,
    )
  ]

  unfoldable pub encode_fields : HpackCodec → List HttpHeader → List ℕ × HpackCodec
  encode_fields codec [] = ([], codec)
  encode_fields codec (header ∷ headers) =
      let first = encode_field codec header in
      let rest = encode_fields first.1 headers in (first.0 ++ rest.0, rest.1)

  unfoldable pub encode : HpackCodec → List HttpHeader → List ℕ × HpackCodec
  encode codec headers = elim codec.pending_table_size_update [
    | none ↦ encode_fields codec headers
    | some new_size ↦
        let rest = encode_fields (record codec { pending_table_size_update = none }) headers in
        (encode_integer 0x20 (new_size % 2 ^ 32) 5 ++ rest.0, rest.1)
  ]

  -- The content of a string literal: `none` where the Huffman code is invalid.
  abbrev pub literal : Bool → List ℕ → Result (List ℕ)
  literal false content = ok content
  literal true content = elim (huffman.decode content) [
    | none ↦ throws runtime_error
    | some text ↦ ok text
  ]

  -- `DecodeString`: the string and what is left to read.
  unfoldable pub decode_string : List ℕ → Result (List ℕ × List ℕ)
  decode_string [] = throws runtime_error
  decode_string (byte ∷ rest) = read_decoded_integer (byte ∷ rest) 7 >>= λ (size, left).
      if ltb (length left) size
      then throws runtime_error
      else (literal (leb 128 byte) (take size left) >>= λ text. ok (text, drop size left))

  -- A literal header: its name by index or as a string, then its value.
  unfoldable pub decode_literal : HpackCodec → List ℕ → ℕ → Result (HttpHeader × List ℕ)
  unfolding decode_string
  decode_literal codec input prefix_bits = do
    index ← read_decoded_integer input prefix_bits
    name ←
        (if index.0 == 0
          then decode_string index.1
          else (lookup codec index.0 >>= λ entry. ok (entry.name, index.1)))
    value ← decode_string name.1
    ok (record { name = name.0; value = value.0 }, value.1)

  -- What a representation gives: its header if it carries one, the codec, what is left to read.
  abbrev pub Field : Type 0
  Field = Option HttpHeader × HpackCodec × List ℕ

  unfoldable pub decode_indexed : HpackCodec → List ℕ → Result Field
  decode_indexed codec input = do
    index ← read_decoded_integer input 7
    entry ← lookup codec index.0
    ok (some entry, codec, index.1)

  unfoldable pub decode_added : HpackCodec → List ℕ → Result Field
  unfolding decode_literal
  decode_added codec input = do
    field ← decode_literal codec input 6
    ok (some field.0, add_dynamic_entry codec field.0, field.1)

  unfoldable pub decode_not_added : HpackCodec → List ℕ → Result Field
  unfolding decode_literal
  decode_not_added codec input = do
    field ← decode_literal codec input 4
    ok (some field.0, codec, field.1)

  unfoldable pub decode_resize : HpackCodec → List ℕ → Result Field
  decode_resize codec input = do
    size ← read_decoded_integer input 5
    resized ← set_dynamic_table_size codec size.0
    ok (none, resized, size.1)

  -- The branches of the loop of `Decode`, by the first octet.
  unfoldable pub decode_field : HpackCodec → List ℕ → Result Field
  unfolding decode_indexed decode_added decode_not_added decode_resize
  decode_field codec [] = throws undefined
  decode_field codec (byte ∷ rest) =
      let input = byte ∷ rest in
      if leb 128 byte
      then decode_indexed codec input
      else if byte / 64 == 1
      then decode_added codec input
      else if byte / 16 == 0
      then decode_not_added codec input
      else if byte / 32 == 1
      then decode_resize codec input
      else throws runtime_error

  abbrev pub field_size : Option HttpHeader → ℕ
  field_size none = 0
  field_size (some header) = entry_size header

  abbrev pub push : List HttpHeader → Option HttpHeader → List HttpHeader
  push headers none = headers
  push headers (some header) = headers ++ header ∷ []

  -- The loop of `Decode`. A representation takes an octet at least: the fuel is their number.
  unfoldable pub decode_loop :
      ℕ → HpackCodec → List ℕ → List HttpHeader → ℕ → Result (List HttpHeader × HpackCodec)
  decode_loop fuel codec [] headers size = ok (headers, codec)
  decode_loop zero codec (byte ∷ rest) headers size = throws undefined
  decode_loop (suc fuel) codec (byte ∷ rest) headers size =
      decode_field codec (byte ∷ rest) >>= λ out.
      let size' = add_size size (field_size out.0) in
      elim (ltb codec.maximum_header_list_size size') [
        | true ↦ throws runtime_error
        | false ↦ decode_loop fuel out.1 out.2 (push headers out.0) size'
      ]

  unfoldable pub decode : HpackCodec → List ℕ → Result (List HttpHeader × HpackCodec)
  decode codec input = decode_loop (length input) codec input [] 0
