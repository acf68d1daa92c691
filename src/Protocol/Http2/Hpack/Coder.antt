-- ===== src/Protocol/Http2/Hpack/Coder.antt =====
-- `HuffmanEncoder` and `HuffmanDecoder`, src/protocol/http2/http2_hpack.cpp. The nodes of the decoder
-- are a tree here, which the code keeps in a vector with indices for the branches.
use iocp_http_runtime.Prelude.{
  ℕ, zero, suc, ◌+◌, ◌-◌, ◌*◌, ◌/◌, ◌%◌, ◌^◌, ◌==◌, leb, List, [], ◌∷◌, ◌++◌, true, false,
  if◌then◌else◌, Option, none, some, bit_or, get_elem?,
}
use iocp_http_runtime.Protocol.Http2.Hpack.{Huffman}
use iocp_http_runtime.Protocol.Http2.Hpack.HuffmanTable.{codes}

unfoldable pub shift_right : ℕ → ℕ → ℕ
shift_right zero value = value
shift_right (suc n) value = shift_right n (value / 2)

-- The lowest bits of a number, the highest of them first.
unfoldable pub low_bits : ℕ → ℕ → List ℕ
low_bits zero value = []
low_bits (suc n) value = (shift_right n value % 2) ∷ low_bits n value

abbrev pub code_of : ℕ → ℕ × ℕ
code_of character = elim (get_elem? codes character) [ none ↦ (0, 0) | some entry ↦ entry ]

-- `(current << bits) | code` on 64 bits.
abbrev pub push_code : ℕ → ℕ → ℕ → ℕ
push_code current bits code = bit_or ((current * 2 ^ bits) % 2 ^ 64) code

-- The octets that are full, and the bits that are left.
unfoldable pub emit : ℕ → ℕ → ℕ → List ℕ × ℕ
emit zero current filled = ([], filled)
emit (suc fuel) current filled =
    let rest = emit fuel current (filled - 8) in
    if leb 8 filled
    then ((shift_right (filled - 8) current % 256) ∷ rest.0, rest.1)
    else ([], filled)

abbrev pub padding : ℕ → ℕ → List ℕ
padding current filled =
    if filled == 0 then [] else (push_code current (8 - filled) (2 ^ (8 - filled) - 1) % 256) ∷ []

unfoldable pub encode_text : ℕ → ℕ → List ℕ → List ℕ
unfolding emit
encode_text current filled [] = padding current filled
encode_text current filled (character ∷ text) =
    let (code, bits) = code_of character in
    let next = push_code current bits code in
    let (octets, left) = emit (filled + bits) next (filled + bits) in
    let skipped = encode_text current filled text in
    let rest = encode_text next left text in if bits == 0 then skipped else octets ++ rest

pub data Node : Type 0 where
  missing : Node
  node : Option ℕ → Node → Node → Node

abbrev pub value_of : Node → Option ℕ
value_of missing = none
value_of (node value left right) = value

abbrev pub left_of : Node → Node
left_of missing = missing
left_of (node value left right) = left

abbrev pub right_of : Node → Node
right_of missing = missing
right_of (node value left right) = right

-- A symbol of the tree at the end of its code; nodes on the way are made where there is none.
unfoldable pub insert : ℕ → List ℕ → Node → Node
insert symbol [] n = node (some symbol) (left_of n) (right_of n)
insert symbol (bit ∷ bits) n = elim (bit == 0) [
  | true ↦ node (value_of n) (insert symbol bits (left_of n)) (right_of n)
  | false ↦ node (value_of n) (left_of n) (insert symbol bits (right_of n))
]

unfoldable pub insert_all : ℕ → List (ℕ × ℕ) → Node → Node
unfolding insert low_bits shift_right
insert_all symbol [] n = n
insert_all symbol (entry ∷ entries) n =
    insert_all (suc symbol) entries
      (if entry.1 == 0 then n else insert symbol (low_bits entry.1 entry.0) n)

unfoldable pub build_tree : Node
unfolding insert_all
build_tree = insert_all 0 codes (node none missing missing)

pub data Walk : Type 0 where
  invalid : Walk
  ended : Walk
  going : Node → List ℕ → Walk

abbrev pub child : Node → ℕ → Node
child n bit = if bit == 0 then left_of n else right_of n

-- The walk down the tree, back to its root behind each symbol; 256 is the end of the string.
unfoldable pub walk : Node → Node → List ℕ → List ℕ → Walk
walk root n output [] = going n output
walk root n output (bit ∷ bits) = elim (child n bit) [
  | missing ↦ invalid
  | node value left right ↦ elim value [
    | none ↦ walk root (node none left right) output bits
    | some symbol ↦ elim (symbol == 256) [
      | true ↦ ended
      | false ↦ walk root root (output ++ symbol ∷ []) bits
    ]
  ]
]

-- On the end of the string the output stays empty.
unfoldable pub decode_octets : Node → Node → List ℕ → List ℕ → Option (List ℕ)
decode_octets root n output [] = some output
decode_octets root n output (octet ∷ octets) = elim (walk root n output (low_bits 8 octet)) [
  | invalid ↦ none
  | ended ↦ elim octets [ [] ↦ some [] | more ∷ octets ↦ none ]
  | going next output ↦ decode_octets root next output octets
]

abbrev pub coder : Huffman
coder = record { encode = encode_text 0 0; decode = decode_octets build_tree build_tree [] }
