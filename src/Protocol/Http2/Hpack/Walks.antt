-- ===== src/Protocol/Http2/Hpack/Walks.antt =====
-- Walks down the tree of `HuffmanDecoder`.
use iocp_http_runtime.Prelude.{
  ℕ, ◌<◌, ◌≡◌, refl, sym, ap, ◌∙◌, List, [], ◌∷◌, ◌++◌, Bool, true, false, ◌==◌, none, some, arith,
  inl, inr, Bool-cases,
}
use iocp_http_runtime.Protocol.Http2.Hpack.Coder.{
  Node, missing, node, Walk, invalid, ended, going, low_bits, child, walk, decode_octets,
}
use iocp_http_runtime.Protocol.Http2.Hpack.CoderBits.{octet_bits}

-- Whether the bits lead from a node to the symbol, with no symbol before.
unfoldable pub leads : Node → List ℕ → ℕ → Bool
leads n [] symbol = false
leads n (bit ∷ bits) symbol = elim (child n bit) [
  | missing ↦ false
  | node value left right ↦ elim value [
    | none ↦ leads (node none left right) bits symbol
    | some other ↦ elim bits [ [] ↦ other == symbol | next ∷ others ↦ false ]
  ]
]

abbrev pub on_going : Walk → (Node → List ℕ → Walk) → Walk
on_going invalid k = invalid
on_going ended k = ended
on_going (going n output) k = k n output

-- One bit, and what follows it.
abbrev at_child : Node → List ℕ → (Node → List ℕ → Walk) → Node → Walk
at_child root output k missing = invalid
at_child root output k (node value left right) = elim value [
  | none ↦ k (node none left right) output
  | some symbol ↦ elim (symbol == 256) [ true ↦ ended | false ↦ k root (output ++ symbol ∷ []) ]
]

at_child-on_going :
    (root : Node) (output : List ℕ) (k l m : Node → List ℕ → Walk)
    → ((n : Node) (o : List ℕ) → k n o ≡ on_going (l n o) m)
    → (c : Node) → at_child root output k c ≡ on_going (at_child root output l c) m
at_child-on_going root output k l m h missing = refl
at_child-on_going root output k l m h (node none left right) = h (node none left right) output
at_child-on_going root output k l m h (node (some symbol) left right) =
    elim (Bool-cases (symbol == 256)) [
      | inl last ↦ ground (arith, last)
      | inr other ↦ ground (arith, other, h root (output ++ symbol ∷ []))
    ]

pub walk-append :
    (root n : Node) (output xs ys : List ℕ)
    → walk root n output (xs ++ ys) ≡ on_going (walk root n output xs) (λ m o. walk root m o ys)
unfolding walk
walk-append root n output [] ys = refl
walk-append root n output (bit ∷ xs) ys =
    at_child-on_going root output (λ m o. walk root m o (xs ++ ys)) (λ m o. walk root m o xs)
      (λ m o. walk root m o ys) (λ m o. walk-append root m o xs ys) (child n bit)

pub walk-decodes :
    (root n : Node) (output octets : List ℕ) {last : Node} {text : List ℕ}
    → walk root n output (octet_bits octets) ≡ going last text
    → decode_octets root n output octets ≡ some text
unfolding walk decode_octets
walk-decodes root n output [] e = ground (arith, e)
walk-decodes root n output (octet ∷ octets) {last} {text} e =
    on_octet (walk root n output (low_bits 8 octet)) (λ m o k. walk-decodes root m o octets k)
      (sym (walk-append root n output (low_bits 8 octet) (octet_bits octets)) ∙ e)
  where
    on_octet :
        (w : Walk)
        → ((m : Node) (o : List ℕ)
            → walk root m o (octet_bits octets) ≡ going last text
            → decode_octets root m o octets ≡ some text)
        → on_going w (λ m o. walk root m o (octet_bits octets)) ≡ going last text
        → elim w [
          | invalid ↦ none
          | ended ↦ elim octets [ [] ↦ some [] | more ∷ rest ↦ none ]
          | going next output ↦ decode_octets root next output octets
        ]
          ≡ some text
    on_octet invalid ih k = ground (arith, k)
    on_octet ended ih k = ground (arith, k)
    on_octet (going m o) ih k = ih m o k

-- Down to the symbol, and back to the root.
pub walk-leads :
    (root n : Node) (output bits : List ℕ) (symbol : ℕ)
    → symbol < 256
    → leads n bits symbol ≡ true
    → walk root n output bits ≡ going root (output ++ symbol ∷ [])
unfolding walk leads
walk-leads root n output [] symbol low e = ground (arith, e)
walk-leads root n output (bit ∷ bits) symbol low e =
    on_child (child n bit) bits (λ m k. walk-leads root m output bits symbol low k) e
  where
    on_child :
        (c : Node) (bits : List ℕ)
        → ((m : Node)
            → leads m bits symbol ≡ true
            → walk root m output bits ≡ going root (output ++ symbol ∷ []))
        → elim c [
          | missing ↦ false
          | node value left right ↦ elim value [
            | none ↦ leads (node none left right) bits symbol
            | some other ↦ elim bits [ [] ↦ other == symbol | next ∷ others ↦ false ]
          ]
        ]
          ≡ true
        → at_child root output (λ m o. walk root m o bits) c ≡ going root (output ++ symbol ∷ [])
    on_child missing bits ih k = ground (arith, k)
    on_child (node none left right) bits ih k = ih (node none left right) k
    on_child (node (some other) left right) [] ih k =
        let same : other ≡ symbol = ground (arith, k) in
        let before : (other == 256) ≡ false = ground (arith, same) in
        ap (λ (b : Bool). elim b [ true ↦ ended | false ↦ going root (output ++ other ∷ []) ])
          before
        ∙ ap (λ v. going root (output ++ v ∷ [])) same
    on_child (node (some other) left right) (next ∷ bits) ih k = ground (arith, k)

-- Whether the bits meet no symbol and no missing node.
unfoldable pub quiet : Node → List ℕ → Bool
quiet n [] = true
quiet n (bit ∷ bits) = elim (child n bit) [
  | missing ↦ false
  | node value left right ↦ elim value [
    | none ↦ quiet (node none left right) bits
    | some symbol ↦ false
  ]
]

pub walk-quiet :
    (root n : Node) (output bits : List ℕ)
    → quiet n bits ≡ true
    → (m : Node) × (walk root n output bits ≡ going m output)
unfolding walk quiet
walk-quiet root n output [] e = (n, refl)
walk-quiet root n output (bit ∷ bits) e =
    on_child (child n bit) (λ m k. walk-quiet root m output bits k) e
  where
    on_child :
        (c : Node)
        → ((m : Node)
            → quiet m bits ≡ true
            → (last : Node) × (walk root m output bits ≡ going last output))
        → elim c [
          | missing ↦ false
          | node value left right ↦ elim value [
            | none ↦ quiet (node none left right) bits
            | some symbol ↦ false
          ]
        ]
          ≡ true
        → (last : Node) × (at_child root output (λ m o. walk root m o bits) c ≡ going last output)
    on_child missing ih k = absurd (ground (arith, k))
    on_child (node none left right) ih k = ih (node none left right) k
    on_child (node (some symbol) left right) ih k = absurd (ground (arith, k))
