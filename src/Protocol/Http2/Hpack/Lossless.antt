-- ===== src/Protocol/Http2/Hpack/Lossless.antt =====
-- What `HuffmanEncoder` writes, `HuffmanDecoder` reads.
use iocp_http_runtime.Prelude.{
  ℕ, zero, suc, ◌^◌, ◌<◌, ◌≡◌, ◌≢◌, refl, sym, ap, ◌∙◌, List, [], ◌∷◌, ◌++◌, append-nil,
  append_assoc, Bool, true, false, ◌==◌, leb, ltb, ◌&&◌, ◌||◌, some, arith,
}
use iocp_http_runtime.Protocol.Http2.Hpack.Coder.{
  Node, going, low_bits, code_of, encode_text, walk, build_tree, coder,
}
use iocp_http_runtime.Protocol.Http2.Hpack.Written.{
  text_bits, ones, IsCode, AllCodes, encode_text_lem,
}
use iocp_http_runtime.Protocol.Http2.Hpack.Walks.{
  leads, quiet, on_going, walk-append, walk-decodes, walk-leads, walk-quiet,
}

-- The test of every octet but 220 on the tree.
passes : Node → ℕ → Bool
unfolding leads low_bits
passes root symbol =
    leads root (low_bits (code_of symbol).1 (code_of symbol).0) symbol || (symbol == 220)

all_below : ℕ → (ℕ → Bool) → Bool
all_below zero test = true
all_below (suc n) test = test n && all_below n test

all_below_sound :
    (n : ℕ) (test : ℕ → Bool) (x : ℕ) → all_below n test ≡ true → x < n → test x ≡ true
unfolding all_below
all_below_sound zero test x h lt = absurd (omega arith)
all_below_sound (suc n) test x h lt = ground (arith, all_below_sound n test x)

tree_passes : all_below 256 (passes build_tree) ≡ true
unfolding all_below passes build_tree
tree_passes = refl

abbrev entry_fits : ℕ → ℕ → Bool
entry_fits code bits = ltb code (2 ^ bits) && (ltb 0 bits && leb bits 30)

entry_fits-IsCode : (code bits : ℕ) → entry_fits code bits ≡ true → IsCode (code, bits)
entry_fits-IsCode code bits e = ground (arith, e)

code_fits : ℕ → Bool
code_fits symbol = entry_fits (code_of symbol).0 (code_of symbol).1

codes_fit : all_below 256 code_fits ≡ true
unfolding all_below code_fits
codes_fit = refl

-- Octets, the one whose code begins with that of another left out.
abbrev pub Coded : List ℕ → Type 0
Coded [] = Unit
Coded (character ∷ text) = ((character < 256) × (character ≢ 220)) × Coded text

IsCode-lem : (symbol : ℕ) → symbol < 256 → IsCode (code_of symbol)
unfolding code_fits
IsCode-lem symbol low =
    entry_fits-IsCode (code_of symbol).0 (code_of symbol).1
      (all_below_sound 256 code_fits symbol codes_fit low)

code-leads :
    (symbol : ℕ)
    → symbol < 256
    → symbol ≢ 220
    → leads build_tree (low_bits (code_of symbol).1 (code_of symbol).0) symbol ≡ true
unfolding passes
code-leads symbol low differs =
    first_holds (leads build_tree (low_bits (code_of symbol).1 (code_of symbol).0) symbol)
      (all_below_sound 256 (passes build_tree) symbol tree_passes low)
  where
    first_holds : (b : Bool) → (b || (symbol == 220)) ≡ true → b ≡ true
    first_holds true e = refl
    first_holds false e = absurd (differs (ground (arith, e)))

walk-text :
    (output text : List ℕ)
    → Coded text
    → walk build_tree build_tree output (text_bits text) ≡ going build_tree (output ++ text)
unfolding walk
walk-text output [] h = ap (going build_tree) (sym (append-nil output))
walk-text output (character ∷ text) h =
    let bits = low_bits (code_of character).1 (code_of character).0 in
    walk-append build_tree build_tree output bits (text_bits text)
    ∙ ap (λ w. on_going w (λ m o. walk build_tree m o (text_bits text)))
        (walk-leads build_tree build_tree output bits character h.0.0
          (code-leads character h.0.0 h.0.1))
    ∙ walk-text (output ++ character ∷ []) text h.1
    ∙ ap (going build_tree) (append_assoc output (character ∷ []) text)

AllCodes-Coded : (text : List ℕ) → Coded text → AllCodes text
AllCodes-Coded [] h = tt
AllCodes-Coded (character ∷ text) h = (IsCode-lem character h.0.0, AllCodes-Coded text h.1)

-- No symbol has a code of at most seven ones.
quiet_ones : Node → ℕ → Bool
unfolding low_bits
quiet_ones root n = quiet root (ones n)

ones_are_quiet : all_below 8 (quiet_ones build_tree) ≡ true
unfolding all_below quiet_ones quiet build_tree
ones_are_quiet = refl

walk-ones :
    (n : ℕ) (output : List ℕ)
    → n < 8
    → (m : Node) × (walk build_tree build_tree output (ones n) ≡ going m output)
unfolding quiet_ones
walk-ones n output short =
    walk-quiet build_tree build_tree output (ones n)
      (all_below_sound 8 (quiet_ones build_tree) n ones_are_quiet short)

-- The Huffman coder gives back every text of octets without octet 220.
pub coder-lossless : (text : List ℕ) → Coded text → coder.decode (coder.encode text) ≡ some text
unfolding low_bits
coder-lossless text h =
    let (n, written, short) = encode_text_lem 0 0 text (AllCodes-Coded text h) (omega arith) in
    let (m, padded) = walk-ones n text short in
    walk-decodes build_tree build_tree [] (encode_text 0 0 text) (
      ap (walk build_tree build_tree []) written
      ∙ walk-append build_tree build_tree [] (text_bits text) (ones n)
      ∙ ap (λ w. on_going w (λ m o. walk build_tree m o (ones n))) (walk-text [] text h)
      ∙ padded)
