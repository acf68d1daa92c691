-- ===== src/Protocol/Http2/Hpack/Written.antt =====
-- The bits of what `HuffmanEncoder` writes: the codes of the text, and ones up to an octet.
use iocp_http_runtime.Prelude.{
  ℕ, zero, suc, ◌+◌, ◌-◌, ◌*◌, ◌/◌, ◌%◌, ◌^◌, ◌≤◌, ◌<◌, ◌≡◌, refl, sym, ap, ap₂, ◌∙◌, List, [], ◌∷◌,
  ◌++◌, append-nil, append_assoc, Bool, false, ◌==◌, if◌then◌else◌, arith,
}
use iocp_http_runtime.Protocol.Http2.Hpack.Coder.{
  low_bits, code_of, push_code, emit, padding, encode_text,
}
use iocp_http_runtime.Protocol.Http2.Hpack.CoderBits.{
  low_bits-push_code, low_bits-high, octet_bits, octet_bits-append, emit_lem, pow-positive,
  some-not_zero,
}

-- The whole encoder: the bits that were pending, the codes of the text, and ones up to an octet.
abbrev pub text_bits : List ℕ → List ℕ
text_bits [] = []
text_bits (character ∷ text) =
    low_bits (code_of character).1 (code_of character).0 ++ text_bits text

abbrev pub ones : ℕ → List ℕ
ones n = low_bits n (2 ^ n - 1)

-- A code of at most 30 bits, and not of none.
abbrev pub IsCode : ℕ × ℕ → Type 0
IsCode entry = (entry.0 < 2 ^ entry.1) × (0 < entry.1) × (entry.1 ≤ 30)

padding_lem :
    (current filled : ℕ)
    → filled < 8
    → (n : ℕ) × (octet_bits (padding current filled) ≡ low_bits filled current ++ ones n) × (n < 8)
unfolding low_bits
padding_lem current zero few = (0, refl, omega arith)
padding_lem current (suc k) few =
    let room = 8 - suc k in
    let byte = push_code current room (2 ^ room - 1) in
    let count : 8 ≡ suc k + room = omega arith in
    let whole : (byte / 256) * 2 ^ 8 + byte % 256 ≡ byte = omega arith in
    (
      room,
      ap (λ (b : Bool). octet_bits (if b then [] else (byte % 256) ∷ []))
            (some-not_zero (suc k) (omega arith))
          ∙ append-nil (low_bits 8 (byte % 256))
          ∙ sym (low_bits-high 8 (byte / 256) (byte % 256))
          ∙ ap₂ low_bits count whole
          ∙ low_bits-push_code (suc k) room 56 current (2 ^ room - 1) (omega arith)
              (omega (arith, pow-positive room)),
      omega arith,
    )

abbrev pub AllCodes : List ℕ → Type 0
AllCodes [] = Unit
AllCodes (character ∷ text) = IsCode (code_of character) × AllCodes text

pub encode_text_lem :
    (current filled : ℕ) (text : List ℕ)
    → AllCodes text
    → filled < 8
    → (n : ℕ) × (octet_bits (encode_text current filled text)
        ≡ low_bits filled current ++ (text_bits text ++ ones n))
      × (n < 8)
unfolding encode_text
encode_text_lem current filled [] h few = padding_lem current filled few
encode_text_lem current filled (character ∷ text) h few =
    let code = (code_of character).0 in
    let bits = (code_of character).1 in
    let next = push_code current bits code in
    let out = emit (filled + bits) next (filled + bits) in
    let (read, left) = emit_lem (filled + bits) next (filled + bits) (omega arith) in
    let (n, rest, short) = encode_text_lem next out.1 text h.1 left in
    let some_bit : (bits == 0) ≡ false = some-not_zero bits h.0.1 in
    (
      n,
      ap
            (λ (b : Bool).
              octet_bits (
                if b
                then encode_text current filled text
                else out.0 ++ encode_text next out.1 text))
            some_bit
          ∙ octet_bits-append out.0 (encode_text next out.1 text)
          ∙ ap (λ xs. octet_bits out.0 ++ xs) rest
          ∙ sym (append_assoc (octet_bits out.0) (low_bits out.1 next) (text_bits text ++ ones n))
          ∙ ap (λ xs. xs ++ (text_bits text ++ ones n))
              (read
                ∙ low_bits-push_code filled bits (64 - (filled + bits)) current code
                    (omega (arith, h.0)) h.0.0)
          ∙ append_assoc (low_bits filled current) (low_bits bits code) (text_bits text ++ ones n)
          ∙ ap (λ xs. low_bits filled current ++ xs)
              (sym (append_assoc (low_bits bits code) (text_bits text) (ones n))),
      short,
    )
