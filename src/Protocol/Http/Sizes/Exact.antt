-- ===== src/Protocol/Http/Sizes/Exact.antt =====
-- The parsers of sizes beside the values of numerals of any length.
use iocp_http_runtime.Prelude.{
  ℕ, ◌+◌, ◌-◌, ◌*◌, ◌^◌, ◌≤◌, ◌<◌, ◌≡◌, refl, ap, ◌∙◌, ◌==◌, List, [], ◌∷◌, arith, if◌then◌else◌,
  ltb, ◌||◌, Option-cases, inl, inr, Option, none, some, add_size, mul_size,
}
use iocp_http_runtime.Protocol.Http.Sizes.{
  decimal_loop, parse_decimal_size, hex_digit, hex_loop, parse_hex_size,
}

-- The numeral behind a number that was read so far, whatever its size; `none` if an octet is no digit.
abbrev pub numeral : ℕ → (ℕ → Option ℕ) → List ℕ → ℕ → Option ℕ
numeral base digit [] n = some n
numeral base digit (character ∷ rest) n = elim (digit character) [
  | none ↦ none
  | some d ↦ numeral base digit rest (n * base + d)
]

abbrev pub decimal_digit : ℕ → Option ℕ
decimal_digit character =
    if ltb character 48 || ltb 57 character then none else some (character - 48)

-- A number, if it is a size_t.
abbrev pub sized : Option ℕ → Option ℕ
sized none = none
sized (some n) = if ltb n (2 ^ 64) then some n else none

-- The size_t that a text which is not empty stands for.
abbrev pub size_of : ℕ → (ℕ → Option ℕ) → List ℕ → Option ℕ
size_of base digit [] = none
size_of base digit (character ∷ rest) = sized (numeral base digit (character ∷ rest) 0)

numeral-same :
    (text : List ℕ) (base : ℕ) (digit other : ℕ → Option ℕ) (n : ℕ)
    → ((character : ℕ) → digit character ≡ other character)
    → numeral base digit text n ≡ numeral base other text n
numeral-same [] base digit other n same = refl
numeral-same (character ∷ rest) base digit other n same = elim (Option-cases (digit character)) [
  | inl e ↦ ground (arith, e, same character)
  | inr (d, e) ↦
      ground (arith, e, same character, numeral-same rest base digit other (n * base + d) same)
]

-- A numeral only grows.
numeral-large :
    (text : List ℕ) (base : ℕ) (digit : ℕ → Option ℕ) (n : ℕ)
    → ((m d : ℕ) → m ≤ m * base + d)
    → 2 ^ 64 ≤ n
    → sized (numeral base digit text n) ≡ none
numeral-large [] base digit n grows h = ground arith
numeral-large (character ∷ rest) base digit n grows h = elim (Option-cases (digit character)) [
  | inl e ↦ ground (arith, e)
  | inr (d, e) ↦
      ground
        (arith, e, numeral-large rest base digit (n * base + d) grows (omega (arith, grows n d)))
]

decimal_loop_lem :
    (text : List ℕ) (parsed : ℕ)
    → parsed < 2 ^ 64
    → decimal_loop text parsed ≡ sized (numeral 10 decimal_digit text parsed)
unfolding decimal_loop
decimal_loop_lem [] parsed h = ground arith
decimal_loop_lem (character ∷ rest) parsed h = ground (
  arith,
  decimal_loop_lem rest (add_size (mul_size parsed 10) (character - 48)),
  numeral-large rest 10 decimal_digit (parsed * 10 + (character - 48)) λ m d. omega arith,
)

-- Where a character stands in a text, counted from an index.
abbrev pub position : ℕ → List ℕ → ℕ → Option ℕ
position character [] index = none
position character (c ∷ text) index =
    let rest = position character text (index + 1) in if character == c then some index else rest

-- "0123456789abcdef" and "0123456789ABCDEF".
abbrev pub lower_digits : List ℕ
lower_digits = 48 ∷ 49 ∷ 50 ∷ 51 ∷ 52 ∷ 53 ∷ 54 ∷ 55 ∷ 56 ∷ 57 ∷ 97 ∷ 98 ∷ 99 ∷ 100 ∷ 101 ∷ 102 ∷ []

abbrev pub upper_digits : List ℕ
upper_digits = 48 ∷ 49 ∷ 50 ∷ 51 ∷ 52 ∷ 53 ∷ 54 ∷ 55 ∷ 56 ∷ 57 ∷ 65 ∷ 66 ∷ 67 ∷ 68 ∷ 69 ∷ 70 ∷ []

-- The value of a hexadecimal digit is its place among the digits, in either case.
abbrev pub digit_value : ℕ → Option ℕ
digit_value character = elim (position character lower_digits 0) [
  | none ↦ position character upper_digits 0
  | some d ↦ some d
]

hex_digit-value : (character : ℕ) → hex_digit character ≡ digit_value character
unfolding hex_digit
hex_digit-value character = ground arith

hex_digit-bounded : (character : ℕ) {d : ℕ} → hex_digit character ≡ some d → d < 16
unfolding hex_digit
hex_digit-bounded character e = ground arith

hex_loop_lem :
    (text : List ℕ) (parsed : ℕ)
    → parsed < 2 ^ 64
    → hex_loop text parsed ≡ sized (numeral 16 hex_digit text parsed)
unfolding hex_loop
hex_loop_lem [] parsed h = ground arith
hex_loop_lem (character ∷ rest) parsed h = elim (Option-cases (hex_digit character)) [
  | inl e ↦ ground (arith, e)
  | inr (d, e) ↦ ground (
    arith,
    e,
    hex_digit-bounded character e,
    hex_loop_lem rest (add_size (mul_size parsed 16) d),
    numeral-large rest 16 hex_digit (parsed * 16 + d) λ m c. omega arith,
  )
]

-- `ParseDecimalSize` gives the value of the text, if it is a numeral, not empty, whose value is
-- below 2 ^ 64, however long it is; it refuses every other text.
pub parse_decimal_size-exact :
    (text : List ℕ) → parse_decimal_size text ≡ size_of 10 decimal_digit text
unfolding parse_decimal_size
parse_decimal_size-exact [] = refl
parse_decimal_size-exact (character ∷ rest) = decimal_loop_lem (character ∷ rest) 0 (omega arith)

-- `ParseHexSize` does the same for hexadecimal numerals, in which the value of a digit is its place in
-- 0123456789abcdef or in 0123456789ABCDEF.
pub parse_hex_size-exact : (text : List ℕ) → parse_hex_size text ≡ size_of 16 digit_value text
unfolding parse_hex_size
parse_hex_size-exact [] = refl
parse_hex_size-exact (character ∷ rest) =
    hex_loop_lem (character ∷ rest) 0 (omega arith)
    ∙ ap sized (numeral-same (character ∷ rest) 16 hex_digit digit_value 0 hex_digit-value)
