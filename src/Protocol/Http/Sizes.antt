-- ===== src/Protocol/Http/Sizes.antt =====
-- `ParseDecimalSize` and `ParseHexSize` of src/protocol/http/http_request_parser.cpp: the lengths in
-- Content-Length and in chunk headers. Text is the list of its octets; `none` where they return false.
pub mod Exact
use iocp_http_runtime.Prelude.{
  ℕ, ◌+◌, ◌-◌, ◌/◌, ◌^◌, List, [], ◌∷◌, if◌then◌else◌, ltb, leb, ◌&&◌, ◌||◌, true, false, Option,
  none, some, add_size, mul_size,
}

-- The loop of `ParseDecimalSize`.
unfoldable pub decimal_loop : List ℕ → ℕ → Option ℕ
decimal_loop [] parsed = some parsed
decimal_loop (character ∷ rest) parsed = elim (ltb character 48 || ltb 57 character) [
  | true ↦ none
  | false ↦
      let digit = character - 48 in
      elim (ltb ((2 ^ 64 - 1 - digit) / 10) parsed) [
        | true ↦ none
        | false ↦ decimal_loop rest (add_size (mul_size parsed 10) digit)
      ]
]

unfoldable pub parse_decimal_size : List ℕ → Option ℕ
parse_decimal_size [] = none
parse_decimal_size (character ∷ rest) = decimal_loop (character ∷ rest) 0

-- The three ranges of hexadecimal digits.
unfoldable pub hex_digit : ℕ → Option ℕ
hex_digit byte =
    if leb 48 byte && leb byte 57
    then some (byte - 48)
    else if leb 97 byte && leb byte 102
    then some (byte - 97 + 10)
    else if leb 65 byte && leb byte 70
    then some (byte - 65 + 10)
    else none

-- The loop of `ParseHexSize`.
unfoldable pub hex_loop : List ℕ → ℕ → Option ℕ
hex_loop [] parsed = some parsed
hex_loop (character ∷ rest) parsed = elim (ltb ((2 ^ 64 - 1) / 16) parsed) [
  | true ↦ none
  | false ↦ elim (hex_digit character) [
    | none ↦ none
    | some digit ↦ hex_loop rest (add_size (mul_size parsed 16) digit)
  ]
]

unfoldable pub parse_hex_size : List ℕ → Option ℕ
parse_hex_size [] = none
parse_hex_size (character ∷ rest) = hex_loop (character ∷ rest) 0
