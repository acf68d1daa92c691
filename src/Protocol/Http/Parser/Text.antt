-- ===== src/Protocol/Http/Parser/Text.antt =====
-- The functions on text of src/protocol/http/http_request_parser.cpp, with `std::isalnum` and
-- `std::tolower` of the "C" locale, and `ParseMethod` of src/protocol/http/http_message.cpp.
use iocp_http_runtime.Prelude.{
  ℕ, ◌+◌, List, [], ◌∷◌, Bool, true, false, ◌&&◌, ◌||◌, ◌==◌, if◌then◌else◌, leb, map, Option, none,
  some,
}
use iocp_http_runtime.Protocol.Http.Parser.{HttpMethod}
use iocp_http_runtime.Protocol.Http2.Hpack.{same_string}

unfoldable pub is_one_of : ℕ → List ℕ → Bool
is_one_of c [] = false
is_one_of c (d ∷ ds) = (c == d) || is_one_of c ds

abbrev pub is_alnum : ℕ → Bool
is_alnum c = (leb 48 c && leb c 57) || ((leb 65 c && leb c 90) || (leb 97 c && leb c 122))

unfoldable pub is_token_character : ℕ → Bool
unfolding is_one_of
is_token_character c =
    is_alnum c
    || is_one_of c (33 ∷ 35 ∷ 36 ∷ 37 ∷ 38 ∷ 39 ∷ 42 ∷ 43 ∷ 45 ∷ 46 ∷ 94 ∷ 95 ∷ 96 ∷ 124 ∷ 126 ∷ [])

abbrev pub all : (ℕ → Bool) → List ℕ → Bool
all test [] = true
all test (c ∷ cs) = test c && all test cs

unfoldable pub lowercase : List ℕ → List ℕ
lowercase value = map (λ c. if leb 65 c && leb c 90 then c + 32 else c) value

abbrev pub is_blank : ℕ → Bool
is_blank c = (c == 32) || (c == 9)

unfoldable pub trim_front : List ℕ → List ℕ
trim_front [] = []
trim_front (c ∷ cs) = let rest = trim_front cs in if is_blank c then rest else c ∷ cs

unfoldable pub trim_back : List ℕ → List ℕ
trim_back [] = []
trim_back (c ∷ cs) = elim (trim_back cs) [
  | [] ↦ if is_blank c then [] else c ∷ []
  | d ∷ ds ↦ c ∷ d ∷ ds
]

unfoldable pub trim_optional_whitespace : List ℕ → List ℕ
trim_optional_whitespace value = trim_back (trim_front value)

-- `find` of a character: what stands before its first occurrence, and what stands behind it.
unfoldable pub split_at : ℕ → List ℕ → Option (List ℕ × List ℕ)
split_at d [] = none
split_at d (c ∷ cs) =
    let rest = split_at d cs in
    if c == d
    then some ([], cs)
    else elim rest [ none ↦ none | some (before, behind) ↦ some (c ∷ before, behind) ]

-- The parts of a value between its commas.
unfoldable pub comma_parts : List ℕ → List (List ℕ)
comma_parts [] = [] ∷ []
comma_parts (c ∷ cs) = elim (comma_parts cs) [
  | [] ↦ []
  | part ∷ parts ↦ if c == 44 then [] ∷ part ∷ parts else (c ∷ part) ∷ parts
]

unfoldable pub any_part : List ℕ → List (List ℕ) → Bool
any_part expected [] = false
any_part expected (part ∷ parts) =
    same_string (lowercase (trim_optional_whitespace part)) expected || any_part expected parts

unfoldable pub header_contains_token : List ℕ → List ℕ → Bool
header_contains_token value expected = any_part expected (comma_parts value)

unfoldable pub skip_chunk_extension : List ℕ → List ℕ
skip_chunk_extension value = elim (split_at 59 value) [
  | none ↦ value
  | some (before, behind) ↦ before
]

unfoldable pub parse_method : List ℕ → HttpMethod
parse_method value =
    if same_string value (71 ∷ 69 ∷ 84 ∷ [])
    then HttpMethod.get
    else if same_string value (80 ∷ 79 ∷ 83 ∷ 84 ∷ [])
    then HttpMethod.post
    else if same_string value (80 ∷ 85 ∷ 84 ∷ [])
    then HttpMethod.put
    else if same_string value (68 ∷ 69 ∷ 76 ∷ 69 ∷ 84 ∷ 69 ∷ [])
    then HttpMethod.delete
    else if same_string value (80 ∷ 65 ∷ 84 ∷ 67 ∷ 72 ∷ [])
    then HttpMethod.patch
    else if same_string value (72 ∷ 69 ∷ 65 ∷ 68 ∷ [])
    then HttpMethod.head
    else if same_string value (79 ∷ 80 ∷ 84 ∷ 73 ∷ 79 ∷ 78 ∷ 83 ∷ [])
    then HttpMethod.options
    else HttpMethod.unsupported

-- `MethodName`.
abbrev pub method_name : HttpMethod → List ℕ
method_name HttpMethod.get = 71 ∷ 69 ∷ 84 ∷ []
method_name HttpMethod.post = 80 ∷ 79 ∷ 83 ∷ 84 ∷ []
method_name HttpMethod.put = 80 ∷ 85 ∷ 84 ∷ []
method_name HttpMethod.delete = 68 ∷ 69 ∷ 76 ∷ 69 ∷ 84 ∷ 69 ∷ []
method_name HttpMethod.patch = 80 ∷ 65 ∷ 84 ∷ 67 ∷ 72 ∷ []
method_name HttpMethod.head = 72 ∷ 69 ∷ 65 ∷ 68 ∷ []
method_name HttpMethod.options = 79 ∷ 80 ∷ 84 ∷ 73 ∷ 79 ∷ 78 ∷ 83 ∷ []
method_name HttpMethod.unsupported = 85 ∷ 78 ∷ 83 ∷ 85 ∷ 80 ∷ 80 ∷ 79 ∷ 82 ∷ 84 ∷ 69 ∷ 68 ∷ []
