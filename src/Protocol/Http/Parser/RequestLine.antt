-- ===== src/Protocol/Http/Parser/RequestLine.antt =====
-- A request line is parsed to the parts that it was put together from.
use iocp_http_runtime.Prelude.{
  ℕ, ◌≡◌, ◌≢◌, ◌≤◌, ◌⊎◌, subst, ap, ◌∙◌, sym, Option, refl, List, [], ◌∷◌, ◌++◌, true, false, inl,
  inr, Option-cases, none, some, arith,
}
use iocp_http_runtime.Protocol.Http2.Hpack.{same_string}
use iocp_http_runtime.Protocol.Http.Parser.{HttpRequestParser, HttpRequest, HttpMethod}
use iocp_http_runtime.Protocol.Http.Parser.Method.{IsMethod, parse_method_lem}
use iocp_http_runtime.Protocol.Http.Parser.Text.{
  is_token_character, is_one_of, all, split_at, parse_method,
}
use iocp_http_runtime.Protocol.Http.Parser.Headers.{
  is_nil, has, starts_with, split_request_line, version_text, path_of, query_of, parse_request_line,
}

-- Without the character, all stands before its next occurrence.
split_at-append :
    (d : ℕ) (xs ys : List ℕ) → split_at d xs ≡ none → split_at d (xs ++ d ∷ ys) ≡ some (xs, ys)
unfolding split_at
split_at-append d [] ys e = ground arith
split_at-append d (x ∷ xs) ys e = elim (Option-cases (split_at d xs)) [
  | inl n ↦ ground (arith, e, split_at-append d xs ys n)
  | inr (r, m) ↦ ground (arith, e, m)
]

-- No space is a token character.
token-no_space : (xs : List ℕ) → all is_token_character xs ≡ true → split_at 32 xs ≡ none
unfolding split_at is_token_character is_one_of
token-no_space [] e = refl
token-no_space (x ∷ xs) e = ground (arith, e, token-no_space xs (ground (arith, e)))

split_request_line_lem :
    (method target : List ℕ)
    → is_nil method ≡ false
    → is_nil target ≡ false
    → split_at 32 method ≡ none
    → split_at 32 target ≡ none
    → split_request_line (method ++ 32 ∷ (target ++ 32 ∷ version_text))
      ≡ some (method, target, version_text)
unfolding split_request_line split_at
split_request_line_lem method target m t em et = ground (
  arith,
  split_at-append 32 method (target ++ 32 ∷ version_text) em,
  split_at-append 32 target version_text et,
)

path-filled : (target : List ℕ) → starts_with 47 target ≡ true → is_nil (path_of target) ≡ false
unfolding split_at
path-filled [] e = ground arith
path-filled (c ∷ cs) e = elim (Option-cases (split_at 63 cs)) [
  | inl n ↦ ground (arith, e, n)
  | inr (r, m) ↦ ground (arith, e, m)
]

starts-filled : (target : List ℕ) → starts_with 47 target ≡ true → is_nil target ≡ false
starts-filled [] e = ground arith
starts-filled (c ∷ cs) e = refl

abbrev with_target : HttpRequest → List ℕ → List ℕ → HttpRequest
with_target request method target = record request {
  method = parse_method method;
  method_text = method;
  target = target;
  path = path_of target;
  query = query_of request.query target;
}

-- What the parser makes of a line with that method and target.
parse_request_line-parts :
    (p : HttpRequestParser) (method target : List ℕ)
    → is_nil method ≡ false
    → all is_token_character method ≡ true
    → starts_with 47 target ≡ true
    → split_at 32 target ≡ none
    → has 35 target ≡ false
    → parse_request_line p (method ++ 32 ∷ (target ++ 32 ∷ version_text))
      ≡ (true, record p { request = with_target p.request method target })
unfolding parse_request_line same_string
parse_request_line-parts p method target m token slash space hash =
    let filled : is_nil target ≡ false = starts-filled target slash in
    ground (
      arith,
      split_request_line_lem method target m filled (token-no_space method token) space,
      token,
      slash,
      hash,
      path-filled target slash,
    )

-- The token characters: letters, digits and ! # $ % & ' * + - . ^ _ ` | ~.
abbrev pub IsTchar : ℕ → Type 0
IsTchar c =
    ((48 ≤ c) × (c ≤ 57))
    ⊎ (((65 ≤ c) × (c ≤ 90))
        ⊎ (((94 ≤ c) × (c ≤ 122))
            ⊎ ((c ≡ 33)
                ⊎ (((35 ≤ c) × (c ≤ 39))
                    ⊎ ((c ≡ 42)
                        ⊎ ((c ≡ 43) ⊎ ((c ≡ 45) ⊎ ((c ≡ 46) ⊎ ((c ≡ 124) ⊎ (c ≡ 126))))))))))

abbrev pub Each : (ℕ → Type 0) → List ℕ → Type 0
Each P [] = Unit
Each P (c ∷ cs) = P c × Each P cs

-- No space, no number sign and no question mark; in the query a question mark may stand.
abbrev pub InPath : ℕ → Type 0
InPath c = (c ≢ 32) × (c ≢ 35) × (c ≢ 63)

abbrev pub InQuery : ℕ → Type 0
InQuery c = (c ≢ 32) × (c ≢ 35)

abbrev pub target_of : List ℕ → Option (List ℕ) → List ℕ
target_of path none = path
target_of path (some query) = path ++ 63 ∷ query

abbrev pub query_or : List ℕ → Option (List ℕ) → List ℕ
query_or old none = old
query_or old (some query) = query

abbrev pub QueryFits : Option (List ℕ) → Type 0
QueryFits none = Unit
QueryFits (some query) = Each InQuery query

Each-token : (xs : List ℕ) → Each IsTchar xs → all is_token_character xs ≡ true
unfolding is_token_character is_one_of
Each-token [] h = refl
Each-token (x ∷ xs) h = let (t, ts) = h in ground (arith, t, Each-token xs ts)

Each-absent :
    {P : ℕ → Type 0} (d : ℕ)
    → ((c : ℕ) → P c → c ≢ d)
    → (xs : List ℕ) → Each P xs
    → split_at d xs ≡ none
unfolding split_at
Each-absent d differs [] h = refl
Each-absent d differs (x ∷ xs) h = ground (arith, differs x h.0, Each-absent d differs xs h.1)

absent-append :
    (d : ℕ) (xs ys : List ℕ)
    → split_at d xs ≡ none
    → split_at d ys ≡ none
    → split_at d (xs ++ ys) ≡ none
unfolding split_at
absent-append d [] ys e k = k
absent-append d (x ∷ xs) ys e k = elim (Option-cases (split_at d xs)) [
  | inl n ↦ ground (arith, e, absent-append d xs ys n k)
  | inr (r, m) ↦ ground (arith, e, m)
]

absent-target :
    (d : ℕ) (path : List ℕ) (query : Option (List ℕ))
    → d ≢ 47
    → d ≢ 63
    → ((c : ℕ) → InQuery c → c ≢ d)
    → Each InPath path
    → QueryFits query
    → split_at d (target_of (47 ∷ path) query) ≡ none
unfolding split_at
absent-target d path none slash mark differs h q =
    ground (arith, slash, Each-absent d (λ c k. differs c (k.0, k.1)) path h)
absent-target d path (some query) slash mark differs h q =
    let path_absent : split_at d path ≡ none = Each-absent d (λ c k. differs c (k.0, k.1)) path h in
    let query_absent : split_at d (63 ∷ query) ≡ none =
      ground (arith, mark, Each-absent d differs query q) in
    ground (arith, slash, absent-append d path (63 ∷ query) path_absent query_absent)

target-slash :
    (path : List ℕ) (query : Option (List ℕ)) → starts_with 47 (target_of (47 ∷ path) query) ≡ true
target-slash path none = refl
target-slash path (some query) = refl

split_target :
    (path : List ℕ) (query : Option (List ℕ))
    → Each InPath path
    → split_at 63 (target_of (47 ∷ path) query)
      ≡ elim query [ none ↦ none | some q ↦ some (47 ∷ path, q) ]
unfolding split_at
split_target path none h = ground (arith, Each-absent 63 (λ c k. k.2) path h)
split_target path (some q) h =
    ground (arith, split_at-append 63 path q (Each-absent 63 (λ c k. k.2) path h))

target-parts :
    (request : HttpRequest) (method path : List ℕ) (query : Option (List ℕ)) {m : HttpMethod}
    → IsMethod method m
    → Each InPath path
    → with_target request method (target_of (47 ∷ path) query) ≡ record request {
      method = m;
      method_text = method;
      target = target_of (47 ∷ path) query;
      path = 47 ∷ path;
      query = query_or request.query query;
    }
target-parts request method path none {m} is h =
    subst
      (λ (s : Option (List ℕ × List ℕ)).
        record request {
          method = parse_method method;
          method_text = method;
          target = 47 ∷ path;
          path = elim s [ none ↦ 47 ∷ path | some (before, behind) ↦ before ];
          query = elim s [ none ↦ request.query | some (before, behind) ↦ behind ];
        }
        ≡ record request {
          method = m;
          method_text = method;
          target = 47 ∷ path;
          path = 47 ∷ path;
          query = request.query;
        })
      {x = none} {y = split_at 63 (47 ∷ path)} (sym (split_target path none h))
      (ap
        (λ (k : HttpMethod). record request {
          method = k;
          method_text = method;
          target = 47 ∷ path;
          path = 47 ∷ path;
          query = request.query;
        })
        (parse_method_lem is))
target-parts request method path (some q) {m} is h =
    subst
      (λ (s : Option (List ℕ × List ℕ)).
        record request {
          method = parse_method method;
          method_text = method;
          target = 47 ∷ (path ++ 63 ∷ q);
          path = elim s [ none ↦ 47 ∷ (path ++ 63 ∷ q) | some (before, behind) ↦ before ];
          query = elim s [ none ↦ request.query | some (before, behind) ↦ behind ];
        }
        ≡ record request {
          method = m;
          method_text = method;
          target = 47 ∷ (path ++ 63 ∷ q);
          path = 47 ∷ path;
          query = q;
        })
      {x = some (47 ∷ path, q)} {y = split_at 63 (47 ∷ (path ++ 63 ∷ q))}
      (sym (split_target path (some q) h))
      (ap
        (λ (k : HttpMethod). record request {
          method = k;
          method_text = method;
          target = 47 ∷ (path ++ 63 ∷ q);
          path = 47 ∷ path;
          query = q;
        })
        (parse_method_lem is))

-- A method of one token character or more, a path that begins with a slash and has no space, number
-- sign or question mark, behind a question mark perhaps a query without spaces and number signs, and
-- HTTP/1.1, with a space between the three parts, are parsed to that path and that query, or the
-- query there was where none stands in the line; and to the method whose name the text is, or the
-- one for unsupported methods if it is no such name.
pub parse_request_line_lem :
    (p : HttpRequestParser) (first : ℕ) (letters path : List ℕ) (query : Option (List ℕ))
    {m : HttpMethod}
    → Each IsTchar (first ∷ letters)
    → IsMethod (first ∷ letters) m
    → Each InPath path
    → QueryFits query
    → parse_request_line p (
        (first ∷ letters)
        ++ 32 ∷ (target_of (47 ∷ path) query ++ 32 ∷ 72 ∷ 84 ∷ 84 ∷ 80 ∷ 47 ∷ 49 ∷ 46 ∷ 49 ∷ []))
      ≡ (
        true,
        record p {
          request = record p.request {
            method = m;
            method_text = first ∷ letters;
            target = target_of (47 ∷ path) query;
            path = 47 ∷ path;
            query = query_or p.request.query query;
          };
        },
      )
parse_request_line_lem p first letters path query tokens is h q =
    parse_request_line-parts p (first ∷ letters) (target_of (47 ∷ path) query) refl
      (Each-token (first ∷ letters) tokens) (target-slash path query)
      (absent-target 32 path query (ground arith) (ground arith) (λ c k. k.0) h q)
      (ap (λ s. elim s [ none ↦ false | some parts ↦ true ])
        (absent-target 35 path query (ground arith) (ground arith) (λ c k. k.1) h q))
    ∙ ap (λ request. (true, record p { request = request }))
        (target-parts p.request (first ∷ letters) path query is h)
