-- ===== src/Protocol/Http/Parser/Method.antt =====
-- `ParseMethod` and `MethodName` of src/protocol/http/http_message.cpp.
use iocp_http_runtime.Prelude.{ℕ, ◌≡◌, ◌≢◌, refl, sym, ap, ◌∙◌, List, Bool, true, false, arith}
use iocp_http_runtime.Protocol.Http2.Hpack.{same_string}
use iocp_http_runtime.Protocol.Http2.Hpack.Search.{same_string→eq}
use iocp_http_runtime.Protocol.Http.Parser.{HttpMethod}
use iocp_http_runtime.Protocol.Http.Parser.Text.{parse_method, method_name}

-- A text names a method that is supported, or none of them.
pub data IsMethod (text : List ℕ) (m : HttpMethod) : Type 0 where
  known : m ≢ HttpMethod.unsupported → text ≡ method_name m → IsMethod text m
  other :
      m ≡ HttpMethod.unsupported
      → ((k : HttpMethod) → k ≢ HttpMethod.unsupported → text ≢ method_name k)
      → IsMethod text m

parse_method-name : (m : HttpMethod) → m ≢ HttpMethod.unsupported → parse_method (method_name m) ≡ m
unfolding parse_method same_string
parse_method-name HttpMethod.get n = refl
parse_method-name HttpMethod.post n = refl
parse_method-name HttpMethod.put n = refl
parse_method-name HttpMethod.delete n = refl
parse_method-name HttpMethod.patch n = refl
parse_method-name HttpMethod.head n = refl
parse_method-name HttpMethod.options n = refl
parse_method-name HttpMethod.unsupported n = absurd (n refl)

-- No name of a supported method is the text, so no test succeeds.
parse_method-other :
    (text : List ℕ)
    → ((k : HttpMethod) → k ≢ HttpMethod.unsupported → text ≢ method_name k)
    → parse_method text ≡ HttpMethod.unsupported
unfolding parse_method
parse_method-other text differs = ground (
  arith,
  fails HttpMethod.get (ground arith),
  fails HttpMethod.post (ground arith),
  fails HttpMethod.put (ground arith),
  fails HttpMethod.delete (ground arith),
  fails HttpMethod.patch (ground arith),
  fails HttpMethod.head (ground arith),
  fails HttpMethod.options (ground arith),
)
  where
    if_false : (b : Bool) → (b ≢ true) → b ≡ false
    if_false true n = absurd (n refl)
    if_false false n = refl

    fails : (k : HttpMethod) → k ≢ HttpMethod.unsupported → same_string text (method_name k) ≡ false
    fails k supported =
        if_false (same_string text (method_name k))
          (λ e. differs k supported (same_string→eq text (method_name k) e))

pub parse_method_lem : {text : List ℕ} {m : HttpMethod} → IsMethod text m → parse_method text ≡ m
parse_method_lem {m = m} (known n e) = ap parse_method e ∙ parse_method-name m n
parse_method_lem {text} (other e differs) = parse_method-other text differs ∙ sym e
