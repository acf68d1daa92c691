-- ===== src/Protocol/Preface/Decide.antt =====
-- When a stream can be told from the preface of src/protocol/preface_protocol_bootstrap.cpp.
use iocp_http_runtime.Prelude.{
  ℕ, ◌+◌, ◌≡◌, inl, inr, List, [], ◌∷◌, ◌++◌, Bool, true, false, ◌==◌, if◌then◌else◌, Bool-cases,
  length, get_elem?, Option, none, some, arith,
}
use iocp_http_runtime.Protocol.Preface.{is_expected}

-- Which session a stream is for, as soon as it can be told: `some true` where it begins with the
-- preface, `some false` where it departs from it.
abbrev pub decide : List ℕ → List ℕ → Option Bool
decide [] stream = some true
decide (expected ∷ preface) [] = none
decide (expected ∷ preface) (value ∷ stream) =
    if value == expected then decide preface stream else some false

pub decide-push :
    (preface stream : List ℕ) (value : ℕ)
    → decide preface stream ≡ none
    → decide preface (stream ++ value ∷ []) ≡ (
        if is_expected (get_elem? preface (length stream)) value
        then if length stream + 1 == length preface then some true else none
        else some false)
decide-push [] stream value e = ground arith
decide-push (expected ∷ []) [] value e = ground arith
decide-push (expected ∷ next ∷ preface) [] value e = ground arith
decide-push (expected ∷ preface) (x ∷ stream) value e =
    ground (arith, e, decide-push preface stream value (ground (arith, e)))

pub decide-later :
    (preface stream more : List ℕ) (k : Bool)
    → decide preface stream ≡ some k
    → decide preface (stream ++ more) ≡ some k
decide-later [] stream more k e = e
decide-later (expected ∷ preface) [] more k e = ground arith
decide-later (expected ∷ preface) (x ∷ stream) more k e = elim (Bool-cases (x == expected)) [
  | inl y ↦ ground (arith, y, decide-later preface stream more k (ground (arith, e, y)))
  | inr n ↦ ground (arith, n, e)
]
