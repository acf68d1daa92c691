-- ===== src/Protocol/Http2/Outbound/Streams.antt =====
-- `std::unordered_map` with the stream ids as keys, as the list of its pairs in the order of its
-- iteration: what src/protocol/http2/http2_outbound.cpp uses of it.
use iocp_http_runtime.Prelude.{
  ℕ, List, [], ◌∷◌, ◌==◌, if◌then◌else◌, Option, none, some, ◌≡◌, subst, inl, inr, Bool-cases,
  arith,
}

module _ {ℓ} {A : Type ℓ} where
  unfoldable pub find : ℕ → List (ℕ × A) → Option A
  find id [] = none
  find id ((key, value) ∷ entries) =
      let rest = find id entries in if key == id then some value else rest

  unfoldable pub erase : ℕ → List (ℕ × A) → List (ℕ × A)
  erase id [] = []
  erase id ((key, value) ∷ entries) =
      let rest = erase id entries in if key == id then entries else (key, value) ∷ rest

  unfoldable pub assign : ℕ → A → List (ℕ × A) → List (ℕ × A)
  assign id new [] = []
  assign id new ((key, value) ∷ entries) =
      let rest = assign id new entries in
      if key == id then (key, new) ∷ entries else (key, value) ∷ rest

  -- A property of every value.
  abbrev pub Each {κ} : (A → Type κ) → List (ℕ × A) → Type κ
  Each P [] = Unit
  Each P ((key, value) ∷ entries) = P value × Each P entries

  pub Each-find {κ} :
      (P : A → Type κ) (id : ℕ) (entries : List (ℕ × A)) {value : A}
      → Each P entries
      → find id entries ≡ some value
      → P value
  unfolding find
  Each-find P id [] h e = ground arith
  Each-find P id ((key, value) ∷ entries) h e = elim (Bool-cases (key == id)) [
    | inl y ↦ subst P (ground (arith, y, e)) h.0
    | inr n ↦ Each-find P id entries h.1 (ground (arith, n, e))
  ]

  pub Each-erase {κ} :
      (P : A → Type κ) (id : ℕ) (entries : List (ℕ × A))
      → Each P entries
      → Each P (erase id entries)
  unfolding erase
  Each-erase P id [] h = tt
  Each-erase P id ((key, value) ∷ entries) h = elim (Bool-cases (key == id)) [
    | inl y ↦ rw y h.1
    | inr n ↦ rw n (h.0, Each-erase P id entries h.1)
  ]

  pub Each-assign {κ} :
      (P : A → Type κ) (id : ℕ) (new : A) (entries : List (ℕ × A))
      → Each P entries
      → P new
      → Each P (assign id new entries)
  unfolding assign
  Each-assign P id new [] h p = tt
  Each-assign P id new ((key, value) ∷ entries) h p = elim (Bool-cases (key == id)) [
    | inl y ↦ rw y (p, h.1)
    | inr n ↦ rw n (h.0, Each-assign P id new entries h.1 p)
  ]

  pub Each-map {κ} :
      (P Q : A → Type κ)
      → ((value : A) → P value → Q value)
      → (entries : List (ℕ × A)) → Each P entries
      → Each Q entries
  Each-map P Q f [] h = tt
  Each-map P Q f ((key, value) ∷ entries) h = (f value h.0, Each-map P Q f entries h.1)
