-- ===== src/Protocol/Http2/Hpack/Search.antt =====
-- The searches of the encoder: an index that they find is one that `Lookup` resolves.
use iocp_http_runtime.Prelude.{
  ℕ, suc, ◌+◌, ◌-◌, ◌*◌, ◌^◌, ◌≤◌, ◌<◌, ◌≡◌, refl, sym, ap, ap₂, ◌∙◌, List, [], ◌∷◌, arith, ◌==◌,
  ==→eq, Bool, true, Bool-cases, Option-cases, inl, inr, some, length, get_elem?, get_elem?-drop,
  drop, length-drop, ok,
}
use iocp_http_runtime.Protocol.Http2.Hpack.StaticTable.{TableEntry, static_table}
use iocp_http_runtime.Protocol.Http2.Hpack.Table.{HpackCodec, lookup}
use iocp_http_runtime.Protocol.Http2.Hpack.Evict.{IsValid, total}
use iocp_http_runtime.Protocol.Http2.Hpack.{same_string, find_entry, find_index}

pub same_string→eq : (xs ys : List ℕ) → same_string xs ys ≡ true → xs ≡ ys
unfolding same_string
same_string→eq [] [] e = refl
same_string→eq [] (y ∷ ys) e = cc e
same_string→eq (x ∷ xs) [] e = cc e
same_string→eq (x ∷ xs) (y ∷ ys) e = elim (Bool-cases (x == y)) [
  | inl same ↦ ap₂ (λ z zs. z ∷ zs) (==→eq x y same) (same_string→eq xs ys (ground arith))
  | inr other ↦ absurd (ground arith)
]

-- What a search finds stands at that index, and passes the test.
find_entry_lem :
    (table : List TableEntry) (test : TableEntry → Bool) (i : ℕ) {k : ℕ}
    → find_entry test i table ≡ some k
    → (entry : TableEntry) × (i ≤ k)
      × (k < i + length table)
      × (get_elem? table (k - i) ≡ some entry)
      × (test entry ≡ true)
unfolding find_entry
find_entry_lem [] test i e = absurd (cc e)
find_entry_lem (entry ∷ table) test i {k} e = elim (Bool-cases (test entry)) [
  | inl passes ↦
      let here : i ≡ k = ground arith in
      (entry, omega (arith, here), omega (arith, here), ground (arith, here), passes)
  | inr fails ↦
      let found = find_entry_lem table test (suc i) {k = k} (ground arith) in
      (
        found.0,
        omega (arith, found.1),
        omega (arith, found.2),
        ground (arith, found.1, found.3),
        found.4,
      )
]

length-total : (table : List TableEntry) → 32 * length table ≤ total table
length-total [] = omega arith
length-total (entry ∷ table) = omega (arith, length-total table)

length-static_table : length static_table ≡ 62
unfolding static_table
length-static_table = refl

static_lookup :
    (codec : HpackCodec) {k : ℕ} {entry : TableEntry}
    → 1 ≤ k
    → get_elem? (drop 1 static_table) (k - 1) ≡ some entry
    → k < 62
    → lookup codec k ≡ ok entry
unfolding lookup
static_lookup codec {k} {entry} p e small = ground (arith, length-static_table, there)
  where
    there : get_elem? static_table k ≡ some entry
    there =
        ap (get_elem? static_table) {x = k} {y = 1 + (k - 1)} (omega arith)
        ∙ sym (get_elem?-drop 1 static_table (k - 1))
        ∙ e

dynamic_lookup :
    (codec : HpackCodec) {k : ℕ} {entry : TableEntry}
    → 62 ≤ k
    → get_elem? codec.dynamic_table (k - 62) ≡ some entry
    → lookup codec k ≡ ok entry
unfolding lookup
dynamic_lookup codec {k} {entry} p e = ground (arith, length-static_table, there)
  where
    there : get_elem? codec.dynamic_table (k - length static_table) ≡ some entry
    there = ap (λ n. get_elem? codec.dynamic_table (k - n)) length-static_table ∙ e

-- An index that the encoder finds is a number of 32 bits that is not 0, and a decoder with the same
-- dynamic table resolves it to an entry that passes the test.
pub find_index-lookup :
    {codec : HpackCodec} (peer : HpackCodec) {test : TableEntry → Bool} {k : ℕ}
    → IsValid codec
    → peer.dynamic_table ≡ codec.dynamic_table
    → find_index codec test ≡ some k
    → (entry : TableEntry) × (0 < k)
      × (k < 2 ^ 32)
      × (lookup peer k ≡ ok entry)
      × (test entry ≡ true)
unfolding find_index
find_index-lookup {codec} peer {test} {k} v same e =
    elim (Option-cases (find_entry test 1 (drop 1 static_table))) [
      | inl missing ↦
          let found =
            find_entry_lem codec.dynamic_table test (length static_table) {k = k}
              (ground (arith, missing)) in
          (
            found.0,
            omega (arith, found.1, length-static_table),
            omega (arith, found.2, length-static_table, length-total codec.dynamic_table, v),
            dynamic_lookup peer (omega (arith, found.1, length-static_table))
                (ap₂ get_elem? same (ap (λ n. k - n) (sym length-static_table)) ∙ found.3),
            found.4,
          )
      | inr (index, hit) ↦
          let found = find_entry_lem (drop 1 static_table) test 1 {k = k} (ground (arith, hit)) in
          let short : k < 62 =
            omega (arith, found.2, length-drop 1 static_table, length-static_table) in
          (
            found.0,
            omega (arith, found.1),
            omega (arith, short),
            static_lookup peer found.1 found.3 short,
            found.4,
          )
    ]
