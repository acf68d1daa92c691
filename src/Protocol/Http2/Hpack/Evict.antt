-- ===== src/Protocol/Http2/Hpack/Evict.antt =====
-- What eviction leaves of the dynamic table.
use iocp_http_runtime.Prelude.{
  ℕ, zero, suc, ◌+◌, ◌-◌, ◌^◌, ◌≤◌, ◌<◌, ◌≡◌, refl, sym, ap, ◌∙◌, List, [], ◌∷◌, arith,
  if◌then◌else◌, ltb, leb, leb→le, ltb→lt, ltb-false→le, Bool-cases, inl, inr, length, ok, throws,
  runtime_error, some, add_size, sub_size, subst, ◌⊎◌,
}
use iocp_http_runtime.Protocol.Http2.Hpack.StaticTable.{TableEntry}
use iocp_http_runtime.Protocol.Http2.Hpack.Table.{
  HpackCodec, entry_size, split_last, evict_loop, evict_dynamic_table, add_dynamic_entry,
  set_dynamic_table_size,
}

-- The size of an entry, and of a table, that no word limits.
abbrev pub weight : TableEntry → ℕ
weight entry = length entry.name + length entry.value + 32

abbrev pub total : List TableEntry → ℕ
total [] = 0
total (entry ∷ table) = weight entry + total table

-- The longest prefix of the table, which has its newest entries first, within the limit.
abbrev pub newest : ℕ → List TableEntry → List TableEntry
newest limit [] = []
newest limit (entry ∷ table) =
    let rest = newest (limit - weight entry) table in
    if leb (weight entry) limit then entry ∷ rest else []

-- The table is accounted for and within its limit, which is within the configured one.
pub record IsValid (codec : HpackCodec) : Type 0 where
  pub accounted : codec.dynamic_table_size ≡ total codec.dynamic_table
  pub within : codec.dynamic_table_size ≤ codec.current_dynamic_table_limit
  pub configured : codec.current_dynamic_table_limit ≤ codec.maximum_dynamic_table_size
  pub addressable : codec.maximum_dynamic_table_size < 2 ^ 32

newest-all :
    (table : List TableEntry) (limit : ℕ) → total table ≤ limit → newest limit table ≡ table
newest-all [] limit h = refl
newest-all (entry ∷ table) limit h =
    ground (arith, newest-all table (limit - weight entry) (omega arith))

pub total-newest : (table : List TableEntry) (limit : ℕ) → total (newest limit table) ≤ limit
total-newest [] limit = omega arith
total-newest (entry ∷ table) limit = ground (arith, total-newest table (limit - weight entry))

split_last-total :
    (rest : List TableEntry) (first : TableEntry)
    → total (split_last first rest).0 + weight (split_last first rest).1 ≡ total (first ∷ rest)
split_last-total [] first = omega arith
split_last-total (second ∷ rest) first = omega (arith, split_last-total rest second)

split_last-length :
    (rest : List TableEntry) (first : TableEntry) → length (split_last first rest).0 ≡ length rest
split_last-length [] first = refl
split_last-length (second ∷ rest) first = ap suc (split_last-length rest second)

split_last-newest :
    (rest : List TableEntry) (first : TableEntry) (limit : ℕ)
    → limit < total (first ∷ rest)
    → newest limit (first ∷ rest) ≡ newest limit (split_last first rest).0
split_last-newest [] first limit h = ground arith
split_last-newest (second ∷ rest) first limit h = elim (Bool-cases (leb (weight first) limit)) [
  | inl e ↦ rw e (
      ap (λ xs. first ∷ xs)
        (split_last-newest rest second (limit - weight first) (omega (arith, leb→le _ _ e))))
  | inr e ↦ rw e refl
]

evict_loop_lem :
    (fuel limit : ℕ) (table : List TableEntry)
    → length table ≤ fuel
    → total table < 2 ^ 64
    → evict_loop fuel limit table (total table) ≡ (newest limit table, total (newest limit table))
unfolding evict_loop
evict_loop_lem zero limit [] h small = refl
evict_loop_lem zero limit (first ∷ rest) h small = absurd (omega arith)
evict_loop_lem (suc fuel) limit [] h small = refl
evict_loop_lem (suc fuel) limit (first ∷ rest) h small =
    elim (Bool-cases (ltb limit (total (first ∷ rest)))) [
      | inl over ↦
          rw (over, evict_loop)
            (ap (evict_loop fuel limit init) left
              ∙ (evict_loop_lem fuel limit init (omega (arith, split_last-length rest first))
                    (omega (arith, split_last-total rest first))
                  ∙ sym (
                      ap (λ xs. (xs, total xs))
                        (split_last-newest rest first limit (ltb→lt _ _ over)))))
      | inr fits ↦
          rw (fits, evict_loop)
            (sym
              (ap (λ xs. (xs, total xs)) (newest-all (first ∷ rest) limit (ltb-false→le _ _ fits))))
    ]
  where
    init : List TableEntry
    init = (split_last first rest).0

    left : sub_size (total (first ∷ rest)) (entry_size (split_last first rest).1) ≡ total init
    left = omega (arith, split_last-total rest first)

-- The codec with the newest entries of a table.
abbrev pub trimmed : HpackCodec → List TableEntry → HpackCodec
trimmed codec table = record codec {
  dynamic_table = newest codec.current_dynamic_table_limit table;
  dynamic_table_size = total (newest codec.current_dynamic_table_limit table);
}

trimmed-IsValid :
    (codec : HpackCodec) (table : List TableEntry)
    → codec.current_dynamic_table_limit ≤ codec.maximum_dynamic_table_size
    → codec.maximum_dynamic_table_size < 2 ^ 32
    → IsValid (trimmed codec table)
trimmed-IsValid codec table h small = record {
  accounted = refl;
  within = total-newest table codec.current_dynamic_table_limit;
  configured = h;
  addressable = small;
}

-- `AddDynamicEntry` on a valid codec leaves the longest run of newest entries, the new one first,
-- that fits the limit, and none at all if the new one alone does not fit; the codec stays valid.
pub add_dynamic_entry-newest :
    {codec : HpackCodec} (entry : TableEntry)
    → IsValid codec
    → weight entry < 2 ^ 63
    → (add_dynamic_entry codec entry ≡ trimmed codec (entry ∷ codec.dynamic_table))
      × IsValid (add_dynamic_entry codec entry)
unfolding add_dynamic_entry evict_dynamic_table
add_dynamic_entry-newest {codec} entry v small = (
  same,
  subst IsValid (sym same)
      (trimmed-IsValid codec (entry ∷ codec.dynamic_table) v.configured v.addressable),
)
  where
    size :
        add_size codec.dynamic_table_size (entry_size entry) ≡ total (entry ∷ codec.dynamic_table)
    size = omega (arith, v)

    same : add_dynamic_entry codec entry ≡ trimmed codec (entry ∷ codec.dynamic_table)
    same = elim (Bool-cases (ltb codec.current_dynamic_table_limit (entry_size entry))) [
      | inl e ↦ ground (arith, v)
      | inr e ↦
          rw (e, add_dynamic_entry)
            (ap (λ out. record codec { dynamic_table = out.0; dynamic_table_size = out.1 })
              (ap
                  (evict_loop (suc (length codec.dynamic_table)) codec.current_dynamic_table_limit
                    (entry ∷ codec.dynamic_table))
                  size
                ∙ evict_loop_lem (suc (length codec.dynamic_table))
                    codec.current_dynamic_table_limit (entry ∷ codec.dynamic_table) (omega arith)
                    (omega (arith, v))))
    ]

-- `SetDynamicTableSize` on a valid codec throws exactly above the configured maximum, and else
-- leaves the longest run of newest entries that fits the new limit, which it has to announce; the
-- codec stays valid.
pub set_dynamic_table_size-newest :
    {codec : HpackCodec} (new_size : ℕ)
    → IsValid codec
    → ((codec.maximum_dynamic_table_size < new_size)
        × (set_dynamic_table_size codec new_size ≡ throws runtime_error))
      ⊎ ((new_size ≤ codec.maximum_dynamic_table_size)
          × (codec' : HpackCodec) × (set_dynamic_table_size codec new_size ≡ ok codec')
          × (codec'
              ≡ trimmed
                  (record codec {
                    current_dynamic_table_limit = new_size;
                    pending_table_size_update = some new_size;
                  })
                  codec.dynamic_table)
          × IsValid codec')
unfolding set_dynamic_table_size evict_dynamic_table
set_dynamic_table_size-newest {codec} new_size v =
    elim (Bool-cases (ltb codec.maximum_dynamic_table_size new_size)) [
      | inl past ↦ inl (ltb→lt _ _ past, rw (past, set_dynamic_table_size) refl)
      | inr fits ↦ inr (
        ltb-false→le _ _ fits,
        trimmed resized codec.dynamic_table,
        rw (fits, set_dynamic_table_size)
            (ap (λ out. ok (record resized { dynamic_table = out.0; dynamic_table_size = out.1 }))
              (ap (evict_loop (length codec.dynamic_table) new_size codec.dynamic_table) v.accounted
                ∙ evict_loop_lem (length codec.dynamic_table) new_size codec.dynamic_table
                    (omega arith) (omega (arith, v)))),
        refl,
        trimmed-IsValid resized codec.dynamic_table (ltb-false→le _ _ fits) v.addressable,
      )
    ]
  where
    resized : HpackCodec
    resized = record codec {
      current_dynamic_table_limit = new_size;
      pending_table_size_update = some new_size;
    }
