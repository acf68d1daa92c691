-- ===== src/Protocol/Http2/Hpack/Table.antt =====
-- The dynamic table of HPACK: `Lookup`, `AddDynamicEntry`, `EvictDynamicTable` and
-- `SetDynamicTableSize` of src/protocol/http2/http2_hpack.cpp.
use iocp_http_runtime.Prelude.{
  ℕ, zero, suc, ◌-◌, List, [], ◌∷◌, if◌then◌else◌, ltb, ◌==◌, true, false, Option, none, some,
  length, get_elem?, Result, ok, throws, runtime_error, undefined, add_size, sub_size,
}
use iocp_http_runtime.Protocol.Http2.Hpack.StaticTable.{TableEntry, static_table}

-- `HpackCodec`, with the fields of its options.
pub record HpackCodec : Type 0 where
  pub dynamic_table : List TableEntry
  pub dynamic_table_size : ℕ
  pub current_dynamic_table_limit : ℕ
  pub pending_table_size_update : Option ℕ
  pub maximum_dynamic_table_size : ℕ
  pub maximum_header_list_size : ℕ

unfoldable pub init : ℕ → ℕ → HpackCodec
init maximum_dynamic_table_size maximum_header_list_size = record {
  dynamic_table = [];
  dynamic_table_size = 0;
  current_dynamic_table_limit = maximum_dynamic_table_size;
  pending_table_size_update = none;
  maximum_dynamic_table_size = maximum_dynamic_table_size;
  maximum_header_list_size = maximum_header_list_size;
}

-- `name.size() + value.size() + 32`.
abbrev pub entry_size : TableEntry → ℕ
entry_size entry = add_size (add_size (length entry.name) (length entry.value)) 32

-- `throws undefined` stands for an access out of range, which no index reaches.
unfoldable pub lookup : HpackCodec → ℕ → Result TableEntry
lookup codec index =
    if index == 0
    then throws runtime_error
    else if ltb index (length static_table)
    then elim (get_elem? static_table index) [ none ↦ throws undefined | some entry ↦ ok entry ]
    else elim (get_elem? codec.dynamic_table (index - length static_table)) [
      | none ↦ throws runtime_error
      | some entry ↦ ok entry
    ]

-- The last entry of a table that is not empty, and the entries before it.
abbrev pub split_last : TableEntry → List TableEntry → List TableEntry × TableEntry
split_last first [] = ([], first)
split_last first (second ∷ rest) =
    let behind = split_last second rest in (first ∷ behind.0, behind.1)

-- `EvictDynamicTable` on the table and its size; the fuel is the number of entries.
unfoldable pub evict_loop : ℕ → ℕ → List TableEntry → ℕ → List TableEntry × ℕ
evict_loop zero limit table size = (table, size)
evict_loop (suc fuel) limit [] size = ([], size)
evict_loop (suc fuel) limit (first ∷ rest) size = elim (ltb limit size) [
  | false ↦ (first ∷ rest, size)
  | true ↦
      let parts = split_last first rest in
      evict_loop fuel limit parts.0 (sub_size size (entry_size parts.1))
]

unfoldable pub evict_dynamic_table : HpackCodec → HpackCodec
evict_dynamic_table codec =
    let left =
      evict_loop (length codec.dynamic_table) codec.current_dynamic_table_limit codec.dynamic_table
        codec.dynamic_table_size in
    record codec { dynamic_table = left.0; dynamic_table_size = left.1 }

unfoldable pub add_dynamic_entry : HpackCodec → TableEntry → HpackCodec
unfolding evict_dynamic_table
add_dynamic_entry codec entry =
    if ltb codec.current_dynamic_table_limit (entry_size entry)
    then record codec { dynamic_table = []; dynamic_table_size = 0 }
    else evict_dynamic_table (record codec {
      dynamic_table = entry ∷ codec.dynamic_table;
      dynamic_table_size = add_size codec.dynamic_table_size (entry_size entry);
    })

unfoldable pub set_dynamic_table_size : HpackCodec → ℕ → Result HpackCodec
unfolding evict_dynamic_table
set_dynamic_table_size codec new_size =
    if ltb codec.maximum_dynamic_table_size new_size
    then throws runtime_error
    else ok (
        evict_dynamic_table (record codec {
          current_dynamic_table_limit = new_size;
          pending_table_size_update = some new_size;
        }))
