-- ===== src/Nameresolve/Validate.antt =====
-- resolve.go: `ValidateStorageIntegrity`; protected.go: `ValidateProtectedDatabases`. A nil error is
-- `none`; each `fmt.Errorf` is a constructor with the values that it prints.
pub mod Verdict
pub mod Consequences
use rewriter_go.Prelude.{
  ℕ, Bool, true, false, not, ◌&&◌, ◌||◌, List, [], ◌∷◌, Option, none, some, if◌then◌else◌, is_some,
}
use rewriter_go.Prelude.Text.{Bytes, ◌==◌, codes}
use rewriter_go.Prelude.Dict.{Dict, lookup, keys}
use rewriter_go.Prelude.Sort.{sort_strings}
use rewriter_go.Nameresolve.Request.{
  SiTable, StorageIntegrity, DynamicArgs, ReadMode, read_mode_unspecified, read_mode_safe,
  read_mode_unsafe_latest, read_mode_other, is_v2,
}
use rewriter_go.Nameresolve.Identifier.{simple_identifier, exact_qualified_table}

pub data ConfigError : Type 0 where
  row_id_column_shape : ConfigError
  read_mode_unsupported : ReadMode → ConfigError
  table_key_shape : Bytes → ConfigError
  table_nil : Bytes → ConfigError
  table_names_empty : Bytes → ConfigError
  safe_table_shape : Bytes → Bytes → ConfigError
  unsafe_table_shape : Bytes → Bytes → ConfigError
  reserved_database_shape : Bytes → ConfigError
  protected_database_shape : Bytes → ConfigError
  maps_to_metadata : Bytes → Bytes → ConfigError

abbrev pub read_mode_known : ReadMode → Bool
read_mode_known (read_mode_other _) = false
read_mode_known _ = true

-- What one round of the loop over the keys says of a table.
unfoldable pub check_table : Bytes → Option SiTable → Option ConfigError
check_table key none = some (table_nil key)
check_table key (some tbl) =
    if tbl.safe_table == [] || tbl.unsafe_table == []
    then some (table_names_empty key)
    else if not (is_some (exact_qualified_table tbl.safe_table))
    then some (safe_table_shape key tbl.safe_table)
    else if not (is_some (exact_qualified_table tbl.unsafe_table))
    then some (unsafe_table_shape key tbl.unsafe_table)
    else none

-- `si.GetTables()[key]`: a key that is missing reads as nil.
abbrev pub entry_at : Bytes → Dict (Option SiTable) → Option SiTable
entry_at key tables = elim (lookup key tables) [ none ↦ none | some entry ↦ entry ]

unfoldable pub check_key : Dict (Option SiTable) → Bytes → Option ConfigError
check_key tables key =
    if not (is_some (exact_qualified_table key))
    then some (table_key_shape key)
    else check_table key (entry_at key tables)

-- `for _, x := range xs { if err := check(x); err != nil { return err } }`
unfoldable pub first_error : (Bytes → Option ConfigError) → List Bytes → Option ConfigError
first_error check [] = none
first_error check (x ∷ xs) = elim (check x) [ some e ↦ some e | none ↦ first_error check xs ]

unfoldable pub check_reserved : Bytes → Option ConfigError
check_reserved db = if not (simple_identifier db) then some (reserved_database_shape db) else none

unfoldable pub check_tables : StorageIntegrity → Option ConfigError
check_tables si = elim (first_error (check_key si.tables) (sort_strings (keys si.tables))) [
  | some e ↦ some e
  | none ↦
      if is_v2 si.contract_version then first_error check_reserved si.reserved_databases else none
]

unfoldable pub validate_storage_integrity : DynamicArgs → Option ConfigError
unfolding check_tables
validate_storage_integrity a = elim a.storage_integrity [
  | none ↦ none
  | some si ↦
      if not (si.reserved_row_id_column == []) && not (simple_identifier si.reserved_row_id_column)
      then some row_id_column_shape
      else if not (read_mode_known si.read_mode)
      then some (read_mode_unsupported si.read_mode)
      else check_tables si
]

unfoldable pub metadata_database : Bytes → Bool
metadata_database db =
    db == codes "system" || db == codes "information_schema" || db == codes "INFORMATION_SCHEMA"

unfoldable pub check_protected : Bytes → Option ConfigError
check_protected db = if not (simple_identifier db) then some (protected_database_shape db) else none

-- `a.GetDatabaseMap()[logical]`: a key that is missing reads as "".
abbrev pub physical_at : Bytes → Dict Bytes → Bytes
physical_at logical databases = elim (lookup logical databases) [ none ↦ [] | some p ↦ p ]

unfoldable pub check_mapping : Dict Bytes → Bytes → Option ConfigError
check_mapping databases logical =
    let physical = physical_at logical databases in
    if metadata_database physical then some (maps_to_metadata logical physical) else none

unfoldable pub validate_protected_databases : DynamicArgs → Option ConfigError
validate_protected_databases a = elim (first_error check_protected a.protected_databases) [
  | some e ↦ some e
  | none ↦ first_error (check_mapping a.database_map) (sort_strings (keys a.database_map))
]
