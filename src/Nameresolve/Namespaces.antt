-- ===== src/Nameresolve/Namespaces.antt =====
-- resolve.go, protected.go: which databases caller SQL may never name. A nil `a` has the getters of
-- the empty message, at which every test here is false, as its guard says.
pub mod Listing
pub mod Order
use rewriter_go.Prelude.{
  Bool, true, false, ◌||◌, List, [], ◌∷◌, Option, none, some, any, if◌then◌else◌,
}
use rewriter_go.Prelude.Text.{Bytes, ◌==◌, contains}
use rewriter_go.Prelude.Dict.{Dict, any_value}
use rewriter_go.Prelude.Sort.{sort_strings, add_key}
use rewriter_go.Nameresolve.Request.{SiTable, DynamicArgs, get_storage_integrity}
use rewriter_go.Nameresolve.Identifier.{exact_qualified_table}
use rewriter_go.Nameresolve.Contract.{storage_integrity_reserved_database}

-- `ok && db == physicalDB`
unfoldable pub names_database : Bytes → Option (Bytes × Bytes) → Bool
names_database db none = false
names_database db (some (physical, _)) = physical == db

-- `[]string{tbl.GetSafeTable(), tbl.GetUnsafeTable()}`
abbrev pub sides : SiTable → List Bytes
sides tbl = tbl.safe_table ∷ tbl.unsafe_table ∷ []

-- One round over the tables: a nil entry is passed over.
unfoldable pub hosts : Bytes → Option SiTable → Bool
hosts db none = false
hosts db (some tbl) =
    any (λ physical. names_database db (exact_qualified_table physical)) (sides tbl)

unfoldable pub is_storage_integrity_physical_database : Bytes → DynamicArgs → Bool
is_storage_integrity_physical_database db a =
    if db == []
    then false
    else if any_value (hosts db) (get_storage_integrity a).tables
    then true
    else storage_integrity_reserved_database db a

-- One round of `IsStorageIntegrityLogicalDatabase`.
unfoldable pub owns : Bytes → Bytes × Option SiTable → Bool
owns db (key, none) = false
owns db (key, some _) = names_database db (exact_qualified_table key)

unfoldable pub is_storage_integrity_logical_database : Bytes → DynamicArgs → Bool
is_storage_integrity_logical_database db a =
    if db == [] then false else any (owns db) (get_storage_integrity a).tables

unfoldable pub protected_database : Bytes → DynamicArgs → Bool
protected_database db a =
    if db == []
    then false
    else if any_value (λ physical. physical == db) a.database_map
    then true
    else if contains db a.protected_databases
    then true
    else is_storage_integrity_physical_database db a

-- `seen[db] = true` for a physical name of the shape `<db>.<table>`.
unfoldable pub see_physical : List Bytes → Option (Bytes × Bytes) → List Bytes
see_physical seen none = seen
see_physical seen (some (db, _)) = add_key db seen

unfoldable pub see_sides : List Bytes → List Bytes → List Bytes
see_sides [] seen = seen
see_sides (physical ∷ rest) seen =
    see_sides rest (see_physical seen (exact_qualified_table physical))

unfoldable pub see_tables : Dict (Option SiTable) → List Bytes → List Bytes
see_tables [] seen = seen
see_tables ((_, none) ∷ tables) seen = see_tables tables seen
see_tables ((_, some tbl) ∷ tables) seen = see_tables tables (see_sides (sides tbl) seen)

unfoldable pub see_reserved : DynamicArgs → List Bytes → List Bytes → List Bytes
see_reserved a [] seen = seen
see_reserved a (db ∷ dbs) seen =
    see_reserved a dbs (if storage_integrity_reserved_database db a then add_key db seen else seen)

unfoldable pub storage_integrity_physical_databases : DynamicArgs → List Bytes
storage_integrity_physical_databases a =
    let si = get_storage_integrity a in
    sort_strings (see_reserved a si.reserved_databases (see_tables si.tables []))
