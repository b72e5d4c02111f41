-- ===== src/Nameresolve/Integrity.antt =====
-- resolve.go: the storage-integrity look-ups of a table target.
pub mod Laws
use rewriter_go.Prelude.{
  ℕ, Bool, true, false, ◌||◌, List, [], ◌∷◌, ◌++◌, Option, none, some, eqb, length, if◌then◌else◌,
}
use rewriter_go.Prelude.Text.{Bytes, ◌==◌, codes}
use rewriter_go.Prelude.Dict.{Dict, lookup, has_key}
use rewriter_go.Nameresolve.Request.{SiTable, DynamicArgs, get_storage_integrity}
use rewriter_go.Nameresolve.Identifier.{dot}
use rewriter_go.Nameresolve.Contract.{storage_integrity_reserved_database}
use rewriter_go.Nameresolve.Namespaces.{hosts}

-- `db`, or the session's logical database when the target is unqualified.
unfoldable pub context_database : Bytes → DynamicArgs → Bytes
context_database db a = if db == [] then a.upstream_logical_database_in_context else db

-- A map entry that is nil counts as no entry.
unfoldable pub entry_of : Bytes → Option (Option SiTable) → Option (SiTable × Bytes)
entry_of key (some (some tbl)) = some (tbl, key)
entry_of key _ = none

unfoldable pub lookup_storage_integrity : Bytes → Bytes → DynamicArgs → Option (SiTable × Bytes)
lookup_storage_integrity db table a =
    let tables = (get_storage_integrity a).tables in
    if eqb (length tables) 0 || table == []
    then none
    else let logical = context_database db a in
      if logical == []
      then none
      else let key = logical ++ (dot ∷ table) in entry_of key (lookup key tables)

-- The key of the first entry met that `db` hosts.
unfoldable pub first_host : Bytes → Dict (Option SiTable) → Option Bytes
first_host db [] = none
first_host db ((key, tbl) ∷ tables) = if hosts db tbl then some key else first_host db tables

-- `some key` is `key, true`; the key of a reserved database is empty.
unfoldable pub lookup_storage_integrity_physical : Bytes → Bytes → DynamicArgs → Option Bytes
lookup_storage_integrity_physical db table a =
    if table == []
    then none
    else let effective_db = context_database db a in
      if effective_db == []
      then none
      else elim (first_host effective_db (get_storage_integrity a).tables) [
        | some key ↦ some key
        | none ↦ if storage_integrity_reserved_database effective_db a then some [] else none
      ]

unfoldable pub authorize_storage_integrity_logical : Bytes → DynamicArgs → Bytes × Bool
authorize_storage_integrity_logical db a =
    let logical = context_database db a in
    if logical == [] then ([], false) else (logical, has_key logical a.database_map)

unfoldable pub default_reserved_row_id_column : Bytes
default_reserved_row_id_column = codes "_hg_row_id"

unfoldable pub reserved_row_id_column : DynamicArgs → Bytes
reserved_row_id_column a =
    let rid = (get_storage_integrity a).reserved_row_id_column in
    if rid == [] then default_reserved_row_id_column else rid
