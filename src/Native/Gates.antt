-- ===== src/Native/Gates.antt =====
-- The gates that `finalize` runs: handlers/systemtables.go (the allowlist of system tables),
-- handlers/storage_integrity_policy.go (`recordAccessedWriteUnique`), handlers/storage_integrity_reject.go.
pub mod Scan
use rewriter_go.Prelude.{
  ℕ, Bool, true, false, not, ◌&&◌, ◌||◌, List, [], ◌∷◌, ◌++◌, Option, none, some, any,
  if◌then◌else◌, is_some,
}
use rewriter_go.Prelude.Text.{Bytes, ◌==◌, codes}
use rewriter_go.Nameresolve.Request.{DynamicArgs}
use rewriter_go.Nameresolve.Identifier.{qualify}
use rewriter_go.Nameresolve.Contract.{
  storage_integrity_surface_active, storage_integrity_unmodelled_message,
}
use rewriter_go.Nameresolve.Namespaces.{
  is_storage_integrity_physical_database, is_storage_integrity_logical_database,
}
use rewriter_go.Nameresolve.Integrity.{lookup_storage_integrity, context_database}
use rewriter_go.Nameresolve.Messages.{
  system_table_refused_message, storage_integrity_physical_database_reject_message,
  storage_integrity_physical_reject_message, storage_integrity_write_reject_message,
}
use rewriter_go.Nameresolve.SystemTables.{system_table_allowed}
use rewriter_go.Nameresolve.Selecting.{
  Selection, mode_none, mode_static, mode_dynamic, resolve_accessed,
}
use rewriter_go.Native.Response.{
  Response, AccessedTable, Result, ok, err, success, unsupported_statement, is_success,
}
use rewriter_go.Native.Engine.{
  Engine, ObjectRef, NameRef, NameRefKind, name_ref_table, name_ref_database, TableTarget, NodeKind,
  node_command,
}

unfoldable pub unsupported_statement_message : Bytes
unsupported_statement_message = codes "statement is not supported"

unfoldable pub identifier_parameter_message : Bytes
identifier_parameter_message =
    codes "query parameters are not supported in a database or table position"

unfoldable pub function_not_accessible_message : Bytes → Bytes
function_not_accessible_message name = codes "function " ++ (name ++ codes " is not accessible")

-- engine/systemrefs.go
unfoldable pub is_system_database : Bytes → Bytes → Bool
is_system_database db context_db =
    if db == [] then context_db == codes "system" else db == codes "system"

-- The variables of the loop of `systemTableScan`.
pub record TableScan : Type 0 where
  pub table : Bytes
  pub refused : Bool
  pub si_object : Bool

abbrev pub nothing_found : TableScan
nothing_found = record { table = []; refused = false; si_object = false }

-- A reference to an object of the storage-integrity surface.
unfoldable pub touches_surface : DynamicArgs → ObjectRef → Bool
touches_surface a ref =
    let db = context_database ref.db a in
    is_storage_integrity_physical_database db a
    || ((not ref.exact && is_storage_integrity_logical_database db a)
        || is_some (lookup_storage_integrity ref.db ref.table a))

unfoldable pub scan_ref : DynamicArgs → TableScan → ObjectRef → TableScan
scan_ref a scan ref =
    if is_system_database ref.db a.upstream_logical_database_in_context
    then (if not scan.refused && not (ref.exact && system_table_allowed ref.table)
        then record scan { table = ref.table; refused = true }
        else scan)
    else if not (storage_integrity_surface_active a) || scan.si_object
    then scan
    else record scan { si_object = touches_surface a ref }

unfoldable pub scan_refs : DynamicArgs → TableScan → List ObjectRef → TableScan
scan_refs a scan [] = scan
scan_refs a scan (ref ∷ refs) = scan_refs a (scan_ref a scan ref) refs

-- handlers/writes.go
unfoldable pub record_accessed_write : Response → Bytes → Bytes → Selection → Response
record_accessed_write resp db table sel =
    let a = resolve_accessed db table sel in
    if table == [] then resp else record resp {
      original_accessed_tables =
          resp.original_accessed_tables
          ++ (record {
            original_database = db;
            original_table = table;
            logical_database = a.logical_db;
            physical_database = a.physical_db;
            is_remote = a.is_remote;
            is_storage_integrity = a.is_storage_integrity;
          }
              ∷ []);
    }

abbrev pub is_record_of : Bytes → Bytes → AccessedTable → Bool
is_record_of db table accessed =
    accessed.original_database == db && accessed.original_table == table

-- The loop that keeps all but the unqualified records of `table`.
unfoldable pub drop_unqualified : Bytes → List AccessedTable → List AccessedTable
drop_unqualified table [] = []
drop_unqualified table (accessed ∷ rest) =
    if is_record_of [] table accessed
    then drop_unqualified table rest
    else accessed ∷ drop_unqualified table rest

unfoldable pub record_accessed_write_unique : Response → Bytes → Bytes → Selection → Response
record_accessed_write_unique resp db table sel =
    if any (is_record_of db table) resp.original_accessed_tables
    then resp
    else if db == []
    then record_accessed_write resp db table sel
    else record_accessed_write
        (record resp {
          original_accessed_tables = drop_unqualified table resp.original_accessed_tables;
        })
        db table sel

-- A refusal leaks nothing of a partial rewrite.
abbrev pub without_rewrites : Response → Response
without_rewrites resp = record resp {
  table_rewrites = [];
  database_rewrites = [];
  privileges_deltas = [];
}

unfoldable pub reject_system_table : Response → Bytes → Selection → Response
reject_system_table resp table sel =
    let refused = record (without_rewrites resp) {
      code = unsupported_statement;
      message = system_table_refused_message table;
    } in
    if table == [] then refused else record_accessed_write_unique refused (codes "system") table sel

abbrev pub touches_storage_integrity : List AccessedTable → Bool
touches_storage_integrity accessed = any (λ a. a.is_storage_integrity) accessed

-- The message for one name that the statement is proved to address, if it is a protected one.
unfoldable pub name_message : DynamicArgs → NameRefKind → Bytes → Bytes → Option Bytes
name_message a name_ref_database db table =
    if is_storage_integrity_physical_database db a
    then some (storage_integrity_physical_database_reject_message db)
    else none
name_message a name_ref_table db table =
    let physical_db = context_database db a in
    if is_storage_integrity_physical_database physical_db a
    then some (storage_integrity_physical_reject_message (qualify physical_db table))
    else elim (lookup_storage_integrity db table a) [
      | some (_, key) ↦ some (storage_integrity_write_reject_message key)
      | none ↦ none
    ]

unfoldable pub first_name_message : DynamicArgs → List NameRef → Option Bytes
first_name_message a [] = none
first_name_message a (ref ∷ refs) = elim (name_message a ref.kind ref.db ref.table) [
  | some m ↦ some m
  | none ↦ first_name_message a refs
]

unfoldable pub first_table_message : DynamicArgs → List TableTarget → Option Bytes
first_table_message a [] = none
first_table_message a (tt ∷ rest) =
    if not (tt.db == []) && is_storage_integrity_physical_database tt.db a
    then some (storage_integrity_physical_reject_message (qualify tt.db tt.table))
    else first_table_message a rest

abbrev pub with_message : Response → Option Bytes → Response
with_message resp none = resp
with_message resp (some m) = record resp { message = m }
