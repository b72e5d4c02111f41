-- ===== src/Handlers/Namespaces.antt =====
-- storage_integrity_policy.go: the policy on the table namespaces that a statement names outside its
-- table nodes: table functions, IN operands, table engines and dictionary sources.
pub mod Harmless
use rewriter_go.Prelude.{
  Bool, List, Option, [], false, if◌then◌else◌, none, not, or_default, some, true, ◌&&◌, ◌++◌, ◌||◌,
  ◌∷◌,
}
use rewriter_go.Handlers.Accessed.{
  record_accessed_database_unique, record_accessed_storage_integrity_logical_database_unique,
  with_code,
}
use rewriter_go.Nameresolve.Contract.{storage_integrity_surface_active}
use rewriter_go.Nameresolve.Identifier.{qualify}
use rewriter_go.Nameresolve.Integrity.{
  authorize_storage_integrity_logical, lookup_storage_integrity,
}
use rewriter_go.Nameresolve.Messages.{
  storage_integrity_physical_reject_message,
  storage_integrity_table_function_namespace_reject_message, storage_integrity_unauthorized_message,
  storage_integrity_unresolved_table_function_namespace_reject_message,
  storage_integrity_write_reject_message,
}
use rewriter_go.Nameresolve.Namespaces.{
  is_storage_integrity_logical_database, is_storage_integrity_physical_database,
  storage_integrity_physical_databases,
}
use rewriter_go.Nameresolve.Request.{DynamicArgs}
use rewriter_go.Nameresolve.Resolve.{resolve_physical_database}
use rewriter_go.Nameresolve.Selecting.{Selection, mode_dynamic}
use rewriter_go.Native.Engine.{TableTarget}
use rewriter_go.Native.Gates.{record_accessed_write_unique}
use rewriter_go.Native.Response.{Response, RewriteCode, invalid_rewrite_request}
use rewriter_go.Prelude.Text.{Bytes, codes, ◌==◌}

-- NamespaceRefSource
pub data NamespaceSource : Type 0 where
  from_table_function from_in_table from_table_engine from_dictionary_source : NamespaceSource

-- NamespaceRef
pub record NamespaceRef : Type 0 where
  pub target : TableTarget
  pub source : NamespaceSource
  pub name : Bytes
  pub resolved : Bool
  pub uses_current_database : Bool

abbrev pub is_in_table : NamespaceSource → Bool
is_in_table from_in_table = true
is_in_table _ = false

unfoldable pub namespace_surface : NamespaceRef → Bytes
namespace_surface ref = elim (ref.source) [
  | from_in_table ↦ ref.name ++ codes " table target"
  | from_table_engine ↦ ref.name ++ codes " table engine"
  | from_dictionary_source ↦ ref.name ++ codes " dictionary source"
  | from_table_function ↦
      if ref.name == [] then codes "table function" else ref.name ++ codes " table function"
]

unfoldable pub namespace_logical_reject_message : NamespaceRef → Bytes → Bytes
namespace_logical_reject_message ref key = elim (ref.source) [
  | from_table_engine ↦ storage_integrity_write_reject_message key
  | _ ↦
      codes "storage-integrity table "
      ++ (key ++ (codes " is not directly addressable through " ++ namespace_surface ref))
]

unfoldable pub namespace_logical_database_reject_message : NamespaceRef → Bytes → Bytes
namespace_logical_database_reject_message ref db =
    codes "storage-integrity logical database "
    ++ (db ++ (codes " is not directly addressable through " ++ namespace_surface ref))

unfoldable pub namespace_database_reject_message : NamespaceRef → Bytes → Bytes
namespace_database_reject_message ref db = elim (ref.source) [
  | from_table_function ↦ storage_integrity_table_function_namespace_reject_message db
  | _ ↦
      codes "storage-integrity "
      ++ (namespace_surface ref
          ++ (codes " namespace " ++ (db ++ codes " is not directly addressable")))
]

unfoldable pub namespace_unresolved_reject_message : NamespaceRef → Bytes
namespace_unresolved_reject_message ref = elim (ref.source) [
  | from_table_function ↦ storage_integrity_unresolved_table_function_namespace_reject_message
  | _ ↦
      codes "storage-integrity "
      ++ (namespace_surface ref ++ codes " namespace is not statically resolvable")
]

-- The physical database in which a table function runs; empty when it is not known.
unfoldable pub table_function_execution_database : DynamicArgs → Bytes
table_function_execution_database a =
    let logical = a.upstream_logical_database_in_context in
    if not (a.upstream_physical_database_in_context == [])
    then a.upstream_physical_database_in_context
    else if is_storage_integrity_physical_database logical a
    then logical
    else or_default (resolve_physical_database logical a) []

-- What follows the record of an access: the refusal of an unauthorised caller, or that of the caller's
-- code.
unfoldable pub refuse_as : Response → RewriteCode → Bytes → Bytes × Bool → Response
refuse_as resp code message (logical, authorized) =
    if not authorized
    then with_code resp invalid_rewrite_request (storage_integrity_unauthorized_message logical)
    else with_code resp code message

module _ (code : RewriteCode) (a : DynamicArgs) (resp : Response) where
  -- An unqualified name that is an exact key in the session's logical database; `target` is as
  -- written.
  unfoldable pub exact_key_refusal : NamespaceRef → Option Response
  exact_key_refusal ref =
      let target = ref.target in
      if target.table == [] || is_in_table ref.source
      then none
      else elim (lookup_storage_integrity [] target.table a) [
        | none ↦ none
        | some (_, key) ↦ some (
            refuse_as (record_accessed_write_unique resp target.db target.table (mode_dynamic a))
              code (namespace_logical_reject_message ref key)
              (authorize_storage_integrity_logical [] a))
      ]

  unfoldable pub logical_database_refusal : NamespaceRef → Bytes → Response
  logical_database_refusal ref db =
      refuse_as (record_accessed_storage_integrity_logical_database_unique resp db a) code
        (namespace_logical_database_reject_message ref db)
        (authorize_storage_integrity_logical db a)

  -- A reference whose database and table are known.
  unfoldable pub resolved_refusal : NamespaceRef → Bytes → Bytes → Option Response
  resolved_refusal ref db table =
      if is_storage_integrity_physical_database db a
      then some (
          with_code (record_accessed_write_unique resp db table (mode_dynamic a)) code
            (storage_integrity_physical_reject_message (qualify db table)))
      else elim (lookup_storage_integrity db table a) [
        | some (_, key) ↦ some (
            refuse_as (record_accessed_write_unique resp db table (mode_dynamic a)) code
              (namespace_logical_reject_message ref key) (authorize_storage_integrity_logical db a))
        | none ↦
            if is_storage_integrity_logical_database db a
            then some (logical_database_refusal ref db)
            else none
      ]

  unfoldable pub record_databases : List Bytes → Response → Response
  record_databases [] out = out
  record_databases (db ∷ dbs) out = record_databases dbs (record_accessed_database_unique out db a)

  -- A reference that is not resolved is refused whatever it is.
  unfoldable pub unresolved_refusal : NamespaceRef → Bytes → Response
  unresolved_refusal ref db =
      if not (db == []) && is_storage_integrity_physical_database db a
      then with_code (record_accessed_database_unique resp db a) code
          (namespace_database_reject_message ref db)
      else if not (db == []) && is_storage_integrity_logical_database db a
      then logical_database_refusal ref db
      else with_code (record_databases (storage_integrity_physical_databases a) resp) code
          (namespace_unresolved_reject_message ref)

  unfoldable pub placed_refusal : NamespaceRef → Bool → Bytes → Bytes → Option Response
  placed_refusal ref resolved db table =
      if resolved then resolved_refusal ref db table else some (unresolved_refusal ref db)

  -- A reference through the current database of the server.
  unfoldable pub current_refusal : NamespaceRef → Bytes → Bytes → Option Response
  current_refusal ref db table = elim (exact_key_refusal ref) [
    | some refused ↦ some refused
    | none ↦ placed_refusal ref (not (db == []) && not (table == [])) db table
  ]

  unfoldable pub ref_refusal : NamespaceRef → Option Response
  ref_refusal ref =
      if ref.uses_current_database
      then current_refusal ref (table_function_execution_database a) ref.target.table
      else placed_refusal ref ref.resolved ref.target.db ref.target.table

abbrev pub unproved : NamespaceRef → NamespaceRef
unproved ref = record ref {
  target = record { db = []; table = []; alias = [] };
  resolved = false;
  uses_current_database = false;
}

-- The decoding of the identifiers of a reference is a parameter; where it fails, the reference
-- keeps its surface alone.
module _ (semantic_namespace_ref : NamespaceRef → Option NamespaceRef) where
  unfoldable pub decoded : NamespaceRef → NamespaceRef
  decoded ref = or_default (semantic_namespace_ref ref) (unproved ref)

  unfoldable pub first_refused_ref :
      RewriteCode → DynamicArgs → Response → List NamespaceRef → Option Response
  first_refused_ref code a resp [] = none
  first_refused_ref code a resp (ref ∷ refs) = elim (ref_refusal code a resp (decoded ref)) [
    | some refused ↦ some refused
    | none ↦ first_refused_ref code a resp refs
  ]

  -- `none` is the result false, at which the response is as it was.
  unfoldable pub reject_storage_integrity_namespaces :
      Response → List NamespaceRef → Selection → RewriteCode → Option Response
  reject_storage_integrity_namespaces resp refs (mode_dynamic a) code =
      if storage_integrity_surface_active a then first_refused_ref code a resp refs else none
  reject_storage_integrity_namespaces resp refs sel code = none
