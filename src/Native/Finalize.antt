-- ===== src/Native/Finalize.antt =====
-- native.go: `finalize`, and the two gates of internal/handlers that it runs over the engine.
pub mod Refusals
pub mod Passed
use rewriter_go.Prelude.{
  Bool, true, false, not, ◌&&◌, ◌||◌, List, [], Option, none, some, if◌then◌else◌, is_some,
}
use rewriter_go.Prelude.Text.{Bytes, ◌==◌}
use rewriter_go.Nameresolve.Request.{DynamicArgs, ContractVersion, contract_unspecified}
use rewriter_go.Nameresolve.Contract.{
  storage_integrity_surface_active, storage_integrity_unmodelled_message,
}
use rewriter_go.Nameresolve.Selecting.{Selection, mode_none, mode_static, mode_dynamic}
use rewriter_go.Native.Response.{
  Response, Result, ok, err, success, unsupported_statement, is_success, ExistenceClause,
  type_unspecified,
}
use rewriter_go.Native.Engine.{Engine, ObjectRef, NameRef, TableTarget, NodeKind, node_command}
use rewriter_go.Native.Gates.{
  unsupported_statement_message, identifier_parameter_message, function_not_accessible_message,
  TableScan, nothing_found, scan_refs, reject_system_table, without_rewrites,
  touches_storage_integrity, first_name_message, first_table_message, with_message,
}

-- `siVersion != STORAGE_INTEGRITY_CONTRACT_UNSPECIFIED`
abbrev pub is_specified : ContractVersion → Bool
is_specified contract_unspecified = false
is_specified _ = true

abbrev pub is_dynamic : Selection → Bool
is_dynamic (mode_dynamic _) = true
is_dynamic _ = false

-- A refusal that echoes the statement.
abbrev pub refuse : Response → Bytes → Bytes → Response
refuse resp message sql = record resp {
  code = unsupported_statement;
  message = message;
  sql_after_rewrite = sql;
}

-- `RejectSystemTablesOnSuccess` behind its scan: the refused response, or none.
unfoldable pub system_tables_verdict :
    DynamicArgs → Response → Bytes → Result (List ObjectRef) → Option Response
system_tables_verdict a resp sql (err _) =
    some (refuse (without_rewrites resp) storage_integrity_unmodelled_message sql)
system_tables_verdict a resp sql (ok refs) =
    let scan = scan_refs a nothing_found refs in
    if scan.refused
    then some
        (record (reject_system_table resp scan.table (mode_dynamic a)) { sql_after_rewrite = sql })
    else none

-- The last step of `AnnotateStorageIntegrityRejectAST`, for a tree of some kind.
unfoldable pub tree_message :
    DynamicArgs → Result NodeKind → Result (List TableTarget) → Option Bytes
tree_message a (err _) tables = none
tree_message a (ok node_command) tables = none
tree_message a (ok kind) (err _) = none
tree_message a (ok kind) (ok tables) = first_table_message a tables

unfoldable pub reject_message :
    DynamicArgs → Result (List NameRef) → Result NodeKind → Result (List TableTarget) → Option Bytes
reject_message a (err _) kind tables = none
reject_message a (ok refs) kind tables = elim (first_name_message a refs) [
  | some m ↦ some m
  | none ↦ tree_message a kind tables
]

-- The check of the regenerated statement and the search for a deployment-identity name, in `finalize`.
unfoldable pub regenerated_verdict :
    Response → Bytes → Selection → Option Bytes → Result (Option Bytes) → Option Response
regenerated_verdict resp sql sel (some _) name =
    some (refuse resp unsupported_statement_message sql)
regenerated_verdict resp sql (mode_dynamic a) none (err _) =
    some (refuse resp unsupported_statement_message sql)
regenerated_verdict resp sql (mode_dynamic a) none (ok (some name)) =
    some (refuse resp (function_not_accessible_message name) sql)
regenerated_verdict resp sql (mode_dynamic a) none (ok none) = none
regenerated_verdict resp sql sel none name = none

module _ (E : Engine) where
  unfoldable pub reject_system_tables_on_success :
      E.Ast → Bytes → Selection → Response → Option Response
  reject_system_tables_on_success ast sql (mode_dynamic a) resp =
      if storage_integrity_surface_active a
      then system_tables_verdict a resp sql (E.collect_object_refs ast sql)
      else none
  reject_system_tables_on_success ast sql sel resp = none

  unfoldable pub annotate_reject : E.Ast → Bytes → Selection → Response → Response
  annotate_reject ast sql (mode_dynamic a) resp =
      if is_success resp.code
        || (resp.message == identifier_parameter_message
            || (not (storage_integrity_surface_active a)
                || touches_storage_integrity resp.original_accessed_tables))
      then resp
      else with_message resp (
          reject_message a (E.name_refs_from_ast ast sql) (E.node_kind ast)
            (E.collect_select_tables ast))
  annotate_reject ast sql sel resp = resp

  -- The gates on a would-be Success: none when the response may leave as it is.
  unfoldable pub success_verdict : E.Ast → Bytes → Selection → Response → Option Response
  success_verdict ast sql sel resp = elim (reject_system_tables_on_success ast sql sel resp) [
    | some refused ↦ some refused
    | none ↦
        regenerated_verdict resp sql sel (E.check_regenerated sql ast)
          (E.first_deployment_identity_name ast sql)
  ]

  -- What `finalize` does to a response that is not, or no longer, a Success.
  unfoldable pub settle_reject : E.Ast → Bytes → ContractVersion → Selection → Response → Response
  settle_reject ast sql version sel resp =
      let cleared = record resp {
        statement_type = type_unspecified;
        sql_after_rewrite = if resp.sql_after_rewrite == [] then sql else resp.sql_after_rewrite;
      } in
      if is_specified version then annotate_reject ast sql sel cleared else cleared

  unfoldable pub finalize :
      Response → E.Ast → Bytes → ExistenceClause → ContractVersion → Selection → Response
  finalize resp ast sql ec version sel =
      let stamped = record resp { existence_clause = ec; contract_version = version } in
      if is_success stamped.code
      then elim (success_verdict ast sql sel stamped) [
        | none ↦ stamped
        | some refused ↦ settle_reject ast sql version sel refused
      ]
      else settle_reject ast sql version sel stamped
