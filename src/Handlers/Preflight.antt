-- ===== src/Handlers/Preflight.antt =====
-- preflight.go: `PreflightTableReferences`; lookups.go: the messages of the string lookups.
pub mod Refusals
pub mod Policy
pub mod Admitted
use rewriter_go.Prelude.{Bool, List, Option, [], if◌then◌else◌, none, not, some, ◌&&◌, ◌++◌, ◌∷◌}
use rewriter_go.Engine.Case.{to_lower}
use rewriter_go.Handlers.Accessed.{echoing, fresh, record_accessed_database}
use rewriter_go.Handlers.Carriers.{
  command_class_modelled, function_refusal, reject_disallowed_carriers, reject_ungoverned_reads,
}
use rewriter_go.Handlers.Check.{
  Check, echoed, first_refusal, goes_on, reading, refuses, refuses_if, to_handled, ◌>>◌,
}
use rewriter_go.Handlers.Readers.{CommandFindings, Readers, StringLookup}
use rewriter_go.Handlers.Settings.{is_command}
use rewriter_go.Handlers.Targets.{reject_invalid, reject_unsupported}
use rewriter_go.Nameresolve.Contract.{storage_integrity_surface_active}
use rewriter_go.Nameresolve.Messages.{protected_database_reject_message}
use rewriter_go.Nameresolve.Namespaces.{is_storage_integrity_physical_database, protected_database}
use rewriter_go.Nameresolve.Request.{DynamicArgs, RewriteOption}
use rewriter_go.Nameresolve.Selecting.{Selection, find_active, mode_dynamic}
use rewriter_go.Native.Engine.{Handled, NodeKind, ObjectRef, TableTarget, not_handled}
use rewriter_go.Native.Gates.{
  identifier_parameter_message, nothing_found, record_accessed_write, reject_system_table,
  scan_refs, unsupported_statement_message,
}
use rewriter_go.Native.Response.{Response, Result, err, ok}
use rewriter_go.Prelude.Text.{Bytes, codes, contains, has_prefix, ◌==◌}

unfoldable pub is_has_column_in_table : Bytes → Bool
is_has_column_in_table name = has_prefix (to_lower name) (codes "hascolumnintable")

unfoldable pub string_lookup_unresolved_message : StringLookup → Bytes
string_lookup_unresolved_message call =
    call.function
    ++ (codes " target \""
        ++ (call.arg ++ codes "\" does not resolve through the caller's databases"))

-- A fresh response that is refused and echoes the statement.
abbrev pub unsupported_echo : Bytes → Bytes → Response
unsupported_echo sql message = echoing sql (reject_unsupported fresh message)

abbrev pub invalid_echo : Bytes → Bytes → Response
invalid_echo sql message = echoing sql (reject_invalid fresh message)

unfoldable pub protected_refusal : Bytes → DynamicArgs → Bytes → Response
protected_refusal sql a db =
    echoing sql
      (reject_invalid (record_accessed_database fresh db a) (protected_database_reject_message db))

-- One round of the loop over the databases of the statement.
unfoldable pub database_refusal : Bytes → DynamicArgs → List Bytes → Bytes → Option Response
database_refusal sql a blind db =
    if not (protected_database db a)
    then none
    else if is_storage_integrity_physical_database db a && not (contains db blind)
    then none
    else some (protected_refusal sql a db)

abbrev pub with_context : DynamicArgs → List Bytes → List Bytes
with_context a dbs =
    let ctx = a.upstream_logical_database_in_context in if ctx == [] then dbs else dbs ++ (ctx ∷ [])

unfoldable pub lookup_refusal : Bytes → StringLookup → Option Response
lookup_refusal sql call = some (invalid_echo sql (string_lookup_unresolved_message call))

-- The same over the calls of the tree: one in the body of a query is left to the query handler.
unfoldable pub tree_lookup_refusal : Bytes → StringLookup → Option Response
tree_lookup_refusal sql call =
    if is_has_column_in_table call.function && call.in_select_body
    then none
    else lookup_refusal sql call

unfoldable pub target_database_refusal : Bytes → DynamicArgs → Bytes → Option Response
target_database_refusal sql a db =
    if protected_database db a then some (protected_refusal sql a db) else none

unfoldable pub target_check : Bytes → DynamicArgs → CommandFindings → Check
target_check sql a findings = elim (findings.target_function) [
  | none ↦ goes_on
  | some name ↦
      echoed sql (first_refusal (function_refusal fresh) (name ∷ []))
      >> first_refusal (target_database_refusal sql a) findings.target_arg_databases
]

unfoldable pub findings_check : Bytes → DynamicArgs → Option CommandFindings → Check
findings_check sql a none = refuses (unsupported_echo sql unsupported_statement_message)
findings_check sql a (some findings) =
    first_refusal (lookup_refusal sql) findings.lookup_calls >> target_check sql a findings

unfoldable pub raw_lookups_check : Bytes → Option (List StringLookup) → Check
raw_lookups_check sql none = refuses (unsupported_echo sql unsupported_statement_message)
raw_lookups_check sql (some calls) = first_refusal (lookup_refusal sql) calls

unfoldable pub system_check : Bytes → DynamicArgs → List ObjectRef → Check
system_check sql a refs =
    let scan = scan_refs a nothing_found refs in
    refuses_if (scan.refused && not scan.si_object)
      (echoing sql (reject_system_table fresh scan.table (mode_dynamic a)))

-- The loop over the targets of a statement that no handler models.
unfoldable pub record_targets : DynamicArgs → List TableTarget → Response → Response
record_targets a [] resp = resp
record_targets a (tt ∷ targets) resp =
    record_targets a targets (record_accessed_write resp tt.db tt.table (mode_dynamic a))

unfoldable pub unmodelled_refusal : Bytes → DynamicArgs → Result (List TableTarget) → Response
unmodelled_refusal sql a (err _) = unsupported_echo sql unsupported_statement_message
unmodelled_refusal sql a (ok targets) =
    echoing sql (reject_unsupported (record_targets a targets fresh) unsupported_statement_message)

-- The checks that the storage-integrity handlers run themselves while the surface is active.
abbrev pub unless_active : DynamicArgs → Check → Check
unless_active a check = if storage_integrity_surface_active a then goes_on else check

module _ {Ast : Type 0} (I : Readers Ast) where
  unfoldable pub databases_check : Ast → Bytes → DynamicArgs → Check
  databases_check ast sql a =
      reading (I.collect_database_reference_sets ast sql)
        (λ sets. first_refusal (database_refusal sql a sets.1) (with_context a sets.0))

  unfoldable pub command_check : Ast → Bytes → DynamicArgs → Check
  command_check ast sql a = reading (I.node_kind ast) (λ kind.
      if is_command kind
      then reading (I.command_text ast)
          (λ text. findings_check sql a (I.collect_command_text_findings text))
      else goes_on)

  unfoldable pub lookups_check : Ast → Bytes → Check
  lookups_check ast sql =
      raw_lookups_check sql (I.collect_raw_action_string_lookup_calls ast sql)
      >> reading (I.string_lookup_calls ast)
          (λ calls. first_refusal (tree_lookup_refusal sql) calls)

  -- The checks of a statement of a modelled class.
  unfoldable pub modelled_check : Ast → Bytes → DynamicArgs → Check
  modelled_check ast sql a =
      databases_check ast sql a
      >> (reading (I.collect_object_refs ast sql) (λ refs. system_check sql a refs)
          >> (unless_active a (echoed sql (reject_disallowed_carriers I ast fresh))
              >> (command_check ast sql a
                  >> (lookups_check ast sql
                      >> unless_active a
                          (echoed sql (reject_ungoverned_reads I ast sql a fresh))))))

  unfoldable pub parameter_check : Ast → Bytes → Check
  parameter_check ast sql =
      reading (I.table_position_parameter ast sql)
        (λ hit. refuses_if hit (invalid_echo sql identifier_parameter_message))

  unfoldable pub class_check : Ast → Bytes → DynamicArgs → NodeKind → Check
  class_check ast sql a kind =
      if is_command kind && not (command_class_modelled I ast sql a)
      then unless_active a (refuses (unmodelled_refusal sql a (I.raw_table_refs ast)))
      else modelled_check ast sql a

  unfoldable pub preflight : Ast → Bytes → DynamicArgs → Check
  preflight ast sql a =
      parameter_check ast sql >> reading (I.node_kind ast) (λ kind. class_check ast sql a kind)

  unfoldable pub preflight_in : Ast → Bytes → Selection → Handled
  preflight_in ast sql (mode_dynamic a) = to_handled (preflight ast sql a)
  preflight_in ast sql sel = not_handled

  unfoldable pub preflight_table_references : Ast → Bytes → List RewriteOption → Handled
  preflight_table_references ast sql opts = preflight_in ast sql (find_active opts)
