-- ===== src/Handlers/Preflight/Refusals.antt =====
-- What the refusals of the preflight look like.
pub mod Parts
mod Reads
use rewriter_go.Prelude.{
  Bool, Bool-cases, List, Option, Option-cases, [], arith, false, if◌then◌else◌, inl, inr, none,
  not, some, true, ◌&&◌, ◌∷◌, ◌≡◌,
}
use rewriter_go.Handlers.Accessed.{echoing, fresh}
use rewriter_go.Handlers.Carriers.{
  command_class_modelled, function_refusal, reject_disallowed_carriers,
}
use rewriter_go.Handlers.Check.{Check, goes_on}
use rewriter_go.Handlers.Check.Laws.{
  Refuses, Refuses-first, Refuses-handled, Refuses-if, Refuses-reading, Refuses-then, by_none,
  by_refusal,
}
use rewriter_go.Handlers.Preflight.{
  class_check, command_check, database_refusal, databases_check, findings_check, invalid_echo,
  is_has_column_in_table, lookup_refusal, lookups_check, modelled_check, parameter_check, preflight,
  preflight_in, preflight_table_references, protected_refusal, raw_lookups_check, record_targets,
  string_lookup_unresolved_message, system_check, target_check, target_database_refusal,
  tree_lookup_refusal, unmodelled_refusal, with_context,
}
use rewriter_go.Handlers.Preflight.Refusals.Parts.{
  IsRefusal, IsReject, Refuses-echoed, fresh-IsFresh, function_refusal-IsReject, invalid-IsRefusal,
  protected-IsRefusal, record_targets-IsFresh, storage_check-IsReject, system-IsRefusal,
  unsupported-IsRefusal,
}
use rewriter_go.Handlers.Preflight.Refusals.Reads.{either-Refuses, reads-Refuses}
use rewriter_go.Handlers.Readers.{CommandFindings, Readers, StringLookup}
use rewriter_go.Handlers.Settings.{is_command}
use rewriter_go.Nameresolve.Contract.{storage_integrity_surface_active}
use rewriter_go.Nameresolve.Namespaces.{is_storage_integrity_physical_database, protected_database}
use rewriter_go.Nameresolve.Request.{DynamicArgs, RewriteOption}
use rewriter_go.Nameresolve.Selecting.{Selection, find_active, mode_dynamic, mode_none, mode_static}
use rewriter_go.Native.Engine.{NodeKind, ObjectRef, TableTarget, handled}
use rewriter_go.Native.Gates.{
  identifier_parameter_message, nothing_found, reject_system_table, scan_refs,
  unsupported_statement_message,
}
use rewriter_go.Native.Response.{Response, Result, err, ok}
use rewriter_go.Prelude.Text.{Bytes, contains}

pub target_database-IsRefusal :
    (sql : Bytes) (a : DynamicArgs) (db : Bytes) (resp : Response)
    → target_database_refusal sql a db ≡ some resp
    → IsRefusal sql resp
unfolding target_database_refusal
target_database-IsRefusal sql a db resp h = elim (Bool-cases (protected_database db a)) [
  | inl e ↦
      let same : protected_refusal sql a db ≡ resp = ground arith in
      rw (← same) (protected-IsRefusal sql a db)
  | inr e ↦ absurd (ground arith)
]

pub database-IsRefusal :
    (sql : Bytes) (a : DynamicArgs) (blind : List Bytes) (db : Bytes) (resp : Response)
    → database_refusal sql a blind db ≡ some resp
    → IsRefusal sql resp
unfolding database_refusal
database-IsRefusal sql a blind db resp h = elim (Bool-cases (protected_database db a)) [
  | inl e ↦
      elim (Bool-cases (is_storage_integrity_physical_database db a && not (contains db blind))) [
        | inl f ↦ absurd (ground arith)
        | inr f ↦
            let same : protected_refusal sql a db ≡ resp = ground arith in
            rw (← same) (protected-IsRefusal sql a db)
      ]
  | inr e ↦ absurd (ground arith)
]

pub lookup-IsRefusal :
    (sql : Bytes) (call : StringLookup) (resp : Response)
    → lookup_refusal sql call ≡ some resp
    → IsRefusal sql resp
unfolding lookup_refusal
lookup-IsRefusal sql call resp h =
    let same : invalid_echo sql (string_lookup_unresolved_message call) ≡ resp = ground arith in
    rw (← same) (invalid-IsRefusal sql (string_lookup_unresolved_message call) fresh fresh-IsFresh)

pub tree_lookup-IsRefusal :
    (sql : Bytes) (call : StringLookup) (resp : Response)
    → tree_lookup_refusal sql call ≡ some resp
    → IsRefusal sql resp
unfolding tree_lookup_refusal
tree_lookup-IsRefusal sql call resp h =
    elim (Bool-cases (is_has_column_in_table call.function && call.in_select_body)) [
      | inl e ↦ absurd (ground arith)
      | inr e ↦ lookup-IsRefusal sql call resp (ground arith)
    ]

pub target_check-Refuses :
    (sql : Bytes) (a : DynamicArgs) (findings : CommandFindings)
    → Refuses (IsRefusal sql) (target_check sql a findings)
unfolding target_check
target_check-Refuses sql a findings = elim (Option-cases findings.target_function) [
  | inl e ↦ rw (e) by_none
  | inr (name, e) ↦ rw (e) (
      Refuses-then
        (Refuses-echoed sql
          (Refuses-first (function_refusal fresh) (name ∷ []) function_refusal-IsReject))
        (Refuses-first (target_database_refusal sql a) findings.target_arg_databases
          (target_database-IsRefusal sql a)))
]

pub findings_check-Refuses :
    (sql : Bytes) (a : DynamicArgs) (findings : Option CommandFindings)
    → Refuses (IsRefusal sql) (findings_check sql a findings)
unfolding findings_check
findings_check-Refuses sql a none =
    by_refusal (unsupported-IsRefusal sql unsupported_statement_message fresh fresh-IsFresh)
findings_check-Refuses sql a (some findings) =
    Refuses-then (Refuses-first (lookup_refusal sql) findings.lookup_calls (lookup-IsRefusal sql))
      (target_check-Refuses sql a findings)

pub raw_lookups_check-Refuses :
    (sql : Bytes) (calls : Option (List StringLookup))
    → Refuses (IsRefusal sql) (raw_lookups_check sql calls)
unfolding raw_lookups_check
raw_lookups_check-Refuses sql none =
    by_refusal (unsupported-IsRefusal sql unsupported_statement_message fresh fresh-IsFresh)
raw_lookups_check-Refuses sql (some calls) =
    Refuses-first (lookup_refusal sql) calls (lookup-IsRefusal sql)

pub unmodelled-IsRefusal :
    (sql : Bytes) (a : DynamicArgs) (targets : Result (List TableTarget))
    → IsRefusal sql (unmodelled_refusal sql a targets)
unfolding unmodelled_refusal
unmodelled-IsRefusal sql a (err _) =
    unsupported-IsRefusal sql unsupported_statement_message fresh fresh-IsFresh
unmodelled-IsRefusal sql a (ok targets) =
    unsupported-IsRefusal sql unsupported_statement_message (record_targets a targets fresh)
      (record_targets-IsFresh a targets fresh fresh-IsFresh)

class-Refuses :
    {P : Response → Type 0} (b : Bool) {c d : Check}
    → Refuses P c
    → Refuses P d
    → Refuses P (if b then c else d)
class-Refuses true h g = h
class-Refuses false h g = g

command_kind-Refuses :
    {P : Response → Type 0} (kind : NodeKind) {c : Check}
    → Refuses P c
    → Refuses P (if is_command kind then c else goes_on)
command_kind-Refuses kind h = class-Refuses (is_command kind) h by_none

module _ {Ast : Type 0} (I : Readers Ast) where
  databases-Refuses :
      (ast : Ast) (sql : Bytes) (a : DynamicArgs)
      → Refuses (IsRefusal sql) (databases_check I ast sql a)
  unfolding databases_check
  databases-Refuses ast sql a = Refuses-reading (I.collect_database_reference_sets ast sql) (λ sets.
      Refuses-first (database_refusal sql a sets.1) (with_context a sets.0)
        (database-IsRefusal sql a sets.1))

  system-Refuses :
      (sql : Bytes) (a : DynamicArgs) (refs : List ObjectRef)
      → Refuses (IsRefusal sql) (system_check sql a refs)
  unfolding system_check
  system-Refuses sql a refs =
      let scan = scan_refs a nothing_found refs in
      Refuses-if (scan.refused && not scan.si_object)
        (echoing sql (reject_system_table fresh scan.table (mode_dynamic a)))
        (system-IsRefusal sql scan.table (mode_dynamic a))

  carriers-Refuses : (ast : Ast) → Refuses IsReject (reject_disallowed_carriers I ast fresh)
  unfolding reject_disallowed_carriers
  carriers-Refuses ast = Refuses-reading (I.collect_source_function_names ast) (λ names.
      Refuses-then (Refuses-first (function_refusal fresh) names function_refusal-IsReject)
        (Refuses-reading (I.create_table_storage ast) storage_check-IsReject))

  command-Refuses :
      (ast : Ast) (sql : Bytes) (a : DynamicArgs)
      → Refuses (IsRefusal sql) (command_check I ast sql a)
  unfolding command_check
  command-Refuses ast sql a = Refuses-reading (I.node_kind ast) (λ kind. command_kind-Refuses kind (
      Refuses-reading (I.command_text ast)
        (λ text. findings_check-Refuses sql a (I.collect_command_text_findings text))))

  lookups-Refuses : (ast : Ast) (sql : Bytes) → Refuses (IsRefusal sql) (lookups_check I ast sql)
  unfolding lookups_check
  lookups-Refuses ast sql =
      Refuses-then
        (raw_lookups_check-Refuses sql (I.collect_raw_action_string_lookup_calls ast sql))
        (Refuses-reading (I.string_lookup_calls ast)
          (λ calls. Refuses-first (tree_lookup_refusal sql) calls (tree_lookup-IsRefusal sql)))

  modelled-Refuses :
      (ast : Ast) (sql : Bytes) (a : DynamicArgs)
      → Refuses (IsRefusal sql) (modelled_check I ast sql a)
  unfolding modelled_check
  modelled-Refuses ast sql a =
      let active = storage_integrity_surface_active a in
      Refuses-then (databases-Refuses ast sql a) (
        Refuses-then (Refuses-reading (I.collect_object_refs ast sql) (system-Refuses sql a)) (
          Refuses-then (either-Refuses active (Refuses-echoed sql (carriers-Refuses ast))) (
            Refuses-then (command-Refuses ast sql a) (
              Refuses-then (lookups-Refuses ast sql)
                (either-Refuses active (Refuses-echoed sql (reads-Refuses I ast sql a)))))))

  preflight-Refuses :
      (ast : Ast) (sql : Bytes) (a : DynamicArgs) → Refuses (IsRefusal sql) (preflight I ast sql a)
  unfolding preflight parameter_check class_check
  preflight-Refuses ast sql a =
      Refuses-then
        (Refuses-reading (I.table_position_parameter ast sql) (λ hit.
          Refuses-if hit (invalid_echo sql identifier_parameter_message)
            (invalid-IsRefusal sql identifier_parameter_message fresh fresh-IsFresh)))
        (Refuses-reading (I.node_kind ast) (λ kind.
          class-Refuses (is_command kind && not (command_class_modelled I ast sql a))
            (either-Refuses (storage_integrity_surface_active a)
              (by_refusal (unmodelled-IsRefusal sql a (I.raw_table_refs ast))))
            (modelled-Refuses ast sql a)))

  in_mode :
      (ast : Ast) (sql : Bytes) (sel : Selection) (resp : Response)
      → preflight_in I ast sql sel ≡ handled resp
      → IsRefusal sql resp
  unfolding preflight_in
  in_mode ast sql mode_none resp h = absurd (ground arith)
  in_mode ast sql (mode_static a) resp h = absurd (ground arith)
  in_mode ast sql (mode_dynamic a) resp h = Refuses-handled (preflight-Refuses ast sql a) h

  -- Whatever the preflight answers a statement with is a refusal, never a Success: it has no statement
  -- type, and hands the statement back as it came.
  pub preflight_table_references-IsRefusal :
      (ast : Ast) (sql : Bytes) (opts : List RewriteOption) (resp : Response)
      → preflight_table_references I ast sql opts ≡ handled resp
      → IsRefusal sql resp
  unfolding preflight_table_references
  preflight_table_references-IsRefusal ast sql opts resp h =
      in_mode ast sql (find_active opts) resp h
