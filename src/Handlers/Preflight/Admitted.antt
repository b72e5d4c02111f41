-- ===== src/Handlers/Preflight/Admitted.antt =====
-- The preflight goes on exactly where its policy holds.
mod Parts
mod Reads
use rewriter_go.Prelude.{Bool, List, arith, false, if◌then◌else◌, none, refl, some, true, ◌↔◌, ◌≡◌}
use rewriter_go.Handlers.Accessed.{fresh}
use rewriter_go.Handlers.Carriers.{
  function_refusal, reject_disallowed_carriers, reject_ungoverned_reads,
}
use rewriter_go.Handlers.Check.{
  Check, echoed, first_refusal, goes_on, reading, refuses, refuses_if, to_handled,
}
use rewriter_go.Handlers.Check.Laws.{
  echoed_iff, either_iff, first_refusal_iff, if_iff, reading_iff, then_iff,
}
use rewriter_go.Handlers.Preflight.{
  class_check, command_check, database_refusal, databases_check, invalid_echo, lookups_check,
  modelled_check, parameter_check, preflight, preflight_in, preflight_table_references,
  raw_lookups_check, system_check, tree_lookup_refusal, unless_active, unmodelled_refusal,
  with_context,
}
use rewriter_go.Handlers.Preflight.Admitted.Parts.{
  database_refusal_iff, findings_check_iff, function_refusal_iff, raw_lookups_iff,
  storage_check_iff, system_check_iff, tree_lookup_iff,
}
use rewriter_go.Handlers.Preflight.Admitted.Reads.{iff_trans, reads_iff}
use rewriter_go.Handlers.Preflight.Policy.{
  AreCarriersAccepted, AreDatabasesFree, AreLookupsResolved, IsAdmitted, IsCommandClean, IsGoverned,
  is_unmodelled,
}
use rewriter_go.Handlers.Readers.{Readers}
use rewriter_go.Handlers.Settings.{is_command}
use rewriter_go.Nameresolve.Contract.{storage_integrity_surface_active}
use rewriter_go.Nameresolve.Request.{DynamicArgs, RewriteOption}
use rewriter_go.Nameresolve.Selecting.{find_active, mode_dynamic}
use rewriter_go.Native.Engine.{NodeKind, not_handled}
use rewriter_go.Native.Gates.{identifier_parameter_message}
use rewriter_go.Native.Response.{Response, Result, err, ok}
use rewriter_go.Prelude.Text.{Bytes}

only_then_iff :
    {P : Type 0} (b : Bool) {c : Check}
    → ((c ≡ goes_on) ↔ P)
    → ((if b then c else goes_on) ≡ goes_on) ↔ (b ≡ true → P)
only_then_iff true p = (λ h e. p.0 h, λ f. p.1 (f refl))
only_then_iff false p = (λ h e. absurd (ground arith), λ f. refl)

must_iff :
    (b : Bool) (resp : Response) → ((if b then goes_on else refuses resp) ≡ goes_on) ↔ (b ≡ true)
must_iff true resp = (λ h. refl, λ h. refl)
must_iff false resp = (λ h. absurd (ground arith), λ h. absurd (ground arith))

no_hit_iff :
    (r : Result Bool) (resp : Response)
    → (reading r (λ hit. refuses_if hit resp) ≡ goes_on) ↔ (r ≡ ok false)
unfolding reading
no_hit_iff (err e) resp = (λ h. absurd (ground arith), λ h. absurd (ground arith))
no_hit_iff (ok true) resp = (λ h. absurd (ground arith), λ h. absurd (ground arith))
no_hit_iff (ok false) resp = (λ h. refl, λ h. refl)

to_handled_iff : (c : Check) → (to_handled c ≡ not_handled) ↔ (c ≡ goes_on)
to_handled_iff (err e) = (λ h. absurd (ground arith), λ h. absurd (ground arith))
to_handled_iff (ok none) = (λ h. refl, λ h. refl)
to_handled_iff (ok (some r)) = (λ h. absurd (ground arith), λ h. absurd (ground arith))

module _ {Ast : Type 0} (I : Readers Ast) where
  databases_iff :
      (ast : Ast) (sql : Bytes) (a : DynamicArgs)
      → (databases_check I ast sql a ≡ goes_on) ↔ AreDatabasesFree I ast sql a
  unfolding databases_check
  databases_iff ast sql a = reading_iff (I.collect_database_reference_sets ast sql) (λ sets.
      first_refusal_iff (database_refusal sql a sets.1) (with_context a sets.0)
        (database_refusal_iff sql a sets.1))

  carriers_iff :
      (ast : Ast) → (reject_disallowed_carriers I ast fresh ≡ goes_on) ↔ AreCarriersAccepted I ast
  unfolding reject_disallowed_carriers
  carriers_iff ast = reading_iff (I.collect_source_function_names ast) (λ names.
      then_iff (first_refusal (function_refusal fresh) names) _
        (first_refusal_iff (function_refusal fresh) names function_refusal_iff)
        (reading_iff (I.create_table_storage ast) storage_check_iff))

  command_iff :
      (ast : Ast) (sql : Bytes) (a : DynamicArgs)
      → (command_check I ast sql a ≡ goes_on) ↔ IsCommandClean I ast a
  unfolding command_check
  command_iff ast sql a = reading_iff (I.node_kind ast) (λ kind. only_then_iff (is_command kind) (
      reading_iff (I.command_text ast)
        (λ text. findings_check_iff sql a (I.collect_command_text_findings text))))

  lookups_iff :
      (ast : Ast) (sql : Bytes) → (lookups_check I ast sql ≡ goes_on) ↔ AreLookupsResolved I ast sql
  unfolding lookups_check
  lookups_iff ast sql =
      then_iff (raw_lookups_check sql (I.collect_raw_action_string_lookup_calls ast sql)) _
        (raw_lookups_iff sql (I.collect_raw_action_string_lookup_calls ast sql))
        (reading_iff (I.string_lookup_calls ast)
          (λ calls. first_refusal_iff (tree_lookup_refusal sql) calls (tree_lookup_iff sql)))

  modelled_iff :
      (ast : Ast) (sql : Bytes) (a : DynamicArgs)
      → (modelled_check I ast sql a ≡ goes_on) ↔ IsGoverned I ast sql a
  unfolding modelled_check
  modelled_iff ast sql a =
      let active = storage_integrity_surface_active a in
      then_iff (databases_check I ast sql a) _ (databases_iff ast sql a) (
        then_iff (reading (I.collect_object_refs ast sql) (λ refs. system_check sql a refs)) _
          (reading_iff (I.collect_object_refs ast sql) (system_check_iff sql a))
          (then_iff (unless_active a (echoed sql (reject_disallowed_carriers I ast fresh))) _
            (if_iff active
              (echoed_iff sql (reject_disallowed_carriers I ast fresh) (carriers_iff ast)))
            (then_iff (command_check I ast sql a) _ (command_iff ast sql a) (
              then_iff (lookups_check I ast sql) _ (lookups_iff ast sql) (
                if_iff active (
                  echoed_iff sql (reject_ungoverned_reads I ast sql a fresh)
                    (reads_iff I ast sql a)))))))

  class_iff :
      (ast : Ast) (sql : Bytes) (a : DynamicArgs) (kind : NodeKind)
      → (class_check I ast sql a kind ≡ goes_on) ↔ (
          (is_unmodelled I ast sql a kind ≡ true → storage_integrity_surface_active a ≡ true)
          × (is_unmodelled I ast sql a kind ≡ false → IsGoverned I ast sql a))
  unfolding class_check
  class_iff ast sql a kind =
      either_iff (is_unmodelled I ast sql a kind)
        (must_iff (storage_integrity_surface_active a)
          (unmodelled_refusal sql a (I.raw_table_refs ast)))
        (modelled_iff ast sql a)

  preflight_iff :
      (ast : Ast) (sql : Bytes) (a : DynamicArgs)
      → (preflight I ast sql a ≡ goes_on) ↔ IsAdmitted I ast sql a
  unfolding preflight parameter_check
  preflight_iff ast sql a =
      then_iff (parameter_check I ast sql) _
        (no_hit_iff (I.table_position_parameter ast sql)
          (invalid_echo sql identifier_parameter_message))
        (reading_iff (I.node_kind ast) (class_iff ast sql a))

  -- In dynamic mode the preflight lets a statement pass exactly where the policy on table references
  -- admits it; it refuses, or fails, in every other case.
  pub preflight_table_references_admits :
      (ast : Ast) (sql : Bytes) (opts : List RewriteOption) (a : DynamicArgs)
      → find_active opts ≡ mode_dynamic a
      → (preflight_table_references I ast sql opts ≡ not_handled) ↔ IsAdmitted I ast sql a
  unfolding preflight_table_references preflight_in
  preflight_table_references_admits ast sql opts a e =
      rw (preflight_table_references, e)
        (iff_trans (to_handled_iff (preflight I ast sql a)) (preflight_iff ast sql a))
