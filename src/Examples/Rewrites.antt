-- ===== src/Examples/Rewrites.antt =====
-- Runs of the pipeline.
use rewriter_go.Prelude.{◌↔◌, List, [], any, false, if◌then◌else◌, refl, true, ◌∷◌, ◌≡◌, ◌≢◌}
use rewriter_go.Engine.Case.{to_upper, upper}
use rewriter_go.Examples.Requests.{dynamic_sample, options_sample}
use rewriter_go.Examples.Toy.{answered, left_with, stated, toy}
use rewriter_go.Nameresolve.Contract.{storage_integrity_surface_active}
use rewriter_go.Nameresolve.Identifier.{
  alpha, digit, exact_parts, exact_qualified_table, simple_from, simple_identifier, split_qualified,
}
use rewriter_go.Nameresolve.Request.{contract_v2}
use rewriter_go.Nameresolve.Selecting.{
  find_active, mode_dynamic, select_args, select_from, select_names,
}
use rewriter_go.Nameresolve.Validate.{
  check_key, check_mapping, check_protected, check_reserved, check_table, check_tables, first_error,
  metadata_database, validate_protected_databases, validate_storage_integrity,
}
use rewriter_go.Native.Classify.{
  classify, classify_command, classify_kind, first_prefix, is_query_kind, skip_space, space_length,
  three_byte_space, trim_space, two_byte_space,
}
use rewriter_go.Native.Engine.{ObjectRef}
use rewriter_go.Native.Finalize.{
  annotate_reject, finalize, is_dynamic, regenerated_verdict, reject_message,
  reject_system_tables_on_success, settle_reject, success_verdict, system_tables_verdict,
  tree_message,
}
use rewriter_go.Native.Finalize.Refusals.{finalize_refusal}
use rewriter_go.Native.Finalize.Passed.{IsPassed, finalize_success}
use rewriter_go.Native.Gates.{
  first_name_message, first_table_message, identifier_parameter_message, nothing_found, scan_refs,
}
use rewriter_go.Native.Gates.Scan.{first_not_allowed, not_allowed, on_surface, scan_refs_lem}
use rewriter_go.Native.Pipeline.{
  admit, admit_protected, answer, existence_of, finish, last_phase, parse, parsed, phase, phases,
  rewrite_statement, run_of, select_outcome,
}
use rewriter_go.Native.Pipeline.Configured.{IsConfigured, rewrite_statement-IsConfigured}
use rewriter_go.Native.Pipeline.Outcomes.{IsGated}
use rewriter_go.Native.Pipeline.Sealed.{is_ok}
use rewriter_go.Native.Response.{
  Response, existence_unspecified, is_success, ok, type_show_create_table, type_unspecified,
  unsupported_statement,
}
use rewriter_go.Native.Rewrite.{do_rewrite, rewrite_stripped}
use rewriter_go.Native.Rewrite.Total.{IsRemnant, do_rewrite_dynamic, do_rewrite_success}
use rewriter_go.Prelude.Dict.{keys, lookup}
use rewriter_go.Prelude.Sort.{sort_strings}
use rewriter_go.Prelude.Text.{Bytes, codes, count_byte, cut_at, has_prefix, less, ◌==◌}

sample-active : find_active options_sample ≡ mode_dynamic dynamic_sample
unfolding find_active select_from select_names select_args
sample-active = refl

sample-is_dynamic : is_dynamic (find_active options_sample) ≡ true
unfolding find_active select_from select_names select_args
sample-is_dynamic = refl

statement-rewritten : rewrite_statement toy stated options_sample ≡ ok left_with
unfolding do_rewrite rewrite_stripped rewrite_statement answer parse run_of parsed phases phase
    last_phase select_outcome finish finalize success_verdict reject_system_tables_on_success
    system_tables_verdict scan_refs regenerated_verdict classify classify_kind is_query_kind
    existence_of admit admit_protected find_active select_from select_names select_args
    storage_integrity_surface_active validate_storage_integrity check_tables check_reserved
    check_key check_table first_error exact_qualified_table exact_parts simple_identifier
    simple_from alpha digit count_byte split_qualified cut_at lookup keys sort_strings ◌==◌
    validate_protected_databases check_protected check_mapping metadata_database less
statement-rewritten = refl

stated-rewritten : do_rewrite toy stated options_sample ≡ ok left_with
unfolding do_rewrite rewrite_stripped rewrite_statement answer parse run_of parsed phases phase
    last_phase select_outcome finish finalize success_verdict reject_system_tables_on_success
    system_tables_verdict scan_refs regenerated_verdict classify classify_kind is_query_kind
    existence_of admit admit_protected find_active select_from select_names select_args
    storage_integrity_surface_active validate_storage_integrity check_tables check_reserved
    check_key check_table first_error exact_qualified_table exact_parts simple_identifier
    simple_from alpha digit count_byte split_qualified cut_at lookup keys sort_strings ◌==◌
    validate_protected_databases check_protected check_mapping metadata_database less
stated-rewritten = refl

do_rewrite_success_example :
    (text : Bytes) × IsRemnant toy stated options_sample text
    × IsGated toy text options_sample (find_active options_sample)
do_rewrite_success_example =
    do_rewrite_success toy stated options_sample left_with stated-rewritten refl

do_rewrite_dynamic_example : is_ok (do_rewrite toy stated options_sample) ≡ true
do_rewrite_dynamic_example = do_rewrite_dynamic toy stated options_sample sample-is_dynamic

rewrite_statement-IsConfigured_example : IsConfigured dynamic_sample
rewrite_statement-IsConfigured_example =
    rewrite_statement-IsConfigured toy stated options_sample dynamic_sample left_with sample-active
      statement-rewritten refl

-- An exact reference to an allowed system table, one to a table that is not, and a safe table.
abbrev references : List ObjectRef
references =
    record { db = codes "system"; table = codes "functions"; exact = true }
    ∷ record { db = codes "hg_safe"; table = codes "t"; exact = true }
    ∷ record { db = codes "system"; table = codes "tables"; exact = true }
    ∷ []

scan_refs_lem_example :
    ((scan_refs dynamic_sample nothing_found references).refused
      ≡ any (not_allowed dynamic_sample) references)
    × ((scan_refs dynamic_sample nothing_found references).si_object
        ≡ any (on_surface dynamic_sample) references)
    × ((scan_refs dynamic_sample nothing_found references).table ≡ (
        if any (not_allowed dynamic_sample) references
        then first_not_allowed dynamic_sample references
        else []))
scan_refs_lem_example = scan_refs_lem dynamic_sample references

finalize_success_example :
    (is_success
        (finalize toy answered stated stated existence_unspecified contract_v2
          (mode_dynamic dynamic_sample)).code
      ≡ true)
    ↔ ((is_success answered.code ≡ true) × IsPassed toy stated stated (mode_dynamic dynamic_sample))
finalize_success_example =
    finalize_success toy stated stated answered existence_unspecified contract_v2
      (mode_dynamic dynamic_sample)

abbrev failing : Response
failing = record answered { code = unsupported_statement; message = codes "refused" }

failing-leaves :
    is_success
      (finalize toy failing stated stated existence_unspecified contract_v2
        (mode_dynamic dynamic_sample)).code
    ≡ false
unfolding finalize settle_reject annotate_reject storage_integrity_surface_active ◌==◌
    reject_message tree_message first_table_message first_name_message identifier_parameter_message
failing-leaves = refl

finalize_refusal_example :
    ((finalize toy failing stated stated existence_unspecified contract_v2
        (mode_dynamic dynamic_sample)).statement_type
      ≡ type_unspecified)
    × (stated ≢ []
        → (finalize toy failing stated stated existence_unspecified contract_v2
            (mode_dynamic dynamic_sample)).sql_after_rewrite
          ≢ [])
finalize_refusal_example =
    finalize_refusal toy stated stated failing existence_unspecified contract_v2
      (mode_dynamic dynamic_sample) failing-leaves

show_create-classified : classify_command (codes "  Show create table t") ≡ type_show_create_table
unfolding classify_command first_prefix to_upper upper trim_space skip_space space_length
    two_byte_space three_byte_space has_prefix
show_create-classified = refl
