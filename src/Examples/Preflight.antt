-- ===== src/Examples/Preflight.antt =====
-- The preflight at a sample request, with the allowlists and the settings.
use Prim.Native.String.{String}
use rewriter_go.Prelude.{List, [], false, is_some, none, refl, some, true, ◌↔◌, ◌∷◌, ◌≡◌}
use rewriter_go.Engine.Allowlists.{
  classify_table_engine, classify_table_function, table_engine_allowed_class,
}
use rewriter_go.Engine.Allowlists.Accepted.{
  IsAllowedEngine, accepted_functions, classify_table_engine_allowed,
  classify_table_function_accepts, is_accepted_function,
}
use rewriter_go.Engine.Case.{equal_fold, fold_case, lower, to_lower, to_upper, upper}
use rewriter_go.Engine.Settings.{sql_bearing_setting, sql_bearing_settings}
use rewriter_go.Engine.Settings.Scans.{refused_at, settings_backstop}
use rewriter_go.Engine.Settings.Scans.Refused.{keyword_iff, IsRefused-iff}
use rewriter_go.Engine.Settings.Scans.Backstop.{IsHit, settings_backstop_iff}
use rewriter_go.Engine.Tokens.{RawToken, has_type, opaque_keyword}
use rewriter_go.Examples.Requests.{dynamic_sample, options_sample}
use rewriter_go.Examples.Toy.{left_with, stated, toy}
use rewriter_go.Handlers.Accessed.{new_write_resp}
use rewriter_go.Handlers.Carriers.{command_class_modelled}
use rewriter_go.Handlers.Check.{first_refusal, reading, ◌>>◌}
use rewriter_go.Handlers.Composition.{do_rewrite-IsAdmitted, preflighted}
use rewriter_go.Handlers.Preflight.{
  class_check, command_check, database_refusal, databases_check, invalid_echo, lookups_check,
  modelled_check, parameter_check, preflight, preflight_in, preflight_table_references,
  raw_lookups_check, system_check,
}
use rewriter_go.Handlers.Preflight.Admitted.{preflight_table_references_admits}
use rewriter_go.Handlers.Preflight.Policy.{IsAdmitted}
use rewriter_go.Handlers.Preflight.Refusals.{preflight_table_references-IsRefusal}
use rewriter_go.Handlers.Preflight.Refusals.Parts.{IsRefusal}
use rewriter_go.Handlers.Readers.{Readers}
use rewriter_go.Handlers.Targets.{reject_invalid}
use rewriter_go.Nameresolve.Contract.{
  storage_integrity_reserved_database, storage_integrity_surface_active,
}
use rewriter_go.Nameresolve.Identifier.{
  alpha, digit, exact_parts, exact_qualified_table, simple_from, simple_identifier, split_qualified,
}
use rewriter_go.Nameresolve.Integrity.{context_database}
use rewriter_go.Nameresolve.Namespaces.{
  hosts, is_storage_integrity_physical_database, names_database, protected_database,
}
use rewriter_go.Nameresolve.Resolve.{
  apply_dynamic, build_dynamic_table_name, delimiter, is_logical_remote_mapped, known_physical,
  remote_outcome, resolve_physical_database, route, write_extras,
}
use rewriter_go.Nameresolve.Selecting.{
  find_active, mode_dynamic, select_args, select_from, select_names,
}
use rewriter_go.Nameresolve.Validate.{
  check_key, check_mapping, check_protected, check_reserved, check_table, check_tables, first_error,
  metadata_database, validate_protected_databases, validate_storage_integrity,
}
use rewriter_go.Native.Classify.{classify, classify_kind, is_query_kind}
use rewriter_go.Native.Engine.{handled, node_select, not_handled}
use rewriter_go.Native.Finalize.{
  finalize, regenerated_verdict, reject_system_tables_on_success, success_verdict,
  system_tables_verdict,
}
use rewriter_go.Native.Gates.{identifier_parameter_message, scan_refs}
use rewriter_go.Native.Pipeline.{
  admit, admit_protected, answer, existence_of, finish, last_phase, parse, parsed, phase, phases,
  rewrite_statement, run_of, select_outcome,
}
use rewriter_go.Native.Response.{Result, ok}
use rewriter_go.Native.Rewrite.{do_rewrite, rewrite_stripped}
use rewriter_go.Native.Rewrite.Total.{IsRemnant}
use rewriter_go.Prelude.Dict.{any_value, has_key, keys, lookup}
use rewriter_go.Prelude.Sort.{sort_strings}
use rewriter_go.Prelude.Text.{
  Bytes, codes, contains, count_byte, cut_at, has_byte, has_prefix, less, ◌==◌,
}
use rewriter_go.Reverse.Withheld.{index}

-- Readers that find nothing, but a parameter in a text with a brace and the database db1.
abbrev readers : Readers Bytes
readers = record {
  tokenize_raw = λ sql. ok [];
  node_kind = λ ast. ok node_select;
  command_text = λ ast. ok ast;
  table_position_parameter = λ ast sql. ok (has_byte 123 sql);
  raw_table_refs = λ ast. ok [];
  collect_database_reference_sets = λ ast sql. ok (codes "db1" ∷ [], []);
  collect_object_refs = λ ast sql. ok [];
  collect_source_function_names = λ ast. ok [];
  create_table_storage = λ ast. ok none;
  collect_command_text_findings = λ text. none;
  collect_raw_action_string_lookup_calls = λ ast sql. some [];
  string_lookup_calls = λ ast. ok [];
  query_settings = λ ast. ok [];
  opaque_statement_texts = λ ast sql. ok [];
  opaque_insert_query_text = λ ast. ok none;
  expression_position_has_reads = λ ast. ok false;
  declared_type_texts = λ ast. ok [];
  opaque_text_qualified_names = λ text. some [];
  opaque_text_is_ungoverned = λ text. false;
  opaque_insert_query_is_ungoverned = λ text. false;
  names_object = λ sql. ok false;
  is_db_level = λ sql. ok false;
  is_grant = λ sql. ok false;
  is_raw_write = λ ast. ok false;
}

abbrev parametrised : Bytes
parametrised = codes "SELECT 1 FROM {t:Identifier}"

parametrised-refused :
    preflight_table_references readers parametrised parametrised options_sample
    ≡ handled (invalid_echo parametrised identifier_parameter_message)
unfolding preflight_table_references preflight_in preflight parameter_check class_check
    command_class_modelled modelled_check databases_check first_refusal database_refusal reading
    ◌>>◌ system_check scan_refs command_check lookups_check raw_lookups_check
    storage_integrity_surface_active storage_integrity_reserved_database find_active select_from
    select_names select_args new_write_resp reject_invalid has_byte
parametrised-refused = refl

preflight_table_references-IsRefusal_example :
    IsRefusal parametrised (invalid_echo parametrised identifier_parameter_message)
preflight_table_references-IsRefusal_example =
    preflight_table_references-IsRefusal readers parametrised parametrised options_sample
      (invalid_echo parametrised identifier_parameter_message) parametrised-refused

sample-dynamic : find_active options_sample ≡ mode_dynamic dynamic_sample
unfolding find_active select_from select_names select_args
sample-dynamic = refl

preflight_table_references_admits_example :
    (preflight_table_references readers stated stated options_sample ≡ not_handled)
    ↔ IsAdmitted readers stated stated dynamic_sample
preflight_table_references_admits_example =
    preflight_table_references_admits readers stated stated options_sample dynamic_sample
      sample-dynamic

stated-admitted : do_rewrite (preflighted toy readers) stated options_sample ≡ ok left_with
unfolding do_rewrite rewrite_stripped rewrite_statement answer parse run_of parsed phases phase
    last_phase select_outcome finish finalize success_verdict reject_system_tables_on_success
    system_tables_verdict scan_refs regenerated_verdict classify classify_kind is_query_kind
    existence_of admit admit_protected find_active select_from select_names select_args
    storage_integrity_surface_active validate_storage_integrity check_tables check_reserved
    check_key check_table first_error exact_qualified_table exact_parts simple_identifier
    simple_from alpha digit count_byte split_qualified cut_at lookup keys sort_strings ◌==◌
    validate_protected_databases check_protected check_mapping metadata_database less apply_dynamic
    route remote_outcome context_database protected_database any_value contains
    is_storage_integrity_physical_database hosts names_database storage_integrity_reserved_database
    resolve_physical_database known_physical has_key build_dynamic_table_name write_extras delimiter
    is_logical_remote_mapped preflight_table_references preflight_in preflight parameter_check
    class_check command_class_modelled modelled_check databases_check first_refusal database_refusal
    reading ◌>>◌ system_check command_check lookups_check raw_lookups_check has_byte
stated-admitted = refl

do_rewrite-IsAdmitted_example :
    (text : Bytes) × IsRemnant (preflighted toy readers) stated options_sample text
    × ((ast : Bytes) × (toy.parse_one text ≡ ok ast) × IsAdmitted readers ast text dynamic_sample)
do_rewrite-IsAdmitted_example =
    do_rewrite-IsAdmitted toy readers stated options_sample dynamic_sample left_with sample-dynamic
      stated-admitted refl

classify_table_function_accepts_example :
    is_accepted_function (classify_table_function (codes "Numbers"))
    ≡ contains (to_lower (codes "Numbers")) accepted_functions
classify_table_function_accepts_example = classify_table_function_accepts (codes "Numbers")

classify_table_engine_allowed_example :
    (classify_table_engine (codes "ReplicatedMergeTree") 0 ≡ table_engine_allowed_class)
    ↔ IsAllowedEngine (codes "ReplicatedMergeTree") 0
classify_table_engine_allowed_example =
    classify_table_engine_allowed (codes "ReplicatedMergeTree") 0

-- A backstop that fires: SETTINGS, then an assignment to a dialect.
abbrev word : String → String → RawToken
word kind text = record {
  token_type = codes kind;
  text = codes text;
  source = codes text;
  span_start = 0;
  span_end = 0;
}

abbrev switching : List RawToken
switching =
    word "SELECT" "SELECT"
    ∷ word "NUMBER" "1"
    ∷ word "SETTINGS" "SETTINGS"
    ∷ word "VAR" "Dialect"
    ∷ word "EQ" "="
    ∷ word "STRING" "prql"
    ∷ []

abbrev switching_text : Bytes
switching_text = codes "SELECT 1 SETTINGS Dialect = 'prql'"

abbrev lexer : Bytes → Result (List RawToken)
lexer sql = ok switching

switching_found : is_some (index (to_upper switching_text) (codes "SETTINGS")) ≡ true
unfolding to_upper upper index has_prefix
switching_found = refl

switching-IsHit : IsHit switching
unfolding refused_at sql_bearing_setting sql_bearing_settings contains to_lower lower has_type
    opaque_keyword equal_fold fold_case ◌==◌
switching-IsHit = record {
  before = word "SELECT" "SELECT" ∷ word "NUMBER" "1" ∷ [];
  keyword = word "SETTINGS" "SETTINGS";
  between = [];
  tok = word "VAR" "Dialect";
  behind_it = word "EQ" "=" ∷ word "STRING" "prql" ∷ [];
  split = refl;
  is_keyword = (keyword_iff (word "SETTINGS" "SETTINGS")).0 refl;
  refused =
      (IsRefused-iff (word "VAR" "Dialect") (word "EQ" "=" ∷ word "STRING" "prql" ∷ [])).0 refl;
}

settings_backstop_iff_example :
    (is_some (settings_backstop lexer switching_text) ≡ true) ↔ IsHit switching
settings_backstop_iff_example =
    settings_backstop_iff lexer switching_text switching refl switching_found
