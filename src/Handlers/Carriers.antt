-- ===== src/Handlers/Carriers.antt =====
-- preflight.go: `rejectDisallowedCarriers`, `commandClassModelled`, `rejectOpaqueReservedQualifiers`
-- and `rejectUngovernedReads`, in dynamic mode.
use rewriter_go.Prelude.{
  Bool, List, Option, [], false, if◌then◌else◌, none, not, some, true, ◌&&◌, ◌++◌, ◌∷◌,
}
use rewriter_go.Engine.Allowlists.{
  classify_table_engine, classify_table_function, refused_table_setting, table_engine_allowed_class,
  table_engine_refused, table_engine_refused_message, table_engine_unknown,
  table_engine_unknown_message, table_function_data_only, table_function_external,
  table_function_refused, table_function_refused_message, table_function_unknown,
  table_function_unknown_message, table_setting_refused_message,
}
use rewriter_go.Engine.Settings.Assignments.{session_setting_assignments}
use rewriter_go.Handlers.Accessed.{with_code}
use rewriter_go.Handlers.Check.{Check, first_refusal, goes_on, reading, refuses, refuses_if, ◌>>◌}
use rewriter_go.Handlers.Readers.{Readers, StorageEngine}
use rewriter_go.Handlers.Settings.{is_command, listed, reject_sql_bearing_settings}
use rewriter_go.Nameresolve.Contract.{storage_integrity_surface_active}
use rewriter_go.Nameresolve.Identifier.{qualify}
use rewriter_go.Nameresolve.Messages.{storage_integrity_physical_reject_message}
use rewriter_go.Nameresolve.Namespaces.{is_storage_integrity_physical_database}
use rewriter_go.Nameresolve.Request.{DynamicArgs}
use rewriter_go.Nameresolve.Selecting.{mode_dynamic}
use rewriter_go.Native.Engine.{TableTarget}
use rewriter_go.Native.Gates.{record_accessed_write, unsupported_statement_message}
use rewriter_go.Native.Response.{Response, Result, err, ok, unsupported_statement}
use rewriter_go.Prelude.Text.{Bytes, codes}

-- `case TableFunctionRefused`, `case TableFunctionUnknown`
unfoldable pub function_refusal : Response → Bytes → Option Response
function_refusal resp name = elim (classify_table_function name) [
  | table_function_refused ↦
      some (with_code resp unsupported_statement (table_function_refused_message name))
  | table_function_unknown ↦
      some (with_code resp unsupported_statement (table_function_unknown_message name))
  | table_function_data_only ↦ none
  | table_function_external ↦ none
]

unfoldable pub engine_refusal : Response → StorageEngine → Option Response
engine_refusal resp eng = elim (classify_table_engine eng.name eng.arg_count) [
  | table_engine_refused ↦
      some (with_code resp unsupported_statement (table_engine_refused_message eng.name))
  | table_engine_unknown ↦
      some (with_code resp unsupported_statement (table_engine_unknown_message eng.name))
  | table_engine_allowed_class ↦ none
]

unfoldable pub setting_refusal : Response → Bytes → Option Response
setting_refusal resp s =
    if refused_table_setting s
    then some (with_code resp unsupported_statement (table_setting_refused_message s))
    else none

unfoldable pub storage_check : Response → Option (List StorageEngine × List Bytes) → Check
storage_check resp none = goes_on
storage_check resp (some (engines, settings)) =
    first_refusal (engine_refusal resp) engines >> first_refusal (setting_refusal resp) settings

unfoldable pub with_commas : List Bytes → Bytes
with_commas [] = []
with_commas (text ∷ []) = text
with_commas (text ∷ next ∷ texts) = text ++ (codes ", " ++ with_commas (next ∷ texts))

abbrev pub no_texts : List Bytes → Bool
no_texts [] = true
no_texts (_ ∷ _) = false

unfoldable pub reserved_name : Response → DynamicArgs → TableTarget → Option Response
reserved_name resp a tt =
    if is_storage_integrity_physical_database tt.db a
    then some (
        with_code (record_accessed_write resp tt.db tt.table (mode_dynamic a)) unsupported_statement
          (storage_integrity_physical_reject_message (qualify tt.db tt.table)))
    else none

-- The result of a reader whose error counts as `false`, and the further tests where it is false.
abbrev pub or_else : Result Bool → Bool → Bool
or_else (err _) later = false
or_else (ok true) later = true
or_else (ok false) later = later

abbrev pub not_supported : Response → Response
not_supported resp = with_code resp unsupported_statement unsupported_statement_message

module _ {Ast : Type 0} (I : Readers Ast) where
  unfoldable pub reject_disallowed_carriers : Ast → Response → Check
  reject_disallowed_carriers ast resp = reading (I.collect_source_function_names ast) (λ names.
      first_refusal (function_refusal resp) names
      >> reading (I.create_table_storage ast) (λ storage. storage_check resp storage))

  unfoldable pub command_class_modelled : Ast → Bytes → DynamicArgs → Bool
  command_class_modelled ast sql a = or_else (I.names_object sql) (
      or_else (I.is_db_level sql) (
        or_else (I.is_raw_write ast) (
          or_else (I.is_grant sql) (
            if storage_integrity_surface_active a
            then false
            else (session_setting_assignments I.tokenize_raw sql).1))))

  unfoldable pub reserved_in_text : Response → DynamicArgs → Bytes → Check
  reserved_in_text resp a text = elim (I.opaque_text_qualified_names text) [
    | none ↦ refuses (with_code resp unsupported_statement unsupported_statement_message)
    | some names ↦ first_refusal (reserved_name resp a) names
  ]

  unfoldable pub reserved_in_texts : Response → DynamicArgs → List Bytes → Check
  reserved_in_texts resp a [] = goes_on
  reserved_in_texts resp a (text ∷ texts) =
      reserved_in_text resp a text >> reserved_in_texts resp a texts

  unfoldable pub reject_opaque_reserved_qualifiers : Ast → Bytes → DynamicArgs → Response → Check
  reject_opaque_reserved_qualifiers ast sql a resp =
      if not (storage_integrity_surface_active a)
      then goes_on
      else reading (I.opaque_statement_texts ast sql) (λ texts.
        reading (I.opaque_insert_query_text ast)
          (λ text. reserved_in_texts resp a (texts ++ listed text)))

  unfoldable pub type_refusal : Response → Bytes → Option Response
  type_refusal resp text =
      if I.opaque_text_is_ungoverned text then some (not_supported resp) else none

  unfoldable pub insert_query_check : Response → Option Bytes → Check
  insert_query_check resp none = goes_on
  insert_query_check resp (some text) =
      refuses_if (I.opaque_insert_query_is_ungoverned text) (not_supported resp)

  -- What follows the settings and the reserved names.
  unfoldable pub ungoverned_reads : Ast → Bytes → Response → Check
  ungoverned_reads ast sql resp = reading (I.expression_position_has_reads ast) (λ reads.
      refuses_if reads (not_supported resp)
      >> reading (I.opaque_statement_texts ast sql) (λ texts.
        refuses_if (not (no_texts texts) && I.opaque_text_is_ungoverned (with_commas texts))
          (not_supported resp)
        >> reading (I.declared_type_texts ast) (λ types.
          first_refusal (type_refusal resp) types
          >> reading (I.opaque_insert_query_text ast) (λ text. insert_query_check resp text))))

  unfoldable pub reject_ungoverned_reads : Ast → Bytes → DynamicArgs → Response → Check
  reject_ungoverned_reads ast sql a resp = reading (I.node_kind ast) (λ kind.
      (if is_command kind && not (command_class_modelled ast sql a)
        then goes_on
        else reject_sql_bearing_settings I ast sql resp)
      >> (reject_opaque_reserved_qualifiers ast sql a resp >> ungoverned_reads ast sql resp))
