-- ===== src/Handlers/Preflight/Policy.antt =====
-- The policy on a statement that the preflight stands for.
use rewriter_go.Prelude.{
  All, Bool, List, Option, [], any, false, if◌then◌else◌, none, not, some, true, ◌&&◌, ◌++◌, ◌∷◌,
  ◌≡◌,
}
use rewriter_go.Engine.Allowlists.{refused_table_setting}
use rewriter_go.Engine.Allowlists.Accepted.{IsAllowedEngine, accepted_functions}
use rewriter_go.Engine.Case.{to_lower}
use rewriter_go.Engine.Settings.{SettingAssignment, setting_refused}
use rewriter_go.Engine.Settings.Assignments.{session_setting_assignments}
use rewriter_go.Engine.Settings.Scans.{settings_backstop, settings_escape_backstop}
use rewriter_go.Handlers.Carriers.{command_class_modelled, no_texts, with_commas}
use rewriter_go.Handlers.Preflight.{is_has_column_in_table, with_context}
use rewriter_go.Handlers.Readers.{CommandFindings, Readers, StorageEngine, StringLookup}
use rewriter_go.Handlers.Settings.{is_command, listed, texts_assignments}
use rewriter_go.Nameresolve.Contract.{storage_integrity_surface_active}
use rewriter_go.Nameresolve.Namespaces.{is_storage_integrity_physical_database, protected_database}
use rewriter_go.Nameresolve.Request.{DynamicArgs}
use rewriter_go.Native.Engine.{NodeKind, ObjectRef, TableTarget}
use rewriter_go.Native.Gates.Scan.{not_allowed, on_surface}
use rewriter_go.Native.Response.{ok}
use rewriter_go.Prelude.Text.{Bytes, contains, ◌==◌}

-- A protected database may stand in a statement only where the handlers of the storage-integrity
-- surface see it, and answer for it.
abbrev pub IsFreeDatabase : DynamicArgs → List Bytes → Bytes → Type 0
IsFreeDatabase a blind db =
    protected_database db a ≡ true
    → (is_storage_integrity_physical_database db a ≡ true) × (contains db blind ≡ false)

-- A setting that may stand in a statement: not refused, its value plain, its name as written.
abbrev pub IsPlainSetting : SettingAssignment → Type 0
IsPlainSetting x = (setting_refused x ≡ false) × (x.escaped_name ≡ false) × (x.plain_value ≡ true)

abbrev pub IsAcceptedFunction : Bytes → Type 0
IsAcceptedFunction name = contains (to_lower name) accepted_functions ≡ true

abbrev pub IsAcceptedStorage : Option (List StorageEngine × List Bytes) → Type 0
IsAcceptedStorage none = Unit
IsAcceptedStorage (some (engines, settings)) =
    All (λ eng. IsAllowedEngine (eng.name) (eng.arg_count)) engines
    × All (λ s. refused_table_setting s ≡ false) settings

-- No reference outside the allowlist of system tables, unless the statement also names an object of
-- the active surface, whose handlers answer first.
abbrev pub IsSystemFree : DynamicArgs → List ObjectRef → Type 0
IsSystemFree a refs = any (not_allowed a) refs ≡ true → any (on_surface a) refs ≡ true

-- The target of a command, where it is a call.
abbrev pub IsAcceptedTarget : DynamicArgs → CommandFindings → Type 0
IsAcceptedTarget a findings = elim (findings.target_function) [
  | none ↦ Unit
  | some name ↦
      IsAcceptedFunction name
      × All (λ db. protected_database db a ≡ false) findings.target_arg_databases
]

abbrev pub IsCleanText : DynamicArgs → Option CommandFindings → Type 0
IsCleanText a found =
    (findings : CommandFindings) × (found ≡ some findings)
    × (findings.lookup_calls ≡ [])
    × IsAcceptedTarget a findings

-- A string lookup that is left to the rewrite of a query body.
abbrev pub IsQueryLookup : StringLookup → Type 0
IsQueryLookup call = (is_has_column_in_table call.function ≡ true) × (call.in_select_body ≡ true)

module _ {Ast : Type 0} (I : Readers Ast) where
  abbrev pub AreDatabasesFree : Ast → Bytes → DynamicArgs → Type 0
  AreDatabasesFree ast sql a =
      (sets : List Bytes × List Bytes) × (I.collect_database_reference_sets ast sql ≡ ok sets)
      × All (IsFreeDatabase a sets.1) (with_context a sets.0)

  abbrev pub AreCarriersAccepted : Ast → Type 0
  AreCarriersAccepted ast =
      (names : List Bytes) × (I.collect_source_function_names ast ≡ ok names)
      × (All IsAcceptedFunction names
          × ((storage : Option (List StorageEngine × List Bytes)) × (I.create_table_storage ast
                ≡ ok storage)
              × IsAcceptedStorage storage))

  abbrev pub IsCommandClean : Ast → DynamicArgs → Type 0
  IsCommandClean ast a =
      (kind : NodeKind) × (I.node_kind ast ≡ ok kind)
      × (is_command kind ≡ true
          → ((text : Bytes) × (I.command_text ast ≡ ok text)
              × IsCleanText a (I.collect_command_text_findings text)))

  abbrev pub AreLookupsResolved : Ast → Bytes → Type 0
  AreLookupsResolved ast sql =
      (I.collect_raw_action_string_lookup_calls ast sql ≡ some [])
      × ((calls : List StringLookup) × (I.string_lookup_calls ast ≡ ok calls)
          × All IsQueryLookup calls)

  -- The texts of a statement whose SETTINGS clauses the tree does not hold, with what holds of them:
  -- the text of a command, unless it is a SET of its own, and the opaque parts of any other statement.
  abbrev pub AreTexts : Ast → Bytes → NodeKind → (List Bytes → Type 0) → Type 0
  AreTexts ast sql kind Q =
      (is_command kind ≡ true
        → ((text : Bytes) × (I.command_text ast ≡ ok text)
            × Q (if (session_setting_assignments I.tokenize_raw text).1 then [] else text ∷ [])))
      × (is_command kind ≡ false
          → ((opaque : List Bytes) × (I.opaque_statement_texts ast sql ≡ ok opaque)
              × ((text : Option Bytes) × (I.opaque_insert_query_text ast ≡ ok text)
                  × Q (opaque ++ listed text))))

  -- The token scans of the whole statement.
  abbrev pub IsBackstopped : Bytes → Type 0
  IsBackstopped sql =
      sql == [] ≡ false
      → (settings_backstop I.tokenize_raw sql ≡ none)
        × (settings_escape_backstop I.tokenize_raw sql ≡ false)

  -- Every setting that the statement assigns may stand in it.
  abbrev pub AreSettingsPlain : Ast → Bytes → Type 0
  AreSettingsPlain ast sql =
      IsBackstopped sql
      × ((assignments : List SettingAssignment) × (I.query_settings ast ≡ ok assignments)
          × ((kind : NodeKind) × (I.node_kind ast ≡ ok kind)
              × AreTexts ast sql kind (λ texts.
                All IsPlainSetting (texts_assignments I.tokenize_raw texts assignments))))

  -- An opaque text names no protocol-owned database.
  abbrev pub IsUnreserved : DynamicArgs → Bytes → Type 0
  IsUnreserved a text =
      (names : List TableTarget) × (I.opaque_text_qualified_names text ≡ some names)
      × All (λ t. is_storage_integrity_physical_database (t.db) a ≡ false) names

  abbrev pub AreUnreserved : Ast → Bytes → DynamicArgs → Type 0
  AreUnreserved ast sql a =
      (texts : List Bytes) × (I.opaque_statement_texts ast sql ≡ ok texts)
      × ((text : Option Bytes) × (I.opaque_insert_query_text ast ≡ ok text)
          × All (IsUnreserved a) (texts ++ listed text))

  -- No position that no handler rewrites reads a table.
  abbrev pub AreExpressionsFree : Ast → Bytes → Type 0
  AreExpressionsFree ast sql =
      (I.expression_position_has_reads ast ≡ ok false)
      × ((texts : List Bytes) × (I.opaque_statement_texts ast sql ≡ ok texts)
          × ((no_texts texts ≡ false → I.opaque_text_is_ungoverned (with_commas texts) ≡ false)
              × ((types : List Bytes) × (I.declared_type_texts ast ≡ ok types)
                  × (All (λ text. I.opaque_text_is_ungoverned text ≡ false) types
                      × ((text : Option Bytes) × (I.opaque_insert_query_text ast ≡ ok text)
                          × All (λ t. I.opaque_insert_query_is_ungoverned t ≡ false)
                              (listed text))))))

  -- A command that no handler models, which only the handlers of the active surface may answer.
  abbrev pub is_unmodelled : Ast → Bytes → DynamicArgs → NodeKind → Bool
  is_unmodelled ast sql a kind = is_command kind && not (command_class_modelled I ast sql a)

  abbrev pub AreReadsGoverned : Ast → Bytes → DynamicArgs → Type 0
  AreReadsGoverned ast sql a =
      (kind : NodeKind) × (I.node_kind ast ≡ ok kind)
      × ((is_unmodelled ast sql a kind ≡ false → AreSettingsPlain ast sql)
          × ((storage_integrity_surface_active a ≡ true → AreUnreserved ast sql a)
              × AreExpressionsFree ast sql))

  -- The policy on a statement of a modelled class.
  abbrev pub IsGoverned : Ast → Bytes → DynamicArgs → Type 0
  IsGoverned ast sql a =
      AreDatabasesFree ast sql a
      × (((refs : List ObjectRef) × (I.collect_object_refs ast sql ≡ ok refs) × IsSystemFree a refs)
          × ((storage_integrity_surface_active a ≡ false → AreCarriersAccepted ast)
              × (IsCommandClean ast a
                  × (AreLookupsResolved ast sql
                      × (storage_integrity_surface_active a ≡ false
                          → AreReadsGoverned ast sql a)))))

  -- The policy of the preflight.
  abbrev pub IsAdmitted : Ast → Bytes → DynamicArgs → Type 0
  IsAdmitted ast sql a =
      (I.table_position_parameter ast sql ≡ ok false)
      × ((kind : NodeKind) × (I.node_kind ast ≡ ok kind)
          × ((is_unmodelled ast sql a kind ≡ true → storage_integrity_surface_active a ≡ true)
              × (is_unmodelled ast sql a kind ≡ false → IsGoverned ast sql a)))
