-- ===== src/Handlers/Preflight/Admitted/Reads.antt =====
-- When the checks of settings and of ungoverned reads go on.
use rewriter_go.Prelude.{
  All, Bool, Bool-cases, List, Option, Option-cases, [], arith, false, if◌then◌else◌, inl, inr,
  none, not, refl, some, true, ◌&&◌, ◌++◌, ◌↔◌, ◌∷◌, ◌≡◌,
}
use rewriter_go.Engine.Settings.{SettingAssignment}
use rewriter_go.Engine.Settings.Assignments.{session_setting_assignments}
use rewriter_go.Engine.Settings.Scans.{settings_backstop, settings_escape_backstop}
use rewriter_go.Handlers.Accessed.{fresh}
use rewriter_go.Handlers.Carriers.{
  insert_query_check, no_texts, not_supported, reject_opaque_reserved_qualifiers,
  reject_ungoverned_reads, reserved_in_text, reserved_in_texts, reserved_name, type_refusal,
  ungoverned_reads, with_commas,
}
use rewriter_go.Handlers.Check.{Check, first_refusal, goes_on, reading, refuses_if, ◌>>◌}
use rewriter_go.Handlers.Check.Laws.{
  either_iff, first_refusal_iff, if_iff, reading_iff, refuses_if_iff, then_iff, when_iff,
}
use rewriter_go.Handlers.Preflight.Policy.{
  AreExpressionsFree, AreReadsGoverned, AreSettingsPlain, AreTexts, AreUnreserved, IsBackstopped,
  IsPlainSetting, IsUnreserved, is_unmodelled,
}
use rewriter_go.Handlers.Readers.{Readers}
use rewriter_go.Handlers.Settings.{
  assignment_verdict, is_command, listed, reading_texts, refuses_verdict,
  reject_sql_bearing_settings, settings_backstops, settings_verdict, texts_assignments,
}
use rewriter_go.Nameresolve.Contract.{storage_integrity_surface_active}
use rewriter_go.Nameresolve.Namespaces.{is_storage_integrity_physical_database}
use rewriter_go.Nameresolve.Request.{DynamicArgs}
use rewriter_go.Native.Engine.{NodeKind, TableTarget}
use rewriter_go.Native.Response.{Result, RewriteCode, err, ok}
use rewriter_go.Prelude.Text.{Bytes, ◌==◌}

setting_iff : (x : SettingAssignment) → (assignment_verdict x ≡ none) ↔ IsPlainSetting x
unfolding assignment_verdict
setting_iff x = (λ h. (ground arith, ground arith, ground arith), λ (p, q, r). ground arith)

verdict_iff : (xs : List SettingAssignment) → (settings_verdict xs ≡ none) ↔ All IsPlainSetting xs
unfolding settings_verdict
verdict_iff [] = (λ h. tt, λ h. refl)
verdict_iff (x ∷ xs) = elim (Option-cases (assignment_verdict x)) [
  | inl e ↦
      let later = verdict_iff xs in
      rw (settings_verdict, e) (λ h. ((setting_iff x).0 e, later.0 h), λ (p, ps). later.1 ps)
  | inr (v, e) ↦
      rw (settings_verdict, e)
        (
          λ h. absurd (ground arith),
          λ (p, ps). absurd (let g = (setting_iff x).1 p in ground arith),
        )
]

refuses_verdict_iff :
    (verdict : Option (RewriteCode × Bytes))
    → (refuses_verdict fresh verdict ≡ goes_on) ↔ (verdict ≡ none)
refuses_verdict_iff none = (λ h. refl, λ h. refl)
refuses_verdict_iff (some (code, m)) = (λ h. absurd (ground arith), λ h. absurd (ground arith))

pub iff_trans : {A B C : Type 0} → (A ↔ B) → (B ↔ C) → A ↔ C
iff_trans f g = (λ a. g.0 (f.0 a), λ c. f.1 (g.1 c))

reserved_name_iff :
    (a : DynamicArgs) (t : TableTarget)
    → (reserved_name fresh a t ≡ none) ↔ (is_storage_integrity_physical_database t.db a ≡ false)
unfolding reserved_name
reserved_name_iff a t = (λ h. ground arith, λ h. ground arith)

only_if : (b c : Bool) → (b ≡ false → c ≡ false) → (not b && c) ≡ false
only_if b c f = ground arith

module _ {Ast : Type 0} (I : Readers Ast) where
  backstops_iff : (sql : Bytes) → (settings_backstops I sql fresh ≡ goes_on) ↔ IsBackstopped I sql
  unfolding settings_backstops
  backstops_iff sql = elim (Bool-cases (sql == [])) [
    | inl e ↦ rw (settings_backstops, e) (λ h n. absurd (ground arith), λ f. refl)
    | inr e ↦ elim (Option-cases (settings_backstop I.tokenize_raw sql)) [
      | inl f ↦
          let one =
            refuses_if_iff (settings_escape_backstop I.tokenize_raw sql) (not_supported fresh) in
          rw (settings_backstops, e, f) (λ h n. (refl, one.0 h), λ g. one.1 (g refl).1)
      | inr (name, f) ↦
          rw (settings_backstops, e, f)
            (λ h. absurd (ground arith), λ g. absurd (let (x, y) = g refl in ground arith))
    ]
  ]

  reading_texts_iff :
      (ast : Ast) (sql : Bytes) (kind : NodeKind) (next : List Bytes → Check)
      {Q : List Bytes → Type 0}
      → ((texts : List Bytes) → (next texts ≡ goes_on) ↔ Q texts)
      → (reading_texts I ast sql kind next ≡ goes_on) ↔ AreTexts I ast sql kind Q
  unfolding reading_texts
  reading_texts_iff ast sql kind next h =
      either_iff (is_command kind)
        (reading_iff (I.command_text ast) (λ text.
          h (if (session_setting_assignments I.tokenize_raw text).1 then [] else text ∷ [])))
        (reading_iff (I.opaque_statement_texts ast sql) (λ opaque.
          reading_iff (I.opaque_insert_query_text ast) (λ text. h (opaque ++ listed text))))

  settings_iff :
      (ast : Ast) (sql : Bytes)
      → (reject_sql_bearing_settings I ast sql fresh ≡ goes_on) ↔ AreSettingsPlain I ast sql
  unfolding reject_sql_bearing_settings
  settings_iff ast sql = then_iff (settings_backstops I sql fresh) _ (backstops_iff sql) (
      reading_iff (I.query_settings ast) (λ assignments. reading_iff (I.node_kind ast) (λ kind.
        reading_texts_iff ast sql kind _ (λ texts.
          let all_of = texts_assignments I.tokenize_raw texts assignments in
          iff_trans (refuses_verdict_iff (settings_verdict all_of)) (verdict_iff all_of)))))

  in_text_iff :
      (a : DynamicArgs) (text : Bytes)
      → (reserved_in_text I fresh a text ≡ goes_on) ↔ IsUnreserved I a text
  unfolding reserved_in_text
  in_text_iff a text = elim (Option-cases (I.opaque_text_qualified_names text)) [
    | inl e ↦
        rw (reserved_in_text, e) (λ h. absurd (ground arith), λ (n, f, g). absurd (ground arith))
    | inr (names, e) ↦
        let all_of = first_refusal_iff (reserved_name fresh a) names (reserved_name_iff a) in
        rw (reserved_in_text, e)
          (
            λ h. (names, refl, all_of.0 h),
            λ (n, f, g). let same : names ≡ n = ground arith in all_of.1 (rw (same) g),
          )
  ]

  in_texts_iff :
      (a : DynamicArgs) (texts : List Bytes)
      → (reserved_in_texts I fresh a texts ≡ goes_on) ↔ All (IsUnreserved I a) texts
  unfolding reserved_in_texts
  in_texts_iff a [] = (λ h. tt, λ h. refl)
  in_texts_iff a (text ∷ texts) =
      then_iff (reserved_in_text I fresh a text) _ (in_text_iff a text) (in_texts_iff a texts)

  qualifiers_iff :
      (ast : Ast) (sql : Bytes) (a : DynamicArgs)
      → (reject_opaque_reserved_qualifiers I ast sql a fresh ≡ goes_on)
        ↔ (storage_integrity_surface_active a ≡ true → AreUnreserved I ast sql a)
  unfolding reject_opaque_reserved_qualifiers
  qualifiers_iff ast sql a = when_iff (storage_integrity_surface_active a) (
      reading_iff (I.opaque_statement_texts ast sql) (λ texts.
        reading_iff (I.opaque_insert_query_text ast)
          (λ text. in_texts_iff a (texts ++ listed text))))

  type_refusal_iff :
      (text : Bytes)
      → (type_refusal I fresh text ≡ none) ↔ (I.opaque_text_is_ungoverned text ≡ false)
  unfolding type_refusal
  type_refusal_iff text = (λ h. ground arith, λ h. ground arith)

  insert_query_iff :
      (text : Option Bytes)
      → (insert_query_check I fresh text ≡ goes_on)
        ↔ All (λ t. I.opaque_insert_query_is_ungoverned t ≡ false) (listed text)
  unfolding insert_query_check
  insert_query_iff none = (λ h. tt, λ h. refl)
  insert_query_iff (some text) =
      let one = refuses_if_iff (I.opaque_insert_query_is_ungoverned text) (not_supported fresh) in
      (λ h. (one.0 h, tt), λ (p, u). one.1 p)

  no_reads_iff :
      (r : Result Bool) {P : Type 0} {next : Check}
      → ((next ≡ goes_on) ↔ P)
      → (reading r (λ reads. refuses_if reads (not_supported fresh) >> next) ≡ goes_on)
        ↔ ((r ≡ ok false) × P)
  unfolding reading ◌>>◌
  no_reads_iff (err e) p = (λ h. absurd (ground arith), λ (x, y). absurd (ground arith))
  no_reads_iff (ok true) p = (λ h. absurd (ground arith), λ (x, y). absurd (ground arith))
  no_reads_iff (ok false) p = (λ h. (refl, p.0 h), λ (x, y). p.1 y)

  texts_free_iff :
      (b c : Bool)
      → (refuses_if (not b && c) (not_supported fresh) ≡ goes_on) ↔ (b ≡ false → c ≡ false)
  texts_free_iff b c =
      iff_trans (refuses_if_iff (not b && c) (not_supported fresh))
        (λ h e. ground arith, λ f. only_if b c f)

  expressions_iff :
      (ast : Ast) (sql : Bytes)
      → (ungoverned_reads I ast sql fresh ≡ goes_on) ↔ AreExpressionsFree I ast sql
  unfolding ungoverned_reads
  expressions_iff ast sql = no_reads_iff (I.expression_position_has_reads ast) (
      reading_iff (I.opaque_statement_texts ast sql) (λ texts.
        then_iff (refuses_if _ (not_supported fresh)) _
          (texts_free_iff (no_texts texts) (I.opaque_text_is_ungoverned (with_commas texts)))
          (reading_iff (I.declared_type_texts ast) (λ types.
            then_iff (first_refusal (type_refusal I fresh) types) _
              (first_refusal_iff (type_refusal I fresh) types type_refusal_iff)
              (reading_iff (I.opaque_insert_query_text ast) insert_query_iff)))))

  pub reads_iff :
      (ast : Ast) (sql : Bytes) (a : DynamicArgs)
      → (reject_ungoverned_reads I ast sql a fresh ≡ goes_on) ↔ AreReadsGoverned I ast sql a
  unfolding reject_ungoverned_reads
  reads_iff ast sql a = reading_iff (I.node_kind ast) (λ kind.
      then_iff _ _ (if_iff (is_unmodelled I ast sql a kind) (settings_iff ast sql)) (
        then_iff (reject_opaque_reserved_qualifiers I ast sql a fresh) _ (qualifiers_iff ast sql a)
          (expressions_iff ast sql)))
