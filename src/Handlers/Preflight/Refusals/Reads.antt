-- ===== src/Handlers/Preflight/Refusals/Reads.antt =====
-- The refusals of the checks of settings and of ungoverned reads.
use rewriter_go.Prelude.{
  Bool, Bool-cases, List, Option, Option-cases, [], arith, false, if◌then◌else◌, inl, inr, none,
  not, refl, some, true, ◌&&◌, ◌++◌, ◌||◌, ◌∷◌, ◌≡◌,
}
use rewriter_go.Engine.Settings.{SettingAssignment, setting_refused}
use rewriter_go.Engine.Settings.Assignments.{session_setting_assignments}
use rewriter_go.Engine.Settings.Scans.{settings_backstop, settings_escape_backstop}
use rewriter_go.Handlers.Accessed.{fresh, new_write_resp}
use rewriter_go.Handlers.Carriers.{
  command_class_modelled, insert_query_check, no_texts, not_supported,
  reject_opaque_reserved_qualifiers, reject_ungoverned_reads, reserved_in_text, reserved_in_texts,
  reserved_name, type_refusal, ungoverned_reads, with_commas,
}
use rewriter_go.Handlers.Check.{Check, goes_on}
use rewriter_go.Handlers.Check.Laws.{
  Refuses, Refuses-first, Refuses-if, Refuses-reading, Refuses-then, by_none, by_refusal,
}
use rewriter_go.Handlers.Preflight.Refusals.Parts.{IsReject, record_accessed_write_same}
use rewriter_go.Handlers.Readers.{Readers}
use rewriter_go.Handlers.Settings.{
  assignment_verdict, is_command, listed, reading_texts, refuses_verdict,
  reject_sql_bearing_settings, settings_backstops, settings_verdict, texts_assignments,
}
use rewriter_go.Nameresolve.Contract.{storage_integrity_surface_active}
use rewriter_go.Nameresolve.Namespaces.{is_storage_integrity_physical_database}
use rewriter_go.Nameresolve.Request.{DynamicArgs}
use rewriter_go.Nameresolve.Selecting.{mode_dynamic}
use rewriter_go.Native.Engine.{NodeKind, TableTarget}
use rewriter_go.Native.Response.{Response, RewriteCode, is_success}
use rewriter_go.Prelude.Text.{Bytes, ◌==◌}

pub assignment_verdict-IsReject :
    (x : SettingAssignment) (code : RewriteCode) (m : Bytes)
    → assignment_verdict x ≡ some (code, m)
    → is_success code ≡ false
unfolding assignment_verdict
assignment_verdict-IsReject x code m h = elim (Bool-cases (setting_refused x)) [
  | inl e ↦ ground arith
  | inr e ↦ elim (Bool-cases (x.escaped_name || not x.plain_value)) [
    | inl f ↦ ground arith
    | inr f ↦ absurd (ground arith)
  ]
]

pub settings_verdict-IsReject :
    (xs : List SettingAssignment) (code : RewriteCode) (m : Bytes)
    → settings_verdict xs ≡ some (code, m)
    → is_success code ≡ false
unfolding settings_verdict
settings_verdict-IsReject [] code m h = absurd (ground arith)
settings_verdict-IsReject (x ∷ xs) code m h = elim (Option-cases (assignment_verdict x)) [
  | inl e ↦ settings_verdict-IsReject xs code m (ground arith)
  | inr ((c, n), e) ↦ assignment_verdict-IsReject x code m (ground arith)
]

pub reserved_name-IsReject :
    (a : DynamicArgs) (t : TableTarget) (resp : Response)
    → reserved_name fresh a t ≡ some resp
    → IsReject resp
unfolding reserved_name new_write_resp
reserved_name-IsReject a t resp h =
    let same = record_accessed_write_same fresh t.db t.table (mode_dynamic a) in
    elim (Bool-cases (is_storage_integrity_physical_database t.db a)) [
      | inl e ↦ ground (arith, same)
      | inr e ↦ absurd (ground arith)
    ]

pub reserved_in_text-Refuses :
    {Ast : Type 0} (I : Readers Ast) (a : DynamicArgs) (text : Bytes)
    → Refuses IsReject (reserved_in_text I fresh a text)
unfolding reserved_in_text new_write_resp
reserved_in_text-Refuses I a text = elim (Option-cases (I.opaque_text_qualified_names text)) [
  | inl e ↦ rw (reserved_in_text, e) (by_refusal (refl, refl))
  | inr (names, e) ↦
      rw (reserved_in_text, e)
        (Refuses-first (reserved_name fresh a) names (reserved_name-IsReject a))
]

pub reserved_in_texts-Refuses :
    {Ast : Type 0} (I : Readers Ast) (a : DynamicArgs) (texts : List Bytes)
    → Refuses IsReject (reserved_in_texts I fresh a texts)
unfolding reserved_in_texts
reserved_in_texts-Refuses I a [] = by_none
reserved_in_texts-Refuses I a (text ∷ texts) =
    Refuses-then (reserved_in_text-Refuses I a text) (reserved_in_texts-Refuses I a texts)

not_supported-IsReject : IsReject (not_supported fresh)
unfolding new_write_resp
not_supported-IsReject = (refl, refl)

pub either-Refuses :
    {P : Response → Type 0} (b : Bool) {c : Check}
    → Refuses P c
    → Refuses P (if b then goes_on else c)
either-Refuses true h = by_none
either-Refuses false h = h

verdict-Refuses :
    (verdict : Option (RewriteCode × Bytes))
    → ((code : RewriteCode) (m : Bytes) → verdict ≡ some (code, m) → is_success code ≡ false)
    → Refuses IsReject (refuses_verdict fresh verdict)
unfolding new_write_resp
verdict-Refuses none h = by_none
verdict-Refuses (some (code, m)) h = by_refusal (h code m refl, refl)

module _ {Ast : Type 0} (I : Readers Ast) where
  backstops-Refuses : (sql : Bytes) → Refuses IsReject (settings_backstops I sql fresh)
  unfolding settings_backstops new_write_resp
  backstops-Refuses sql = elim (Bool-cases (sql == [])) [
    | inl e ↦ rw (settings_backstops, e) by_none
    | inr e ↦ elim (Option-cases (settings_backstop I.tokenize_raw sql)) [
      | inl f ↦
          rw (settings_backstops, e, f)
            (Refuses-if (settings_escape_backstop I.tokenize_raw sql) (not_supported fresh)
              not_supported-IsReject)
      | inr (name, f) ↦ rw (settings_backstops, e, f) (by_refusal (refl, refl))
    ]
  ]

  reading_texts-Refuses :
      (ast : Ast) (sql : Bytes) (kind : NodeKind) (next : List Bytes → Check)
      → ((texts : List Bytes) → Refuses IsReject (next texts))
      → Refuses IsReject (reading_texts I ast sql kind next)
  unfolding reading_texts
  reading_texts-Refuses ast sql kind next h = elim (Bool-cases (is_command kind)) [
    | inl e ↦
        rw (reading_texts, e)
          (Refuses-reading (I.command_text ast) (λ text.
            h (if (session_setting_assignments I.tokenize_raw text).1 then [] else text ∷ [])))
    | inr e ↦
        rw (reading_texts, e)
          (Refuses-reading (I.opaque_statement_texts ast sql) (λ opaque.
            Refuses-reading (I.opaque_insert_query_text ast) (λ text. h (opaque ++ listed text))))
  ]

  pub settings-Refuses :
      (ast : Ast) (sql : Bytes) → Refuses IsReject (reject_sql_bearing_settings I ast sql fresh)
  unfolding reject_sql_bearing_settings
  settings-Refuses ast sql = Refuses-then (backstops-Refuses sql) (
      Refuses-reading (I.query_settings ast) (λ assignments.
        Refuses-reading (I.node_kind ast) (λ kind. reading_texts-Refuses ast sql kind _ (λ texts.
          let all_of = texts_assignments I.tokenize_raw texts assignments in
          verdict-Refuses (settings_verdict all_of) (settings_verdict-IsReject all_of)))))

  qualifiers-Refuses :
      (ast : Ast) (sql : Bytes) (a : DynamicArgs)
      → Refuses IsReject (reject_opaque_reserved_qualifiers I ast sql a fresh)
  unfolding reject_opaque_reserved_qualifiers
  qualifiers-Refuses ast sql a = elim (Bool-cases (storage_integrity_surface_active a)) [
    | inl e ↦
        rw (reject_opaque_reserved_qualifiers, e)
          (Refuses-reading (I.opaque_statement_texts ast sql) (λ texts.
            Refuses-reading (I.opaque_insert_query_text ast)
              (λ text. reserved_in_texts-Refuses I a (texts ++ listed text))))
    | inr e ↦ rw (reject_opaque_reserved_qualifiers, e) by_none
  ]

  type_refusal-IsReject :
      (text : Bytes) (resp : Response) → type_refusal I fresh text ≡ some resp → IsReject resp
  unfolding type_refusal new_write_resp
  type_refusal-IsReject text resp h = ground arith

  insert_query-Refuses : (text : Option Bytes) → Refuses IsReject (insert_query_check I fresh text)
  unfolding insert_query_check
  insert_query-Refuses none = by_none
  insert_query-Refuses (some text) =
      Refuses-if (I.opaque_insert_query_is_ungoverned text) (not_supported fresh)
        not_supported-IsReject

  ungoverned-Refuses :
      (ast : Ast) (sql : Bytes) → Refuses IsReject (ungoverned_reads I ast sql fresh)
  unfolding ungoverned_reads
  ungoverned-Refuses ast sql = Refuses-reading (I.expression_position_has_reads ast) (λ reads.
      Refuses-then (Refuses-if reads (not_supported fresh) not_supported-IsReject) (
        Refuses-reading (I.opaque_statement_texts ast sql) (λ texts.
          Refuses-then
            (Refuses-if (not (no_texts texts) && I.opaque_text_is_ungoverned (with_commas texts))
              (not_supported fresh) not_supported-IsReject)
            (Refuses-reading (I.declared_type_texts ast) (λ types.
              Refuses-then (Refuses-first (type_refusal I fresh) types type_refusal-IsReject)
                (Refuses-reading (I.opaque_insert_query_text ast) insert_query-Refuses))))))

  pub reads-Refuses :
      (ast : Ast) (sql : Bytes) (a : DynamicArgs)
      → Refuses IsReject (reject_ungoverned_reads I ast sql a fresh)
  unfolding reject_ungoverned_reads
  reads-Refuses ast sql a = Refuses-reading (I.node_kind ast) (λ kind.
      Refuses-then
        (either-Refuses (is_command kind && not (command_class_modelled I ast sql a))
          (settings-Refuses ast sql))
        (Refuses-then (qualifiers-Refuses ast sql a) (ungoverned-Refuses ast sql)))
