-- ===== src/Handlers/Settings.antt =====
-- preflight.go: `settingsVerdict`, `CheckSessionSet` and `rejectSQLBearingSettings`.
use rewriter_go.Prelude.{
  Bool, List, Option, [], false, if◌then◌else◌, none, not, some, true, ◌++◌, ◌||◌, ◌∷◌,
}
use rewriter_go.Engine.Allowlists.{table_setting_refused_message}
use rewriter_go.Engine.Settings.{SettingAssignment, setting_refused}
use rewriter_go.Engine.Settings.Assignments.{session_setting_assignments}
use rewriter_go.Engine.Settings.Scans.{
  raw_settings_clauses, settings_backstop, settings_escape_backstop,
}
use rewriter_go.Engine.Tokens.{RawToken}
use rewriter_go.Handlers.Accessed.{with_code}
use rewriter_go.Handlers.Check.{Check, goes_on, reading, refuses, refuses_if, ◌>>◌}
use rewriter_go.Handlers.Readers.{Readers}
use rewriter_go.Native.Engine.{NodeKind, SessionSet, node_command, not_set, plain_set, refused_set}
use rewriter_go.Native.Gates.{unsupported_statement_message}
use rewriter_go.Native.Response.{Response, Result, RewriteCode, unsupported_statement}
use rewriter_go.Prelude.Text.{Bytes, ◌==◌}

-- The first refusal of settingsVerdict, as its code and message.
unfoldable pub assignment_verdict : SettingAssignment → Option (RewriteCode × Bytes)
assignment_verdict a =
    if setting_refused a
    then some (unsupported_statement, table_setting_refused_message a.name)
    else if a.escaped_name || not a.plain_value
    then some (unsupported_statement, unsupported_statement_message)
    else none

unfoldable pub settings_verdict : List SettingAssignment → Option (RewriteCode × Bytes)
settings_verdict [] = none
settings_verdict (a ∷ others) = elim (assignment_verdict a) [
  | some v ↦ some v
  | none ↦ settings_verdict others
]

-- The verdict of `CheckSessionSet` on the three results of the parser.
unfoldable pub session_verdict : List SettingAssignment → Bool → Bool → SessionSet
session_verdict assignments is_set well_formed =
    if not is_set then not_set else elim (settings_verdict assignments) [
      | some (code, msg) ↦ refused_set code msg
      | none ↦
          if well_formed
          then plain_set
          else refused_set unsupported_statement unsupported_statement_message
    ]

unfoldable pub check_session_set : (Bytes → Result (List RawToken)) → Bytes → SessionSet
check_session_set tokenize_raw text =
    let found = session_setting_assignments tokenize_raw text in
    session_verdict found.0 found.1 found.2

abbrev pub empty_assignment : SettingAssignment
empty_assignment = record {
  name = [];
  plain_value = false;
  true_literal = false;
  escaped_name = false;
}

-- The loop over the opaque texts: a clause that does not parse adds an assignment that is refused.
unfoldable pub text_assignments : (Bytes → Result (List RawToken)) → Bytes → List SettingAssignment
text_assignments tokenize_raw text =
    let found = raw_settings_clauses tokenize_raw text in
    found.0 ++ (if found.1 then [] else empty_assignment ∷ [])

unfoldable pub texts_assignments :
    (Bytes → Result (List RawToken)) → List Bytes → List SettingAssignment → List SettingAssignment
texts_assignments tokenize_raw [] out = out
texts_assignments tokenize_raw (text ∷ texts) out =
    texts_assignments tokenize_raw texts (out ++ text_assignments tokenize_raw text)

abbrev pub is_command : NodeKind → Bool
is_command node_command = true
is_command _ = false

abbrev pub listed : Option Bytes → List Bytes
listed none = []
listed (some text) = text ∷ []

abbrev pub refuses_verdict : Response → Option (RewriteCode × Bytes) → Check
refuses_verdict resp none = goes_on
refuses_verdict resp (some (code, msg)) = refuses (with_code resp code msg)

module _ {Ast : Type 0} (I : Readers Ast) where
  -- The texts of a statement whose SETTINGS clauses the tree does not hold.
  unfoldable pub reading_texts : Ast → Bytes → NodeKind → (List Bytes → Check) → Check
  reading_texts ast sql kind next =
      if is_command kind
      then reading (I.command_text ast) (λ text.
        next (if (session_setting_assignments I.tokenize_raw text).1 then [] else text ∷ []))
      else reading (I.opaque_statement_texts ast sql) (λ opaque.
        reading (I.opaque_insert_query_text ast) (λ text. next (opaque ++ listed text)))

  unfoldable pub settings_backstops : Bytes → Response → Check
  settings_backstops sql resp =
      if sql == [] then goes_on else elim (settings_backstop I.tokenize_raw sql) [
        | some name ↦
            refuses (with_code resp unsupported_statement (table_setting_refused_message name))
        | none ↦
            refuses_if (settings_escape_backstop I.tokenize_raw sql)
              (with_code resp unsupported_statement unsupported_statement_message)
      ]

  unfoldable pub reject_sql_bearing_settings : Ast → Bytes → Response → Check
  reject_sql_bearing_settings ast sql resp =
      settings_backstops sql resp
      >> reading (I.query_settings ast) (λ assignments. reading (I.node_kind ast) (λ kind.
        reading_texts ast sql kind (λ texts.
          refuses_verdict resp
            (settings_verdict (texts_assignments I.tokenize_raw texts assignments)))))
