-- ===== src/Engine/Settings/Scans.antt =====
-- settings.go of internal/engine: the scans of a token list for settings.
pub mod Refused
pub mod Backstop
use rewriter_go.Prelude.{
  Bool, List, Option, [], drop, eqb, false, if◌then◌else◌, is_some, length, none, not, some, suc,
  take, true, zero, ℕ, ◌&&◌, ◌++◌, ◌-◌, ◌||◌, ◌∷◌,
}
use rewriter_go.Engine.Case.{equal_fold, to_upper}
use rewriter_go.Engine.Settings.{SettingAssignment, analyzer_setting, sql_bearing_setting}
use rewriter_go.Engine.Settings.Assignments.{
  ParsedList, parse_setting_assignments, setting_name_token, setting_name_verbatim,
  true_literal_tokens,
}
use rewriter_go.Engine.Tokens.{RawToken, any_of, has_type, next_is, opaque_keyword}
use rewriter_go.Native.Response.{Result, err, ok}
use rewriter_go.Prelude.Text.{Bytes, codes}
use rewriter_go.Reverse.Withheld.{index}

unfoldable pub setting_value_ends : List RawToken → Bool
setting_value_ends [] = true
setting_value_ends (tok ∷ toks) =
    if any_of tok.token_type (codes "COMMA" ∷ codes "SEMICOLON" ∷ codes "R_PAREN" ∷ [])
    then true
    else opaque_keyword tok
      && any_of (to_upper tok.text) (
          codes "FORMAT"
          ∷ codes "UNION"
          ∷ codes "EXCEPT"
          ∷ codes "INTERSECT"
          ∷ codes "INTO"
          ∷ codes "SELECT"
          ∷ codes "WITH"
          ∷ codes "VALUES"
          ∷ codes "SETTINGS"
          ∷ [])

-- An analyzer switch keeps its true literal, and nothing else, behind the `=`.
unfoldable pub analyzer_kept : List RawToken → Bool
analyzer_kept [] = false
analyzer_kept (value ∷ toks) = true_literal_tokens (value ∷ []) && setting_value_ends toks

-- What the backstop refuses at one token, given those behind it.
unfoldable pub refused_at : RawToken → List RawToken → Bool
refused_at tok [] = false
refused_at tok (eq ∷ toks) =
    has_type eq (codes "EQ")
    && (not (has_type tok (codes "STRING"))
        && (sql_bearing_setting tok.text
            || (analyzer_setting tok.text && not (analyzer_kept toks))))

-- The loop behind the first SETTINGS keyword.
unfoldable pub first_refused : List RawToken → Option Bytes
first_refused [] = none
first_refused (tok ∷ toks) = if refused_at tok toks then some tok.text else first_refused toks

abbrev pub is_settings_keyword : RawToken → Bool
is_settings_keyword tok = opaque_keyword tok && equal_fold tok.text (codes "SETTINGS")

abbrev pub is_setting_keyword : RawToken → Bool
is_setting_keyword tok =
    opaque_keyword tok
    && (equal_fold tok.text (codes "SETTINGS") || equal_fold tok.text (codes "SETTING"))

-- The tokens behind the first that passes a test.
unfoldable pub behind_first : (RawToken → Bool) → List RawToken → List RawToken
behind_first p [] = []
behind_first p (tok ∷ toks) = if p tok then toks else behind_first p toks

unfoldable pub escaped_at : RawToken → List RawToken → Bool
escaped_at tok [] = false
escaped_at tok (eq ∷ toks) =
    has_type tok (codes "QUOTED_IDENTIFIER")
    && (has_type eq (codes "EQ") && not (setting_name_verbatim tok))

unfoldable pub any_escaped : List RawToken → Bool
any_escaped [] = false
any_escaped (tok ∷ toks) = escaped_at tok toks || any_escaped toks

abbrev first_is : RawToken → Bytes → Bool
first_is tok word = opaque_keyword tok && equal_fold tok.text word

-- `showSettingsKeyword` at the SETTINGS keyword behind these tokens.
unfoldable pub show_settings_keyword : List RawToken → Bool
show_settings_keyword (a ∷ []) = first_is a (codes "SHOW")
show_settings_keyword (a ∷ b ∷ []) = first_is a (codes "SHOW") && first_is b (codes "CHANGED")
show_settings_keyword _ = false

-- `settingsListFollows` at the SETTINGS keyword at an index, with the tokens behind it.
unfoldable pub settings_list_follows : ℕ → List RawToken → Bool
settings_list_follows i [] = false
settings_list_follows i (next ∷ toks) =
    if not (setting_name_token next)
    then false
    else if opaque_keyword next
        && (equal_fold next.text (codes "LIKE") || equal_fold next.text (codes "ILIKE"))
    then false
    else if equal_fold next.text (codes "PROFILES") && eqb i 1
    then next_is (λ eq. has_type eq (codes "EQ")) toks
    else true

-- What the scan does at a SETTINGS keyword, by what stands behind it: it passes the keyword over, it
-- gives up, or it reads an assignment list.
pub data AtKeyword : Type 0 where
  pass_over give_up read_list : AtKeyword

unfoldable pub at_keyword : List RawToken → ℕ → ℕ → ℕ → List RawToken → AtKeyword
at_keyword all_toks i opens closes toks =
    if show_settings_keyword (take i all_toks) && not (settings_list_follows i toks)
    then pass_over
    else if not (next_is setting_name_token toks) && next_is (λ t. true) toks
    then pass_over
    else if not (eqb opens closes) || not (next_is (λ t. has_type t (codes "EQ")) (drop 1 toks))
    then give_up
    else read_list

-- One round: the loop stops, or goes on at another index.
pub data ClauseStep : Type 0 where
  stop_clauses : List SettingAssignment → Bool → ClauseStep
  at_token : ℕ → ℕ → ℕ → List RawToken → List SettingAssignment → ClauseStep

unfoldable pub jump : List RawToken → ℕ → ℕ → List SettingAssignment → ParsedList → ClauseStep
jump all_toks opens closes out parsed =
    let longer = out ++ parsed.assignments in
    if parsed.well_formed
    then at_token (length all_toks - length parsed.behind) opens closes parsed.behind longer
    else stop_clauses longer false

-- The token `tok` of index `i` of the whole text, and those behind it; the depth as two counts.
unfoldable pub clause_step :
    List RawToken → ℕ → ℕ → ℕ → RawToken → List RawToken → List SettingAssignment → ClauseStep
clause_step all_toks i opens closes tok toks out =
    if has_type tok (codes "L_PAREN")
    then at_token (suc i) (suc opens) closes toks out
    else if has_type tok (codes "R_PAREN")
    then at_token (suc i) opens (suc closes) toks out
    else if not (is_settings_keyword tok)
    then at_token (suc i) opens closes toks out
    else elim (at_keyword all_toks i opens closes toks) [
      | pass_over ↦ at_token (suc i) opens closes toks out
      | give_up ↦ stop_clauses out false
      | read_list ↦ jump all_toks opens closes out (parse_setting_assignments toks)
    ]

unfoldable pub clauses_from :
    ℕ
    → List RawToken
    → ℕ
    → ℕ
    → ℕ
    → List RawToken
    → List SettingAssignment
    → List SettingAssignment × Bool
clauses_from zero all_toks i opens closes toks out = (out, false)
clauses_from (suc fuel) all_toks i opens closes [] out = (out, true)
clauses_from (suc fuel) all_toks i opens closes (tok ∷ toks) out =
    elim (clause_step all_toks i opens closes tok toks out) [
      | stop_clauses found fine ↦ (found, fine)
      | at_token j o c rest longer ↦ clauses_from fuel all_toks j o c rest longer
    ]

module _ (tokenize_raw : Bytes → Result (List RawToken)) where
  unfoldable pub settings_backstop : Bytes → Option Bytes
  settings_backstop sql =
      if not (is_some (index (to_upper sql) (codes "SETTINGS")))
      then none
      else elim (tokenize_raw sql) [
        | err _ ↦ none
        | ok toks ↦ first_refused (behind_first is_settings_keyword toks)
      ]

  unfoldable pub settings_escape_backstop : Bytes → Bool
  settings_escape_backstop sql =
      if not (is_some (index (to_upper sql) (codes "SETTING")))
      then false
      else elim (tokenize_raw sql) [
        | err _ ↦ false
        | ok toks ↦ any_escaped (behind_first is_setting_keyword toks)
      ]

  unfoldable pub raw_settings_clauses : Bytes → List SettingAssignment × Bool
  raw_settings_clauses text = elim (tokenize_raw text) [
    | err _ ↦ ([], false)
    | ok toks ↦ clauses_from (suc (length toks)) toks 0 0 0 toks []
  ]
