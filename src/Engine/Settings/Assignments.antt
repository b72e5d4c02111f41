-- ===== src/Engine/Settings/Assignments.antt =====
-- settings.go of internal/engine: the assignments of a SET statement or a SETTINGS clause, read from the
-- tokens. An index into the token list is the list that starts there.
pub mod Fuel
use rewriter_go.Prelude.{
  Bool, List, Option, [], drop, eqb, false, if◌then◌else◌, length, none, not, some, suc, take, true,
  zero, ℕ, ◌&&◌, ◌++◌, ◌+◌, ◌-◌, ◌||◌, ◌∷◌,
}
use rewriter_go.Engine.Case.{equal_fold, to_upper}
use rewriter_go.Engine.Settings.{SettingAssignment, true_literal_spelling}
use rewriter_go.Engine.Tokens.{
  RawToken, any_of, has_type, is_name_tok, mutation_probe_keyword_token, opaque_keyword,
}
use rewriter_go.Native.Response.{Result, err, ok}
use rewriter_go.Prelude.Text.{Bytes, codes, has_byte, ◌==◌}

abbrev pub opening : RawToken → Bool
opening tok =
    has_type tok (codes "L_PAREN")
    || (has_type tok (codes "L_BRACKET") || has_type tok (codes "L_BRACE"))

abbrev pub closing : RawToken → Bool
closing tok =
    has_type tok (codes "R_PAREN")
    || (has_type tok (codes "R_BRACKET") || has_type tok (codes "R_BRACE"))

abbrev pub one_if : Bool → ℕ
one_if b = if b then 1 else 0

unfoldable pub settings_list_end : RawToken → Bool
settings_list_end tok =
    opaque_keyword tok
    && (not (has_type tok (codes "VAR"))
        && any_of (to_upper tok.text)
            (codes "SELECT" ∷ codes "WITH" ∷ codes "VALUES" ∷ codes "FORMAT" ∷ []))

-- What ends the value of one assignment outside brackets.
unfoldable pub value_end : RawToken → Bool
value_end tok =
    has_type tok (codes "COMMA") || (has_type tok (codes "SEMICOLON") || settings_list_end tok)

-- `src == tok.Text`, or the text between one pair of quotes: of the three lists, what is left of the
-- source behind its first byte, the last byte, and what stands between.
unfoldable pub quoted_verbatim : ℕ → Bytes → Bytes → Bool
quoted_verbatim quote rest text =
    let inner = take (length rest - 1) rest in
    (eqb quote b'`' || eqb quote b'"')
    && (drop (length rest - 1) rest == (quote ∷ [])
        && (inner == text && not (has_byte quote inner)))

unfoldable pub verbatim : Bytes → Bytes → Bool
verbatim [] text = false
verbatim (quote ∷ []) text = false
verbatim (quote ∷ c ∷ rest) text = quoted_verbatim quote (c ∷ rest) text

unfoldable pub setting_name_verbatim : RawToken → Bool
setting_name_verbatim tok =
    not (tok.source == [])
    && (not (has_byte 92 tok.source) && (tok.source == tok.text || verbatim tok.source tok.text))

unfoldable pub setting_name_token : RawToken → Bool
setting_name_token tok = is_name_tok tok.token_type || mutation_probe_keyword_token tok

unfoldable pub plain_one : RawToken → Bool
plain_one tok =
    if any_of tok.token_type
      (codes "NUMBER" ∷ codes "STRING" ∷ codes "VAR" ∷ codes "QUOTED_IDENTIFIER" ∷ [])
    then true
    else if equal_fold tok.text (codes "SELECT") || equal_fold tok.text (codes "WITH")
    then false
    else mutation_probe_keyword_token tok

unfoldable pub plain_setting_value_tokens : List RawToken → Bool
plain_setting_value_tokens (a ∷ b ∷ []) =
    (has_type a (codes "DASH") || has_type a (codes "PLUS")) && has_type b (codes "NUMBER")
plain_setting_value_tokens (tok ∷ []) = plain_one tok
plain_setting_value_tokens _ = false

unfoldable pub true_literal_tokens : List RawToken → Bool
true_literal_tokens (tok ∷ []) =
    any_of tok.token_type (codes "NUMBER" ∷ codes "TRUE" ∷ codes "STRING" ∷ [])
    && true_literal_spelling tok.source
true_literal_tokens _ = false

-- The inner loop: the tokens of the value and those behind it. The depth, which may fall below zero,
-- is the number of the opening brackets met less that of the closing ones.
unfoldable pub setting_value : ℕ → ℕ → List RawToken → List RawToken × List RawToken
setting_value opens closes [] = ([], [])
setting_value opens closes (tok ∷ toks) =
    let o = opens + one_if (opening tok) in
    let c = closes + one_if (closing tok) in
    let rest = setting_value o c toks in
    if eqb o c && value_end tok then ([], tok ∷ toks) else (tok ∷ rest.0, rest.1)

unfoldable pub assignment_of : RawToken → List RawToken → SettingAssignment
assignment_of tok value = record {
  name = tok.text;
  plain_value = plain_setting_value_tokens value;
  true_literal = true_literal_tokens value;
  escaped_name = not (setting_name_verbatim tok);
}

-- The assignments, the tokens behind the list, and whether it is well formed.
pub record ParsedList : Type 0 where
  pub assignments : List SettingAssignment
  pub behind : List RawToken
  pub well_formed : Bool

-- `Name = Value`: the tokens of the value and those behind it.
unfoldable pub next_assignment : List RawToken → Option (RawToken × List RawToken × List RawToken)
next_assignment (tok ∷ eq ∷ toks) =
    if setting_name_token tok && has_type eq (codes "EQ")
    then some (tok, (setting_value 0 0 toks).0, (setting_value 0 0 toks).1)
    else none
next_assignment _ = none

-- How the list goes on behind a value: a keyword ends it, so do the end and a semicolon, which is
-- passed; at a comma there is more.
pub data Following : Type 0 where
  ended : List RawToken → Following
  more : List RawToken → Following

unfoldable pub following : List RawToken → Following
following [] = ended []
following (tok ∷ toks) =
    if settings_list_end tok
    then ended (tok ∷ toks)
    else if has_type tok (codes "SEMICOLON")
    then ended toks
    else more toks

unfoldable pub parse_from : ℕ → List RawToken → List SettingAssignment → ParsedList
parse_from zero toks out = record { assignments = out; behind = toks; well_formed = false }
parse_from (suc fuel) toks out = elim (next_assignment toks) [
  | none ↦ record { assignments = out; behind = toks; well_formed = false }
  | some (tok, value, rest) ↦ elim value [
    | [] ↦ record { assignments = out; behind = rest; well_formed = false }
    | first ∷ others ↦
        let longer = out ++ (assignment_of tok (first ∷ others) ∷ []) in
        elim (following rest) [
          | ended behind ↦ record { assignments = longer; behind = behind; well_formed = true }
          | more next ↦ parse_from fuel next longer
        ]
  ]
]

unfoldable pub parse_setting_assignments : List RawToken → ParsedList
parse_setting_assignments toks = parse_from (suc (length toks)) toks []

abbrev no_tokens : List RawToken → Bool
no_tokens [] = true
no_tokens (_ ∷ _) = false

-- The three results: the assignments, whether the text is a SET of settings, and whether the whole
-- of it is well formed.
unfoldable pub session_assignments : List RawToken → List SettingAssignment × Bool × Bool
session_assignments (set ∷ first ∷ eq ∷ toks) =
    if not (equal_fold set.text (codes "SET"))
    then ([], false, false)
    else if not (is_name_tok first.token_type)
        || (equal_fold first.text (codes "ROLE") || equal_fold first.text (codes "DEFAULT"))
    then ([], false, false)
    else if not (has_type eq (codes "EQ"))
    then ([], false, false)
    else let parsed = parse_setting_assignments (first ∷ eq ∷ toks) in
      (parsed.assignments, true, parsed.well_formed && no_tokens parsed.behind)
session_assignments _ = ([], false, false)

module _ (tokenize_raw : Bytes → Result (List RawToken)) where
  unfoldable pub session_setting_assignments : Bytes → List SettingAssignment × Bool × Bool
  session_setting_assignments text = elim (tokenize_raw text) [
    | err _ ↦ ([], false, false)
    | ok toks ↦ session_assignments toks
  ]
