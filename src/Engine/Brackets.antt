-- ===== src/Engine/Brackets.antt =====
-- wholestmt.go of internal/engine: the brackets of a statement.
pub mod Balanced
use rewriter_go.Prelude.{Bool, List, Option, [], if◌then◌else◌, none, some, ◌||◌, ◌∷◌}
use rewriter_go.Engine.Tokens.{RawToken, has_type}
use rewriter_go.Prelude.Text.{Bytes, codes}

abbrev pub is_opening_bracket : RawToken → Bool
is_opening_bracket tok =
    has_type tok (codes "L_PAREN")
    || (has_type tok (codes "L_BRACKET") || has_type tok (codes "L_BRACE"))

abbrev pub is_closing_bracket : RawToken → Bool
is_closing_bracket tok =
    has_type tok (codes "R_PAREN")
    || (has_type tok (codes "R_BRACKET") || has_type tok (codes "R_BRACE"))

abbrev pub is_bracket_token : RawToken → Bool
is_bracket_token tok = is_closing_bracket tok || is_opening_bracket tok

unfoldable pub closer_of : RawToken → Bytes
closer_of open_tok =
    if has_type open_tok (codes "L_PAREN")
    then codes "R_PAREN"
    else if has_type open_tok (codes "L_BRACKET")
    then codes "R_BRACKET"
    else codes "R_BRACE"

-- The errors of `checkBrackets`, with the token that they name.
pub data BracketError : Type 0 where
  unmatched_bracket never_closed : RawToken → BracketError

-- What a closing bracket does to the open ones, the last of which stands first: what is left, or none
-- where it closes nothing.
unfoldable pub closed_by : List RawToken → RawToken → Option (List RawToken)
closed_by [] tok = none
closed_by (o ∷ opened) tok = if has_type tok (closer_of o) then some opened else none

-- The loop, with the open brackets.
unfoldable pub check_from : List RawToken → List RawToken → Option BracketError
check_from [] [] = none
check_from [] (o ∷ opened) = some (never_closed o)
check_from (tok ∷ toks) opened =
    if is_opening_bracket tok
    then check_from toks (tok ∷ opened)
    else if is_closing_bracket tok
    then (elim (closed_by opened tok) [
      | none ↦ some (unmatched_bracket tok)
      | some left ↦ check_from toks left
    ])
    else check_from toks opened

unfoldable pub check_brackets : List RawToken → Option BracketError
check_brackets toks = check_from toks []
