-- ===== src/Engine/Whole.antt =====
-- wholestmt.go and writes.go of internal/engine: whether the parser read the whole statement. The texts
-- of the errors are not modelled; the search for the token that one of them names is `first_alike`.
pub mod Searched
pub mod Complete
use rewriter_go.Prelude.{
  Bool, List, Option, [], false, if◌then◌else◌, ltb, none, not, or_default, some, suc, take, true,
  zero, ℕ, ◌&&◌, ◌+◌, ◌/◌, ◌∷◌,
}
use rewriter_go.Engine.Brackets.{BracketError, check_brackets, is_bracket_token}
use rewriter_go.Engine.Tokens.{RawToken, any_of, has_type}
use rewriter_go.Native.Engine.{NodeKind, node_command}
use rewriter_go.Native.Response.{Result, err, ok}
use rewriter_go.Prelude.Text.{Bytes, codes, has_byte, ◌==◌}

-- A token whose text is data.
unfoldable pub string_like_token_type : Bytes → Bool
string_like_token_type tt = any_of tt (
    codes "STRING"
    ∷ codes "QUOTED_IDENTIFIER"
    ∷ codes "DOLLAR_STRING"
    ∷ codes "HEREDOC_STRING"
    ∷ codes "HEREDOC_STRING_ALTERNATIVE"
    ∷ [])

unfoldable pub hash_glued : RawToken → Bool
hash_glued tok = not (string_like_token_type tok.token_type) && has_byte b'#' tok.text

-- `toks[:i+2]` at the last FORMAT token that another follows, if there is one.
unfoldable pub format_prefix : List RawToken → Option (List RawToken)
format_prefix [] = none
format_prefix (tok ∷ toks) = elim (format_prefix toks) [
  | some cut ↦ some (tok ∷ cut)
  | none ↦ elim toks [
    | [] ↦ none
    | next ∷ _ ↦ if has_type tok (codes "FORMAT") then some (tok ∷ next ∷ []) else none
  ]
]

-- The tokens without the semicolons at their end.
unfoldable pub without_semicolons : List RawToken → List RawToken
without_semicolons [] = []
without_semicolons (tok ∷ toks) = elim (without_semicolons toks) [
  | next ∷ others ↦ tok ∷ next ∷ others
  | [] ↦ if has_type tok (codes "SEMICOLON") then [] else tok ∷ []
]

abbrev pub is_word : RawToken → Bool
is_word tok = not (is_bracket_token tok) && ltb tok.span_start tok.span_end

-- The index and the token of the last word, where `i` is the index of the first token.
unfoldable pub last_word : ℕ → List RawToken → Option (ℕ × RawToken)
last_word i [] = none
last_word i (tok ∷ toks) = elim (last_word (suc i) toks) [
  | some found ↦ some found
  | none ↦ if is_word tok then some (i, tok) else none
]

-- The binary search for the first cut at which the tree is the same; `alike i` is that of token i.
unfoldable pub first_alike : (ℕ → Bool) → ℕ → ℕ → ℕ → ℕ
first_alike alike zero lo hi = hi
first_alike alike (suc fuel) lo hi =
    let mid = (lo + hi) / 2 in
    let same = alike mid in
    let rest = first_alike alike fuel (if same then lo else mid + 1) (if same then mid else hi) in
    if ltb lo hi then rest else hi

-- The refusals of `CheckParsedInFull`: the lexer fails, a # is glued to a word, the brackets do not
-- close, or the parser stopped before the last word.
pub data NotInFull : Type 0 where
  not_read : Bytes → NotInFull
  glued_word : RawToken → NotInFull
  not_balanced : BracketError → NotInFull
  stopped_early : NotInFull

unfoldable pub first_glued : List RawToken → Option RawToken
first_glued [] = none
first_glued (tok ∷ toks) = if hash_glued tok then some tok else first_glued toks

-- What the check calls on trees and texts.
pub record Trees (Ast : Type 0) : Type 0 where
  pub tokenize_raw : Bytes → Result (List RawToken)
  pub parse_one : Bytes → Result Ast
  pub node_kind : Ast → Result NodeKind
  pub same_ast : Ast → Ast → Bool
  pub polyglot_command_sql : Ast → Result Bytes
  pub insert_has_format_clause : Ast → Bool

abbrev pub is_command_kind : Result NodeKind → Bool
is_command_kind (ok node_command) = true
is_command_kind _ = false

abbrev pub same_text : Result Bytes → Result Bytes → Bool
same_text (ok a) (ok b) = a == b
same_text _ _ = false

module _ {Ast : Type 0} (T : Trees Ast) where
  unfoldable pub parses_alike : Bytes → Ast → Bool
  parses_alike cut_sql ast = elim (T.parse_one cut_sql) [
    | err _ ↦ false
    | ok cut ↦
        if T.same_ast cut ast
        then true
        else is_command_kind (T.node_kind ast)
          && (is_command_kind (T.node_kind cut)
              && same_text (T.polyglot_command_sql cut) (T.polyglot_command_sql ast))
  ]

  -- A statement without a second word has no earlier token to cut back to.
  unfoldable pub check_last : Bytes → Ast → Option (ℕ × RawToken) → Option NotInFull
  check_last sql ast none = none
  check_last sql ast (some (zero, tok)) = none
  check_last sql ast (some (suc i, tok)) =
      if parses_alike (take tok.span_start sql) ast then some stopped_early else none

  unfoldable pub check_statement : Bytes → Ast → List RawToken → Option NotInFull
  check_statement sql ast toks = elim (first_glued toks) [
    | some tok ↦ some (glued_word tok)
    | none ↦
        let stated = without_semicolons toks in
        elim (check_brackets stated) [
          | some e ↦ some (not_balanced e)
          | none ↦ check_last sql ast (last_word 0 stated)
        ]
  ]

  -- The tokens that count: those of an INSERT with a FORMAT clause end with the name of the format.
  abbrev pub counted : Ast → List RawToken → List RawToken
  counted ast toks =
      if T.insert_has_format_clause ast then or_default (format_prefix toks) toks else toks

  unfoldable pub check_parsed_in_full : Bytes → Ast → Option NotInFull
  check_parsed_in_full sql ast = elim (T.tokenize_raw sql) [
    | err e ↦ some (not_read e)
    | ok toks ↦ check_statement sql ast (counted ast toks)
  ]
