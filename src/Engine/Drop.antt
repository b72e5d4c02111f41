-- ===== src/Engine/Drop.antt =====
-- drop_grammar.go of internal/engine: the grammar of the DROP TABLE that the storage-integrity contract
-- accepts; mutation_reads.go: its names.
pub mod Grammar
use rewriter_go.Prelude.{
  Bool, List, Option, [], false, if◌then◌else◌, length, none, not, some, suc, true, zero, ℕ, ◌&&◌,
  ◌∷◌,
}
use rewriter_go.Engine.Tokens.{RawToken, has_type, is_name_tok, next_is, token_text_is}
use rewriter_go.Native.Response.{Result, err, ok}
use rewriter_go.Prelude.Text.{Bytes, codes}

-- `consumeMutationQualifiedName`: the tokens behind `name` or `name.name`; none where there is no name or
-- where a dot follows it.
unfoldable pub behind_dotted : List RawToken → List RawToken
behind_dotted (dot_tok ∷ part ∷ toks) =
    if has_type dot_tok (codes "DOT") && is_name_tok part.token_type
    then toks
    else dot_tok ∷ part ∷ toks
behind_dotted toks = toks

unfoldable pub consume_mutation_qualified_name : List RawToken → Option (List RawToken)
consume_mutation_qualified_name [] = none
consume_mutation_qualified_name (tok ∷ toks) =
    let behind = behind_dotted toks in
    if not (is_name_tok tok.token_type)
    then none
    else if next_is (λ t. has_type t (codes "DOT")) behind
    then none
    else some behind

-- The loop over the names, which a comma continues.
unfoldable pub consume_names : ℕ → List RawToken → Option (List RawToken)
consume_names zero toks = none
consume_names (suc fuel) toks = elim (consume_mutation_qualified_name toks) [
  | none ↦ none
  | some [] ↦ some []
  | some (tok ∷ rest) ↦
      if has_type tok (codes "COMMA") then consume_names fuel rest else some (tok ∷ rest)
]

-- The switch over what stands behind the names.
unfoldable pub drop_ending : List RawToken → Bool
drop_ending [] = true
drop_ending (tok ∷ []) = has_type tok (codes "VAR") && token_text_is tok (codes "SYNC")
drop_ending (first ∷ delay ∷ []) =
    token_text_is first (codes "NO")
    && (has_type delay (codes "VAR") && token_text_is delay (codes "DELAY"))
drop_ending _ = false

unfoldable pub behind_exists : List RawToken → List RawToken
behind_exists (a ∷ b ∷ toks) =
    if has_type a (codes "IF") && token_text_is b (codes "EXISTS") then toks else a ∷ b ∷ toks
behind_exists toks = toks

-- `toks[:n-1]` where the last token is a semicolon.
unfoldable pub without_semicolon : List RawToken → List RawToken
without_semicolon [] = []
without_semicolon (tok ∷ []) = if has_type tok (codes "SEMICOLON") then [] else tok ∷ []
without_semicolon (tok ∷ next ∷ toks) = tok ∷ without_semicolon (next ∷ toks)

abbrev pub ends_plainly : Option (List RawToken) → Bool
ends_plainly none = false
ends_plainly (some rest) = drop_ending rest

unfoldable pub plain_drop : List RawToken → Bool
plain_drop (a ∷ b ∷ c ∷ toks) =
    let names = behind_exists (c ∷ toks) in
    token_text_is a (codes "DROP")
    && (token_text_is b (codes "TABLE")
        && (has_type b (codes "TABLE") && ends_plainly (consume_names (suc (length names)) names)))
plain_drop _ = false

module _ (tokenize_raw : Bytes → Result (List RawToken)) where
  unfoldable pub plain_drop_table : Bytes → Result Bool
  plain_drop_table sql = elim (tokenize_raw sql) [
    | err e ↦ err e
    | ok toks ↦ ok (plain_drop (without_semicolon toks))
  ]
