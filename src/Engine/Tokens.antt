-- ===== src/Engine/Tokens.antt =====
-- The tokens of the external lexer, and the small tests of internal/engine on one token: writes.go,
-- ungoverned.go, mutation_reads.go.
use rewriter_go.Prelude.{Bool, List, [], all, any, eqb, false, leb, not, ℕ, ◌&&◌, ◌||◌, ◌∷◌}
use rewriter_go.Engine.Case.{equal_fold}
use rewriter_go.Prelude.Text.{Bytes, codes, ◌==◌}

-- rawToken without its span: the lexer's type, the decoded text and the exact source text.
pub record RawToken : Type 0 where
  pub token_type : Bytes
  pub text : Bytes
  pub source : Bytes
  pub span_start : ℕ
  pub span_end : ℕ

unfoldable pub has_type : RawToken → Bytes → Bool
has_type tok name = tok.token_type == name

unfoldable pub token_text_is : RawToken → Bytes → Bool
token_text_is tok word = equal_fold tok.text word

unfoldable pub is_name_tok : Bytes → Bool
is_name_tok tt = tt == codes "VAR" || tt == codes "QUOTED_IDENTIFIER"

unfoldable pub opaque_keyword : RawToken → Bool
opaque_keyword tok = not (has_type tok (codes "STRING") || has_type tok (codes "QUOTED_IDENTIFIER"))

abbrev pub keyword_byte : ℕ → Bool
keyword_byte c = eqb c b'_' || (leb b'A' c && leb c b'Z')

-- A keyword has its own text as its type.
unfoldable pub mutation_probe_keyword_token : RawToken → Bool
mutation_probe_keyword_token tok =
    not (is_name_tok tok.token_type)
    && (all keyword_byte tok.token_type
        && (not (tok.token_type == []) && equal_fold tok.token_type tok.text))

abbrev pub any_of : Bytes → List Bytes → Bool
any_of s words = any (λ w. s == w) words

-- `toks[i]` is there and passes a test.
abbrev pub next_is : (RawToken → Bool) → List RawToken → Bool
next_is p [] = false
next_is p (tok ∷ toks) = p tok
