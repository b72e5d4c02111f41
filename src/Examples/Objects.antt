-- ===== src/Examples/Objects.antt =====
-- objtarget.go of internal/engine at a concrete statement.
use rewriter_go.Prelude.{List, [], refl, ◌∷◌, ◌≡◌}
use rewriter_go.Examples.Scans.{word}
use rewriter_go.Engine.Case.{equal_fold, fold_case, lower, to_upper, upper}
use rewriter_go.Engine.Objects.{
  followed_by, leading_verb, name_run, name_target, object_behind, object_target, shape_call,
}
use rewriter_go.Engine.Tokens.{RawToken, has_type, is_name_tok, token_text_is}
use rewriter_go.Prelude.Text.{◌==◌}

-- DESCRIBE TABLE mysql('h', 'db1.t', f(x));
abbrev describing : List RawToken
describing =
    word "DESCRIBE" "DESCRIBE"
    ∷ word "TABLE" "TABLE"
    ∷ word "VAR" "mysql"
    ∷ word "L_PAREN" "("
    ∷ word "STRING" "h"
    ∷ word "COMMA" ","
    ∷ word "STRING" "db1.t"
    ∷ word "COMMA" ","
    ∷ word "VAR" "f"
    ∷ word "L_PAREN" "("
    ∷ word "VAR" "x"
    ∷ word "R_PAREN" ")"
    ∷ word "R_PAREN" ")"
    ∷ word "SEMICOLON" ";"
    ∷ []

describing-shape : (object_target describing).shape ≡ shape_call
unfolding object_target object_behind leading_verb name_target name_run followed_by to_upper upper
    has_type is_name_tok token_text_is equal_fold fold_case lower ◌==◌
describing-shape = refl
