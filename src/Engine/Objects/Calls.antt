-- ===== src/Engine/Objects/Calls.antt =====
-- A target that is a call, as the two readers of the tokens see it.
use rewriter_go.Prelude.{Bool, List, [], false, ◌++◌, ◌≢◌, true, ◌∷◌, ◌≡◌, ◌⊎◌}
use rewriter_go.Engine.Objects.{ObjectTarget, ObjectTargetShape, shape_call, shape_name}
use rewriter_go.Engine.Tokens.{RawToken}
use rewriter_go.Prelude.Text.{Bytes, codes}

-- A token that the lexer takes for a name.
abbrev pub IsName : RawToken → Type 0
IsName tok = (tok.token_type ≡ codes "VAR") ⊎ (tok.token_type ≡ codes "QUOTED_IDENTIFIER")

-- What the reader of the target makes of a call: a call of that name with something behind it, where
-- the name is one to the lexer, and no plain name where it is a keyword.
abbrev pub IsCallTarget : RawToken → ObjectTarget → Type 0
IsCallTarget tok out =
    (IsName tok
      → (out.shape ≡ shape_call) × (out.db ≡ []) × (out.table ≡ tok.text) × (out.trailing ≡ true))
    × (¬ IsName tok → (out.shape ≢ shape_name) × (out.shape ≢ shape_call))

-- A call in these tokens: a word and an opening bracket.
pub record IsCall (callee : Bytes) (toks : List RawToken) (out : ObjectTarget) : Type 0 where
  pub before : List RawToken
  pub name_token : RawToken
  pub paren : RawToken
  pub behind_it : List RawToken
  pub split : toks ≡ before ++ (name_token ∷ (paren ∷ behind_it))
  pub names : name_token.text ≡ callee
  pub opens : paren.token_type ≡ codes "L_PAREN"
  pub taken : IsCallTarget name_token out

abbrev is_name_shape : ObjectTargetShape → Bool
is_name_shape shape_name = true
is_name_shape _ = false

abbrev is_call_shape : ObjectTargetShape → Bool
is_call_shape shape_call = true
is_call_shape _ = false
