-- ===== src/Engine/Objects/Behind.antt =====
-- Where the readers of a target have come to in the tokens.
use rewriter_go.Prelude.{
  Bool, Bool-cases, List, [], ap, append_assoc, arith, drop, false, if◌then◌else◌, inl, inr, refl,
  some, sym, true, ◌++◌, ◌∙◌, ◌∷◌, ◌≡◌,
}
use rewriter_go.Engine.Case.{to_upper}
use rewriter_go.Engine.Objects.{
  ObjectVerb, behind_temporary, behind_type, is_temporary, is_typed, leading_verb,
}
use rewriter_go.Engine.Tokens.{RawToken}
use rewriter_go.Prelude.Text.{codes, ◌==◌}

-- The tokens behind what is left out begin somewhere in the tokens.
abbrev pub IsBehind : List RawToken → List RawToken → Type 0
IsBehind toks rest = (before : List RawToken) × (toks ≡ before ++ rest)

IsBehind-one : (toks : List RawToken) → IsBehind toks (drop 1 toks)
IsBehind-one [] = ([], refl)
IsBehind-one (tok ∷ toks) = (tok ∷ [], refl)

IsBehind-if : (b : Bool) (toks : List RawToken) → IsBehind toks (if b then drop 1 toks else toks)
IsBehind-if true toks = IsBehind-one toks
IsBehind-if false toks = ([], refl)

further :
    (toks next rest : List RawToken) → IsBehind toks next → IsBehind next rest → IsBehind toks rest
further toks next rest (xs, e) (ys, f) =
    (xs ++ ys, e ∙ (ap (λ t. xs ++ t) f ∙ sym (append_assoc xs ys rest)))

pub IsBehind-words : (toks : List RawToken) → IsBehind toks (behind_type (behind_temporary toks))
IsBehind-words toks =
    let first = behind_temporary toks in
    further toks first (behind_type first) (IsBehind-if (is_temporary toks) toks)
      (IsBehind-if (is_typed first) first)

at_once :
    (tok : RawToken) (toks behind : List RawToken) → toks ≡ behind → IsBehind (tok ∷ toks) behind
at_once tok toks behind same = (tok ∷ [], ap (λ t. tok ∷ t) same)

later : (toks behind : List RawToken) → drop 1 toks ≡ behind → IsBehind toks behind
later toks behind same = let (xs, e) = IsBehind-one toks in (xs, e ∙ ap (λ t. xs ++ t) same)

pub IsBehind-verb :
    (toks behind : List RawToken) (v : ObjectVerb)
    → leading_verb toks ≡ some (v, behind)
    → IsBehind toks behind
unfolding leading_verb
IsBehind-verb [] behind v h = absurd (ground arith)
IsBehind-verb (tok ∷ toks) behind v h =
    let word = to_upper tok.text in
    elim (Bool-cases (word == codes "EXISTS")) [
      | inl e ↦ at_once tok toks behind (ground arith)
      | inr e ↦ elim (Bool-cases (word == codes "SHOW")) [
        | inl f ↦
            further (tok ∷ toks) toks behind (IsBehind-one (tok ∷ toks))
              (later toks behind (ground arith))
        | inr f ↦ at_once tok toks behind (ground arith)
      ]
    ]
