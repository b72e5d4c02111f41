-- ===== src/Engine/Brackets/Balanced.antt =====
-- The brackets that pass the check.
use rewriter_go.Prelude.{
  Bool-cases, List, Option-cases, [], ap, append-nil, append_assoc, arith, false, inl, inr, none,
  refl, some, sym, true, ◌++◌, ◌↔◌, ◌∙◌, ◌∷◌, ◌≡◌,
}
use rewriter_go.Engine.Brackets.{
  check_brackets, check_from, closed_by, closer_of, is_bracket_token, is_closing_bracket,
  is_opening_bracket,
}
use rewriter_go.Engine.Tokens.{RawToken, has_type}
use rewriter_go.Prelude.Text.{codes, eq_of_test, ◌==◌}

-- The grammar of a text whose brackets are closed by their own kind, in order.
pub data IsBalanced : List RawToken → Type 0 where
  balanced_end : IsBalanced []
  balanced_word :
      {tok : RawToken} {toks : List RawToken}
      → is_bracket_token tok ≡ false
      → IsBalanced toks
      → IsBalanced (tok ∷ toks)
  balanced_group :
      {o : RawToken} {all_toks : List RawToken} (c : RawToken) (inner toks : List RawToken)
      → is_opening_bracket o ≡ true
      → has_type c (closer_of o) ≡ true
      → IsBalanced inner
      → IsBalanced toks
      → all_toks ≡ inner ++ (c ∷ toks)
      → IsBalanced (o ∷ all_toks)

-- A text that closes these open brackets, the last of them first.
data Closes : List RawToken → List RawToken → Type 0 where
  closes_none : {toks : List RawToken} → IsBalanced toks → Closes [] toks
  closes_one :
      {o : RawToken} {opened all_toks : List RawToken} (c : RawToken) (inner toks : List RawToken)
      → has_type c (closer_of o) ≡ true
      → IsBalanced inner
      → Closes opened toks
      → all_toks ≡ inner ++ (c ∷ toks)
      → Closes (o ∷ opened) all_toks

word-Closes :
    (tok : RawToken) {opened toks : List RawToken}
    → is_bracket_token tok ≡ false
    → Closes opened toks
    → Closes opened (tok ∷ toks)
word-Closes tok w (closes_none b) = closes_none (balanced_word w b)
word-Closes tok w (closes_one c inner toks m b k e) =
    closes_one c (tok ∷ inner) toks m (balanced_word w b) k (ap (λ xs. tok ∷ xs) e)

-- Behind an opening bracket stands the text that closes it, and then what was open before.
behind_opening :
    (o : RawToken) {opened toks : List RawToken}
    → is_opening_bracket o ≡ true
    → Closes (o ∷ opened) toks
    → Closes opened (o ∷ toks)
behind_opening o p (closes_one c inner toks m b (closes_none g) e) =
    closes_none (balanced_group c inner toks p m b g e)
behind_opening o p (closes_one c inner toks m b (closes_one d before others n g k f) e) =
    closes_one d (o ∷ (inner ++ (c ∷ before))) others n (balanced_group c inner before p m b g refl)
      k
      (ap (λ xs. o ∷ xs)
        (e ∙ (ap (λ xs. inner ++ (c ∷ xs)) f ∙ sym (append_assoc inner (c ∷ before) (d ∷ others)))))

-- A closing bracket closes the last open one, and the text behind it the others.
closed-Closes :
    (tok : RawToken) (opened left toks : List RawToken)
    → closed_by opened tok ≡ some left
    → Closes left toks
    → Closes opened (tok ∷ toks)
unfolding closed_by
closed-Closes tok [] left toks e k = absurd (ground arith)
closed-Closes tok (o ∷ opened) left toks e k = elim (Bool-cases (has_type tok (closer_of o))) [
  | inl m ↦
      let same : opened ≡ left = ground arith in
      closes_one tok [] toks m balanced_end (rw (same) k) refl
  | inr m ↦ absurd (ground arith)
]

check_from-Closes :
    (toks opened : List RawToken) → check_from toks opened ≡ none → Closes opened toks
unfolding check_from
check_from-Closes [] [] h = closes_none balanced_end
check_from-Closes [] (o ∷ opened) h = absurd (ground arith)
check_from-Closes (tok ∷ toks) opened h = elim (Bool-cases (is_opening_bracket tok)) [
  | inl p ↦ behind_opening tok p (check_from-Closes toks (tok ∷ opened) (ground arith))
  | inr p ↦ elim (Bool-cases (is_closing_bracket tok)) [
    | inl c ↦ elim (Option-cases (closed_by opened tok)) [
      | inl e ↦ absurd (ground arith)
      | inr (left, e) ↦
          closed-Closes tok opened left toks e (check_from-Closes toks left (ground arith))
    ]
    | inr c ↦ word-Closes tok (ground arith) (check_from-Closes toks opened (ground arith))
  ]
]

paren_closes :
    (c : RawToken)
    → c.token_type == codes "R_PAREN" ≡ true
    → (is_opening_bracket c ≡ false) × (is_closing_bracket c ≡ true)
unfolding has_type ◌==◌
paren_closes c h = let same = eq_of_test c.token_type (codes "R_PAREN") h in rw (same) (refl, refl)

bracket_closes :
    (c : RawToken)
    → c.token_type == codes "R_BRACKET" ≡ true
    → (is_opening_bracket c ≡ false) × (is_closing_bracket c ≡ true)
unfolding has_type ◌==◌
bracket_closes c h =
    let same = eq_of_test c.token_type (codes "R_BRACKET") h in rw (same) (refl, refl)

brace_closes :
    (c : RawToken)
    → c.token_type == codes "R_BRACE" ≡ true
    → (is_opening_bracket c ≡ false) × (is_closing_bracket c ≡ true)
unfolding has_type ◌==◌
brace_closes c h = let same = eq_of_test c.token_type (codes "R_BRACE") h in rw (same) (refl, refl)

closer_is_closing :
    (o c : RawToken)
    → has_type c (closer_of o) ≡ true
    → (is_opening_bracket c ≡ false) × (is_closing_bracket c ≡ true)
unfolding has_type closer_of
closer_is_closing o c m = elim (Bool-cases (has_type o (codes "L_PAREN"))) [
  | inl p ↦ paren_closes c (ground arith)
  | inr p ↦ elim (Bool-cases (has_type o (codes "L_BRACKET"))) [
    | inl b ↦ bracket_closes c (ground arith)
    | inr b ↦ brace_closes c (ground arith)
  ]
]

closing_step :
    (o c : RawToken) (toks opened : List RawToken)
    → is_opening_bracket c ≡ false
    → is_closing_bracket c ≡ true
    → has_type c (closer_of o) ≡ true
    → check_from (c ∷ toks) (o ∷ opened) ≡ check_from toks opened
unfolding check_from closed_by
closing_step o c toks opened n k m = rw (n, k, m) refl

unclosed : {toks : List RawToken} → Closes [] toks → IsBalanced toks
unclosed (closes_none b) = b

balanced-passes :
    (toks rest opened : List RawToken)
    → IsBalanced toks
    → check_from (toks ++ rest) opened ≡ check_from rest opened
unfolding check_from closed_by
balanced-passes [] rest opened balanced_end = refl
balanced-passes (tok ∷ toks) rest opened (balanced_word w b) =
    ground (arith, balanced-passes toks rest opened b)
balanced-passes (o ∷ all_toks) rest opened (balanced_group c inner toks p m b g e) =
    let (not_opening, closes) = closer_is_closing o c m in
    let within = balanced-passes inner (c ∷ (toks ++ rest)) (o ∷ opened) b in
    let beyond = balanced-passes toks rest opened g in
    let whole : all_toks ++ rest ≡ inner ++ (c ∷ (toks ++ rest)) =
      ap (λ xs. xs ++ rest) e ∙ append_assoc inner (c ∷ toks) rest in
    rw (whole)
      (rw (p) (within ∙ (closing_step o c (toks ++ rest) opened not_opening closes m ∙ beyond)))

-- The brackets of a text pass the check exactly when each is closed by its own kind, in order: the
-- text is in the grammar of balanced texts.
pub check_brackets_iff : (toks : List RawToken) → (check_brackets toks ≡ none) ↔ IsBalanced toks
unfolding check_brackets check_from
check_brackets_iff toks = (
  λ h. unclosed (check_from-Closes toks [] h),
  λ b. sym (ap (λ xs. check_from xs []) (append-nil toks)) ∙ balanced-passes toks [] [] b,
)
