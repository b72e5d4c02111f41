-- ===== src/Engine/Guard/Code.antt =====
-- The bytes of a statement outside its literals.
use mathlib.Core.Path.{subst}
use rewriter_go.Prelude.{
  sym, Bool-cases, Option, [], ap, arith, eqb, false, inl, inr, none, refl, some, true, ℕ, ◌∙◌, ◌∷◌,
  ◌≡◌, ◌≢◌, ◌⊎◌,
}
use rewriter_go.Engine.Case.{starts_with_one}
use rewriter_go.Engine.Guard.{
  ScanMode, code_mode, in_code, in_quote, is_quote, quote_mode, skipping,
}
use rewriter_go.Prelude.Text.{Bytes}

-- A byte that opens a literal: the quote, the double quote and the backtick.
abbrev pub IsQuote : ℕ → Type 0
IsQuote c = (c ≡ 39) ⊎ ((c ≡ 34) ⊎ (c ≡ b'`'))

-- A text, read in code or within a literal of a quote character, and its bytes in code, with the
-- characters that open literals. In a literal a backslash takes the next byte with it, and a doubled
-- quote character is part of it; a literal that nothing ends goes up to the end of the text.
pub data IsCode : Option ℕ → Bytes → Bytes → Type 0 where
  code_end : {m : Option ℕ} → IsCode m [] []
  code_byte :
      {c : ℕ} {s out : Bytes} → ¬ IsQuote c → IsCode none s out → IsCode none (c ∷ s) (c ∷ out)
  opens_literal :
      {q : ℕ} {s out : Bytes} → IsQuote q → IsCode (some q) s out → IsCode none (q ∷ s) (q ∷ out)
  literal_byte :
      {q c : ℕ} {s out : Bytes}
      → c ≢ q
      → c ≢ b'\\'
      → IsCode (some q) s out
      → IsCode (some q) (c ∷ s) out
  literal_escape :
      {q c : ℕ} {s out : Bytes} → IsCode (some q) s out → IsCode (some q) (b'\\' ∷ c ∷ s) out
  literal_backslash : {q : ℕ} → IsCode (some q) (b'\\' ∷ []) []
  doubled_quote :
      {q : ℕ} {s out : Bytes} → q ≢ b'\\' → IsCode (some q) s out → IsCode (some q) (q ∷ q ∷ s) out
  closes_literal :
      {q : ℕ} {s out : Bytes}
      → q ≢ b'\\'
      → starts_with_one q s ≡ false
      → IsCode none s out
      → IsCode (some q) (q ∷ s) out

-- The bytes that the scan reads in code.
abbrev pub outside_from : ScanMode → Bytes → Bytes
outside_from m [] = []
outside_from (skipping q) (c ∷ s) = outside_from (in_quote q) s
outside_from (in_quote q) (c ∷ s) = outside_from (quote_mode q c s) s
outside_from in_code (c ∷ s) = c ∷ outside_from (code_mode c) s

abbrev pub outside : Bytes → Bytes
outside s = outside_from in_code s

abbrev mode_of : Option ℕ → ScanMode
mode_of none = in_code
mode_of (some q) = in_quote q

quote_iff : (c : ℕ) → IsQuote c → is_quote c ≡ true
quote_iff c (inl e) = ground arith
quote_iff c (inr (inl e)) = ground arith
quote_iff c (inr (inr e)) = ground arith

unquoted : (c : ℕ) → ¬ IsQuote c → is_quote c ≡ false
unquoted c n = elim (Bool-cases (is_quote c)) [
  | inr e ↦ e
  | inl e ↦ elim (Bool-cases (eqb c 39)) [
    | inl f ↦ absurd (n (inl (ground arith)))
    | inr f ↦ elim (Bool-cases (eqb c 34)) [
      | inl g ↦ absurd (n (inr (inl (ground arith))))
      | inr g ↦ absurd (n (inr (inr (ground arith))))
    ]
  ]
]

mode_byte : (q c : ℕ) (s : Bytes) → c ≢ q → c ≢ b'\\' → quote_mode q c s ≡ in_quote q
unfolding quote_mode
mode_byte q c s n b = ground arith

mode_doubled : (q : ℕ) (s : Bytes) → q ≢ b'\\' → quote_mode q q (q ∷ s) ≡ skipping q
unfolding quote_mode
mode_doubled q s b = ground arith

mode_closed :
    (q : ℕ) (s : Bytes) → q ≢ b'\\' → starts_with_one q s ≡ false → quote_mode q q s ≡ in_code
unfolding quote_mode
mode_closed q s b e = ground arith

-- The scan reads in code exactly these bytes.
pub outside-code :
    {m : Option ℕ} {s out : Bytes} → IsCode m s out → outside_from (mode_of m) s ≡ out
unfolding quote_mode
outside-code code_end = refl
outside-code (code_byte {c} {s} n k) = rw (unquoted c n) (ap (λ xs. c ∷ xs) (outside-code k))
outside-code (opens_literal {q} {s} o k) = rw (quote_iff q o) (ap (λ xs. q ∷ xs) (outside-code k))
outside-code (literal_byte {q} {c} {s} n b k) =
    ap (λ m. outside_from m s) (mode_byte q c s n b) ∙ outside-code k
outside-code (literal_escape {q} {c} {s} k) = outside-code k
outside-code literal_backslash = refl
outside-code (doubled_quote {q} {s} b k) =
    ap (λ m. outside_from m (q ∷ s)) (mode_doubled q s b) ∙ outside-code k
outside-code (closes_literal {q} {s} b e k) =
    ap (λ m. outside_from m s) (mode_closed q s b e) ∙ outside-code k

IsQuote-of_test : (c : ℕ) → is_quote c ≡ true → IsQuote c
IsQuote-of_test c h = elim (Bool-cases (eqb c 39)) [
  | inl e ↦ inl (ground arith)
  | inr e ↦ elim (Bool-cases (eqb c 34)) [
    | inl f ↦ inr (inl (ground arith))
    | inr f ↦ inr (inr (ground arith))
  ]
]

eq_cases : (a b : ℕ) → (a ≡ b) ⊎ (a ≢ b)
eq_cases a b = elim (Bool-cases (eqb a b)) [
  | inl e ↦ inl (ground arith)
  | inr e ↦ inr (λ f. ground arith)
]

-- The quote character in its own literal, doubled or at the end of it.
at_quote :
    (q d : ℕ) (s : Bytes)
    → q ≢ b'\\'
    → IsCode (some q) s (outside_from (in_quote q) s)
    → IsCode none (d ∷ s) (outside_from in_code (d ∷ s))
    → IsCode (some q) (q ∷ d ∷ s) (outside_from (quote_mode q q (d ∷ s)) (d ∷ s))
at_quote q d s n inside behind = elim (eq_cases d q) [
  | inl e ↦
      subst (λ b. IsCode (some q) (q ∷ b ∷ s) (outside_from (quote_mode q q (b ∷ s)) (b ∷ s)))
        (sym e)
        (subst (λ m. IsCode (some q) (q ∷ q ∷ s) (outside_from m (q ∷ s)))
          (sym (mode_doubled q s n)) (doubled_quote n inside))
  | inr f ↦
      let single : starts_with_one q (d ∷ s) ≡ false = ground arith in
      subst (λ m. IsCode (some q) (q ∷ d ∷ s) (outside_from m (d ∷ s)))
        (sym (mode_closed q (d ∷ s) n single)) (closes_literal n single behind)
]

-- Every text reads so, from code and from within any literal.
pub outside-IsCode : (m : Option ℕ) (s : Bytes) → IsCode m s (outside_from (mode_of m) s)
unfolding quote_mode
outside-IsCode m [] = code_end
outside-IsCode none (c ∷ s) = elim (Bool-cases (is_quote c)) [
  | inl e ↦ rw e (opens_literal (IsQuote-of_test c e) (outside-IsCode (some c) s))
  | inr e ↦ rw e (code_byte (λ q. ground (arith, quote_iff c q)) (outside-IsCode none s))
]
outside-IsCode (some q) (c ∷ []) = elim (eq_cases c b'\\') [
  | inl e ↦ subst (λ b. IsCode (some q) (b ∷ []) []) (sym e) literal_backslash
  | inr n ↦ elim (eq_cases c q) [
    | inl e ↦ subst (λ b. IsCode (some b) (c ∷ []) []) e (closes_literal n refl code_end)
    | inr f ↦ literal_byte f n code_end
  ]
]
outside-IsCode (some q) (c ∷ d ∷ s) = elim (eq_cases c b'\\') [
  | inl e ↦
      subst (λ b. IsCode (some q) (b ∷ d ∷ s) (outside_from (quote_mode q b (d ∷ s)) (d ∷ s)))
        (sym e) (literal_escape (outside-IsCode (some q) s))
  | inr n ↦ elim (eq_cases c q) [
    | inr f ↦
        subst (λ m. IsCode (some q) (c ∷ d ∷ s) (outside_from m (d ∷ s)))
          (sym (mode_byte q c (d ∷ s) f n)) (literal_byte f n (outside-IsCode (some q) (d ∷ s)))
    | inl e ↦
        subst (λ b. IsCode (some q) (b ∷ d ∷ s) (outside_from (quote_mode q b (d ∷ s)) (d ∷ s)))
          (sym e)
          (at_quote q d s (λ b. n (e ∙ b)) (outside-IsCode (some q) s)
            (outside-IsCode none (d ∷ s)))
  ]
]
