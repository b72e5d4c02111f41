-- ===== src/Engine/Whole/Complete.antt =====
-- The statements that count as parsed in full.
use rewriter_go.Prelude.{
  All, Bool-cases, List, Option, Option-cases, [], arith, false, inl, inr, none, refl, some, suc,
  take, zero, ℕ, ◌↔◌, ◌∷◌, ◌≡◌,
}
use rewriter_go.Engine.Brackets.{check_brackets}
use rewriter_go.Engine.Brackets.Balanced.{IsBalanced, check_brackets_iff}
use rewriter_go.Engine.Tokens.{RawToken}
use rewriter_go.Engine.Whole.{
  Trees, check_last, check_parsed_in_full, check_statement, counted, first_glued, hash_glued,
  last_word, not_read, parses_alike, without_semicolons,
}
use rewriter_go.Native.Response.{Result, err, ok}
use rewriter_go.Prelude.Text.{Bytes}

glued_iff :
    (toks : List RawToken) → (first_glued toks ≡ none) ↔ All (λ tok. hash_glued tok ≡ false) toks
unfolding first_glued
glued_iff [] = (λ h. tt, λ h. refl)
glued_iff (tok ∷ toks) = elim (Bool-cases (hash_glued tok)) [
  | inl e ↦ (λ h. absurd (ground arith), λ (p, ps). absurd (ground arith))
  | inr e ↦
      let later = glued_iff toks in
      rw (first_glued, e) (λ h. (refl, later.0 h), λ (p, ps). later.1 ps)
]

module _ {Ast : Type 0} (T : Trees Ast) where
  -- The statement that is cut before its last word does not parse to the same tree; one without a
  -- second word is not cut.
  abbrev pub IsLastRead : Bytes → Ast → Option (ℕ × RawToken) → Type 0
  IsLastRead sql ast found =
      (i : ℕ) (tok : RawToken)
      → found ≡ some (suc i, tok)
      → parses_alike T (take tok.span_start sql) ast ≡ false

  last_iff :
      (sql : Bytes) (ast : Ast) (found : Option (ℕ × RawToken))
      → (check_last T sql ast found ≡ none) ↔ IsLastRead sql ast found
  unfolding check_last
  last_iff sql ast none = (λ h i tok e. absurd (ground arith), λ h. refl)
  last_iff sql ast (some (zero, t)) = (λ h i tok e. absurd (ground arith), λ h. refl)
  last_iff sql ast (some (suc j, t)) = (
    λ h i tok e. let same : t ≡ tok = ground arith in rw (← same) (ground arith),
    λ h. let unlike = h j t refl in ground arith,
  )

  -- What of a list of tokens makes a statement whole.
  abbrev pub AreWhole : Bytes → Ast → List RawToken → Type 0
  AreWhole sql ast toks =
      All (λ tok. hash_glued tok ≡ false) toks
      × IsBalanced (without_semicolons toks)
      × IsLastRead sql ast (last_word 0 (without_semicolons toks))

  statement_iff :
      (sql : Bytes) (ast : Ast) (toks : List RawToken)
      → (check_statement T sql ast toks ≡ none) ↔ AreWhole sql ast toks
  unfolding check_statement
  statement_iff sql ast toks =
      let stated = without_semicolons toks in
      let glued = glued_iff toks in
      let brackets = check_brackets_iff stated in
      let read = last_iff sql ast (last_word 0 stated) in
      elim (Option-cases (first_glued toks)) [
        | inr (tok, g) ↦
            rw (check_statement, g)
              (λ h. absurd (ground arith), λ (x, y, z). absurd (let n = glued.1 x in ground arith))
        | inl g ↦ elim (Option-cases (check_brackets stated)) [
          | inr (e, b) ↦
              rw (check_statement, g, b)
                (
                  λ h. absurd (ground arith),
                  λ (x, y, z). absurd (let n = brackets.1 y in ground arith),
                )
          | inl b ↦
              rw (check_statement, g, b)
                (λ h. (glued.0 g, brackets.0 b, read.0 h), λ (x, y, z). read.1 z)
        ]
      ]

  tokens_iff :
      (sql : Bytes) (ast : Ast) (read : Result (List RawToken))
      → ((elim read [
        | err e ↦ some (not_read e)
        | ok toks ↦ check_statement T sql ast (counted T ast toks)
      ])
          ≡ none)
        ↔ ((toks : List RawToken) × (read ≡ ok toks) × AreWhole sql ast (counted T ast toks))
  tokens_iff sql ast (err e) = (λ h. absurd (ground arith), λ (t, x, y). absurd (ground arith))
  tokens_iff sql ast (ok toks) =
      let whole = statement_iff sql ast (counted T ast toks) in
      (
        λ h. (toks, refl, whole.0 h),
        λ (t, e, w). let same : toks ≡ t = ground arith in whole.1 (rw (same) w),
      )

  -- A statement passes as parsed in full exactly when the lexer reads it, no word among the tokens
  -- that count has a # in it, their brackets are balanced, and without the last word, unless it is the
  -- first token, it would not parse to the same tree.
  pub check_parsed_in_full_iff :
      (sql : Bytes) (ast : Ast)
      → (check_parsed_in_full T sql ast ≡ none) ↔ (
          (toks : List RawToken) × (T.tokenize_raw sql ≡ ok toks)
          × AreWhole sql ast (counted T ast toks))
  unfolding check_parsed_in_full
  check_parsed_in_full_iff sql ast = tokens_iff sql ast (T.tokenize_raw sql)
