-- ===== src/Engine/Settings/Assignments/Fuel.antt =====
-- The fuel of the assignment lists is enough.
use rewriter_go.Prelude.{
  Bool-cases, List, Option-cases, [], arith, eqb, inl, inr, length, refl, some, suc, zero, ℕ, ◌&&◌,
  ◌++◌, ◌+◌, ◌<◌, ◌∷◌, ◌≡◌, ◌≤◌, ◌⊎◌,
}
use rewriter_go.Engine.Settings.{SettingAssignment}
use rewriter_go.Engine.Settings.Assignments.{
  assignment_of, closing, ended, following, more, next_assignment, one_if, opening, parse_from,
  parse_setting_assignments, setting_name_token, setting_value, settings_list_end, value_end,
}
use rewriter_go.Engine.Tokens.{RawToken, has_type}
use rewriter_go.Prelude.Text.{codes}

setting_value_shrinks :
    (o c : ℕ) (toks : List RawToken) → length (setting_value o c toks).1 ≤ length toks
unfolding setting_value
setting_value_shrinks o c [] = omega arith
setting_value_shrinks o c (tok ∷ toks) =
    let o2 = o + one_if (opening tok) in
    let c2 = c + one_if (closing tok) in
    elim (Bool-cases (eqb o2 c2 && value_end tok)) [
      | inl e ↦ ground arith
      | inr e ↦ ground (arith, setting_value_shrinks o2 c2 toks)
    ]

next_assignment_shrinks :
    (toks : List RawToken) {tok : RawToken} {value rest : List RawToken}
    → next_assignment toks ≡ some (tok, value, rest)
    → length rest < length toks
unfolding next_assignment
next_assignment_shrinks [] h = absurd (ground arith)
next_assignment_shrinks (a ∷ []) h = absurd (ground arith)
next_assignment_shrinks (a ∷ b ∷ toks) {tok} {value} {rest} h =
    elim (Bool-cases (setting_name_token a && has_type b (codes "EQ"))) [
      | inl e ↦
          let same : (setting_value 0 0 toks).1 ≡ rest = ground arith in
          let short = setting_value_shrinks 0 0 toks in rw (← same) (omega (arith, short))
      | inr e ↦ absurd (ground arith)
    ]

following_shrinks :
    (toks : List RawToken) {next : List RawToken}
    → following toks ≡ more next
    → length next < length toks
unfolding following
following_shrinks [] h = absurd (ground arith)
following_shrinks (tok ∷ toks) {next} h = elim (Bool-cases (settings_list_end tok)) [
  | inl e ↦ absurd (ground arith)
  | inr e ↦ elim (Bool-cases (has_type tok (codes "SEMICOLON"))) [
    | inl s ↦ absurd (ground arith)
    | inr s ↦ let same : toks ≡ next = ground arith in rw (← same) (omega arith)
  ]
]

List-cases :
    (xs : List RawToken) → (xs ≡ []) ⊎ ((e : RawToken × List RawToken) × (xs ≡ (e.0 ∷ e.1)))
List-cases [] = inl refl
List-cases (x ∷ xs) = inr ((x, xs), refl)

Following-cases :
    (toks : List RawToken)
    → ((b : List RawToken) × (following toks ≡ ended b))
      ⊎ ((n : List RawToken) × (following toks ≡ more n))
unfolding following
Following-cases [] = inl ([], refl)
Following-cases (tok ∷ toks) = elim (Bool-cases (settings_list_end tok)) [
  | inl e ↦ inl (tok ∷ toks, ground arith)
  | inr e ↦ elim (Bool-cases (has_type tok (codes "SEMICOLON"))) [
    | inl s ↦ inl (toks, ground arith)
    | inr s ↦ inr (toks, ground arith)
  ]
]

-- Any two fuels above the length of the tokens give the same.
parse_from_agree :
    (f g : ℕ) (toks : List RawToken) (out : List SettingAssignment)
    → length toks < f
    → length toks < g
    → parse_from f toks out ≡ parse_from g toks out
unfolding parse_from
parse_from_agree zero g toks out hf hg = absurd (omega arith)
parse_from_agree (suc f) zero toks out hf hg = absurd (omega arith)
parse_from_agree (suc f) (suc g) toks out hf hg = elim (Option-cases (next_assignment toks)) [
  | inl e ↦ rw (parse_from, e) refl
  | inr ((tok, value, rest), e) ↦
      let short = next_assignment_shrinks toks e in
      elim (List-cases value) [
        | inl v ↦ rw (parse_from, e, v) refl
        | inr ((first, others), v) ↦
            let longer = out ++ (assignment_of tok (first ∷ others) ∷ []) in
            elim (Following-cases rest) [
              | inl (behind, w) ↦ rw (parse_from, e, v, w) refl
              | inr (next, w) ↦
                  let shorter = following_shrinks rest w in
                  rw (parse_from, e, v, w)
                    (parse_from_agree f g next longer (omega arith) (omega arith))
            ]
      ]
]

-- Any fuel above the length of the tokens gives what the parser gives.
pub parse_setting_assignments_enough :
    (f : ℕ) (toks : List RawToken)
    → length toks < f
    → parse_from f toks [] ≡ parse_setting_assignments toks
unfolding parse_setting_assignments
parse_setting_assignments_enough f toks h =
    parse_from_agree f (suc (length toks)) toks [] h (omega arith)
