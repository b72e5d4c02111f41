-- ===== src/Engine/Guard/Bounded.antt =====
-- The nesting of a statement that passes the guard.
use rewriter_go.Prelude.{
  Bool, Bool-cases, [], eqb, ◌||◌, refl, drop, none, ◌↔◌, arith, false, if◌then◌else◌, inl, inr,
  ltb, suc, take, true, zero, ℕ, ◌+◌, ◌-◌, ◌∷◌, ◌≡◌, ◌≤◌,
}
use rewriter_go.Engine.Guard.{
  ScanMode, closes_bracket, code_mode, exceeds_from, exceeds_nesting_depth, in_code, in_quote,
  opens_bracket, quote_mode, skipping,
}
use rewriter_go.Engine.Guard.Code.{IsCode, outside-code, outside_from}
use rewriter_go.Prelude.Text.{Bytes}

abbrev pub count_if : (ℕ → Bool) → Bytes → ℕ
count_if p [] = 0
count_if p (c ∷ s) = (if p c then 1 else 0) + count_if p s

-- The two tests hold of no byte at once.
apart : (c : ℕ) → opens_bracket c ≡ true → closes_bracket c ≡ false
apart c h = ground arith

bounded_from :
    (max : ℕ) (m : ScanMode) (d : ℕ) (s : Bytes) (n : ℕ)
    → d ≤ max
    → exceeds_from max m d s ≡ false
    → d + count_if opens_bracket (take n (outside_from m s))
      ≤ count_if closes_bracket (take n (outside_from m s)) + max
unfolding exceeds_from
bounded_from max m d [] zero b h = omega arith
bounded_from max m d [] (suc n) b h = omega arith
bounded_from max (skipping q) d (c ∷ s) n b h = bounded_from max (in_quote q) d s n b h
bounded_from max (in_quote q) d (c ∷ s) n b h = bounded_from max (quote_mode q c s) d s n b h
bounded_from max in_code d (c ∷ s) zero b h = omega arith
bounded_from max in_code d (c ∷ s) (suc n) b h = elim (Bool-cases (opens_bracket c)) [
  | inl o ↦
      let k = apart c o in
      elim (Bool-cases (ltb max (suc d))) [
        | inl f ↦ absurd (ground arith)
        | inr f ↦
            let deeper = bounded_from max (code_mode c) (suc d) s n (ground arith) (ground arith) in
            rw (o, k) (omega (arith, deeper))
      ]
  | inr o ↦ elim (Bool-cases (closes_bracket c)) [
    | inl k ↦
        let higher = bounded_from max (code_mode c) (d - 1) s n (omega arith) (ground arith) in
        rw (o, k) (omega (arith, higher))
    | inr k ↦
        let level = bounded_from max (code_mode c) d s n b (ground arith) in
        rw (o, k) (omega (arith, level))
  ]
]

-- No stretch of a text opens more than `max` brackets beyond those that it closes.
abbrev pub IsShallow : ℕ → Bytes → Type 0
IsShallow max s =
    (i n : ℕ)
    → count_if (λ c. eqb c b'(' || eqb c b'[') (take n (drop i s))
      ≤ count_if (λ c. eqb c b')' || eqb c b']') (take n (drop i s)) + max

-- Each stretch of what the scan reads in code is bounded.
exceeds_from-IsShallow :
    (max : ℕ) (m : ScanMode) (d : ℕ) (s : Bytes)
    → d ≤ max
    → exceeds_from max m d s ≡ false
    → IsShallow max (outside_from m s)
unfolding exceeds_from
exceeds_from-IsShallow max m d s b h zero n = omega (arith, bounded_from max m d s n b h)
exceeds_from-IsShallow max m d [] b h (suc i) zero = omega arith
exceeds_from-IsShallow max m d [] b h (suc i) (suc n) = omega arith
exceeds_from-IsShallow max (skipping q) d (c ∷ s) b h (suc i) n =
    exceeds_from-IsShallow max (in_quote q) d s b h (suc i) n
exceeds_from-IsShallow max (in_quote q) d (c ∷ s) b h (suc i) n =
    exceeds_from-IsShallow max (quote_mode q c s) d s b h (suc i) n
exceeds_from-IsShallow max in_code d (c ∷ s) b h (suc i) n = elim (Bool-cases (opens_bracket c)) [
  | inl o ↦ exceeds_from-IsShallow max (code_mode c) (suc d) s (ground arith) (ground arith) i n
  | inr o ↦ elim (Bool-cases (closes_bracket c)) [
    | inl k ↦ exceeds_from-IsShallow max (code_mode c) (d - 1) s (omega arith) (ground arith) i n
    | inr k ↦ exceeds_from-IsShallow max (code_mode c) d s b (ground arith) i n
  ]
]

-- A text in which the brackets open at the depth `d` stay bounded passes.
passes_from :
    (max : ℕ) (m : ScanMode) (d : ℕ) (s : Bytes)
    → ((n : ℕ)
        → d + count_if opens_bracket (take n (outside_from m s))
          ≤ count_if closes_bracket (take n (outside_from m s)) + max)
    → IsShallow max (outside_from m s)
    → exceeds_from max m d s ≡ false
unfolding exceeds_from
passes_from max m d [] f w = refl
passes_from max (skipping q) d (c ∷ s) f w = passes_from max (in_quote q) d s f w
passes_from max (in_quote q) d (c ∷ s) f w = passes_from max (quote_mode q c s) d s f w
passes_from max in_code d (c ∷ s) f w = elim (Bool-cases (opens_bracket c)) [
  | inl o ↦
      let k = apart c o in
      let room : suc d ≤ max = ground (arith, f 1) in
      let deeper =
        passes_from max (code_mode c) (suc d) s (λ n. ground (arith, f (suc n))) (λ i. w (suc i)) in
      ground arith
  | inr o ↦ elim (Bool-cases (closes_bracket c)) [
    | inl k ↦
        let higher =
          passes_from max (code_mode c) (d - 1) s (λ n. ground (arith, f (suc n), w 1 n))
            (λ i. w (suc i)) in
        ground arith
    | inr k ↦
        let level =
          passes_from max (code_mode c) d s (λ n. ground (arith, f (suc n))) (λ i. w (suc i)) in
        ground arith
  ]
]

-- A statement passes the guard exactly when no stretch of its bytes in code opens more than `max`
-- brackets beyond those that it closes: an unmatched closing bracket earns no further opening one.
pub exceeds_nesting_depth_iff :
    (sql out : Bytes) (max : ℕ)
    → IsCode none sql out
    → (exceeds_nesting_depth sql max ≡ false) ↔ IsShallow max out
unfolding exceeds_nesting_depth
exceeds_nesting_depth_iff sql out max code =
    let same = outside-code code in
    rw (← same) (
      λ h. exceeds_from-IsShallow max in_code 0 sql (omega arith) h,
      λ w. passes_from max in_code 0 sql (λ n. omega (arith, w 0 n)) w,
    )
