-- ===== src/Engine/Whole/Searched.antt =====
-- The binary search for the token at which the parser stopped.
use rewriter_go.Prelude.{
  Bool, Bool-cases, ap, arith, false, inl, inr, ltb, refl, suc, true, zero, ℕ, ◌+◌, ◌-◌, ◌/◌, ◌<◌,
  ◌∙◌, ◌≡◌, ◌≤◌, ◌⊎◌,
}
use rewriter_go.Engine.Whole.{first_alike}

-- What the binary search keeps, and what it ends with, given that the tree is the same at `hi`: an index
-- at which it is the same and that is the first one, or right behind one at which it is not.
abbrev pub IsBoundary : (ℕ → Bool) → ℕ → ℕ → Type 0
IsBoundary alike first found =
    (alike found ≡ true) × ((found ≡ first) ⊎ (alike (found - 1) ≡ false))

halved : (lo hi : ℕ) → lo < hi → (lo ≤ (lo + hi) / 2) × ((lo + hi) / 2 < hi)
halved lo hi h = (omega arith, omega arith)

search_from :
    (alike : ℕ → Bool) (first fuel lo hi : ℕ)
    → hi < fuel + lo
    → lo ≤ hi
    → alike hi ≡ true
    → ((lo ≡ first) ⊎ (alike (lo - 1) ≡ false))
    → IsBoundary alike first (first_alike alike fuel lo hi)
unfolding first_alike
search_from alike first zero lo hi f h e b = absurd (omega arith)
search_from alike first (suc fuel) lo hi f h e b = elim (Bool-cases (ltb lo hi)) [
  | inl less ↦
      let (above, below) = halved lo hi (ground arith) in
      let mid = (lo + hi) / 2 in
      elim (Bool-cases (alike mid)) [
        | inl here ↦
            rw (first_alike, less, here)
              (search_from alike first fuel lo mid (omega arith) above here b)
        | inr not_here ↦
            let back : mid + 1 - 1 ≡ mid = omega arith in
            rw (first_alike, less, not_here)
              (search_from alike first fuel (mid + 1) hi (omega arith) (omega arith) e
                (inr (ap alike back ∙ not_here)))
      ]
  | inr done ↦ let same : lo ≡ hi = ground arith in rw (first_alike, done) (e, rw (← same) b)
]

-- The binary search never runs out of fuel, and ends at a token at which the tree is the same, while it
-- is not at the one before, unless that is the first.
pub first_alike-IsBoundary :
    (alike : ℕ → Bool) (fuel last : ℕ)
    → last < fuel + 1
    → 1 ≤ last
    → alike last ≡ true
    → IsBoundary alike 1 (first_alike alike fuel 1 last)
first_alike-IsBoundary alike fuel last f h e = search_from alike 1 fuel 1 last f h e (inl refl)
