-- ===== src/Reverse/Withheld/Search.antt =====
-- `strings.Index` as the code relies on it.
use rewriter_go.Prelude.{
  ℕ, zero, suc, ◌≤◌, ◌<◌, ◌≡◌, refl, ◌≢◌, inl, inr, true, false, [], ◌∷◌, none, some, arith, length,
  drop, Bool-cases,
}
use rewriter_go.Prelude.Text.{Bytes, eq_iff, has_prefix}
use rewriter_go.Reverse.Withheld.{index}

drop-nil : (i : ℕ) → drop {A = ℕ} i [] ≡ []
drop-nil zero = refl
drop-nil (suc i) = refl

prefix-nil : (p : Bytes) → p ≢ [] → has_prefix [] p ≡ false
unfolding has_prefix
prefix-nil [] h = absurd (h refl)
prefix-nil (c ∷ p) h = refl

pub index-none :
    (s p : Bytes) → p ≢ [] → index s p ≡ none → (i : ℕ) → has_prefix (drop i s) p ≡ false
unfolding index
index-none [] p h e i = rw (drop-nil i) (prefix-nil p h)
index-none (c ∷ s) p h e zero = ground arith
index-none (c ∷ s) p h e (suc i) = index-none s p h (ground arith) i

pub index-some :
    (s p : Bytes) (i : ℕ) → p ≢ [] → index s p ≡ some i → has_prefix (drop i s) p ≡ true
unfolding index
index-some [] p i h e = absurd (ground (arith, eq_iff p []))
index-some (c ∷ s) p zero h e = elim (Bool-cases (has_prefix (c ∷ s) p)) [
  | inl here ↦ here
  | inr later ↦ absurd (ground arith)
]
index-some (c ∷ s) p (suc i) h e = elim (Bool-cases (has_prefix (c ∷ s) p)) [
  | inl here ↦ absurd (ground arith)
  | inr later ↦ index-some s p i h (ground arith)
]

pub index_first :
    (s p : Bytes) (i j : ℕ) → p ≢ [] → index s p ≡ some i → j < i → has_prefix (drop j s) p ≡ false
unfolding index
index_first [] p i j h e lt = absurd (ground (arith, eq_iff p []))
index_first (c ∷ s) p i zero h e lt = ground arith
index_first (c ∷ s) p zero (suc j) h e lt = absurd (omega arith)
index_first (c ∷ s) p (suc i) (suc j) h e lt = elim (Bool-cases (has_prefix (c ∷ s) p)) [
  | inl here ↦ absurd (ground arith)
  | inr later ↦ index_first s p i j h (ground arith) (omega arith)
]

pub length_of_prefix : (s p : Bytes) → has_prefix s p ≡ true → length p ≤ length s
unfolding has_prefix
length_of_prefix s [] h = omega arith
length_of_prefix [] (c ∷ p) h = absurd (ground arith)
length_of_prefix (a ∷ s) (c ∷ p) h = ground (arith, length_of_prefix s p)
