-- ===== src/Reverse/Boundary/Replaced.antt =====
-- What the substitution writes.
use mathlib.Core.Path.{subst}
use rewriter_go.Prelude.{
  Bool-cases, List, Option-cases, [], ap, leb, sym, append_assoc, arith, drop, eqb, get_elem?, inl,
  inr, length, none, refl, some, suc, true, ℕ, ◌&&◌, ◌++◌, ◌-◌, ◌↔◌, ◌∙◌, ◌∷◌, ◌≡◌, ◌≤◌, ◌⊎◌,
}
use rewriter_go.Prelude.Text.{Bytes}
use rewriter_go.Reverse.Boundary.{qualifies, slice, substitute_boundary, substitute_from}
use rewriter_go.Reverse.Words.{after_ok, before_ok, is_word_byte, word_at}

-- A byte of a word: an underscore, an ASCII digit or an ASCII letter.
abbrev pub IsWord : ℕ → Type 0
IsWord c =
    (c ≡ b'_')
    ⊎ (((b'0' ≤ c) × (c ≤ b'9')) ⊎ (((b'A' ≤ c) × (c ≤ b'Z')) ⊎ ((b'a' ≤ c) × (c ≤ b'z'))))

-- No word byte stands right before the span, and none right behind it.
abbrev pub IsFree : Bytes → ℕ × ℕ → Type 0
IsFree s (st, en) =
    ((i c : ℕ) → suc i ≡ st → get_elem? s i ≡ some c → ¬ IsWord c)
    × ((c : ℕ) → get_elem? s en ≡ some c → ¬ IsWord c)

-- The text behind `last` with each span that is free replaced, and every other byte kept.
pub data IsReplaced (s repl : Bytes) : ℕ → List (ℕ × ℕ) → Bytes → Type 0 where
  replaced_end : {last : ℕ} → IsReplaced s repl last [] (drop last s)
  replaced_span :
      {last st en : ℕ} {locs : List (ℕ × ℕ)} {out : Bytes}
      → IsFree s (st, en)
      → IsReplaced s repl en locs out
      → IsReplaced s repl last ((st, en) ∷ locs) (slice s last st ++ (repl ++ out))
  kept_span :
      {last st en : ℕ} {locs : List (ℕ × ℕ)} {out : Bytes}
      → ¬ IsFree s (st, en)
      → IsReplaced s repl last locs out
      → IsReplaced s repl last ((st, en) ∷ locs) out

is_word_byte-IsWord : (c : ℕ) → is_word_byte c ≡ true → IsWord c
unfolding is_word_byte
is_word_byte-IsWord c h = elim (Bool-cases (eqb c b'_')) [
  | inl e ↦ inl (ground arith)
  | inr p ↦ elim (Bool-cases (leb b'0' c && leb c b'9')) [
    | inl e ↦ inr (inl (ground arith, ground arith))
    | inr q ↦ elim (Bool-cases (leb b'A' c && leb c b'Z')) [
      | inl e ↦ inr (inr (inl (ground arith, ground arith)))
      | inr r ↦ inr (inr (inr (ground arith, ground arith)))
    ]
  ]
]

IsWord-word : (c : ℕ) → IsWord c → is_word_byte c ≡ true
unfolding is_word_byte
IsWord-word c (inl e) = ground arith
IsWord-word c (inr (inl (a, b))) = ground arith
IsWord-word c (inr (inr (inl (a, b)))) = ground arith
IsWord-word c (inr (inr (inr (a, b)))) = ground arith

word_at-true : (s : Bytes) (i c : ℕ) → get_elem? s i ≡ some c → IsWord c → word_at s i ≡ true
unfolding word_at
word_at-true s i c e w = rw (word_at, e) (IsWord-word c w)

word_at-IsWord :
    (s : Bytes) (i : ℕ) → word_at s i ≡ true → (c : ℕ) × (get_elem? s i ≡ some c) × IsWord c
unfolding word_at
word_at-IsWord s i h = elim (Option-cases (get_elem? s i)) [
  | inl missing ↦ absurd (ground arith)
  | inr (c, found) ↦ (c, found, is_word_byte-IsWord c (ground arith))
]

past_end : (s : Bytes) → get_elem? s (length s) ≡ none
past_end [] = refl
past_end (c ∷ s) = past_end s

before_free :
    (s : Bytes) (st i c : ℕ)
    → before_ok s st ≡ true
    → suc i ≡ st
    → get_elem? s i ≡ some c
    → ¬ IsWord c
unfolding before_ok
before_free s st i c h e at w =
    let same : st - 1 ≡ i = omega arith in
    ground (arith, word_at-true s i c at w, ap (word_at s) same)

after_free : (s : Bytes) (en c : ℕ) → after_ok s en ≡ true → get_elem? s en ≡ some c → ¬ IsWord c
unfolding after_ok
after_free s en c h at w = elim (Bool-cases (eqb en (length s))) [
  | inl last ↦
      let same : en ≡ length s = ground arith in ground (arith, past_end s, ap (get_elem? s) same)
  | inr inside ↦ ground (arith, word_at-true s en c at w)
]

-- The code's test holds exactly where the span is free.
qualifies_iff : (s : Bytes) (st en : ℕ) → (qualifies s (st, en) ≡ true) ↔ IsFree s (st, en)
unfolding qualifies before_ok after_ok
qualifies_iff s st en = (
  λ h. (λ i c. before_free s st i c (ground arith), λ c. after_free s en c (ground arith)),
  λ (before, after). elim (Bool-cases (before_ok s st)) [
    | inr glued ↦
        let (c, found, w) = word_at-IsWord s (st - 1) (ground arith) in
        absurd (before (st - 1) c (ground arith) found w)
    | inl clear ↦ elim (Bool-cases (after_ok s en)) [
      | inr glued ↦
          let (c, found, w) = word_at-IsWord s en (ground arith) in absurd (after c found w)
      | inl clear' ↦ ground arith
    ]
  ],
)

-- What the loop writes behind what it has written.
substitute_from-IsReplaced :
    (s repl : Bytes) (last : ℕ) (b : Bytes) (locs : List (ℕ × ℕ))
    → (out : Bytes) × (substitute_from s repl last b locs ≡ b ++ out)
      × IsReplaced s repl last locs out
unfolding substitute_from
substitute_from-IsReplaced s repl last b [] = (drop last s, refl, replaced_end)
substitute_from-IsReplaced s repl last b ((st, en) ∷ locs) =
    elim (Bool-cases (qualifies s (st, en))) [
      | inl fits ↦
          let (out, e, r) =
            substitute_from-IsReplaced s repl en ((b ++ slice s last st) ++ repl) locs in
          (
            slice s last st ++ (repl ++ out),
            rw (substitute_from, fits)
                (e
                  ∙ (append_assoc (b ++ slice s last st) repl out
                      ∙ append_assoc b (slice s last st) (repl ++ out))),
            replaced_span ((qualifies_iff s st en).0 fits) r,
          )
      | inr fails ↦
          let (out, e, r) = substitute_from-IsReplaced s repl last b locs in
          (
            out,
            rw (substitute_from, fails) e,
            kept_span (λ free. ground (arith, (qualifies_iff s st en).1 free)) r,
          )
    ]

-- The substitution replaces exactly the matches with no ASCII letter, digit or underscore right before
-- or right behind them, each by the given text, and keeps every byte between, before and behind them.
pub substitute_boundary-IsReplaced :
    (s repl : Bytes) (locs : List (ℕ × ℕ))
    → IsReplaced s repl 0 locs (substitute_boundary s locs repl)
unfolding substitute_boundary
substitute_boundary-IsReplaced s repl [] = replaced_end
substitute_boundary-IsReplaced s repl (loc ∷ locs) =
    let (out, e, r) = substitute_from-IsReplaced s repl 0 [] (loc ∷ locs) in
    subst (IsReplaced s repl 0 (loc ∷ locs)) (sym e) r
