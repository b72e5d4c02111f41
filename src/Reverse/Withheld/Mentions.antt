-- ===== src/Reverse/Withheld/Mentions.antt =====
-- What the search for an identifier finds.
use native.Mathlib.Decide.{dec_le}
use rewriter_go.Prelude.{
  ℕ, zero, suc, ◌+◌, ◌-◌, ◌≤◌, ◌<◌, ◌≡◌, refl, ap, ◌∙◌, ◌≢◌, ◌↔◌, inl, inr, Bool, true, false, ◌&&◌,
  [], ◌∷◌, some, arith, length, drop, Bool-cases, Option-cases,
}
use rewriter_go.Prelude.Text.{Bytes, ◌==◌, eq_iff, eq_of_test, has_prefix, drop-drop, length-drop}
use rewriter_go.Reverse.Words.{before_ok, after_ok}
use rewriter_go.Reverse.Withheld.{index, search_from, contains_identifier}
use rewriter_go.Reverse.Withheld.Search.{index-none, index-some, index_first, length_of_prefix}

-- At `st` the text reads `ident`, with no word byte on either side.
abbrev pub mentioned_at : Bytes → Bytes → ℕ → Bool
mentioned_at s ident st =
    has_prefix (drop st s) ident && (before_ok s st && after_ok s (st + length ident))

prefix_at :
    (s p : Bytes) (from i : ℕ)
    → has_prefix (drop i (drop from s)) p ≡ has_prefix (drop (from + i) s) p
prefix_at s p from i = ap (λ t. has_prefix t p) (drop-drop i from s)

search_sound :
    (fuel : ℕ) (s ident : Bytes) (from : ℕ)
    → ident ≢ []
    → search_from fuel s ident from ≡ true
    → (st : ℕ) × (mentioned_at s ident st ≡ true)
unfolding search_from
search_sound zero s ident from h e = absurd (ground arith)
search_sound (suc fuel) s ident from h e = elim (Option-cases (index (drop from s) ident)) [
  | inl missing ↦ absurd (ground arith)
  | inr (i, found) ↦
      elim (Bool-cases (before_ok s (from + i) && after_ok s (from + i + length ident))) [
        | inl bounded ↦ (
          from + i,
          ground (arith, index-some (drop from s) ident i h found, prefix_at s ident from i),
        )
        | inr unbounded ↦ search_sound fuel s ident (from + i + 1) h (ground arith)
      ]
]

length_pos : (p : Bytes) → p ≢ [] → 0 < length p
length_pos [] n = absurd (n refl)
length_pos (c ∷ p) n = omega arith

mention_fits :
    (s ident : Bytes) (st : ℕ)
    → mentioned_at s ident st ≡ true
    → ident ≢ []
    → st + length ident ≤ length s
mention_fits s ident st h n =
    let reads : has_prefix (drop st s) ident ≡ true = ground arith in
    omega (arith, length_of_prefix (drop st s) ident reads, length-drop st s, length_pos ident n)

-- The occurrence at `st`, seen from an earlier position.
reads_later :
    (s ident : Bytes) (from st : ℕ)
    → mentioned_at s ident st ≡ true
    → from ≤ st
    → has_prefix (drop (st - from) (drop from s)) ident ≡ true
reads_later s ident from st h le =
    let e : from + (st - from) ≡ st = omega arith in
    prefix_at s ident from (st - from) ∙ ap (λ k. has_prefix (drop k s) ident) e ∙ ground arith

-- An occurrence that fails the boundary test is another one.
passes_by :
    (s ident : Bytes) (st other : ℕ)
    → mentioned_at s ident st ≡ true
    → (before_ok s other && after_ok s (other + length ident)) ≡ false
    → other ≢ st
passes_by s ident st other h fails e =
    let bounded : (before_ok s st && after_ok s (st + length ident)) ≡ true = ground arith in
    ground (arith, ap (λ k. before_ok s k && after_ok s (k + length ident)) e)

reach :
    (t p : Bytes) (i j : ℕ) → p ≢ [] → index t p ≡ some i → has_prefix (drop j t) p ≡ true → i ≤ j
reach t p i j n found reads = elim (dec_le i j) [
  | yes le ↦ le
  | no gt ↦ absurd (ground (arith, index_first t p i j n found (omega arith)))
]

search_complete :
    (fuel : ℕ) (s ident : Bytes) (from st : ℕ)
    → ident ≢ []
    → mentioned_at s ident st ≡ true
    → from ≤ st
    → length s < fuel + from
    → search_from fuel s ident from ≡ true
unfolding search_from
search_complete zero s ident from st n h le room =
    absurd (omega (arith, mention_fits s ident st h n))
search_complete (suc fuel) s ident from st n h le room =
    let fits = mention_fits s ident st h n in
    let reads = reads_later s ident from st h le in
    elim (Option-cases (index (drop from s) ident)) [
      | inl missing ↦ absurd (ground (arith, index-none (drop from s) ident n missing (st - from)))
      | inr (i, found) ↦
          let reached : i ≤ st - from = reach (drop from s) ident i (st - from) n found reads in
          elim (Bool-cases (before_ok s (from + i) && after_ok s (from + i + length ident))) [
            | inl bounded ↦ ground arith
            | inr fails ↦
                let next : from + i + 1 ≤ st =
                  omega (arith, passes_by s ident st (from + i) h fails) in
                ground
                  (arith, search_complete fuel s ident (from + i + 1) st n h next (omega arith))
          ]
    ]

-- A text is found to mention an identifier exactly when, at some position, it reads the identifier
-- byte for byte with no word byte before it and none behind it. An empty identifier is never
-- mentioned. The fuel of the search is enough for every text.
pub contains_identifier_iff :
    (s ident : Bytes)
    → (contains_identifier s ident ≡ true)
      ↔ ((ident ≢ []) × ((st : ℕ) × (mentioned_at s ident st ≡ true)))
unfolding contains_identifier
contains_identifier_iff s ident = elim (Bool-cases (ident == [])) [
  | inl empty ↦ (λ h. absurd (ground arith), λ (n, _). absurd (n (eq_of_test ident [] empty)))
  | inr given ↦
      let n : ident ≢ [] = λ e. ground (arith, eq_iff ident []) in
      (
        λ h. (n, search_sound (length s + 1) s ident 0 n (ground arith)),
        λ (_, (st, h)).
            ground
              (arith, search_complete (length s + 1) s ident 0 st n h (omega arith) (omega arith)),
      )
]
