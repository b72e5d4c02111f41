-- ===== src/Nameescape/Loops.antt =====
-- The loops end: each round takes bytes away.
use rewriter_go.Prelude.{
  Bool, Bool-cases, Option, [], ap, append-nil, append_assoc, arith, eqb, false, inl, inr, length,
  ltb, none, refl, some, suc, sym, true, zero, ℕ, ◌++◌, ◌+◌, ◌∙◌, ◌∷◌, ◌≡◌, ◌⊎◌,
}
use rewriter_go.Nameescape.{
  QuotedDecode, Step, at_escape, at_quote, body_step, decode_identifier_escapes, decoded_rejected,
  go, name_escape, name_step, run, stop, unescape, unescape_hex,
}
use rewriter_go.Nameescape.RoundTrip.{run_go, run_stop}
use rewriter_go.Prelude.Text.{Bytes, has_byte}

Step-cases {ℓ} :
    {A : Type ℓ} (x : Step A)
    → ((r : A) × (x ≡ stop r)) ⊎ ((b : Bytes) × (s : Bytes) × (x ≡ go b s))
Step-cases (stop r) = inl (r, refl)
Step-cases (go b s) = inr (b, s, refl)

-- Each round that goes on leaves a shorter text.
abbrev pub Shrinks {ℓ} : {A : Type ℓ} → (Bytes → Bytes → Step A) → Type ℓ
Shrinks step = (b s b2 s2 : Bytes) → step b s ≡ go b2 s2 → ltb (length s2) (length s) ≡ true

module _ {ℓ} {A : Type ℓ} (out out2 : A) (step : Bytes → Bytes → Step A) where
  -- A loop that shrinks never runs out of fuel: what it would answer then does not matter.
  run_enough :
      (fuel : ℕ) (b s : Bytes)
      → Shrinks step
      → ltb (length s) fuel ≡ true
      → run out step fuel b s ≡ run out2 step fuel b s
  unfolding run
  run_enough zero b s shrinks h = absurd (ground arith)
  run_enough (suc fuel) b s shrinks h = elim (Step-cases (step b s)) [
    | inl (r, e) ↦ rw (e, run) refl
    | inr (b2, s2, e) ↦
        let shorter = shrinks b s b2 s2 e in
        rw (e, run) (run_enough fuel b2 s2 shrinks (ground arith))
  ]

unescape-shorter :
    (s out rest : Bytes) → unescape s ≡ some (out, rest) → ltb (length rest) (length s) ≡ true
unfolding unescape unescape_hex
unescape-shorter [] out rest e = absurd (cc)
unescape-shorter (c ∷ []) out rest e = ground arith
unescape-shorter (c ∷ a ∷ []) out rest e = ground arith
unescape-shorter (c ∷ a ∷ b ∷ s) out rest e = ground arith

name_escape-shorter :
    (s b b2 s2 : Bytes) (found : Option (Bytes × Bytes))
    → unescape s ≡ found
    → name_escape b found ≡ go b2 s2
    → ltb (length s2) (length s) ≡ true
unfolding name_escape
name_escape-shorter s b b2 s2 none e k = absurd (ground arith)
name_escape-shorter s b b2 s2 (some (out, rest)) e k = ground (arith, unescape-shorter s out rest e)

name_step-Shrinks : Shrinks name_step
unfolding name_step
name_step-Shrinks b [] b2 s2 e = absurd (ground arith)
name_step-Shrinks b (c ∷ s) b2 s2 e =
    ground (arith, name_escape-shorter s b b2 s2 (unescape s) refl)

module _ (valid : Bytes → Bool) where
  at_escape-shorter :
      (s b b2 s2 : Bytes) (found : Option (Bytes × Bytes))
      → unescape s ≡ found
      → at_escape valid b found ≡ go b2 s2
      → ltb (length s2) (length s) ≡ true
  unfolding at_escape
  at_escape-shorter s b b2 s2 none e k = absurd (ground arith)
  at_escape-shorter s b b2 s2 (some (out, [])) e k = absurd (ground arith)
  at_escape-shorter s b b2 s2 (some (out, c ∷ rest)) e k =
      ground (arith, unescape-shorter s out (c ∷ rest) e)

  body_step-Shrinks : (q : ℕ) → Shrinks (body_step valid q)
  unfolding body_step at_quote
  body_step-Shrinks q b [] b2 s2 e = absurd (ground arith)
  body_step-Shrinks q b (c ∷ []) b2 s2 e =
      ground (arith, at_escape-shorter [] b b2 s2 (unescape []) refl)
  body_step-Shrinks q b (c ∷ d ∷ s) b2 s2 e =
      ground (arith, at_escape-shorter (d ∷ s) b b2 s2 (unescape (d ∷ s)) refl)

  -- The decoding of a quoted body never stops for lack of fuel: on the fuel that it is given, and on
  -- any larger one, another answer at the end of the fuel leaves the result as it is.
  pub body_fuel_enough :
      (q fuel : ℕ) (s : Bytes) (out : QuotedDecode)
      → ltb (length s) fuel ≡ true
      → run decoded_rejected (body_step valid q) fuel [] s ≡ run out (body_step valid q) fuel [] s
  body_fuel_enough q fuel s out h =
      run_enough decoded_rejected out (body_step valid q) fuel [] s (body_step-Shrinks q) h

name_end : (b : Bytes) → name_step b [] ≡ stop (some b)
unfolding name_step
name_end b = refl

name_plain :
    (b : Bytes) (c : ℕ) (s : Bytes)
    → eqb c b'\\' ≡ false
    → name_step b (c ∷ s) ≡ go (b ++ (c ∷ [])) s
unfolding name_step
name_plain b c s h = rw h refl

plain_run :
    (fuel : ℕ) (s b : Bytes)
    → has_byte b'\\' s ≡ false
    → ltb (length s) fuel ≡ true
    → run none name_step fuel b s ≡ some (b ++ s)
unfolding has_byte
plain_run zero s b plain h = absurd (ground arith)
plain_run (suc fuel) [] b plain h =
    run_stop none name_step fuel b [] (some b) (name_end b) ∙ ap some (sym (append-nil b))
plain_run (suc fuel) (c ∷ s) b plain h =
    run_go none name_step fuel b (c ∷ s) (b ++ (c ∷ [])) s (name_plain b c s (ground arith))
    ∙ (plain_run fuel s (b ++ (c ∷ [])) (ground arith) (ground arith)
        ∙ ap some (append_assoc b (c ∷ []) s))

-- The shortcut of the decoding for a text without a backslash answers as the loop does, which
-- never stops for lack of fuel.
pub decode_identifier_escapes_lem :
    (s : Bytes) (out : Option Bytes)
    → decode_identifier_escapes s ≡ run out name_step (length s + 1) [] s
unfolding decode_identifier_escapes
decode_identifier_escapes_lem s out =
    let fueled =
      run_enough none out name_step (length s + 1) [] s name_step-Shrinks (ground arith) in
    elim (Bool-cases (has_byte b'\\' s)) [
      | inl slash ↦ rw slash fueled
      | inr plain ↦ rw plain (sym (plain_run (length s + 1) s [] plain (ground arith)) ∙ fueled)
    ]
