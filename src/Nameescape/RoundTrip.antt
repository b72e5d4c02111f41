-- ===== src/Nameescape/RoundTrip.antt =====
-- A quoted name is read back as itself.
use rewriter_go.Prelude.{
  Bool, Bool-cases, [], ap, append-nil, append_assoc, arith, eqb, inl, inr, length, length-append,
  ltb, refl, some, suc, sym, true, zero, ℕ, ◌%◌, ◌++◌, ◌+◌, ◌/◌, ◌||◌, ◌∙◌, ◌∷◌, ◌≡◌,
}
use rewriter_go.Nameescape.{
  Step, at_escape, at_quote, body_step, closed, control, decode_marked, decode_quoted_body,
  decode_quoted_identifier, decoded_rejected, escaped, go, hex, hex_digit, kept_or_bare, named,
  quote_byte, quote_bytes, quote_identifier_sql, run, stop, unescape, unescape_hex, unhex2,
}
use rewriter_go.Prelude.Text.{Bytes, has_prefix}

hex_digit-hex : (d : ℕ) → ltb d 16 ≡ true → hex_digit (hex d) ≡ d
unfolding hex_digit hex
hex_digit-hex d h = ground arith

unhex2-hex : (c : ℕ) → ltb c 256 ≡ true → unhex2 (hex (c / 16)) (hex (c % 16)) ≡ c
unfolding unhex2
unhex2-hex c h = ground (arith, hex_digit-hex (c / 16), hex_digit-hex (c % 16))

escaped-backslash : escaped b'\\' ≡ b'\\' ∷ []
unfolding escaped control kept_or_bare
escaped-backslash = refl

unescape-backslash : (s : Bytes) → unescape (b'\\' ∷ s) ≡ some (b'\\' ∷ [], s)
unfolding unescape
unescape-backslash s = ap (λ out. some (out, s)) escaped-backslash

unescape-x :
    (c : ℕ) (s : Bytes)
    → ltb c 256 ≡ true
    → unescape (b'x' ∷ hex (c / 16) ∷ hex (c % 16) ∷ s) ≡ some (c ∷ [], s)
unfolding unescape unescape_hex
unescape-x c s h = ap (λ d. some (d ∷ [], s)) (unhex2-hex c h)

quote_byte_nonempty : (c : ℕ) → (d : ℕ) × (s : Bytes) × (quote_byte c ≡ d ∷ s)
unfolding quote_byte
quote_byte_nonempty c = elim (Bool-cases (eqb c b'`')) [
  | inl tick ↦ (b'`', b'`' ∷ [], ground arith)
  | inr untick ↦ elim (Bool-cases (eqb c b'\\')) [
    | inl slash ↦ (b'\\', b'\\' ∷ [], ground arith)
    | inr unslash ↦ elim (Bool-cases (ltb c 32 || eqb c 127)) [
      | inl hidden ↦ (b'\\', b'x' ∷ hex (c / 16) ∷ hex (c % 16) ∷ [], ground arith)
      | inr shown ↦ (c, [], ground arith)
    ]
  ]
]

quoted_nonempty : (name : Bytes) → (d : ℕ) × (s : Bytes) × (quote_bytes name ++ (b'`' ∷ []) ≡ d ∷ s)
unfolding quote_bytes
quoted_nonempty [] = (b'`', [], refl)
quoted_nonempty (c ∷ name) =
    let (d, s, e) = quote_byte_nonempty c in
    (d, (s ++ quote_bytes name) ++ (b'`' ∷ []), ap (λ t. (t ++ quote_bytes name) ++ (b'`' ∷ [])) e)

fuel_enough :
    (name : Bytes) → ltb (length name) (length (quote_bytes name ++ (b'`' ∷ [])) + 1) ≡ true
unfolding quote_bytes
fuel_enough [] = refl
fuel_enough (c ∷ name) =
    let (d, s, e) = quote_byte_nonempty c in
    ground (
      arith,
      fuel_enough name,
      ap length e,
      length-append (quote_byte c ++ quote_bytes name) (b'`' ∷ []),
      length-append (quote_byte c) (quote_bytes name),
      length-append (quote_bytes name) (b'`' ∷ []),
    )

module _ {ℓ} {A : Type ℓ} (out : A) (step : Bytes → Bytes → Step A) (fuel : ℕ) (b s : Bytes) where
  pub run_stop : (r : A) → step b s ≡ stop r → run out step (suc fuel) b s ≡ r
  unfolding run
  run_stop r e = rw (e, run) refl

  pub run_go :
      (b2 s2 : Bytes) → step b s ≡ go b2 s2 → run out step (suc fuel) b s ≡ run out step fuel b2 s2
  unfolding run
  run_go b2 s2 e = rw (e, run) refl

module _ (valid : Bytes → Bool) where
  step-close : (b : Bytes) → body_step valid b'`' b (b'`' ∷ []) ≡ stop (closed valid b)
  unfolding body_step at_quote
  step-close b = refl

  -- One round reads one quoted byte.
  step-quote_byte :
      (b : Bytes) (c d : ℕ) (s : Bytes)
      → body_step valid b'`' b (quote_byte c ++ (d ∷ s)) ≡ go (b ++ (c ∷ [])) (d ∷ s)
  unfolding body_step quote_byte at_quote at_escape
  step-quote_byte b c d s = elim (Bool-cases (eqb c b'`')) [
    | inl tick ↦ ground arith
    | inr untick ↦ elim (Bool-cases (eqb c b'\\')) [
      | inl slash ↦ ground (arith, unescape-backslash (d ∷ s))
      | inr unslash ↦ elim (Bool-cases (ltb c 32 || eqb c 127)) [
        | inl hidden ↦ ground (arith, unescape-x c (d ∷ s))
        | inr shown ↦ ground arith
      ]
    ]
  ]

  quote_bytes-round :
      (b : Bytes) (c : ℕ) (name : Bytes) (d : ℕ) (s : Bytes)
      → quote_bytes name ++ (b'`' ∷ []) ≡ d ∷ s
      → body_step valid b'`' b (quote_bytes (c ∷ name) ++ (b'`' ∷ []))
        ≡ go (b ++ (c ∷ [])) (quote_bytes name ++ (b'`' ∷ []))
  unfolding quote_bytes
  quote_bytes-round b c name d s tail =
      rw (append_assoc (quote_byte c) (quote_bytes name) (b'`' ∷ []), tail)
        (step-quote_byte b c d s)

  -- What the loop makes of the quoted bytes of a name, on enough fuel.
  run-quote_bytes :
      (name b : Bytes) (fuel : ℕ)
      → ltb (length name) fuel ≡ true
      → run decoded_rejected (body_step valid b'`') fuel b (quote_bytes name ++ (b'`' ∷ []))
        ≡ closed valid (b ++ name)
  unfolding quote_bytes
  run-quote_bytes name b zero h = absurd (ground arith)
  run-quote_bytes [] b (suc fuel) h =
      run_stop decoded_rejected (body_step valid b'`') fuel b (b'`' ∷ []) (closed valid b)
        (step-close b)
      ∙ ap (closed valid) (sym (append-nil b))
  run-quote_bytes (c ∷ name) b (suc fuel) h =
      let (d, s, tail) = quoted_nonempty name in
      let round : body_step valid b'`' b (quote_bytes (c ∷ name) ++ (b'`' ∷ []))
          ≡ go (b ++ (c ∷ [])) (quote_bytes name ++ (b'`' ∷ [])) =
        quote_bytes-round b c name d s tail in
      run_go decoded_rejected (body_step valid b'`') fuel b _ (b ++ (c ∷ [])) _ round
      ∙ (run-quote_bytes name (b ++ (c ∷ [])) fuel (ground arith)
          ∙ ap (closed valid) (append_assoc b (c ∷ []) name))

  marked-body :
      (t : Bytes) (d : ℕ) (s : Bytes)
      → t ≡ d ∷ s
      → decode_marked valid (b'`' ∷ t) ≡ named (decode_quoted_body valid (b'`' ∷ t) b'`')
  unfolding decode_marked
  marked-body t d s e = rw e refl

  -- The quoted spelling of a name is read back as the name, byte for byte, whatever bytes it holds: as
  -- exact where it is valid UTF-8, and otherwise as not UTF-8; only a name that is empty and valid is
  -- rejected.
  pub decode_quoted_identifier-quote_identifier_sql :
      (name : Bytes)
      → decode_quoted_identifier valid (quote_identifier_sql name) ≡ named (closed valid name)
  unfolding decode_quoted_identifier decode_quoted_body quote_identifier_sql has_prefix
      decode_marked
  decode_quoted_identifier-quote_identifier_sql name =
      let t = quote_bytes name ++ (b'`' ∷ []) in
      let (d, s, tail) = quoted_nonempty name in
      marked-body t d s tail ∙ ap named (run-quote_bytes name [] (length t + 1) (fuel_enough name))
