-- ===== src/Engine/Grant/Spelling.antt =====
-- The spelling of the target of a GRANT in its marker.
use rewriter_go.Prelude.{
  Bool, Bool-cases, [], ap, arith, false, inl, inr, refl, sym, true, ℕ, ◌++◌, ◌∙◌, ◌∷◌, ◌≡◌, ◌≢◌,
}
use rewriter_go.Engine.Grant.{needs_quoting, plain_byte, quoted_part}
use rewriter_go.Nameescape.{
  QuotedDecode, closed, decode_quoted_identifier, decoded_not_utf8, named, quote_bytes,
  quote_identifier_sql,
}
use rewriter_go.Nameescape.RoundTrip.{decode_quoted_identifier-quote_identifier_sql}
use rewriter_go.Prelude.Text.{Bytes, codes}

abbrev pub content : QuotedDecode → Bytes
content (decoded_not_utf8 b) = b
content _ = []

-- Names that are quoted alike are the same name.
quote_identifier_sql_injective :
    (a b : Bytes) → quote_identifier_sql a ≡ quote_identifier_sql b → a ≡ b
unfolding closed named
quote_identifier_sql_injective a b e =
    let back = decode_quoted_identifier-quote_identifier_sql (λ _. false) in
    ap content (sym (back a) ∙ (ap (decode_quoted_identifier (λ _. false)) e ∙ back b))

plain_head :
    (a : Bytes)
    → needs_quoting a ≡ false
    → (c : ℕ) × (s : Bytes) × (a ≡ c ∷ s) × (plain_byte c ≡ true)
unfolding needs_quoting
plain_head [] e = ground arith
plain_head (c ∷ s) e = (c, s, refl, ground arith)

-- A plain name begins with none of the bytes that begin the star and a quoted name.
plain_unlike :
    (a : Bytes) (c : ℕ) (s : Bytes) → needs_quoting a ≡ false → a ≡ c ∷ s → (c ≢ b'*') × (c ≢ b'`')
plain_unlike a c s e same =
    let (d, t, shape, plain) = plain_head a e in
    let heads : d ≡ c = ground arith in (λ h. ground arith, λ h. ground arith)

spelling-star : (a : Bytes) → ¬ (quoted_part a false ≡ codes "*")
unfolding quoted_part quote_identifier_sql
spelling-star a e = elim (Bool-cases (needs_quoting a)) [
  | inl odd ↦ ground arith
  | inr plain ↦ (plain_unlike a b'*' [] plain (ground arith)).0 refl
]

quoted_unlike : (a b : Bytes) → needs_quoting a ≡ false → ¬ (a ≡ quote_identifier_sql b)
unfolding quote_identifier_sql
quoted_unlike a b plain e = (plain_unlike a b'`' (quote_bytes b ++ (b'`' ∷ [])) plain e).1 refl

spelling_injective : (a b : Bytes) → quoted_part a false ≡ quoted_part b false → a ≡ b
unfolding quoted_part
spelling_injective a b e = elim (Bool-cases (needs_quoting a)) [
  | inl odd ↦ elim (Bool-cases (needs_quoting b)) [
    | inl odd' ↦ quote_identifier_sql_injective a b (ground arith)
    | inr plain' ↦ absurd (quoted_unlike b a plain' (ground arith))
  ]
  | inr plain ↦ elim (Bool-cases (needs_quoting b)) [
    | inl odd' ↦ absurd (quoted_unlike a b plain (ground arith))
    | inr plain' ↦ ground arith
  ]
]

-- Parts of a target that are spelt alike in the marker statement are the same: both the wildcard, or
-- both the same name, whatever bytes it holds.
pub quoted_part_injective :
    (a b : Bytes) (x y : Bool) → quoted_part a x ≡ quoted_part b y → (x ≡ y) × (x ≡ false → a ≡ b)
unfolding quoted_part
quoted_part_injective a b true true e = (refl, λ h. absurd (ground arith))
quoted_part_injective a b true false e = absurd (spelling-star b (sym e))
quoted_part_injective a b false true e = absurd (spelling-star a e)
quoted_part_injective a b false false e = (refl, λ _. spelling_injective a b e)
