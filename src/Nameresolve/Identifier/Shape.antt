-- ===== src/Nameresolve/Identifier/Shape.antt =====
-- The shape `<database>.<table>` that `exactQualifiedTable` tests, and keys built by `qualify`.
use rewriter_go.Prelude.{
  ℕ, ◌+◌, ◌≡◌, refl, ◌↔◌, inl, inr, true, ◌∷◌, [], ◌++◌, some, none, arith, Option-cases,
}
use rewriter_go.Prelude.Text.{Bytes, cut_at, count_byte}
use rewriter_go.Nameresolve.Identifier.{
  dot, qualify, split_qualified, alpha, digit, simple_from, simple_identifier, exact_parts,
  exact_qualified_table,
}

simple_from-no_dot : (i : ℕ) (s : Bytes) → simple_from i s ≡ true → count_byte dot s ≡ 0
unfolding simple_from count_byte alpha digit
simple_from-no_dot i [] h = refl
simple_from-no_dot i (r ∷ s) h = ground (arith, simple_from-no_dot (i + 1) s)

-- A simple identifier holds no dot.
pub simple_identifier-no_dot : (s : Bytes) → simple_identifier s ≡ true → count_byte dot s ≡ 0
unfolding simple_identifier
simple_identifier-no_dot [] h = ground arith
simple_identifier-no_dot (r ∷ s) h = simple_from-no_dot 0 (r ∷ s) h

count_byte-append : (c : ℕ) (s t : Bytes) → count_byte c (s ++ t) ≡ count_byte c s + count_byte c t
unfolding count_byte
count_byte-append c [] t = omega arith
count_byte-append c (b ∷ s) t = omega (arith, count_byte-append c s t)

cut_at-append : (c : ℕ) (s t : Bytes) → count_byte c s ≡ 0 → cut_at c (s ++ (c ∷ t)) ≡ some (s, t)
unfolding cut_at count_byte
cut_at-append c [] t h = ground arith
cut_at-append c (b ∷ s) t h = ground (arith, cut_at-append c s t)

cut_at-join : (c : ℕ) (s l r : Bytes) → cut_at c s ≡ some (l, r) → s ≡ l ++ (c ∷ r)
unfolding cut_at
cut_at-join c [] l r h = ground arith
cut_at-join c (b ∷ s) l r h = elim (Option-cases (cut_at c s)) [
  | inl absent ↦ ground arith
  | inr ((l', r'), found) ↦ ground (arith, cut_at-join c s l' r' found)
]

cut_at-none : (c : ℕ) (s : Bytes) → cut_at c s ≡ none → count_byte c s ≡ 0
unfolding cut_at count_byte
cut_at-none c [] h = refl
cut_at-none c (b ∷ s) h = ground (arith, cut_at-none c s)

-- The shape itself: two simple identifiers around one dot.
abbrev pub IsExact : Bytes → Bytes → Bytes → Type 0
IsExact s db table =
    (s ≡ db ++ (dot ∷ table)) × (simple_identifier db ≡ true) × (simple_identifier table ≡ true)

count_of_IsExact : (s db table : Bytes) → IsExact s db table → count_byte dot s ≡ 1
unfolding count_byte
count_of_IsExact s db table (e, d, t) = rw e (
    omega (
      arith,
      count_byte-append dot db (dot ∷ table),
      simple_identifier-no_dot db d,
      simple_identifier-no_dot table t,
    ))

exact_of_IsExact :
    (s db table : Bytes) → IsExact s db table → exact_qualified_table s ≡ some (db, table)
unfolding exact_qualified_table split_qualified exact_parts
exact_of_IsExact s db table h = ground (
  arith,
  count_of_IsExact s db table h,
  cut_at-append dot db table (simple_identifier-no_dot db (h.1)),
)

simple_parts-IsExact :
    (s db table : Bytes) → exact_qualified_table s ≡ some (db, table) → IsExact s db table
unfolding exact_qualified_table split_qualified exact_parts
simple_parts-IsExact s db table h = elim (Option-cases (cut_at dot s)) [
  | inl absent ↦ ground (arith, cut_at-none dot s absent)
  | inr ((l, r), found) ↦ ground (arith, cut_at-join dot s l r found)
]

-- A name passes the test, with the parts `db` and `table`, exactly when it is two simple identifiers
-- around one dot: the database before it and the table behind it.
pub exact_qualified_table_iff :
    (s db table : Bytes) → (exact_qualified_table s ≡ some (db, table)) ↔ IsExact s db table
exact_qualified_table_iff s db table =
    (simple_parts-IsExact s db table, exact_of_IsExact s db table)

-- The key that `qualify` builds from two simple identifiers is split back into them.
pub exact_qualified_table-qualify :
    (db table : Bytes)
    → simple_identifier db ≡ true
    → simple_identifier table ≡ true
    → exact_qualified_table (qualify db table) ≡ some (db, table)
unfolding qualify simple_identifier
exact_qualified_table-qualify [] table d t = ground arith
exact_qualified_table-qualify (c ∷ db) table d t = exact_of_IsExact _ (c ∷ db) table (refl, d, t)
