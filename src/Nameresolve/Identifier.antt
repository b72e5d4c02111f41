-- ===== src/Nameresolve/Identifier.antt =====
-- resolve.go: `qualify`, `splitQualified`, `exactQualifiedTable`, `simpleIdentifier`.
pub mod Shape
use rewriter_go.Prelude.{
  ℕ, ◌+◌, Bool, true, false, not, ◌&&◌, ◌||◌, List, [], ◌∷◌, ◌++◌, Option, none, some, ltb, leb,
  eqb, if◌then◌else◌, or_default,
}
use rewriter_go.Prelude.Text.{Bytes, cut_at, count_byte}

abbrev pub dot : ℕ
dot = b'.'

unfoldable pub qualify : Bytes → Bytes → Bytes
qualify [] table = table
qualify (c ∷ db) table = (c ∷ db) ++ (dot ∷ table)

unfoldable pub split_qualified : Bytes → Bytes × Bytes
split_qualified name = or_default (cut_at dot name) ([], name)

unfoldable pub alpha : ℕ → Bool
alpha r = eqb r b'_' || (leb b'a' r && leb r b'z') || (leb b'A' r && leb r b'Z')

unfoldable pub digit : ℕ → Bool
digit r = leb b'0' r && leb r b'9'

-- The loop of `simpleIdentifier`. It ranges over runes; a rune outside ASCII fails both tests, and
-- so does each of its bytes.
unfoldable pub simple_from : ℕ → Bytes → Bool
simple_from i [] = true
simple_from i (r ∷ s) =
    if not (alpha r) && not (ltb 0 i && digit r) then false else simple_from (i + 1) s

unfoldable pub simple_identifier : Bytes → Bool
simple_identifier [] = false
simple_identifier (r ∷ s) = simple_from 0 (r ∷ s)

-- The parts that `exactQualifiedTable` returns with ok = true.
unfoldable pub exact_parts : Bytes × Bytes → Option (Bytes × Bytes)
exact_parts (db, table) =
    if simple_identifier db && simple_identifier table then some (db, table) else none

unfoldable pub exact_qualified_table : Bytes → Option (Bytes × Bytes)
exact_qualified_table s =
    if not (eqb (count_byte dot s) 1) then none else exact_parts (split_qualified s)
