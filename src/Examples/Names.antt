-- ===== src/Examples/Names.antt =====
-- Names, shapes and messages, and their quoting.
use rewriter_go.Prelude.{[], refl, some, true, ◌↔◌, ◌∷◌, ◌≡◌}
use rewriter_go.Nameescape.{
  closed, decode_quoted_identifier, hex, named, quote_byte, quote_bytes, quote_identifier_sql,
}
use rewriter_go.Nameescape.RoundTrip.{decode_quoted_identifier-quote_identifier_sql}
use rewriter_go.Nameresolve.Identifier.{
  alpha, digit, exact_qualified_table, simple_from, simple_identifier,
}
use rewriter_go.Nameresolve.Identifier.Shape.{IsExact, exact_qualified_table_iff}
use rewriter_go.Prelude.Text.{Bytes, codes}

db1-simple : simple_identifier (codes "db1") ≡ true
unfolding simple_identifier simple_from alpha digit
db1-simple = refl

t-simple : simple_identifier (codes "t") ≡ true
unfolding simple_identifier simple_from alpha digit
t-simple = refl

exact_qualified_table_iff_example :
    (exact_qualified_table (codes "db1.t") ≡ some (codes "db1", codes "t"))
    ↔ IsExact (codes "db1.t") (codes "db1") (codes "t")
exact_qualified_table_iff_example =
    exact_qualified_table_iff (codes "db1.t") (codes "db1") (codes "t")

-- A name with a backtick, a backslash and a line feed, and its spelling.
abbrev odd_name : Bytes
odd_name = b'a' ∷ b'`' ∷ b'b' ∷ b'\\' ∷ b'c' ∷ 10 ∷ b'd' ∷ []

odd_name-quoted : quote_identifier_sql odd_name ≡ codes "`a``b\\\\c\\x0Ad`"
unfolding quote_identifier_sql quote_bytes quote_byte hex
odd_name-quoted = refl

decode_quoted_identifier-quote_identifier_sql_example :
    decode_quoted_identifier (λ b. true) (quote_identifier_sql odd_name)
    ≡ named (closed (λ b. true) odd_name)
decode_quoted_identifier-quote_identifier_sql_example =
    decode_quoted_identifier-quote_identifier_sql (λ b. true) odd_name
