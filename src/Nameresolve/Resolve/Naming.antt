-- ===== src/Nameresolve/Resolve/Naming.antt =====
-- The physical table names of dynamic mode.
use rewriter_go.Prelude.{◌≡◌, ◌≢◌, [], ◌∷◌, ◌++◌, arith, all, eqb, not, true, List, if◌then◌else◌}
use rewriter_go.Prelude.Text.{Bytes, codes, ◌==◌}
use rewriter_go.Nameresolve.Request.{DynamicArgs}
use rewriter_go.Nameresolve.Resolve.{build_dynamic_table_name, build_dynamic_table_prefix}

append_cancel : (p s t : Bytes) → p ++ s ≡ p ++ t → s ≡ t
append_cancel [] s t h = h
append_cancel (c ∷ p) s t h = append_cancel p s t (cc)

-- The name of a table is the prefix of its logical database in front of the table.
pub build-prefix :
    (logical table : Bytes) (a : DynamicArgs)
    → table ≢ []
    → build_dynamic_table_name logical table a ≡ build_dynamic_table_prefix logical a ++ table
unfolding build_dynamic_table_name build_dynamic_table_prefix ◌==◌
build-prefix logical [] a h = ground arith
build-prefix logical (c ∷ table) a h = ground arith

-- What the extra arguments add: each behind the delimiter.
abbrev pub added : Bytes → List Bytes → Bytes
added delim [] = []
added delim (extra ∷ extras) = delim ++ (extra ++ added delim extras)

-- A text without a dot.
abbrev pub IsDotless : Bytes → Type 0
IsDotless [] = Unit
IsDotless (c ∷ s) = (c ≢ b'.') × IsDotless s

pub dotless_lem : (s : Bytes) → all (λ c. not (eqb c b'.')) s ≡ true → IsDotless s
dotless_lem [] h = tt
dotless_lem (c ∷ s) h = (λ e. ground arith, dotless_lem s (ground arith))

-- The name of a table: its logical database, the extra arguments, each behind the delimiter (an
-- underscore where none is set), a dot, and the table.
abbrev pub spelled_name : Bytes → Bytes → DynamicArgs → Bytes
spelled_name logical table a =
    (logical ++ added (if a.delim == [] then codes "_" else a.delim) a.extra_arguments)
    ++ (b'.' ∷ table)
