-- ===== src/Nameresolve/Validate/Verdict.antt =====
-- When validation accepts a request, as one test that does not depend on the order of the checks.
use rewriter_go.Prelude.{
  ◌≡◌, refl, ◌∙◌, Bool, true, false, not, ◌&&◌, ◌||◌, List, [], ◌∷◌, Option, none, some, arith, inl,
  inr, if◌then◌else◌, is_some, all, Option-cases,
}
use rewriter_go.Prelude.Text.{Bytes, ◌==◌, eq_iff, count_byte}
use rewriter_go.Prelude.Dict.{Dict, keys}
use rewriter_go.Prelude.Sort.{sort_strings, all-sort_strings}
use rewriter_go.Nameresolve.Request.{SiTable, StorageIntegrity, DynamicArgs, is_v2}
use rewriter_go.Nameresolve.Identifier.{simple_identifier, exact_qualified_table}
use rewriter_go.Nameresolve.Validate.{
  ConfigError, read_mode_known, check_table, entry_at, check_key, first_error, check_reserved,
  validate_storage_integrity, metadata_database, check_protected, physical_at, check_mapping,
  validate_protected_databases,
}

abbrev pub is_none : Option ConfigError → Bool
is_none none = true
is_none (some _) = false

first_error_none :
    (check : Bytes → Option ConfigError) (xs : List Bytes)
    → is_none (first_error check xs) ≡ all (λ x. is_none (check x)) xs
unfolding first_error
first_error_none check [] = refl
first_error_none check (x ∷ xs) = ground (arith, first_error_none check xs)

all_congr : (p q : Bytes → Bool) (xs : List Bytes) → ((x : Bytes) → p x ≡ q x) → all p xs ≡ all q xs
all_congr p q [] h = refl
all_congr p q (x ∷ xs) h = ground (arith, h x, all_congr p q xs h)

-- A configured table: not nil, and both names of the shape `<database>.<table>`.
abbrev pub table_ok : Option SiTable → Bool
table_ok none = false
table_ok (some tbl) =
    is_some (exact_qualified_table tbl.safe_table)
    && is_some (exact_qualified_table tbl.unsafe_table)

abbrev pub key_ok : Dict (Option SiTable) → Bytes → Bool
key_ok tables key = is_some (exact_qualified_table key) && table_ok (entry_at key tables)

exact-nil : is_some (exact_qualified_table []) ≡ false
unfolding exact_qualified_table count_byte
exact-nil = refl

check_table_none : (key : Bytes) (o : Option SiTable) → is_none (check_table key o) ≡ table_ok o
unfolding check_table
check_table_none key none = refl
check_table_none key (some tbl) =
    ground (arith, eq_iff tbl.safe_table [], eq_iff tbl.unsafe_table [], exact-nil)

check_key_none :
    (tables : Dict (Option SiTable)) (key : Bytes)
    → is_none (check_key tables key) ≡ key_ok tables key
unfolding check_key
check_key_none tables key = ground (arith, check_table_none key (entry_at key tables))

reserved_none : (db : Bytes) → is_none (check_reserved db) ≡ simple_identifier db
unfolding check_reserved
reserved_none db = ground arith

protected_none : (db : Bytes) → is_none (check_protected db) ≡ simple_identifier db
unfolding check_protected
protected_none db = ground arith

mapping_none :
    (databases : Dict Bytes) (logical : Bytes)
    → is_none (check_mapping databases logical)
      ≡ not (metadata_database (physical_at logical databases))
unfolding check_mapping
mapping_none databases logical = ground arith

-- A loop over checks accepts when each of them does, in whatever order.
loop_accepts :
    (check : Bytes → Option ConfigError) (p : Bytes → Bool) (xs : List Bytes)
    → ((x : Bytes) → is_none (check x) ≡ p x)
    → is_none (first_error check xs) ≡ all p xs
loop_accepts check p xs h = first_error_none check xs ∙ all_congr (λ x. is_none (check x)) p xs h

sorted_loop_accepts :
    (check : Bytes → Option ConfigError) (p : Bytes → Bool) (xs : List Bytes)
    → ((x : Bytes) → is_none (check x) ≡ p x)
    → is_none (first_error check (sort_strings xs)) ≡ all p xs
sorted_loop_accepts check p xs h = loop_accepts check p (sort_strings xs) h ∙ all-sort_strings p xs

-- A configuration that the surface can serve: a row-id column that is unset or an identifier, a known
-- read mode, tables with well-shaped keys and names, and, in V2, identifiers as reserved databases.
abbrev pub integrity_ok : StorageIntegrity → Bool
integrity_ok si =
    (si.reserved_row_id_column == [] || simple_identifier si.reserved_row_id_column)
    && (read_mode_known si.read_mode
        && (all (key_ok si.tables) (keys si.tables)
            && (if is_v2 si.contract_version
                then all simple_identifier si.reserved_databases
                else true)))

-- Validation of the storage-integrity arguments accepts exactly where they are absent or such a
-- configuration.
pub validate_storage_integrity_accepts :
    (a : DynamicArgs)
    → is_none (validate_storage_integrity a)
      ≡ (elim a.storage_integrity [ none ↦ true | some si ↦ integrity_ok si ])
unfolding validate_storage_integrity
validate_storage_integrity_accepts a = elim (Option-cases a.storage_integrity) [
  | inl absent ↦ ground arith
  | inr (si, given) ↦ ground (
    arith,
    sorted_loop_accepts (check_key si.tables) (key_ok si.tables) (keys si.tables)
        (check_key_none si.tables),
    loop_accepts check_reserved simple_identifier si.reserved_databases reserved_none,
  )
]

-- Validation of the protected databases accepts exactly where each is an identifier and no logical
-- database is mapped to a metadata database of ClickHouse.
pub validate_protected_databases_accepts :
    (a : DynamicArgs)
    → is_none (validate_protected_databases a) ≡ (
        all simple_identifier a.protected_databases
        && all
            (λ logical. not (metadata_database (physical_at logical a.database_map)))
            (keys a.database_map))
unfolding validate_protected_databases
validate_protected_databases_accepts a = ground (
  arith,
  loop_accepts check_protected simple_identifier a.protected_databases protected_none,
  sorted_loop_accepts (check_mapping a.database_map)
      (λ logical. not (metadata_database (physical_at logical a.database_map)))
      (keys a.database_map) (mapping_none a.database_map),
)
