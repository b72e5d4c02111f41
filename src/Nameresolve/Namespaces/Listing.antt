-- ===== src/Nameresolve/Namespaces/Listing.antt =====
-- The list of protocol-owned databases against the test for one of them.
use rewriter_go.Prelude.{
  ◌≡◌, refl, inl, inr, false, ◌&&◌, ◌||◌, List, [], ◌∷◌, Option, none, some, arith, any,
  if◌then◌else◌, Bool-cases, Option-cases,
}
use rewriter_go.Prelude.Text.{Bytes, ◌==◌, contains, eq_iff}
use rewriter_go.Prelude.Dict.{Dict, any_value}
use rewriter_go.Prelude.Sort.{
  add_key, contains-add_key, contains-sort_strings, Distinct, Ascending, add_key-Distinct,
  sort_strings-Ascending,
}
use rewriter_go.Nameresolve.Request.{SiTable, DynamicArgs, get_storage_integrity}
use rewriter_go.Nameresolve.Identifier.{exact_qualified_table, simple_identifier}
use rewriter_go.Nameresolve.Identifier.Shape.{exact_qualified_table_iff}
use rewriter_go.Nameresolve.Contract.{storage_integrity_reserved_database}
use rewriter_go.Nameresolve.Namespaces.{
  names_database, sides, hosts, is_storage_integrity_physical_database, see_physical, see_sides,
  see_tables, see_reserved, storage_integrity_physical_databases,
}

contains-nil : (k : Bytes) → contains k [] ≡ false
unfolding contains
contains-nil k = refl

contains-see_physical :
    (k : Bytes) (seen : List Bytes) (o : Option (Bytes × Bytes))
    → contains k (see_physical seen o) ≡ (names_database k o || contains k seen)
unfolding see_physical names_database
contains-see_physical k seen none = refl
contains-see_physical k seen (some (db, _)) = contains-add_key k db seen

contains-see_sides :
    (k : Bytes) (names seen : List Bytes)
    → contains k (see_sides names seen)
      ≡ (any (λ p. names_database k (exact_qualified_table p)) names || contains k seen)
unfolding see_sides
contains-see_sides k [] seen = refl
contains-see_sides k (p ∷ names) seen = ground (
  arith,
  contains-see_sides k names (see_physical seen (exact_qualified_table p)),
  contains-see_physical k seen (exact_qualified_table p),
)

contains-see_tables :
    (k : Bytes) (tables : Dict (Option SiTable)) (seen : List Bytes)
    → contains k (see_tables tables seen) ≡ (any_value (hosts k) tables || contains k seen)
unfolding see_tables any_value hosts
contains-see_tables k [] seen = refl
contains-see_tables k ((_, none) ∷ tables) seen = contains-see_tables k tables seen
contains-see_tables k ((_, some tbl) ∷ tables) seen = ground (
  arith,
  contains-see_tables k tables (see_sides (sides tbl) seen),
  contains-see_sides k (sides tbl) seen,
)

contains-see_reserved :
    (a : DynamicArgs) (k : Bytes) (dbs seen : List Bytes)
    → contains k (see_reserved a dbs seen)
      ≡ ((storage_integrity_reserved_database k a && contains k dbs) || contains k seen)
unfolding see_reserved contains
contains-see_reserved a k [] seen = ground arith
contains-see_reserved a k (db ∷ dbs) seen =
    let added = if storage_integrity_reserved_database db a then add_key db seen else seen in
    ground (arith, contains-see_reserved a k dbs added, contains-add_key k db seen, eq_iff db k)

-- No physical name of the exact shape has the empty database.
names_database-nil : (s : Bytes) → names_database [] (exact_qualified_table s) ≡ false
unfolding names_database simple_identifier ◌==◌
names_database-nil s = elim (Option-cases (exact_qualified_table s)) [
  | inl none_there ↦ rw none_there refl
  | inr (([], table), found) ↦ ground (arith, (exact_qualified_table_iff s [] table).0 found)
  | inr ((c ∷ db, table), found) ↦ rw found refl
]

hosts-nil : (o : Option SiTable) → hosts [] o ≡ false
unfolding hosts
hosts-nil none = refl
hosts-nil (some tbl) =
    ground (arith, names_database-nil tbl.safe_table, names_database-nil tbl.unsafe_table)

any_hosts-nil : (tables : Dict (Option SiTable)) → any_value (hosts []) tables ≡ false
unfolding any_value
any_hosts-nil [] = refl
any_hosts-nil ((_, o) ∷ tables) = ground (arith, hosts-nil o, any_hosts-nil tables)

reserved-listed :
    (k : Bytes) (a : DynamicArgs)
    → (storage_integrity_reserved_database k a
        && contains k (get_storage_integrity a).reserved_databases)
      ≡ storage_integrity_reserved_database k a
unfolding storage_integrity_reserved_database
reserved-listed k a = ground arith

reserved-nil : (a : DynamicArgs) → storage_integrity_reserved_database [] a ≡ false
unfolding storage_integrity_reserved_database ◌==◌
reserved-nil a = refl

-- The list names a database exactly when the test `IsStorageIntegrityPhysicalDatabase` accepts it.
pub contains-storage_integrity_physical_databases :
    (k : Bytes) (a : DynamicArgs)
    → contains k (storage_integrity_physical_databases a)
      ≡ is_storage_integrity_physical_database k a
unfolding storage_integrity_physical_databases is_storage_integrity_physical_database
contains-storage_integrity_physical_databases k a =
    let si = get_storage_integrity a in
    let seen = see_tables si.tables [] in
    let all_seen = see_reserved a si.reserved_databases seen in
    ground (
      arith,
      contains-sort_strings k all_seen,
      contains-see_reserved a k si.reserved_databases seen,
      contains-see_tables k si.tables [],
      contains-nil k,
      reserved-listed k a,
      eq_iff k [],
      any_hosts-nil si.tables,
      reserved-nil a,
    )

see_physical-Distinct :
    (seen : List Bytes) (o : Option (Bytes × Bytes))
    → Distinct seen
    → Distinct (see_physical seen o)
unfolding see_physical
see_physical-Distinct seen none h = h
see_physical-Distinct seen (some (db, _)) h = add_key-Distinct db seen h

see_sides-Distinct : (names seen : List Bytes) → Distinct seen → Distinct (see_sides names seen)
unfolding see_sides see_physical
see_sides-Distinct [] seen h = h
see_sides-Distinct (p ∷ names) seen h =
    see_sides-Distinct names (see_physical seen (exact_qualified_table p))
      (see_physical-Distinct seen (exact_qualified_table p) h)

see_tables-Distinct :
    (tables : Dict (Option SiTable)) (seen : List Bytes)
    → Distinct seen
    → Distinct (see_tables tables seen)
unfolding see_tables
see_tables-Distinct [] seen h = h
see_tables-Distinct ((_, none) ∷ tables) seen h = see_tables-Distinct tables seen h
see_tables-Distinct ((_, some tbl) ∷ tables) seen h =
    see_tables-Distinct tables (see_sides (sides tbl) seen) (see_sides-Distinct (sides tbl) seen h)

see_reserved-Distinct :
    (a : DynamicArgs) (dbs seen : List Bytes) → Distinct seen → Distinct (see_reserved a dbs seen)
unfolding see_reserved
see_reserved-Distinct a [] seen h = h
see_reserved-Distinct a (db ∷ dbs) seen h =
    see_reserved-Distinct a dbs
      (if storage_integrity_reserved_database db a then add_key db seen else seen)
      (elim (Bool-cases (storage_integrity_reserved_database db a)) [
        | inl e ↦ rw e (add_key-Distinct db seen h)
        | inr e ↦ rw e h
      ])

-- The list is in strictly ascending order, so no database stands in it twice.
pub storage_integrity_physical_databases-Ascending :
    (a : DynamicArgs) → Ascending (storage_integrity_physical_databases a)
unfolding storage_integrity_physical_databases
storage_integrity_physical_databases-Ascending a =
    let si = get_storage_integrity a in
    sort_strings-Ascending (see_reserved a si.reserved_databases (see_tables si.tables [])) (
      see_reserved-Distinct a si.reserved_databases (see_tables si.tables [])
        (see_tables-Distinct si.tables [] tt))
