-- ===== src/Nameresolve/Hidden/Identifiers.antt =====
-- Which databases are hidden, in each mode.
use rewriter_go.Prelude.{
  ◌≡◌, refl, inl, inr, Bool, true, false, not, ◌&&◌, ◌||◌, List, [], ◌∷◌, Option, none, some, arith,
  if◌then◌else◌, Bool-cases, Option-cases, any,
}
use rewriter_go.Prelude.Text.{Bytes, ◌==◌, eq_iff, contains, cut_at}
use rewriter_go.Prelude.Dict.{Dict, keys, has_key, has_key-contains, any_value}
use rewriter_go.Prelude.Sort.{
  sort_strings, add_key, contains-add_key, contains-sort_strings, Distinct, add_key-Distinct,
  Ascending, sort_strings-Ascending,
}
use rewriter_go.Nameresolve.Request.{SiTable, StaticArgs, DynamicArgs, get_storage_integrity}
use rewriter_go.Nameresolve.Identifier.{
  dot, split_qualified, simple_identifier, exact_parts, exact_qualified_table,
}
use rewriter_go.Nameresolve.Contract.{storage_integrity_reserved_database}
use rewriter_go.Nameresolve.Namespaces.{
  names_database, hosts, is_storage_integrity_physical_database, protected_database,
}
use rewriter_go.Nameresolve.Selecting.{Selection, mode_none, mode_static, mode_dynamic}
use rewriter_go.Nameresolve.Hidden.{
  database_part, add_keys, values, table_parts, add_where, candidates, dynamic_physical,
  dynamic_visible, origin_parts, add_origins, static_visible, static_physical,
  with_database_targets, remote_targets, hidden_identifiers, hidden_names_of,
}

contains-nil : (k : Bytes) → contains k [] ≡ false
unfolding contains
contains-nil k = refl

contains-cons : (k x : Bytes) (xs : List Bytes) → contains k (x ∷ xs) ≡ (x == k || contains k xs)
unfolding contains
contains-cons k x xs = refl

contains-add_keys :
    (k : Bytes) (dbs seen : List Bytes)
    → contains k (add_keys dbs seen) ≡ (contains k dbs || contains k seen)
unfolding add_keys
contains-add_keys k [] seen = rw contains-nil refl
contains-add_keys k (db ∷ dbs) seen = ground (
  arith,
  contains-add_keys k dbs (add_key db seen),
  contains-add_key k db seen,
  contains-cons k db dbs,
)

contains-add_where :
    (p : Bytes → Bool) (k : Bytes) (dbs seen : List Bytes)
    → contains k (add_where p dbs seen) ≡ ((p k && contains k dbs) || contains k seen)
unfolding add_where
contains-add_where p k [] seen = ground (arith, contains-nil k)
contains-add_where p k (db ∷ dbs) seen = ground (
  arith,
  contains-add_where p k dbs (if p db then add_key db seen else seen),
  contains-add_key k db seen,
  contains-cons k db dbs,
  eq_iff db k,
)

add_where-Distinct :
    (p : Bytes → Bool) (dbs seen : List Bytes) → Distinct seen → Distinct (add_where p dbs seen)
unfolding add_where
add_where-Distinct p [] seen h = h
add_where-Distinct p (db ∷ dbs) seen h =
    add_where-Distinct p dbs (if p db then add_key db seen else seen)
      (elim (Bool-cases (p db)) [ inl e ↦ rw e (add_key-Distinct db seen h) | inr e ↦ rw e h ])

-- The hidden identifiers stand in strictly ascending order, in every mode.
pub hidden_identifiers-Ascending : (sel : Selection) → Ascending ((hidden_names_of sel).0)
unfolding hidden_names_of hidden_identifiers sort_strings add_where
hidden_identifiers-Ascending mode_none = tt
hidden_identifiers-Ascending (mode_dynamic a) =
    sort_strings-Ascending _ (add_where-Distinct _ (dynamic_physical a) [] tt)
hidden_identifiers-Ascending (mode_static a) =
    sort_strings-Ascending _ (add_where-Distinct _ (static_physical a) [] tt)

contains-hidden_identifiers :
    (k : Bytes) (physical visible : List Bytes)
    → contains k (hidden_identifiers physical visible)
      ≡ (not (k == []) && (not (contains k visible) && contains k physical))
unfolding hidden_identifiers
contains-hidden_identifiers k physical visible =
    let p : Bytes → Bool = λ db. not (db == []) && not (contains db visible) in
    ground (
      arith,
      contains-sort_strings k (add_where p physical []),
      contains-add_where p k physical [],
      contains-nil k,
    )

-- Every protected database is a candidate.
contains-values : (k : Bytes) (m : Dict Bytes) → any_value (λ p. p == k) m ≡ contains k (values m)
unfolding any_value values contains
contains-values k [] = refl
contains-values k ((_, v) ∷ m) = ground (arith, contains-values k m)

database_part_exact :
    (k s : Bytes) → names_database k (exact_qualified_table s) ≡ true → database_part s == k ≡ true
unfolding names_database exact_qualified_table exact_parts split_qualified database_part
    simple_identifier
database_part_exact k s h = elim (Option-cases (cut_at dot s)) [
  | inl uncut ↦ ground arith
  | inr ((db, table), found) ↦ ground arith
]

hosts-table_parts :
    (k : Bytes) (tables : Dict (Option SiTable))
    → any_value (hosts k) tables ≡ true
    → contains k (table_parts tables) ≡ true
unfolding any_value hosts table_parts contains
hosts-table_parts k [] h = ground arith
hosts-table_parts k ((_, none) ∷ tables) h = ground (arith, hosts-table_parts k tables)
hosts-table_parts k ((_, some tbl) ∷ tables) h = ground (
  arith,
  hosts-table_parts k tables,
  database_part_exact k tbl.safe_table,
  database_part_exact k tbl.unsafe_table,
)

protected_candidate :
    (k : Bytes) (a : DynamicArgs) → protected_database k a ≡ true → contains k (candidates a) ≡ true
unfolding protected_database is_storage_integrity_physical_database
    storage_integrity_reserved_database candidates
protected_candidate k a h =
    let si = get_storage_integrity a in
    let protecteds = add_keys a.protected_databases [] in
    let mapped = add_keys (values a.database_map) protecteds in
    let reserved = add_keys si.reserved_databases mapped in
    ground (
      arith,
      contains-add_keys k (table_parts si.tables) reserved,
      contains-add_keys k si.reserved_databases mapped,
      contains-add_keys k (values a.database_map) protecteds,
      contains-add_keys k a.protected_databases [],
      contains-values k a.database_map,
      hosts-table_parts k si.tables,
    )

protected_nonempty : (a : DynamicArgs) → protected_database [] a ≡ false
unfolding protected_database ◌==◌
protected_nonempty a = refl

contains-dynamic_physical :
    (k : Bytes) (a : DynamicArgs) → contains k (dynamic_physical a) ≡ protected_database k a
unfolding dynamic_physical
contains-dynamic_physical k a = ground (
  arith,
  contains-add_where (λ db. protected_database db a) k (candidates a) [],
  contains-nil k,
  protected_candidate k a,
)

contains-dynamic_visible :
    (k : Bytes) (a : DynamicArgs)
    → protected_database k a ≡ true
    → contains k (dynamic_visible a)
      ≡ (a.upstream_logical_database_in_context == k || has_key k a.database_map)
unfolding dynamic_visible
contains-dynamic_visible k a h =
    let visible = add_keys (keys a.database_map) [] in
    let p : Bytes → Bool = λ db. not (contains db (dynamic_physical a)) in
    let ctx = a.upstream_logical_database_in_context in
    ground (
      arith,
      contains-add_key k ctx (add_where p a.known_physical_databases visible),
      contains-add_where p k a.known_physical_databases visible,
      contains-add_keys k (keys a.database_map) [],
      contains-nil k,
      contains-dynamic_physical k a,
      has_key-contains k a.database_map,
      eq_iff ctx [],
      eq_iff ctx k,
      protected_nonempty a,
    )

-- In dynamic mode the hidden identifiers are exactly the protected databases that the caller has no
-- name for: neither a logical database of the map nor the session's logical database.
pub hidden_identifiers_dynamic :
    (k : Bytes) (a : DynamicArgs)
    → contains k ((hidden_names_of (mode_dynamic a)).0) ≡ (
        protected_database k a
        && not (a.upstream_logical_database_in_context == k || has_key k a.database_map))
unfolding hidden_names_of
hidden_identifiers_dynamic k a = ground (
  arith,
  contains-hidden_identifiers k (dynamic_physical a) (dynamic_visible a),
  contains-dynamic_physical k a,
  contains-dynamic_visible k a,
  eq_iff k [],
  protected_nonempty a,
)

-- An origin makes the database in front of its first dot visible.
abbrev pub origin_names : Bytes → List Bytes → Bool
origin_names k names = any (λ name. database_part name == k) names

contains-origin_parts :
    (k : Bytes) (names : List Bytes) → contains k (origin_parts names) ≡ origin_names k names
unfolding contains origin_parts
contains-origin_parts k [] = refl
contains-origin_parts k (name ∷ names) = ground (arith, contains-origin_parts k names)

contains-add_origins :
    (k : Bytes) (names seen : List Bytes)
    → contains k (add_origins names seen)
      ≡ ((not (k == []) && origin_names k names) || contains k seen)
unfolding add_origins
contains-add_origins k names seen = ground (
  arith,
  contains-add_where (λ db. not (db == [])) k (origin_parts names) seen,
  contains-origin_parts k names,
)

-- In static mode the hidden identifiers are exactly the target databases of table_with_database_map and
-- remote_table_map that no origin of the three maps names.
pub hidden_identifiers_static :
    (k : Bytes) (a : StaticArgs)
    → contains k ((hidden_names_of (mode_static a)).0) ≡ (
        not (k == [])
        && ((contains k (with_database_targets a.table_with_database_map)
              || contains k (remote_targets a.remote_table_map))
            && not (
                origin_names k (keys a.table_map)
                || (origin_names k (keys a.table_with_database_map)
                    || origin_names k (keys a.remote_table_map)))))
unfolding hidden_names_of static_physical static_visible
hidden_identifiers_static k a =
    let targets = add_keys (with_database_targets a.table_with_database_map) [] in
    let seen = add_origins (keys a.table_map) [] in
    let seen' = add_origins (keys a.table_with_database_map) seen in
    ground (
      arith,
      contains-hidden_identifiers k (static_physical a) (static_visible a),
      contains-add_keys k (remote_targets a.remote_table_map) targets,
      contains-add_keys k (with_database_targets a.table_with_database_map) [],
      contains-add_origins k (keys a.remote_table_map) seen',
      contains-add_origins k (keys a.table_with_database_map) seen,
      contains-add_origins k (keys a.table_map) [],
      contains-nil k,
    )
