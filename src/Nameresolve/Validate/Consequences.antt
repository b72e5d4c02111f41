-- ===== src/Nameresolve/Validate/Consequences.antt =====
-- What an accepted configuration guarantees to the rest of the policy.
use rewriter_go.Prelude.{
  ◌≡◌, refl, ◌⊎◌, inl, inr, true, false, not, [], ◌∷◌, Option, none, some, arith, is_some, all,
  Option-cases,
}
use rewriter_go.Prelude.Text.{Bytes, ◌==◌, eq_refl, contains}
use rewriter_go.Prelude.Dict.{Dict, lookup, has_key, keys, has_key-contains, any_value-lookup}
use rewriter_go.Prelude.Sort.{all_of_contains}
use rewriter_go.Nameresolve.Request.{SiTable, StorageIntegrity, DynamicArgs}
use rewriter_go.Nameresolve.Identifier.{simple_identifier, exact_qualified_table}
use rewriter_go.Nameresolve.Identifier.Shape.{exact_qualified_table_iff}
use rewriter_go.Nameresolve.Namespaces.{
  names_database, hosts, is_storage_integrity_physical_database, protected_database,
}
use rewriter_go.Nameresolve.Resolve.{resolve_physical_database}
use rewriter_go.Nameresolve.Resolve.Routing.{known_physical-some}
use rewriter_go.Nameresolve.Validate.{
  validate_storage_integrity, metadata_database, physical_at, validate_protected_databases,
}
use rewriter_go.Nameresolve.Validate.Verdict.{
  table_ok, key_ok, validate_storage_integrity_accepts, validate_protected_databases_accepts,
}

looked_up_key :
    {V : Type 0} (key : Bytes) (m : Dict V) {v : V}
    → lookup key m ≡ some v
    → contains key (keys m) ≡ true
unfolding has_key
looked_up_key key m h = ground (arith, has_key-contains key m)

-- The table under a key of an accepted configuration is well shaped.
entry_ok :
    (a : DynamicArgs) (si : StorageIntegrity) (key : Bytes) (entry : Option SiTable)
    → validate_storage_integrity a ≡ none
    → a.storage_integrity ≡ some si
    → lookup key si.tables ≡ some entry
    → table_ok entry ≡ true
entry_ok a si key entry valid given found =
    let checked : all (key_ok si.tables) (keys si.tables) ≡ true =
      ground (arith, validate_storage_integrity_accepts a) in
    let here : key_ok si.tables key ≡ true =
      all_of_contains (key_ok si.tables) key (keys si.tables) checked
        (looked_up_key key si.tables found) in
    ground arith

exact-ne-nil : (s db table : Bytes) → exact_qualified_table s ≡ some (db, table) → db == [] ≡ false
unfolding simple_identifier ◌==◌
exact-ne-nil s [] table h = ground (arith, (exact_qualified_table_iff s [] table).0 h)
exact-ne-nil s (c ∷ db) table h = refl

-- A database that hosts a configured table is protected.
host_protected :
    (a : DynamicArgs) (si : StorageIntegrity) (key db : Bytes) (tbl : SiTable)
    → a.storage_integrity ≡ some si
    → lookup key si.tables ≡ some (some tbl)
    → hosts db (some tbl) ≡ true
    → db == [] ≡ false
    → protected_database db a ≡ true
unfolding protected_database is_storage_integrity_physical_database
host_protected a si key db tbl given found hosted nonempty =
    ground (arith, any_value-lookup (hosts db) key si.tables found hosted)

abbrev pub IsProtectedName : DynamicArgs → Bytes → Type 0
IsProtectedName a name =
    (db : Bytes) × (table : Bytes) × (exact_qualified_table name ≡ some (db, table))
    × (protected_database db a ≡ true)

side_protected :
    (a : DynamicArgs) (si : StorageIntegrity) (key name : Bytes) (tbl : SiTable)
    → a.storage_integrity ≡ some si
    → lookup key si.tables ≡ some (some tbl)
    → is_some (exact_qualified_table name) ≡ true
    → ((db : Bytes)
        → names_database db (exact_qualified_table name) ≡ true
        → hosts db (some tbl) ≡ true)
    → IsProtectedName a name
unfolding names_database
side_protected a si key name tbl given found shaped side =
    elim (Option-cases (exact_qualified_table name)) [
      | inl unshaped ↦ absurd (ground arith)
      | inr ((db, table), e) ↦ (
        db,
        table,
        e,
        host_protected a si key db tbl given found (side db (rw e (eq_refl db)))
            (exact-ne-nil name db table e),
      )
    ]

-- Under an accepted configuration both physical names of every configured table, the safe and the
-- unsafe one, lie in a protected database: caller SQL can name neither.
pub validate_storage_integrity_protects :
    (a : DynamicArgs) (si : StorageIntegrity) (key : Bytes) (entry : Option SiTable)
    → validate_storage_integrity a ≡ none
    → a.storage_integrity ≡ some si
    → lookup key si.tables ≡ some entry
    → (tbl : SiTable) × (entry ≡ some tbl)
      × IsProtectedName a tbl.safe_table
      × IsProtectedName a tbl.unsafe_table
unfolding hosts
validate_storage_integrity_protects a si key none valid given found =
    absurd (ground (arith, entry_ok a si key none valid given found))
validate_storage_integrity_protects a si key (some tbl) valid given found =
    let shaped = entry_ok a si key (some tbl) valid given found in
    (
      tbl,
      refl,
      side_protected a si key tbl.safe_table tbl given found (ground arith) (λ db h. ground arith),
      side_protected a si key tbl.unsafe_table tbl given found (ground arith)
          (λ db h. ground arith),
    )

-- Under accepted protected databases no logical database resolves to a metadata database, unless it
-- is itself a listed known-physical database of that name.
pub validate_protected_databases_metadata :
    (a : DynamicArgs) (logical p : Bytes)
    → validate_protected_databases a ≡ none
    → resolve_physical_database logical a ≡ some p
    → (metadata_database p ≡ false)
      ⊎ ((p ≡ logical) × (contains logical a.known_physical_databases ≡ true))
unfolding resolve_physical_database
validate_protected_databases_metadata a logical p valid resolved =
    elim (Option-cases (lookup logical a.database_map)) [
      | inl unmapped ↦
          let (same, listed, _) =
            known_physical-some logical a.known_physical_databases a p (ground arith) in
          inr (same, listed)
      | inr (q, mapped) ↦
          let free : not (metadata_database (physical_at logical a.database_map)) ≡ true =
            all_of_contains (λ l. not (metadata_database (physical_at l a.database_map))) logical
              (keys a.database_map) (ground (arith, validate_protected_databases_accepts a))
              (looked_up_key logical a.database_map mapped) in
          inl (ground arith)
    ]
