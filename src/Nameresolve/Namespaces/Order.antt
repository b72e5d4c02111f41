-- ===== src/Nameresolve/Namespaces/Order.antt =====
-- The order in which `range` meets the entries of a Go map is unspecified: it does not reach the
-- answers of the namespace tests.
use mathlib.Core.List.{Perm}
use rewriter_go.Prelude.{◌≡◌, ◌∙◌, sym, Option, some, arith}
use rewriter_go.Prelude.Text.{Bytes, ◌==◌}
use rewriter_go.Prelude.Dict.{Dict, any_value, any-perm}
use rewriter_go.Prelude.Sort.{Ascending-ext}
use rewriter_go.Nameresolve.Request.{SiTable, StorageIntegrity, DynamicArgs}
use rewriter_go.Nameresolve.Contract.{storage_integrity_reserved_database}
use rewriter_go.Nameresolve.Namespaces.{
  hosts, is_storage_integrity_physical_database, protected_database,
  storage_integrity_physical_databases,
}
use rewriter_go.Nameresolve.Namespaces.Listing.{
  contains-storage_integrity_physical_databases, storage_integrity_physical_databases-Ascending,
}

-- The request with its maps met in another order.
abbrev pub reordered :
    DynamicArgs → Dict Bytes → StorageIntegrity → Dict (Option SiTable) → DynamicArgs
reordered a databases si tables = record a {
  database_map = databases;
  storage_integrity = some (record si { tables = tables });
}

module _ (a : DynamicArgs) (si : StorageIntegrity) (databases : Dict Bytes)
    (tables : Dict (Option SiTable)) (configured : a.storage_integrity ≡ some si)
    (same_databases : Perm a.database_map databases) (same_tables : Perm si.tables tables) where
  physical_reordered :
      (db : Bytes)
      → is_storage_integrity_physical_database db (reordered a databases si tables)
        ≡ is_storage_integrity_physical_database db a
  unfolding is_storage_integrity_physical_database storage_integrity_reserved_database any_value
  physical_reordered db =
      ground (arith, any-perm (λ (e : Bytes × Option SiTable). hosts db (e.1)) same_tables)

  -- Whether a database is protected does not depend on the order of the maps.
  pub protected_database-reordered :
      (db : Bytes)
      → protected_database db (reordered a databases si tables) ≡ protected_database db a
  unfolding protected_database any_value
  protected_database-reordered db =
      ground
        (arith, physical_reordered db, any-perm (λ (e : Bytes × Bytes). e.1 == db) same_databases)

  -- The sorted list of protocol-owned databases does not depend on the order of the maps.
  pub storage_integrity_physical_databases-reordered :
      storage_integrity_physical_databases (reordered a databases si tables)
      ≡ storage_integrity_physical_databases a
  storage_integrity_physical_databases-reordered =
      let b = reordered a databases si tables in
      Ascending-ext (storage_integrity_physical_databases b)
        (storage_integrity_physical_databases a) (storage_integrity_physical_databases-Ascending b)
        (storage_integrity_physical_databases-Ascending a)
        (λ k.
          contains-storage_integrity_physical_databases k b
          ∙ physical_reordered k
          ∙ sym (contains-storage_integrity_physical_databases k a))
