-- ===== src/Nameresolve/Integrity/Laws.antt =====
-- When a target is a protocol-owned physical table, and when a logical one.
use rewriter_go.Prelude.{◌≡◌, refl, not, ◌&&◌, [], ◌∷◌, Option, arith, is_some}
use rewriter_go.Prelude.Text.{Bytes, ◌==◌}
use rewriter_go.Prelude.Dict.{Dict, any_value}
use rewriter_go.Nameresolve.Request.{SiTable, DynamicArgs, get_storage_integrity}
use rewriter_go.Nameresolve.Namespaces.{hosts, is_storage_integrity_physical_database}
use rewriter_go.Nameresolve.Integrity.{
  context_database, first_host, lookup_storage_integrity_physical,
}

first_host_some :
    (db : Bytes) (tables : Dict (Option SiTable))
    → is_some (first_host db tables) ≡ any_value (hosts db) tables
unfolding first_host any_value
first_host_some db [] = refl
first_host_some db ((key, tbl) ∷ tables) = ground (arith, first_host_some db tables)

-- A target is taken for a protocol-owned physical table exactly when it names a table and its
-- database, the session's where it names none, is a protocol-owned one. Which entry is met first
-- does not matter.
pub lookup_storage_integrity_physical_some :
    (db table : Bytes) (a : DynamicArgs)
    → is_some (lookup_storage_integrity_physical db table a)
      ≡ (not (table == []) && is_storage_integrity_physical_database (context_database db a) a)
unfolding lookup_storage_integrity_physical is_storage_integrity_physical_database
lookup_storage_integrity_physical_some db table a =
    ground (arith, first_host_some (context_database db a) (get_storage_integrity a).tables)
