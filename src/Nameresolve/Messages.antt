-- ===== src/Nameresolve/Messages.antt =====
-- The messages of internal/nameresolve: resolve.go, protected.go, contract.go, systemtables.go.
pub mod Unqualified
use rewriter_go.Prelude.{ℕ, ◌+◌, Bool, ◌&&◌, ◌++◌, length, leb}
use rewriter_go.Prelude.Text.{Bytes, codes, has_prefix, has_suffix}

unfoldable pub storage_integrity_write_reject_message : Bytes → Bytes
storage_integrity_write_reject_message key =
    codes "storage-integrity table "
    ++ (key ++ codes " accepts writes only through the signed statement lane")

unfoldable pub storage_integrity_unauthorized_message : Bytes → Bytes
storage_integrity_unauthorized_message logical =
    codes "storage-integrity logical database "
    ++ (logical ++ codes " is not authorized by database_map")

unfoldable pub storage_integrity_physical_reject_message : Bytes → Bytes
storage_integrity_physical_reject_message physical =
    codes "storage-integrity physical table " ++ (physical ++ codes " is not directly addressable")

unfoldable pub storage_integrity_physical_database_reject_message : Bytes → Bytes
storage_integrity_physical_database_reject_message physical =
    codes "storage-integrity physical database "
    ++ (physical ++ codes " is not directly addressable")

unfoldable pub storage_integrity_logical_database_reject_message : Bytes → Bytes
storage_integrity_logical_database_reject_message logical =
    codes "storage-integrity logical database " ++ (logical ++ codes " is not directly addressable")

unfoldable pub storage_integrity_table_function_namespace_reject_message : Bytes → Bytes
storage_integrity_table_function_namespace_reject_message physical =
    codes "storage-integrity table function namespace "
    ++ (physical ++ codes " is not directly addressable")

unfoldable pub storage_integrity_unresolved_table_function_namespace_reject_message : Bytes
storage_integrity_unresolved_table_function_namespace_reject_message =
    codes "storage-integrity table function namespace is not statically resolvable"

unfoldable pub protected_database_reject_message : Bytes → Bytes
protected_database_reject_message db =
    codes "protected database " ++ (db ++ codes " is not addressable")

unfoldable pub system_table_refused_message : Bytes → Bytes
system_table_refused_message table =
    codes "system table "
    ++ (codes "system" ++ (codes "." ++ (table ++ codes " is not accessible")))

-- The reasons of `ApplyDynamic`.
unfoldable pub no_context_reason : Bytes
no_context_reason = codes "unqualified target and no upstream_logical_database_in_context"

unfoldable pub unknown_database_reason : Bytes → Bytes
unknown_database_reason logical =
    codes "logical db "
    ++ (logical ++ codes " not in database_map and not a known physical database")

unfoldable pub unknown_upstream_reason : Bytes → Bytes
unknown_upstream_reason key =
    codes "remote upstream key " ++ (key ++ codes " not in remote_upstreams")

unfoldable pub unresolved_unqualified_prefix : Bytes
unresolved_unqualified_prefix = codes "unqualified table \""

unfoldable pub unresolved_unqualified_suffix : Bytes
unresolved_unqualified_suffix = codes "\" does not resolve through the session's logical database"

unfoldable pub unresolved_unqualified_table_message : Bytes → Bytes
unresolved_unqualified_table_message table =
    unresolved_unqualified_prefix ++ (table ++ unresolved_unqualified_suffix)

unfoldable pub is_unresolved_unqualified_table_message : Bytes → Bool
is_unresolved_unqualified_table_message msg =
    leb (length unresolved_unqualified_prefix + length unresolved_unqualified_suffix) (length msg)
    && (has_prefix msg unresolved_unqualified_prefix
        && has_suffix msg unresolved_unqualified_suffix)
