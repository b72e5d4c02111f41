-- ===== src/Nameresolve/Contract.antt =====
-- contract.go: when the storage-integrity surface is active, and the reserved databases of V2.
use rewriter_go.Prelude.{Bool, true, false, not, ◌||◌, [], ltb, length, if◌then◌else◌}
use rewriter_go.Prelude.Text.{Bytes, ◌==◌, codes, contains}
use rewriter_go.Nameresolve.Request.{DynamicArgs, get_storage_integrity, is_v2}

unfoldable pub storage_integrity_surface_active : DynamicArgs → Bool
storage_integrity_surface_active a =
    let si = get_storage_integrity a in
    if is_v2 si.contract_version then true else ltb 0 (length si.tables)

unfoldable pub storage_integrity_reserved_database : Bytes → DynamicArgs → Bool
storage_integrity_reserved_database db a =
    let si = get_storage_integrity a in
    if db == [] || not (is_v2 si.contract_version) then false else contains db si.reserved_databases

unfoldable pub storage_integrity_unmodelled_message : Bytes
storage_integrity_unmodelled_message =
    codes
      "storage-integrity is configured; statement class is not modelled by the rewriter and cannot be forwarded"
