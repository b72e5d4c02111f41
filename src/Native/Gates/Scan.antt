-- ===== src/Native/Gates/Scan.antt =====
-- What the scan for system tables reports.
use rewriter_go.Prelude.{◌≡◌, Bool, not, ◌&&◌, ◌||◌, List, [], ◌∷◌, arith, any, if◌then◌else◌}
use rewriter_go.Prelude.Text.{Bytes}
use rewriter_go.Nameresolve.Request.{DynamicArgs}
use rewriter_go.Nameresolve.Contract.{storage_integrity_surface_active}
use rewriter_go.Nameresolve.SystemTables.{system_table_allowed}
use rewriter_go.Native.Engine.{ObjectRef}
use rewriter_go.Native.Gates.{
  is_system_database, TableScan, nothing_found, touches_surface, scan_ref, scan_refs,
}

-- A reference to a system table that is not on the allowlist by its exact name.
abbrev pub not_allowed : DynamicArgs → ObjectRef → Bool
not_allowed a ref =
    is_system_database ref.db a.upstream_logical_database_in_context
    && not (ref.exact && system_table_allowed ref.table)

-- A reference outside the system database to an object of the active surface.
abbrev pub on_surface : DynamicArgs → ObjectRef → Bool
on_surface a ref =
    not (is_system_database ref.db a.upstream_logical_database_in_context)
    && (storage_integrity_surface_active a && touches_surface a ref)

-- The table of the first reference that is not allowed.
abbrev pub first_not_allowed : DynamicArgs → List ObjectRef → Bytes
first_not_allowed a [] = []
first_not_allowed a (ref ∷ refs) = if not_allowed a ref then ref.table else first_not_allowed a refs

scan_from :
    (a : DynamicArgs) (scan : TableScan) (refs : List ObjectRef)
    → ((scan_refs a scan refs).refused ≡ (scan.refused || any (not_allowed a) refs))
      × ((scan_refs a scan refs).si_object ≡ (scan.si_object || any (on_surface a) refs))
      × ((scan_refs a scan refs).table ≡ (
          if scan.refused || not (any (not_allowed a) refs)
          then scan.table
          else first_not_allowed a refs))
unfolding scan_refs scan_ref
scan_from a scan [] = ground arith
scan_from a scan (ref ∷ refs) = ground (arith, scan_from a (scan_ref a scan ref) refs)

-- The scan refuses exactly when some reference names a system table that is not allowed, and then it
-- reports the first of them; independently of that, it reports a storage-integrity object exactly
-- when the surface is active and some other reference touches it.
pub scan_refs_lem :
    (a : DynamicArgs) (refs : List ObjectRef)
    → ((scan_refs a nothing_found refs).refused ≡ any (not_allowed a) refs)
      × ((scan_refs a nothing_found refs).si_object ≡ any (on_surface a) refs)
      × ((scan_refs a nothing_found refs).table
          ≡ (if any (not_allowed a) refs then first_not_allowed a refs else []))
scan_refs_lem a refs = ground (arith, scan_from a nothing_found refs)
