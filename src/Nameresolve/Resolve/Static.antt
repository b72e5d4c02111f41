-- ===== src/Nameresolve/Resolve/Static.antt =====
-- The precedence of the three static maps.
use rewriter_go.Prelude.{◌≡◌, arith, if◌then◌else◌}
use rewriter_go.Prelude.Text.{Bytes}
use rewriter_go.Prelude.Dict.{has_key}
use rewriter_go.Nameresolve.Request.{StaticArgs}
use rewriter_go.Nameresolve.Identifier.{qualify}
use rewriter_go.Nameresolve.Resolve.{
  status_passthrough, status_rewrite, status_remote, lookup_static,
}

-- The disposition of a target in static mode: table_map decides first, then remote_table_map, then
-- table_with_database_map; a target in none of the three is left as written. No target is refused.
pub lookup_static_status :
    (db table : Bytes) (a : StaticArgs)
    → (lookup_static db table a).status ≡ (
        if has_key (qualify db table) a.table_map
        then status_rewrite
        else if has_key (qualify db table) a.remote_table_map
        then status_remote
        else if has_key (qualify db table) a.table_with_database_map
        then status_rewrite
        else status_passthrough)
unfolding lookup_static has_key
lookup_static_status db table a = ground arith
