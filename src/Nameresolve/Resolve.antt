-- ===== src/Nameresolve/Resolve.antt =====
-- resolve.go: `LookupStatic`, `resolvePhysicalDatabase`, the dynamic table names, `ApplyDynamic`.
pub mod Static
pub mod Routing
pub mod Naming
use rewriter_go.Prelude.{
  ℕ, Bool, true, false, List, [], ◌∷◌, ◌++◌, Option, none, some, if◌then◌else◌,
}
use rewriter_go.Prelude.Text.{Bytes, ◌==◌, codes}
use rewriter_go.Prelude.Dict.{lookup, has_key}
use rewriter_go.Nameresolve.Request.{
  StaticArgs, DynamicArgs, RemoteTable, TableWithDatabase, Upstream,
}
use rewriter_go.Nameresolve.Identifier.{dot, qualify}
use rewriter_go.Nameresolve.Namespaces.{protected_database}
use rewriter_go.Nameresolve.Integrity.{context_database}
use rewriter_go.Nameresolve.Messages.{
  no_context_reason, unknown_database_reason, unknown_upstream_reason,
  protected_database_reject_message,
}

-- `StatusRemoteUnsupported` is set by the write handlers alone.
pub data Status : Type 0 where
  status_passthrough status_rewrite status_remote status_remote_unsupported status_invalid : Status

pub record Outcome : Type 0 where
  pub status : Status
  pub physical_db : Bytes
  pub new_table : Bytes
  pub logical_db : Bytes
  pub remote_addr : Bytes
  pub remote_user : Bytes
  pub remote_password : Bytes
  pub reject_reason : Bytes

-- `Outcome{Status: StatusPassthrough}`, the other fields unset.
abbrev pub passthrough : Outcome
passthrough = record {
  status = status_passthrough;
  physical_db = [];
  new_table = [];
  logical_db = [];
  remote_addr = [];
  remote_user = [];
  remote_password = [];
  reject_reason = [];
}

abbrev pub invalid : Bytes → Outcome
invalid reason = record passthrough { status = status_invalid; reject_reason = reason }

abbrev pub rewrite_to : Bytes → Bytes → Bytes → Outcome
rewrite_to physical table logical = record passthrough {
  status = status_rewrite;
  physical_db = physical;
  new_table = table;
  logical_db = logical;
}

abbrev pub remote_to : Bytes → Bytes → Bytes → Bytes → Bytes → Bytes → Outcome
remote_to physical table logical addr user password = record passthrough {
  status = status_remote;
  physical_db = physical;
  new_table = table;
  logical_db = logical;
  remote_addr = addr;
  remote_user = user;
  remote_password = password;
}

-- An entry with no database keeps the origin's.
unfoldable pub with_database : Bytes → Option TableWithDatabase → Outcome
with_database db none = passthrough
with_database db (some wd) = rewrite_to (if wd.database == [] then db else wd.database) wd.table db

unfoldable pub from_remote_map : Bytes → Option RemoteTable → Outcome → Outcome
from_remote_map db none otherwise = otherwise
from_remote_map db (some rt) otherwise =
    remote_to rt.database rt.table db rt.addr rt.user rt.password

unfoldable pub from_table_map : Bytes → Option Bytes → Outcome → Outcome
from_table_map db none otherwise = otherwise
from_table_map db (some nt) otherwise = rewrite_to db nt db

unfoldable pub lookup_static : Bytes → Bytes → StaticArgs → Outcome
unfolding from_table_map from_remote_map with_database
lookup_static db table a =
    let key = qualify db table in
    from_table_map db (lookup key a.table_map) (
      from_remote_map db (lookup key a.remote_table_map)
        (with_database db (lookup key a.table_with_database_map)))

-- The loop over known_physical_databases ends at the first entry that equals `logical`.
unfoldable pub known_physical : Bytes → List Bytes → DynamicArgs → Option Bytes
known_physical logical [] a = none
known_physical logical (k ∷ ks) a =
    if k == logical
    then (if protected_database k a then none else some logical)
    else known_physical logical ks a

unfoldable pub resolve_physical_database : Bytes → DynamicArgs → Option Bytes
resolve_physical_database logical a =
    if logical == [] then none else elim (lookup logical a.database_map) [
      | some phys ↦ some phys
      | none ↦ known_physical logical a.known_physical_databases a
    ]

unfoldable pub delimiter : DynamicArgs → Bytes
delimiter a = if a.delim == [] then codes "_" else a.delim

-- `for _, extra := range extras { b.WriteString(delim); b.WriteString(extra) }`
unfoldable pub write_extras : Bytes → List Bytes → Bytes → Bytes
write_extras delim [] b = b
write_extras delim (extra ∷ extras) b = write_extras delim extras ((b ++ delim) ++ extra)

unfoldable pub build_dynamic_table_name : Bytes → Bytes → DynamicArgs → Bytes
build_dynamic_table_name logical origin_table a =
    if origin_table == []
    then []
    else (write_extras (delimiter a) a.extra_arguments logical ++ (dot ∷ [])) ++ origin_table

unfoldable pub build_dynamic_table_prefix : Bytes → DynamicArgs → Bytes
build_dynamic_table_prefix logical a =
    write_extras (delimiter a) a.extra_arguments logical ++ (dot ∷ [])

unfoldable pub is_logical_remote_mapped : Bytes → DynamicArgs → Bool
is_logical_remote_mapped logical a =
    if logical == [] then false else has_key logical a.logical_database_to_remote_upstream_index

-- The upstream under a key of the index, when there is one.
unfoldable pub remote_outcome : Bytes → Bytes → Bytes → Bytes → Option Upstream → Outcome
remote_outcome physical table logical key none = invalid (unknown_upstream_reason key)
remote_outcome physical table logical key (some up) =
    remote_to physical table logical up.addr up.user up.password

unfoldable pub route : Bytes → Bytes → Bytes → DynamicArgs → Outcome
unfolding remote_outcome
route logical physical table a =
    let new_table = build_dynamic_table_name logical table a in
    elim (lookup logical a.logical_database_to_remote_upstream_index) [
      | some key ↦ remote_outcome physical new_table logical key (lookup key a.remote_upstreams)
      | none ↦ rewrite_to physical new_table logical
    ]

unfoldable pub apply_dynamic : Bytes → Bytes → DynamicArgs → Outcome
unfolding route
apply_dynamic db table a =
    let logical = context_database db a in
    if logical == []
    then invalid no_context_reason
    else if protected_database logical a
    then invalid (protected_database_reject_message logical)
    else elim (resolve_physical_database logical a) [
      | none ↦ invalid (unknown_database_reason logical)
      | some physical ↦ route logical physical table a
    ]
