-- ===== src/Nameresolve/Selecting.antt =====
-- resolve.go: `FindActive`, `FindDynamicArgs`, `Resolve`, `ResolveAccessed`; contract.go:
-- `StorageIntegrityDropContract`.
pub mod Policy
pub mod Consistency
use rewriter_go.Prelude.{
  Bool, true, false, ◌&&◌, List, [], ◌∷◌, Option, none, some, if◌then◌else◌, ◌>>=◌, or_default,
  is_some,
}
use rewriter_go.Prelude.Text.{Bytes, ◌==◌}
use rewriter_go.Prelude.Dict.{has_key}
use rewriter_go.Nameresolve.Request.{
  StaticArgs, DynamicArgs, TableNameArgs, RewriteOption, get_storage_integrity, is_v2,
  is_table_name_rewrite,
}
use rewriter_go.Nameresolve.Resolve.{
  Status, status_remote, Outcome, passthrough, lookup_static, resolve_physical_database,
  apply_dynamic,
}
use rewriter_go.Nameresolve.Integrity.{
  context_database, lookup_storage_integrity, lookup_storage_integrity_physical,
}

-- `Selection` with its mode: a pointer is set in its own mode alone.
pub data Selection : Type 0 where
  mode_none : Selection
  mode_static : StaticArgs → Selection
  mode_dynamic : DynamicArgs → Selection

-- The switch over one option's arguments.
unfoldable pub select_args : Selection → Option StaticArgs → Option DynamicArgs → Selection
select_args sel (some a) d = mode_static a
select_args sel none (some a) = mode_dynamic a
select_args sel none none = sel

unfoldable pub select_names : Selection → Option TableNameArgs → Selection
select_names sel none = sel
select_names sel (some na) = select_args sel na.static_args na.dynamic_args

unfoldable pub select_from : Selection → List RewriteOption → Selection
unfolding select_names select_args
select_from sel [] = sel
select_from sel (o ∷ opts) =
    select_from (if is_table_name_rewrite o.op then select_names sel o.table_name_args else sel)
      opts

unfoldable pub find_active : List RewriteOption → Selection
find_active opts = select_from mode_none opts

-- `if d := o.GetTableNameArgs().GetDynamicArgs(); d != nil { found = d }`
unfoldable pub found_from : Option DynamicArgs → List RewriteOption → Option DynamicArgs
found_from found [] = found
found_from found (o ∷ opts) =
    let d = o.table_name_args >>= (λ na. na.dynamic_args) in
    found_from (if is_table_name_rewrite o.op && is_some d then d else found) opts

unfoldable pub find_dynamic_args : List RewriteOption → Option DynamicArgs
find_dynamic_args opts = found_from none opts

unfoldable pub resolve : Bytes → Bytes → Selection → Outcome
resolve db table (mode_static a) = lookup_static db table a
resolve db table (mode_dynamic a) = apply_dynamic db table a
resolve db table mode_none = passthrough

pub record Accessed : Type 0 where
  pub logical_db : Bytes
  pub physical_db : Bytes
  pub is_remote : Bool
  pub is_storage_integrity : Bool

abbrev pub is_remote_status : Status → Bool
is_remote_status status_remote = true
is_remote_status _ = false

unfoldable pub accessed_logical : Bytes → Bytes → DynamicArgs → Accessed
accessed_logical db table a =
    let logical = context_database db a in
    let is_si = is_some (lookup_storage_integrity db table a) in
    record {
      logical_db = logical;
      physical_db = or_default (resolve_physical_database logical a) [];
      is_remote =
          if is_si then false else has_key logical a.logical_database_to_remote_upstream_index;
      is_storage_integrity = is_si;
    }

unfoldable pub resolve_accessed : Bytes → Bytes → Selection → Accessed
unfolding accessed_logical
resolve_accessed db table (mode_static a) =
    let o = lookup_static db table a in
    record {
      logical_db = [];
      physical_db = o.physical_db;
      is_remote = is_remote_status o.status;
      is_storage_integrity = false;
    }
resolve_accessed db table (mode_dynamic a) =
    if is_some (lookup_storage_integrity_physical db table a)
    then record {
      logical_db = [];
      physical_db = context_database db a;
      is_remote = false;
      is_storage_integrity = true;
    }
    else accessed_logical db table a
resolve_accessed db table mode_none = record {
  logical_db = [];
  physical_db = [];
  is_remote = false;
  is_storage_integrity = false;
}

unfoldable pub storage_integrity_drop_contract : Selection → Bool
storage_integrity_drop_contract (mode_dynamic a) = is_v2 (get_storage_integrity a).contract_version
storage_integrity_drop_contract _ = false
