-- ===== src/Examples/Requests.antt =====
-- Sample requests.
use rewriter_go.Prelude.{List, [], ◌∷◌, Option, none, some, ◌≡◌, ◌≢◌, false, arith}
use rewriter_go.Prelude.Text.{Bytes, codes, ◌==◌, eq_iff}
use rewriter_go.Prelude.Dict.{Dict}
use rewriter_go.Nameresolve.Request.{
  contract_v2, read_mode_safe, table_name_rewrite, limit_rewrite, SiTable, StorageIntegrity,
  Upstream, DynamicArgs, StaticArgs, RewriteOption, empty_dynamic,
}

abbrev pub surface_table : SiTable
surface_table = record { safe_table = codes "hg_safe.t"; unsafe_table = codes "hg_unsafe.t" }

abbrev pub surface_tables : Dict (Option SiTable)
surface_tables = (codes "db1.t", some surface_table) ∷ []

abbrev pub surface : StorageIntegrity
surface = record {
  contract_version = contract_v2;
  read_mode = read_mode_safe;
  tables = surface_tables;
  reserved_databases = codes "hg_meta" ∷ [];
  reserved_row_id_column = [];
}

abbrev pub upstream : Upstream
upstream = record { addr = codes "host1:9000"; user = codes "u"; password = codes "secret" }

abbrev pub sample_map : Dict Bytes
sample_map = (codes "db1", codes "phys1") ∷ (codes "db2", codes "phys2") ∷ []

-- The same map, met in the other order.
abbrev pub swapped_map : Dict Bytes
swapped_map = (codes "db2", codes "phys2") ∷ (codes "db1", codes "phys1") ∷ []

abbrev pub dynamic_sample : DynamicArgs
dynamic_sample = record empty_dynamic {
  database_map = sample_map;
  known_physical_databases = codes "shared" ∷ [];
  protected_databases = codes "guard" ∷ [];
  extra_arguments = codes "v2" ∷ [];
  upstream_logical_database_in_context = codes "db1";
  remote_upstreams = (codes "r", upstream) ∷ [];
  storage_integrity = some surface;
}

abbrev pub static_sample : StaticArgs
static_sample = record {
  table_map = (codes "db1.t", codes "t_v2") ∷ [];
  remote_table_map = [];
  table_with_database_map =
      (codes "db2.u", record { database = codes "phys2"; table = codes "u" }) ∷ [];
}

abbrev pub options_sample : List RewriteOption
options_sample =
    record { op = limit_rewrite; table_name_args = none }
    ∷ record {
      op = table_name_rewrite;
      table_name_args = some (record { static_args = none; dynamic_args = some dynamic_sample });
    }
    ∷ []

-- Two texts that the comparison tells apart are not equal.
pub differ : (s t : Bytes) → s == t ≡ false → s ≢ t
differ s t h = ground (arith, eq_iff s t)
