-- ===== src/Nameresolve/Request.antt =====
-- What the code reads of a request through the getters of the generated protobuf messages. The
-- messages are generated outside the repository; a record here holds the values of those getters,
-- and a message that may be nil where the code looks is an `Option`. A getter of a nil message
-- returns the zero value, which is what the `empty` values below hold.
use rewriter_go.Prelude.{ℕ, Bool, true, false, List, [], Option, none, or_default}
use rewriter_go.Prelude.Text.{Bytes}
use rewriter_go.Prelude.Dict.{Dict}

-- pb.StorageIntegrityContractVersion; an enum field may carry a number that no name stands for.
pub data ContractVersion : Type 0 where
  contract_unspecified contract_v1 contract_v2 : ContractVersion
  contract_other : ℕ → ContractVersion

-- pb.StorageIntegrityArgs_ReadMode
pub data ReadMode : Type 0 where
  read_mode_unspecified read_mode_safe read_mode_unsafe_latest : ReadMode
  read_mode_other : ℕ → ReadMode

-- pb.RewriteOp, as far as the code names its values.
pub data RewriteOp : Type 0 where
  table_name_rewrite limit_rewrite offset_rewrite settings_rewrite : RewriteOp
  common_table_expr_rewrite : RewriteOp
  other_rewrite : ℕ → RewriteOp

-- pb.StorageIntegrityArgs_Table
pub record SiTable : Type 0 where
  pub safe_table : Bytes
  pub unsafe_table : Bytes

-- pb.StorageIntegrityArgs
pub record StorageIntegrity : Type 0 where
  pub contract_version : ContractVersion
  pub read_mode : ReadMode
  pub tables : Dict (Option SiTable)
  pub reserved_databases : List Bytes
  pub reserved_row_id_column : Bytes

-- pb.RemoteUpstream
pub record Upstream : Type 0 where
  pub addr : Bytes
  pub user : Bytes
  pub password : Bytes

-- pb.RewriteTableDynamicArgs
pub record DynamicArgs : Type 0 where
  pub database_map : Dict Bytes
  pub known_physical_databases : List Bytes
  pub protected_databases : List Bytes
  pub delim : Bytes
  pub extra_arguments : List Bytes
  pub upstream_logical_database_in_context : Bytes
  pub upstream_physical_database_in_context : Bytes
  pub logical_database_to_remote_upstream_index : Dict Bytes
  pub remote_upstreams : Dict Upstream
  pub storage_integrity : Option StorageIntegrity

-- The value type of remote_table_map.
pub record RemoteTable : Type 0 where
  pub database : Bytes
  pub table : Bytes
  pub addr : Bytes
  pub user : Bytes
  pub password : Bytes

-- The value type of table_with_database_map.
pub record TableWithDatabase : Type 0 where
  pub database : Bytes
  pub table : Bytes

-- pb.RewriteTableStaticArgs
pub record StaticArgs : Type 0 where
  pub table_map : Dict Bytes
  pub remote_table_map : Dict RemoteTable
  pub table_with_database_map : Dict TableWithDatabase

-- pb.TableNameArgs
pub record TableNameArgs : Type 0 where
  pub static_args : Option StaticArgs
  pub dynamic_args : Option DynamicArgs

-- pb.RewriteOption
pub record RewriteOption : Type 0 where
  pub op : RewriteOp
  pub table_name_args : Option TableNameArgs

abbrev pub empty_integrity : StorageIntegrity
empty_integrity = record {
  contract_version = contract_unspecified;
  read_mode = read_mode_unspecified;
  tables = [];
  reserved_databases = [];
  reserved_row_id_column = [];
}

abbrev pub empty_dynamic : DynamicArgs
empty_dynamic = record {
  database_map = [];
  known_physical_databases = [];
  protected_databases = [];
  delim = [];
  extra_arguments = [];
  upstream_logical_database_in_context = [];
  upstream_physical_database_in_context = [];
  logical_database_to_remote_upstream_index = [];
  remote_upstreams = [];
  storage_integrity = none;
}

-- `a.GetStorageIntegrity()`, behind whose nil the getters return zero values.
abbrev pub get_storage_integrity : DynamicArgs → StorageIntegrity
get_storage_integrity a = or_default a.storage_integrity empty_integrity

-- `version == STORAGE_INTEGRITY_CONTRACT_V2`, and the other comparisons of the source.
abbrev pub is_v2 : ContractVersion → Bool
is_v2 contract_v2 = true
is_v2 _ = false

abbrev pub is_v1 : ContractVersion → Bool
is_v1 contract_v1 = true
is_v1 _ = false

abbrev pub is_table_name_rewrite : RewriteOp → Bool
is_table_name_rewrite table_name_rewrite = true
is_table_name_rewrite _ = false
