-- ===== src/Native/Response.antt =====
-- The response message, as the code reads and writes it through generated getters and fields.
use rewriter_go.Prelude.{ℕ, Bool, true, false, List}
use rewriter_go.Prelude.Text.{Bytes}
use rewriter_go.Prelude.Dict.{Dict}
use rewriter_go.Nameresolve.Request.{ContractVersion}

-- pb.RewriteCode
pub data RewriteCode : Type 0 where
  success syntax_error invalid_rewrite_request unsupported_statement : RewriteCode
  other_code : ℕ → RewriteCode

abbrev pub is_success : RewriteCode → Bool
is_success success = true
is_success _ = false

-- pb.ExistenceClause
pub data ExistenceClause : Type 0 where
  existence_unspecified if_not_exists if_exists : ExistenceClause

-- pb.StatementType, as far as `classify` names its values.
pub data StatementType : Type 0 where
  type_unspecified type_select type_insert type_create_table type_drop_table : StatementType
  type_alter_table type_create_database type_drop_database type_truncate_table : StatementType
  type_delete type_use type_grant type_revoke type_rename_table type_exists_table : StatementType
  type_show_create_table type_describe type_show_databases type_show_tables : StatementType

-- pb.AccessedTable
pub record AccessedTable : Type 0 where
  pub original_database : Bytes
  pub original_table : Bytes
  pub logical_database : Bytes
  pub physical_database : Bytes
  pub is_remote : Bool
  pub is_storage_integrity : Bool

-- pb.PrivilegeDelta
pub record PrivilegeDelta : Type 0 where
  pub action : ℕ
  pub original_database : Bytes
  pub logical_database : Bytes
  pub physical_database : Bytes
  pub grant_option : Bool
  pub privileges : List Bytes
  pub grantees : List Bytes

-- pb.RewriteSQLResponse
pub record Response : Type 0 where
  pub code : RewriteCode
  pub message : Bytes
  pub sql_after_rewrite : Bytes
  pub statement_type : StatementType
  pub existence_clause : ExistenceClause
  pub contract_version : ContractVersion
  pub table_rewrites : Dict Bytes
  pub database_rewrites : Dict Bytes
  pub original_accessed_tables : List AccessedTable
  pub privileges_deltas : List PrivilegeDelta
  pub failed_cte_aliases : List Bytes

-- A value and a nil error, or a non-nil error with its text.
pub data Result {ℓ} (A : Type ℓ) : Type ℓ where
  ok : A → Result A
  err : Bytes → Result A
