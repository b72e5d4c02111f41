-- ===== src/Handlers/Accessed.antt =====
-- writes.go: `newWriteResp`; dblevel.go: `recordAccessedDatabase`; storage_integrity_policy.go: the
-- records of accessed databases.
use rewriter_go.Prelude.{[], any, false, if◌then◌else◌, or_default, true, ◌&&◌, ◌++◌, ◌∷◌}
use rewriter_go.Nameresolve.Namespaces.{is_storage_integrity_physical_database}
use rewriter_go.Nameresolve.Request.{DynamicArgs, contract_unspecified}
use rewriter_go.Nameresolve.Resolve.{resolve_physical_database}
use rewriter_go.Native.Gates.{is_record_of}
use rewriter_go.Native.Response.{
  AccessedTable, Response, RewriteCode, StatementType, existence_unspecified, success,
  type_unspecified,
}
use rewriter_go.Prelude.Text.{Bytes, codes}

unfoldable pub new_write_resp : StatementType → Response
new_write_resp stmt = record {
  code = success;
  message = codes "success";
  sql_after_rewrite = [];
  statement_type = stmt;
  existence_clause = existence_unspecified;
  contract_version = contract_unspecified;
  table_rewrites = [];
  database_rewrites = [];
  original_accessed_tables = [];
  privileges_deltas = [];
  failed_cte_aliases = [];
}

-- The response of the preflight before a check has refused.
abbrev pub fresh : Response
fresh = new_write_resp type_unspecified

-- `resp.Code, resp.Message = …`, whatever they were.
abbrev pub with_code : Response → RewriteCode → Bytes → Response
with_code resp code message = record resp { code = code; message = message }

abbrev pub echoing : Bytes → Response → Response
echoing sql resp = record resp { sql_after_rewrite = sql }

-- The physical name, the logical name, and whether the surface owns the database. `a` is not nil.
unfoldable pub accessed_database : Bytes → DynamicArgs → AccessedTable
accessed_database target a =
    let si = is_storage_integrity_physical_database target a in
    record {
      original_database = target;
      original_table = [];
      logical_database = if si then [] else target;
      physical_database = if si then target else or_default (resolve_physical_database target a) [];
      is_remote = false;
      is_storage_integrity = si;
    }

unfoldable pub record_accessed_database : Response → Bytes → DynamicArgs → Response
record_accessed_database resp target a = record resp {
  original_accessed_tables = resp.original_accessed_tables ++ (accessed_database target a ∷ []);
}

unfoldable pub record_accessed_database_unique : Response → Bytes → DynamicArgs → Response
record_accessed_database_unique resp db a =
    if any (is_record_of db []) resp.original_accessed_tables
    then resp
    else record_accessed_database resp db a

unfoldable pub record_accessed_storage_integrity_logical_database_unique :
    Response → Bytes → DynamicArgs → Response
record_accessed_storage_integrity_logical_database_unique resp db a =
    if any (λ t. is_record_of db [] t && t.is_storage_integrity) resp.original_accessed_tables
    then resp
    else record resp {
      original_accessed_tables =
          resp.original_accessed_tables
          ++ (record {
            original_database = db;
            original_table = [];
            logical_database = db;
            physical_database = or_default (resolve_physical_database db a) [];
            is_remote = false;
            is_storage_integrity = true;
          }
              ∷ []);
    }
