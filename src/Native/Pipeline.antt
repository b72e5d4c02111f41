-- ===== src/Native/Pipeline.antt =====
-- native.go: `rewriteStatement`, `sealStorageIntegrityHandlerError`, `sessionSet`.
pub mod Sealed
pub mod Outcomes
pub mod Configured
use rewriter_go.Prelude.{
  Bool, true, false, not, ◌&&◌, ◌||◌, List, [], ◌∷◌, ◌++◌, Option, none, some, if◌then◌else◌,
  or_default,
}
use rewriter_go.Prelude.Text.{Bytes, ◌==◌, codes}
use rewriter_go.Nameresolve.Request.{
  DynamicArgs, RewriteOption, ContractVersion, contract_unspecified, is_v1, is_v2,
  get_storage_integrity,
}
use rewriter_go.Nameresolve.Contract.{
  storage_integrity_surface_active, storage_integrity_unmodelled_message,
}
use rewriter_go.Nameresolve.Validate.{
  ConfigError, validate_storage_integrity, validate_protected_databases,
}
use rewriter_go.Nameresolve.Selecting.{Selection, mode_none, mode_static, mode_dynamic, find_active}
use rewriter_go.Native.Response.{
  RewriteCode, success, syntax_error, invalid_rewrite_request, unsupported_statement, is_success,
  Response, Result, ok, err, ExistenceClause, existence_unspecified, if_not_exists, if_exists,
  type_unspecified,
}
use rewriter_go.Native.Engine.{
  Engine, NodeKind, node_command, Handled, failed, not_handled, handled, LiveViewClass,
  not_live_view, SessionSet, not_set, refused_set, plain_set,
}
use rewriter_go.Native.Classify.{classify, is_query_kind}
use rewriter_go.Native.Gates.{unsupported_statement_message}
use rewriter_go.Native.Finalize.{is_specified, is_dynamic, finalize}

unfoldable pub storage_integrity_contract_message : Bytes
storage_integrity_contract_message = codes "storage-integrity contract version V1 or V2 is required"

unfoldable pub view_comment_not_restored : Bytes
view_comment_not_restored =
    codes "rewriter: the view COMMENT clause cannot be restored on the rewritten statement"

-- What the checks of the configuration, before any parsing, say of a request: it goes on under a
-- contract version, or it is refused with the version stamped so far. `invalid` says of what.
pub data Admission : Type 0 where
  admitted : ContractVersion → Admission
  wrong_contract : Admission
  invalid_config : ContractVersion → ConfigError → Admission

unfoldable pub admit_protected : DynamicArgs → ContractVersion → Admission
admit_protected a version = elim (validate_protected_databases a) [
  | some e ↦ invalid_config version e
  | none ↦ admitted version
]

unfoldable pub admit : Selection → Admission
unfolding admit_protected
admit (mode_dynamic a) =
    let version = (get_storage_integrity a).contract_version in
    if storage_integrity_surface_active a
    then (if not (is_v1 version) && not (is_v2 version)
        then wrong_contract
        else elim (validate_storage_integrity a) [
          | some e ↦ invalid_config contract_unspecified e
          | none ↦ admit_protected a version
        ])
    else admit_protected a contract_unspecified
admit _ = admitted contract_unspecified

unfoldable pub existence_of : Bool × Bool → ExistenceClause
existence_of (true, _) = if_not_exists
existence_of (false, true) = if_exists
existence_of (false, false) = existence_unspecified

abbrev pub is_live_view : Result LiveViewClass → Bool
is_live_view (ok not_live_view) = false
is_live_view _ = true

abbrev pub has_error : Option Bytes → Bool
has_error none = false
has_error (some _) = true

abbrev pub if_generated : Result Bytes → Bytes → Bytes
if_generated (err _) sql = sql
if_generated (ok gen) sql = if gen == [] then sql else gen

module _ (E : Engine) where
  -- The zero response that echoes the statement.
  abbrev pub echo : Bytes → Response
  echo sql = record {
    code = E.zero_code;
    message = [];
    sql_after_rewrite = sql;
    statement_type = type_unspecified;
    existence_clause = existence_unspecified;
    contract_version = contract_unspecified;
    table_rewrites = [];
    database_rewrites = [];
    original_accessed_tables = [];
    privileges_deltas = [];
    failed_cte_aliases = [];
  }

  -- What the steps behind the parser share: the statement, its tree, its contract and its policy.
  pub record Run : Type 0 where
    pub ast : E.Ast
    pub sql : Bytes
    pub opts : List RewriteOption
    pub version : ContractVersion
    pub sel : Selection
    pub base : Response
    pub ec : ExistenceClause

  unfoldable pub finish : Run → Response → Response
  finish r resp = finalize E resp r.ast r.sql r.ec r.version r.sel

  unfoldable pub refuse_statement : Run → RewriteCode → Bytes → Response
  refuse_statement r code message = finish r (record (r.base) { code = code; message = message })

  -- `sealStorageIntegrityHandlerError`
  unfoldable pub seal : Run → Bytes → Result Response
  seal r cause =
      if not (is_specified r.version)
      then (if not (is_dynamic r.sel)
          then err cause
          else ok (refuse_statement r unsupported_statement unsupported_statement_message))
      else ok (refuse_statement r unsupported_statement storage_integrity_unmodelled_message)

  -- Only a command node is asked.
  unfoldable pub session_set : Result NodeKind → Bytes → SessionSet
  session_set (ok node_command) text = E.check_session_set text
  session_set _ text = not_set

  -- The last step: no handler took the statement.
  unfoldable pub generate_success : Run → Response
  generate_success r = finish r (record (r.base) {
    code = success;
    message = codes "success";
    sql_after_rewrite = if_generated (E.generate r.ast) r.base.sql_after_rewrite;
  })

  -- A statement that no handler took, and that is no query.
  unfoldable pub unmodelled : Run → Response
  unmodelled r =
      if is_specified r.version
      then refuse_statement r unsupported_statement storage_integrity_unmodelled_message
      else if is_dynamic r.sel
      then elim (session_set (E.node_kind r.ast) (E.command_sql r.ast)) [
        | not_set ↦ refuse_statement r unsupported_statement unsupported_statement_message
        | refused_set code message ↦ refuse_statement r code message
        | plain_set ↦ generate_success r
      ]
      else generate_success r

  unfoldable pub select_outcome : Run → Result Response → Result Response
  select_outcome r (err e) = seal r e
  select_outcome r (ok resp) = ok (finish r resp)

  unfoldable pub last_phase : Run → Result Response
  last_phase r =
      if is_query_kind (E.node_kind r.ast)
      then select_outcome r (E.rewrite_select r.ast r.opts r.sql)
      else ok (unmodelled r)

  -- One phase: the error is sealed, a response is finished, anything else goes on.
  unfoldable pub phase : Run → Handled → Result Response → Result Response
  phase r (failed e) next = seal r e
  phase r (handled resp) next = ok (finish r resp)
  phase r not_handled next = next

  unfoldable pub phases : Run → Result Response
  phases r = phase r (E.preflight_table_references r.ast r.sql r.opts) (
      phase r (E.rewrite_write r.ast r.sql r.opts) (
        phase r (E.rewrite_db_level r.ast r.sql r.opts) (
          phase r (E.rewrite_describe r.ast r.sql r.opts) (
            phase r (E.rewrite_exists_show_create r.ast r.sql r.opts)
              (phase r (E.rewrite_grant r.ast r.sql r.opts) (last_phase r))))))

  -- The two gates on the parsed statement: LIVE VIEW, and a statement that was not parsed in full.
  unfoldable pub parsed : Run → Result Response
  parsed r =
      if is_specified r.version && is_live_view (E.classify_live_view r.ast r.sql)
      then ok (refuse_statement r unsupported_statement storage_integrity_unmodelled_message)
      else if has_error (E.check_parsed_in_full r.sql r.ast)
      then ok (refuse_statement r unsupported_statement unsupported_statement_message)
      else phases r

  unfoldable pub run_of : E.Ast → Bytes → List RewriteOption → ContractVersion → Run
  run_of ast sql opts version = record {
    ast = ast;
    sql = sql;
    opts = opts;
    version = version;
    sel = find_active opts;
    base = record (echo sql) {
      statement_type = classify (E.node_kind ast) (E.command_sql ast);
      contract_version = version;
    };
    ec = existence_of (E.existence_flags ast);
  }

  unfoldable pub parse :
      Bytes → List RewriteOption → ContractVersion → Result E.Ast → Result Response
  parse sql opts version (err e) =
      ok (record (echo sql) { code = syntax_error; message = e; contract_version = version })
  parse sql opts version (ok ast) = parsed (run_of ast sql opts version)

  -- `rewriteStatement` behind the checks of the configuration.
  unfoldable pub answer : Bytes → List RewriteOption → Admission → Result Response
  answer sql opts wrong_contract = ok (record (echo sql) {
    code = invalid_rewrite_request;
    message = storage_integrity_contract_message;
  })
  answer sql opts (invalid_config version e) = ok (record (echo sql) {
    code = invalid_rewrite_request;
    message = E.error_text e;
    contract_version = version;
  })
  answer sql opts (admitted version) = parse sql opts version (E.parse_one sql)

  unfoldable pub rewrite_statement : Bytes → List RewriteOption → Result Response
  rewrite_statement sql opts = answer sql opts (admit (find_active opts))
