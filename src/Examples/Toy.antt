-- ===== src/Examples/Toy.antt =====
-- An engine whose trees are the texts themselves, and a statement that it answers.
use rewriter_go.Prelude.{[], false, none}
use rewriter_go.Nameresolve.Request.{contract_unspecified, contract_v2}
use rewriter_go.Native.Engine.{Engine, node_select, not_handled, not_live_view, not_set}
use rewriter_go.Native.Response.{
  Response, existence_unspecified, ok, other_code, success, type_select,
}
use rewriter_go.Prelude.Text.{Bytes, codes}

-- Every text parses to itself; a query is answered with a fixed Success.
abbrev pub answered : Response
answered = record {
  code = success;
  message = codes "success";
  sql_after_rewrite = codes "SELECT 1 FROM phys1.`db1_v2.t`";
  statement_type = type_select;
  existence_clause = existence_unspecified;
  contract_version = contract_unspecified;
  table_rewrites = [];
  database_rewrites = [];
  original_accessed_tables = [];
  privileges_deltas = [];
  failed_cte_aliases = [];
}

abbrev pub toy : Engine
toy = record {
  Ast = Bytes;
  parse_one = λ sql. ok sql;
  generate = λ ast. ok ast;
  node_kind = λ ast. ok node_select;
  command_sql = λ ast. ast;
  existence_flags = λ ast. (false, false);
  classify_live_view = λ ast sql. ok not_live_view;
  check_parsed_in_full = λ sql ast. none;
  check_regenerated = λ sql ast. none;
  first_deployment_identity_name = λ ast sql. ok none;
  collect_object_refs = λ ast db. ok [];
  name_refs_from_ast = λ ast db. ok [];
  collect_select_tables = λ ast. ok [];
  strip_view_comment = λ sql. none;
  strip_create_table_empty = λ sql. (sql, false, none);
  insert_create_table_empty = λ sql. ok sql;
  preflight_table_references = λ ast sql opts. not_handled;
  rewrite_write = λ ast sql opts. not_handled;
  rewrite_db_level = λ ast sql opts. not_handled;
  rewrite_describe = λ ast sql opts. not_handled;
  rewrite_exists_show_create = λ ast sql opts. not_handled;
  rewrite_grant = λ ast sql opts. not_handled;
  rewrite_select = λ ast opts sql. ok answered;
  check_session_set = λ sql. not_set;
  zero_code = other_code 0;
  error_text = λ e. codes "invalid configuration";
}

abbrev pub stated : Bytes
stated = codes "SELECT 1 FROM t"

-- What leaves the pipeline for the statement.
abbrev pub left_with : Response
left_with = record answered { contract_version = contract_v2 }
