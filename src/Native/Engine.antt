-- ===== src/Native/Engine.antt =====
-- The interface between the pipeline and what it calls: the engine over the external SQL parser, the
-- checks of internal/engine that walk its tree, and the statement handlers of internal/handlers.
use rewriter_go.Prelude.{Bool, List, Option}
use rewriter_go.Prelude.Text.{Bytes}
use rewriter_go.Nameresolve.Request.{RewriteOption}
use rewriter_go.Nameresolve.Validate.{ConfigError}
use rewriter_go.Native.Response.{RewriteCode, Response, Result}

-- The values of `NodeKind` that the pipeline tests for.
pub data NodeKind : Type 0 where
  node_select node_union node_intersect node_except node_insert node_create_table : NodeKind
  node_drop_table node_alter_table node_create_db node_drop_db node_truncate : NodeKind
  node_delete node_command : NodeKind
  node_other : Bytes → NodeKind

pub data LiveViewClass : Type 0 where
  not_live_view exact_live_view malformed_live_view_prefix : LiveViewClass

pub data NameRefKind : Type 0 where
  name_ref_table name_ref_database : NameRefKind

pub record NameRef : Type 0 where
  pub kind : NameRefKind
  pub db : Bytes
  pub table : Bytes

pub record ObjectRef : Type 0 where
  pub db : Bytes
  pub table : Bytes
  pub exact : Bool

pub record TableTarget : Type 0 where
  pub db : Bytes
  pub table : Bytes
  pub alias : Bytes

-- What a handler returns: `nil, false, err`, `nil, false, nil` or `resp, true, nil`.
pub data Handled : Type 0 where
  failed : Bytes → Handled
  not_handled : Handled
  handled : Response → Handled

-- What `CheckSessionSet` returns of a command: not a settings assignment, one that is refused with a
-- code and a message, or one that is admitted.
pub data SessionSet : Type 0 where
  not_set : SessionSet
  refused_set : RewriteCode → Bytes → SessionSet
  plain_set : SessionSet

pub record Engine : Type 1 where
  pub Ast : Type 0
  -- engine.Engine
  pub parse_one : Bytes → Result Ast
  pub generate : Ast → Result Bytes
  -- the readers and checks of the tree in internal/engine
  pub node_kind : Ast → Result NodeKind
  pub command_sql : Ast → Bytes
  pub existence_flags : Ast → Bool × Bool
  pub classify_live_view : Ast → Bytes → Result LiveViewClass
  pub check_parsed_in_full : Bytes → Ast → Option Bytes
  pub check_regenerated : Bytes → Ast → Option Bytes
  pub first_deployment_identity_name : Ast → Bytes → Result (Option Bytes)
  pub collect_object_refs : Ast → Bytes → Result (List ObjectRef)
  pub name_refs_from_ast : Ast → Bytes → Result (List NameRef)
  pub collect_select_tables : Ast → Result (List TableTarget)
  pub strip_view_comment : Bytes → Option (Bytes × Bytes)
  -- stripped text, whether the keyword was there, and the error
  pub strip_create_table_empty : Bytes → Bytes × Bool × Option Bytes
  pub insert_create_table_empty : Bytes → Result Bytes
  -- the statement handlers of internal/handlers
  pub preflight_table_references : Ast → Bytes → List RewriteOption → Handled
  pub rewrite_write : Ast → Bytes → List RewriteOption → Handled
  pub rewrite_db_level : Ast → Bytes → List RewriteOption → Handled
  pub rewrite_describe : Ast → Bytes → List RewriteOption → Handled
  pub rewrite_exists_show_create : Ast → Bytes → List RewriteOption → Handled
  pub rewrite_grant : Ast → Bytes → List RewriteOption → Handled
  pub rewrite_select : Ast → List RewriteOption → Bytes → Result Response
  pub check_session_set : Bytes → SessionSet
  -- the zero value of the generated enum, and the text that `fmt.Errorf` makes of an error
  pub zero_code : RewriteCode
  pub error_text : ConfigError → Bytes
