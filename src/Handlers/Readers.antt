-- ===== src/Handlers/Readers.antt =====
-- The interface between the preflight of internal/handlers and the tree readers of internal/engine.
use rewriter_go.Prelude.{Bool, List, Option, ℕ}
use rewriter_go.Engine.Settings.{SettingAssignment}
use rewriter_go.Engine.Tokens.{RawToken}
use rewriter_go.Native.Engine.{NodeKind, ObjectRef, TableTarget}
use rewriter_go.Native.Response.{Result}
use rewriter_go.Prelude.Text.{Bytes}

-- StorageEngine of engine.CreateTableStorage
pub record StorageEngine : Type 0 where
  pub name : Bytes
  pub arg_count : ℕ

-- StringLookup: the function, the argument as the message shows it, and the pair of names.
pub record StringLookup : Type 0 where
  pub function : Bytes
  pub arg : Bytes
  pub in_select_body : Bool
  pub literal : Bool
  pub db : Bytes
  pub table : Bytes

-- What `CollectCommandTextFindings` finds in the text of a command. `target_function` is set when the
-- target is a call.
pub record CommandFindings : Type 0 where
  pub lookup_calls : List StringLookup
  pub target_function : Option Bytes
  pub target_arg_databases : List Bytes

-- The readers of internal/engine that the preflight calls on the tree or on a text; an `Option` is a
-- result with a Boolean beside it.
pub record Readers (Ast : Type 0) : Type 0 where
  pub tokenize_raw : Bytes → Result (List RawToken)
  pub node_kind : Ast → Result NodeKind
  pub command_text : Ast → Result Bytes
  pub table_position_parameter : Ast → Bytes → Result Bool
  pub raw_table_refs : Ast → Result (List TableTarget)
  -- all databases that the statement names, and those that only a blind position names
  pub collect_database_reference_sets : Ast → Bytes → Result (List Bytes × List Bytes)
  pub collect_object_refs : Ast → Bytes → Result (List ObjectRef)
  pub collect_source_function_names : Ast → Result (List Bytes)
  pub create_table_storage : Ast → Result (Option (List StorageEngine × List Bytes))
  pub collect_command_text_findings : Bytes → Option CommandFindings
  pub collect_raw_action_string_lookup_calls : Ast → Bytes → Option (List StringLookup)
  pub string_lookup_calls : Ast → Result (List StringLookup)
  pub query_settings : Ast → Result (List SettingAssignment)
  pub opaque_statement_texts : Ast → Bytes → Result (List Bytes)
  pub opaque_insert_query_text : Ast → Result (Option Bytes)
  pub expression_position_has_reads : Ast → Result Bool
  pub declared_type_texts : Ast → Result (List Bytes)
  pub opaque_text_qualified_names : Bytes → Option (List TableTarget)
  pub opaque_text_is_ungoverned : Bytes → Bool
  pub opaque_insert_query_is_ungoverned : Bytes → Bool
  -- `target.Verb != VerbNone`, `info.Kind != DBNone`, `gp.IsGrantVerb`
  pub names_object : Bytes → Result Bool
  pub is_db_level : Bytes → Result Bool
  pub is_grant : Bytes → Result Bool
  -- `info.Sub` is CmdRename, CmdExchange or CmdAlterUpdate
  pub is_raw_write : Ast → Result Bool
