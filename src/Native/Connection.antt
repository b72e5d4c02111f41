-- ===== src/Native/Connection.antt =====
-- native.go: the per-connection state of a `NativeRewriter`; service.go: `RewriteErrorMessage`.
pub mod Hiding
use rewriter_go.Prelude.{Bool, true, false, not, ◌||◌, List, [], Option, none, some, if◌then◌else◌}
use rewriter_go.Prelude.Text.{Bytes, ◌==◌, codes}
use rewriter_go.Prelude.Dict.{Dict}
use rewriter_go.Nameresolve.Request.{RewriteOption}
use rewriter_go.Nameresolve.Hidden.{hidden_names}
use rewriter_go.Reverse.Withheld.{withheld_message, withheld_reason_message, mentions_hidden}
use rewriter_go.Native.Response.{RewriteCode, success, Response, Result, ok, err, is_success}
use rewriter_go.Native.Engine.{Engine}
use rewriter_go.Native.Rewrite.{do_rewrite}

pub record CallContext : Type 0 where
  pub sql : Bytes
  pub account : Bytes
  pub code : RewriteCode
  pub sql_after_rewrite : Bytes
  pub table_rewrites : Dict Bytes
  pub database_rewrites : Dict Bytes
  pub options : List RewriteOption

-- The fields that change, or that a call reads. The mutex makes each access of `last` one step.
pub record Connection : Type 0 where
  pub options : Option (Bytes → List RewriteOption)
  pub last : Option CallContext

abbrev pub context_of : Bytes → Bytes → List RewriteOption → Response → CallContext
context_of sql account opts resp = record {
  sql = sql;
  account = account;
  code = resp.code;
  sql_after_rewrite = resp.sql_after_rewrite;
  table_rewrites = resp.table_rewrites;
  database_rewrites = resp.database_rewrites;
  options = opts;
}

abbrev pub stash : Connection → Bytes → Bytes → List RewriteOption → Response → Connection
stash c sql account opts resp = record c { last = some (context_of sql account opts resp) }

-- `opts` stays nil without a callback.
abbrev pub options_for : Connection → Bytes → List RewriteOption
options_for c account = elim c.options [ none ↦ [] | some f ↦ f account ]

pub record ErrorMessageResponse : Type 0 where
  pub code : RewriteCode
  pub message : Bytes
  pub error_after_rewrite : Bytes

-- The inverted text, unless it still names the physical routing of `opts`.
unfoldable pub screened : Bytes → List RewriteOption → Option Bytes
screened inverted opts =
    let (identifiers, literals) = hidden_names opts in
    if mentions_hidden inverted identifiers literals then none else some inverted

-- `invert` stands for `reverse.Invert`: message, original SQL, rewritten SQL, and the two maps.
module _ (E : Engine) (invert : Bytes → Bytes → Bytes → Dict Bytes → Dict Bytes → Bytes) where
  -- Behind the rewrite: an error leaves the last call as it was.
  unfoldable pub stash_result :
      Connection → Bytes → Bytes → Result Response → Connection × Result Response
  stash_result c sql account (err e) = (c, err e)
  stash_result c sql account (ok resp) = (stash c sql account (options_for c account) resp, ok resp)

  unfoldable pub rewrite : Connection → Bytes → Bytes → Connection × Result Response
  rewrite c sql account = stash_result c sql account (do_rewrite E sql (options_for c account))

  unfoldable pub invert_last : Bytes → CallContext → Bytes
  invert_last message last =
      if not (is_success last.code)
      then withheld_message
      else elim (screened
          (invert message last.sql last.sql_after_rewrite last.table_rewrites
            last.database_rewrites)
          last.options) [ none ↦ withheld_message | some inverted ↦ inverted ]

  unfoldable pub rewrite_error_message : Connection → Bytes → Bytes
  rewrite_error_message c message = elim c.last [
    | none ↦ message
    | some last ↦ if message == [] then message else invert_last message last
  ]

  unfoldable pub close : Connection → Connection
  close c = record c { last = none }

  abbrev pub withhold : Bytes → ErrorMessageResponse
  withhold reason = record {
    code = success;
    message = withheld_reason_message reason;
    error_after_rewrite = withheld_message;
  }

  unfoldable pub service_verdict :
      Bytes → Bytes → List RewriteOption → Result Response → ErrorMessageResponse
  service_verdict msg sql opts (err _) = withhold (codes "rewrite failed")
  service_verdict msg sql opts (ok resp) =
      if not (is_success resp.code)
      then withhold (codes "rewrite failed")
      else elim (screened
          (invert msg sql resp.sql_after_rewrite resp.table_rewrites resp.database_rewrites) opts) [
            | none ↦ withhold (codes "physical name remained")
            | some inverted ↦ record {
              code = success;
              message = [];
              error_after_rewrite = inverted;
            }
          ]

  unfoldable pub service_rewrite_error_message :
      Bytes → Bytes → List RewriteOption → ErrorMessageResponse
  service_rewrite_error_message msg sql opts =
      if msg == [] || sql == []
      then record { code = success; message = []; error_after_rewrite = msg }
      else service_verdict msg sql opts (do_rewrite E sql opts)
