-- ===== src/Native/Rewrite.antt =====
-- native.go: `doRewrite`, `rewriteViewComment`, `sealCreateTableEmpty`; engine/view_comment.go:
-- `AppendViewComment`.
pub mod Total
use rewriter_go.Prelude.{
  ℕ, Bool, true, false, not, ◌&&◌, ◌||◌, List, [], ◌∷◌, ◌++◌, Option, none, some, eqb,
  if◌then◌else◌,
}
use mathlib.Core.List.{reverse}
use rewriter_go.Prelude.Text.{Bytes, codes, has_suffix}
use rewriter_go.Nameresolve.Request.{RewriteOption}
use rewriter_go.Nameresolve.Contract.{storage_integrity_unmodelled_message}
use rewriter_go.Nameresolve.Selecting.{find_active}
use rewriter_go.Native.Response.{
  Response, Result, ok, err, unsupported_statement, is_success, type_unspecified,
}
use rewriter_go.Native.Engine.{Engine}
use rewriter_go.Native.Gates.{unsupported_statement_message}
use rewriter_go.Native.Finalize.{is_specified, is_dynamic}
use rewriter_go.Native.Pipeline.{view_comment_not_restored, echo, rewrite_statement}

-- `strings.TrimRight(s, " \t\r\n;")`
unfoldable pub trim_end : Bytes → Bytes
trim_end [] = []
trim_end (c ∷ s) =
    if eqb c b' ' || (eqb c b'\t' || (eqb c b'\r' || (eqb c b'\n' || eqb c b';')))
    then trim_end s
    else c ∷ s

unfoldable pub append_view_comment : Bytes → Bytes → Option Bytes
append_view_comment rewritten comment =
    let out = reverse (trim_end (reverse rewritten)) in
    if not (has_suffix out (codes ")")) then none else some (out ++ (codes " COMMENT " ++ comment))

module _ (E : Engine) where
  unfoldable pub seal_create_table_empty :
      Response → Bytes → List RewriteOption → Bytes → Result Response
  seal_create_table_empty resp sql opts cause =
      if not (is_dynamic (find_active opts))
      then err cause
      else ok (record (echo E sql) {
        code = unsupported_statement;
        message =
            if is_specified resp.contract_version
            then storage_integrity_unmodelled_message
            else unsupported_statement_message;
        existence_clause = resp.existence_clause;
        contract_version = resp.contract_version;
      })

  -- The restored comment, or the refusal of a statement that lost it.
  unfoldable pub restore_comment :
      Bytes → Bytes → List RewriteOption → Result Response → Result Response
  restore_comment sql comment opts (err e) = err e
  restore_comment sql comment opts (ok resp) =
      if not (is_success resp.code)
      then ok (record resp { sql_after_rewrite = sql })
      else elim (append_view_comment resp.sql_after_rewrite comment) [
        | some out ↦ ok (record resp { sql_after_rewrite = out })
        | none ↦ seal_create_table_empty resp sql opts view_comment_not_restored
      ]

  unfoldable pub restored_empty :
      Response → Bytes → List RewriteOption → Result Bytes → Result Response
  restored_empty resp sql opts (ok out) = ok (record resp { sql_after_rewrite = out })
  restored_empty resp sql opts (err e) = seal_create_table_empty resp sql opts e

  -- Behind the rewrite of a statement that lost its EMPTY, or whose EMPTY could not be looked for.
  unfoldable pub restore_empty :
      Bytes → List RewriteOption → Option Bytes → Result Response → Result Response
  restore_empty sql opts strip_error (err e) = err e
  restore_empty sql opts strip_error (ok resp) =
      if not (is_success resp.code)
      then ok (record resp { sql_after_rewrite = sql })
      else elim strip_error [
        | some e ↦ seal_create_table_empty resp sql opts e
        | none ↦ restored_empty resp sql opts (E.insert_create_table_empty resp.sql_after_rewrite)
      ]

  unfoldable pub rewrite_stripped :
      Bytes → List RewriteOption → Bytes × Bool × Option Bytes → Result Response
  rewrite_stripped sql opts (stripped, false, none) = rewrite_statement E sql opts
  rewrite_stripped sql opts (stripped, true, none) =
      restore_empty sql opts none (rewrite_statement E stripped opts)
  rewrite_stripped sql opts (stripped, empty, some e) =
      restore_empty sql opts (some e) (rewrite_statement E (if empty then stripped else sql) opts)

  unfoldable pub do_rewrite : Bytes → List RewriteOption → Result Response
  do_rewrite sql opts = elim (E.strip_view_comment sql) [
    | some (stripped, comment) ↦
        restore_comment sql comment opts (rewrite_statement E stripped opts)
    | none ↦ rewrite_stripped sql opts (E.strip_create_table_empty sql)
  ]
