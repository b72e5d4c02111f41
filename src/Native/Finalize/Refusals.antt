-- ===== src/Native/Finalize/Refusals.antt =====
-- What `finalize` lets through, and what a refusal looks like.
use rewriter_go.Prelude.{
  ◌≡◌, refl, ◌≢◌, inl, inr, Bool, true, false, not, ◌&&◌, List, [], Option, none, some, arith,
  if◌then◌else◌, is_some, Bool-cases, Option-cases,
}
use rewriter_go.Prelude.Text.{Bytes, codes, ◌==◌, eq_iff}
use rewriter_go.Nameresolve.Request.{DynamicArgs, ContractVersion}
use rewriter_go.Nameresolve.Messages.{system_table_refused_message}
use rewriter_go.Nameresolve.Selecting.{Selection, mode_none, mode_static, mode_dynamic}
use rewriter_go.Native.Response.{
  Response, Result, ok, err, is_success, unsupported_statement, ExistenceClause, type_unspecified,
}
use rewriter_go.Native.Engine.{Engine, ObjectRef}
use rewriter_go.Native.Gates.{
  nothing_found, scan_refs, reject_system_table, record_accessed_write,
  record_accessed_write_unique, with_message, without_rewrites,
}
use rewriter_go.Native.Finalize.{
  system_tables_verdict, regenerated_verdict, reject_message, reject_system_tables_on_success,
  annotate_reject, success_verdict, settle_reject, finalize,
}

-- A verdict is a refusal: its code is no Success.
abbrev refuses : Option Response → Bool
refuses none = true
refuses (some resp) = not (is_success resp.code)

record_accessed_code :
    (resp : Response) (db table : Bytes) (sel : Selection)
    → (record_accessed_write_unique resp db table sel).code ≡ resp.code
unfolding record_accessed_write_unique record_accessed_write
record_accessed_code resp db table sel = ground arith

reject_system_table_refuses :
    (resp : Response) (table : Bytes) (sel : Selection)
    → is_success (reject_system_table resp table sel).code ≡ false
unfolding reject_system_table
reject_system_table_refuses resp table sel =
    let refused = record (without_rewrites resp) {
      code = unsupported_statement;
      message = system_table_refused_message table;
    } in
    ground (arith, record_accessed_code refused (codes "system") table sel)

system_tables_refuses :
    (a : DynamicArgs) (resp : Response) (sql : Bytes) (refs : Result (List ObjectRef))
    → refuses (system_tables_verdict a resp sql refs) ≡ true
unfolding system_tables_verdict
system_tables_refuses a resp sql (err _) = refl
system_tables_refuses a resp sql (ok refs) = ground (
  arith,
  reject_system_table_refuses resp (scan_refs a nothing_found refs).table (mode_dynamic a),
)

regenerated_refuses :
    (resp : Response) (sql : Bytes) (sel : Selection) (checked : Option Bytes)
    (name : Result (Option Bytes))
    → refuses (regenerated_verdict resp sql sel checked name) ≡ true
unfolding regenerated_verdict
regenerated_refuses resp sql sel (some _) name = refl
regenerated_refuses resp sql mode_none none name = refl
regenerated_refuses resp sql (mode_static _) none name = refl
regenerated_refuses resp sql (mode_dynamic a) none (err _) = refl
regenerated_refuses resp sql (mode_dynamic a) none (ok none) = refl
regenerated_refuses resp sql (mode_dynamic a) none (ok (some name)) = refl

with_message_code : (resp : Response) (m : Option Bytes) → (with_message resp m).code ≡ resp.code
with_message_code resp none = refl
with_message_code resp (some m) = refl

with_message_type :
    (resp : Response) (m : Option Bytes)
    → ((with_message resp m).statement_type ≡ resp.statement_type)
      × ((with_message resp m).sql_after_rewrite ≡ resp.sql_after_rewrite)
with_message_type resp none = (refl, refl)
with_message_type resp (some m) = (refl, refl)

module _ (E : Engine) (ast : E.Ast) (sql : Bytes) where
  verdict_refuses :
      (sel : Selection) (resp : Response) → refuses (success_verdict E ast sql sel resp) ≡ true
  unfolding success_verdict reject_system_tables_on_success
  verdict_refuses mode_none resp = regenerated_refuses resp sql mode_none _ _
  verdict_refuses (mode_static a) resp = regenerated_refuses resp sql (mode_static a) _ _
  verdict_refuses (mode_dynamic a) resp = ground (
    arith,
    system_tables_refuses a resp sql (E.collect_object_refs ast sql),
    regenerated_refuses resp sql (mode_dynamic a) (E.check_regenerated sql ast)
        (E.first_deployment_identity_name ast sql),
  )

  annotate_keeps :
      (sel : Selection) (resp : Response)
      → ((annotate_reject E ast sql sel resp).code ≡ resp.code)
        × ((annotate_reject E ast sql sel resp).statement_type ≡ resp.statement_type)
        × ((annotate_reject E ast sql sel resp).sql_after_rewrite ≡ resp.sql_after_rewrite)
  unfolding annotate_reject
  annotate_keeps mode_none resp = (refl, refl, refl)
  annotate_keeps (mode_static a) resp = (refl, refl, refl)
  annotate_keeps (mode_dynamic a) resp =
      let m =
        reject_message a (E.name_refs_from_ast ast sql) (E.node_kind ast)
          (E.collect_select_tables ast) in
      ground (arith, with_message_code resp m, with_message_type resp m)

  settle_keeps :
      (version : ContractVersion) (sel : Selection) (resp : Response)
      → ((settle_reject E ast sql version sel resp).code ≡ resp.code)
        × ((settle_reject E ast sql version sel resp).statement_type ≡ type_unspecified)
        × ((settle_reject E ast sql version sel resp).sql_after_rewrite
            ≡ (if resp.sql_after_rewrite == [] then sql else resp.sql_after_rewrite))
  unfolding settle_reject
  settle_keeps version sel resp =
      let cleared = record resp {
        statement_type = type_unspecified;
        sql_after_rewrite = if resp.sql_after_rewrite == [] then sql else resp.sql_after_rewrite;
      } in
      ground (arith, annotate_keeps sel cleared)

  settled_shape :
      (version : ContractVersion) (sel : Selection) (resp : Response)
      → ((settle_reject E ast sql version sel resp).statement_type ≡ type_unspecified)
        × (sql ≢ [] → (settle_reject E ast sql version sel resp).sql_after_rewrite ≢ [])
  settled_shape version sel resp =
      let (_, untyped, text) = settle_keeps version sel resp in
      (untyped, λ given empty. ground (arith, eq_iff resp.sql_after_rewrite []))

  -- The code of a response behind `finalize`, by the verdict on it.
  pub finalize_verdict :
      (resp : Response) (ec : ExistenceClause) (version : ContractVersion) (sel : Selection)
      → is_success (finalize E resp ast sql ec version sel).code ≡ (
          is_success resp.code
          && not (
              is_some (
                success_verdict E ast sql sel
                  (record resp { existence_clause = ec; contract_version = version }))))
  unfolding finalize
  finalize_verdict resp ec version sel =
      let stamped = record resp { existence_clause = ec; contract_version = version } in
      elim (Option-cases (success_verdict E ast sql sel stamped)) [
        | inl passed ↦ ground (arith, settle_keeps version sel stamped)
        | inr (refused, stopped) ↦ ground (
          arith,
          settle_keeps version sel stamped,
          settle_keeps version sel refused,
          verdict_refuses sel stamped,
        )
      ]

  -- A response that does not leave as a Success carries no statement type and, unless the statement is
  -- empty, some SQL to run.
  pub finalize_refusal :
      (resp : Response) (ec : ExistenceClause) (version : ContractVersion) (sel : Selection)
      → is_success (finalize E resp ast sql ec version sel).code ≡ false
      → ((finalize E resp ast sql ec version sel).statement_type ≡ type_unspecified)
        × (sql ≢ [] → (finalize E resp ast sql ec version sel).sql_after_rewrite ≢ [])
  unfolding finalize
  finalize_refusal resp ec version sel h =
      let stamped = record resp { existence_clause = ec; contract_version = version } in
      elim (Bool-cases (is_success resp.code)) [
        | inl passing ↦ elim (Option-cases (success_verdict E ast sql sel stamped)) [
          | inl passed ↦ absurd (ground arith)
          | inr (refused, stopped) ↦ rw (passing, stopped) (settled_shape version sel refused)
        ]
        | inr rejected ↦ rw rejected (settled_shape version sel stamped)
      ]
