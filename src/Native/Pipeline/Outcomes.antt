-- ===== src/Native/Pipeline/Outcomes.antt =====
-- When the pipeline of one statement fails, and what stands behind its Success.
use rewriter_go.Prelude.{
  List, ◌≡◌, ◌⊎◌, refl, inl, inr, Bool, true, false, ◌&&◌, Option, none, some, arith, Bool-cases,
  Option-cases,
}
use rewriter_go.Prelude.Text.{Bytes}
use rewriter_go.Nameresolve.Request.{RewriteOption, ContractVersion}
use rewriter_go.Nameresolve.Selecting.{Selection, mode_none, mode_static, mode_dynamic, find_active}
use rewriter_go.Native.Response.{unsupported_statement, Response, Result, ok, err, is_success}
use rewriter_go.Nameresolve.Contract.{storage_integrity_unmodelled_message}
use rewriter_go.Native.Gates.{unsupported_statement_message}
use rewriter_go.Native.Engine.{Engine, Handled, failed, not_handled, handled}
use rewriter_go.Native.Finalize.{
  is_dynamic, is_specified, success_verdict, reject_system_tables_on_success, regenerated_verdict,
}
use rewriter_go.Native.Finalize.Refusals.{finalize_verdict}
use rewriter_go.Native.Pipeline.{
  Run, finish, refuse_statement, is_live_view, has_error, seal, phase, phases, parsed, parse,
  run_of, answer, rewrite_statement, admit, Admission, admitted, wrong_contract, invalid_config,
}
use rewriter_go.Native.Pipeline.Sealed.{is_ok, parsed-Leaves, Leaves-ok, Leaves-dynamic}

abbrev is_nothing : Result (Option Bytes) → Bool
is_nothing (ok none) = true
is_nothing _ = false

abbrev nothing_wrong : Option Bytes → Bool
nothing_wrong none = true
nothing_wrong (some _) = false

regenerated_passes :
    (resp : Response) (sql : Bytes) (sel : Selection) (checked : Option Bytes)
    (name : Result (Option Bytes))
    → regenerated_verdict resp sql sel checked name ≡ none
    → (checked ≡ none) × (is_dynamic sel ≡ true → name ≡ ok none)
unfolding regenerated_verdict
regenerated_passes resp sql sel (some _) name h = absurd (cc)
regenerated_passes resp sql mode_none none name h = (refl, λ d. absurd (cc))
regenerated_passes resp sql (mode_static a) none name h = (refl, λ d. absurd (cc))
regenerated_passes resp sql (mode_dynamic a) none (err _) h = absurd (cc)
regenerated_passes resp sql (mode_dynamic a) none (ok none) h = (refl, λ d. refl)
regenerated_passes resp sql (mode_dynamic a) none (ok (some name)) h = absurd (cc)

-- A phase that took no part in a Success, or answered with one.
abbrev pub IsPassed : Handled → Type 0
IsPassed h =
    (h ≡ not_handled) ⊎ ((resp : Response) × (h ≡ handled resp) × (is_success (resp.code) ≡ true))

module _ (E : Engine) where
  -- What a Success rests on: the statement was parsed, in full; the preflight let it pass; its
  -- regenerated text spells the input; and, in dynamic mode, no deployment-identity name stands in it.
  pub record IsGated (sql : Bytes) (opts : List RewriteOption) (sel : Selection) : Type 0 where
    pub ast : E.Ast
    pub parsed_to : E.parse_one sql ≡ ok ast
    pub in_full : E.check_parsed_in_full sql ast ≡ none
    pub preflighted : IsPassed (E.preflight_table_references ast sql opts)
    pub regenerated : E.check_regenerated sql ast ≡ none
    pub anonymous : is_dynamic sel ≡ true → E.first_deployment_identity_name ast sql ≡ ok none

  verdict_passes :
      (ast : E.Ast) (sql : Bytes) (sel : Selection) (resp : Response)
      → success_verdict E ast sql sel resp ≡ none
      → (E.check_regenerated sql ast ≡ none)
        × (is_dynamic sel ≡ true → E.first_deployment_identity_name ast sql ≡ ok none)
  unfolding success_verdict
  verdict_passes ast sql sel resp h =
      regenerated_passes resp sql sel (E.check_regenerated sql ast)
        (E.first_deployment_identity_name ast sql)
        (elim (Option-cases (reject_system_tables_on_success E ast sql sel resp)) [
          | inl passed ↦ ground arith
          | inr (refused, stopped) ↦ absurd (ground arith)
        ])

  finish_passes :
      (r : Run E) (resp : Response)
      → is_success (finish E r resp).code ≡ true
      → (E.check_regenerated r.sql r.ast ≡ none)
        × (is_dynamic r.sel ≡ true → E.first_deployment_identity_name r.ast r.sql ≡ ok none)
  unfolding finish
  finish_passes r resp h =
      let stamped = record resp { existence_clause = r.ec; contract_version = r.version } in
      verdict_passes r.ast r.sql r.sel stamped
        (elim (Option-cases (success_verdict E r.ast r.sql r.sel stamped)) [
          | inl passed ↦ passed
          | inr (refused, stopped) ↦
              absurd (ground (arith, finalize_verdict E r.ast r.sql resp r.ec r.version r.sel))
        ])

  refused_fails :
      (r : Run E) (m : Bytes)
      → is_success (refuse_statement E r unsupported_statement m).code ≡ false
  unfolding refuse_statement finish
  refused_fails r m = ground (
    arith,
    finalize_verdict E r.ast r.sql (record (r.base) { code = unsupported_statement; message = m })
        r.ec r.version r.sel,
  )

  -- A Success of the steps behind the parser was parsed in full.
  parsed_in_full :
      (r : Run E) (resp : Response)
      → parsed E r ≡ ok resp
      → is_success resp.code ≡ true
      → E.check_parsed_in_full r.sql r.ast ≡ none
  unfolding parsed
  parsed_in_full r resp e h =
      elim (Bool-cases
        (is_specified r.version && is_live_view (E.classify_live_view r.ast r.sql))) [
          | inl live ↦ absurd (ground (arith, refused_fails r storage_integrity_unmodelled_message))
          | inr other ↦ elim (Option-cases (E.check_parsed_in_full r.sql r.ast)) [
            | inl full ↦ full
            | inr (cause, partial) ↦
                absurd (ground (arith, refused_fails r unsupported_statement_message))
          ]
        ]

  sealed_fails :
      (r : Run E) (cause : Bytes) (resp : Response)
      → seal E r cause ≡ ok resp
      → is_success resp.code ≡ false
  unfolding seal
  sealed_fails r cause resp e = ground (
    arith,
    refused_fails r unsupported_statement_message,
    refused_fails r storage_integrity_unmodelled_message,
  )

  phase-IsPassed :
      (r : Run E) (h : Handled) (next : Result Response) (resp : Response)
      → phase E r h next ≡ ok resp
      → is_success resp.code ≡ true
      → IsPassed h
  unfolding phase finish
  phase-IsPassed r (failed cause) next resp e h =
      let fails = sealed_fails r cause resp e in absurd (ground arith)
  phase-IsPassed r not_handled next resp e h = inl refl
  phase-IsPassed r (handled from) next resp e h =
      let passed = finalize_verdict E r.ast r.sql from r.ec r.version r.sel in
      inr (from, refl, ground arith)

  phases-IsPassed :
      (r : Run E) (resp : Response)
      → phases E r ≡ ok resp
      → is_success resp.code ≡ true
      → IsPassed (E.preflight_table_references r.ast r.sql r.opts)
  unfolding phases
  phases-IsPassed r resp e h =
      phase-IsPassed r (E.preflight_table_references r.ast r.sql r.opts) _ resp e h

  parsed-IsPassed :
      (r : Run E) (resp : Response)
      → parsed E r ≡ ok resp
      → is_success resp.code ≡ true
      → IsPassed (E.preflight_table_references r.ast r.sql r.opts)
  unfolding parsed
  parsed-IsPassed r resp e h =
      elim (Bool-cases
        (is_specified r.version && is_live_view (E.classify_live_view r.ast r.sql))) [
          | inl live ↦ absurd (ground (arith, refused_fails r storage_integrity_unmodelled_message))
          | inr other ↦ elim (Bool-cases (has_error (E.check_parsed_in_full r.sql r.ast))) [
            | inl partial ↦ absurd (ground (arith, refused_fails r unsupported_statement_message))
            | inr full ↦ phases-IsPassed r resp (ground arith) h
          ]
        ]

  parse_dynamic :
      (sql : Bytes) (opts : List RewriteOption) (version : ContractVersion) (tree : Result E.Ast)
      → is_dynamic (find_active opts) ≡ true
      → is_ok (parse E sql opts version tree) ≡ true
  unfolding parse run_of
  parse_dynamic sql opts version (err e) dynamic = refl
  parse_dynamic sql opts version (ok ast) dynamic =
      Leaves-dynamic E (parsed-Leaves E (run_of E ast sql opts version)) dynamic

  answer_dynamic :
      (sql : Bytes) (opts : List RewriteOption) (a : Admission)
      → is_dynamic (find_active opts) ≡ true
      → is_ok (answer E sql opts a) ≡ true
  unfolding answer
  answer_dynamic sql opts wrong_contract dynamic = refl
  answer_dynamic sql opts (invalid_config version e) dynamic = refl
  answer_dynamic sql opts (admitted version) dynamic =
      parse_dynamic sql opts version (E.parse_one sql) dynamic

  -- In dynamic mode the pipeline always answers with a response: no failure of the engine or of a
  -- handler leaves as an error, on which a caller would forward the statement as it is.
  pub rewrite_statement_dynamic :
      (sql : Bytes) (opts : List RewriteOption)
      → is_dynamic (find_active opts) ≡ true
      → is_ok (rewrite_statement E sql opts) ≡ true
  unfolding rewrite_statement
  rewrite_statement_dynamic sql opts dynamic =
      answer_dynamic sql opts (admit (find_active opts)) dynamic

  run-IsGated :
      (r : Run E) (resp : Response)
      → E.parse_one r.sql ≡ ok r.ast
      → parsed E r ≡ ok resp
      → is_success resp.code ≡ true
      → IsGated r.sql r.opts r.sel
  run-IsGated r resp tree e h =
      let (from, left) = Leaves-ok E (parsed-Leaves E r) resp e in
      let (spells, unnamed) = finish_passes r from (ground arith) in
      record {
        ast = r.ast;
        parsed_to = tree;
        in_full = parsed_in_full r resp e h;
        preflighted = parsed-IsPassed r resp e h;
        regenerated = spells;
        anonymous = unnamed;
      }

  parse-IsGated :
      (sql : Bytes) (opts : List RewriteOption) (version : ContractVersion) (tree : Result E.Ast)
      (resp : Response)
      → E.parse_one sql ≡ tree
      → parse E sql opts version tree ≡ ok resp
      → is_success resp.code ≡ true
      → IsGated sql opts (find_active opts)
  unfolding parse run_of
  parse-IsGated sql opts version (err m) resp tree e h = absurd (ground arith)
  parse-IsGated sql opts version (ok ast) resp tree e h =
      run-IsGated (run_of E ast sql opts version) resp tree e h

  -- An answer that is a Success was admitted, and rests on the checks.
  pub answer-IsGated :
      (sql : Bytes) (opts : List RewriteOption) (a : Admission) (resp : Response)
      → answer E sql opts a ≡ ok resp
      → is_success resp.code ≡ true
      → ((version : ContractVersion) × (a ≡ admitted version)) × IsGated sql opts (find_active opts)
  unfolding answer
  answer-IsGated sql opts wrong_contract resp e h = absurd (ground arith)
  answer-IsGated sql opts (invalid_config version m) resp e h = absurd (ground arith)
  answer-IsGated sql opts (admitted version) resp e h =
      ((version, refl), parse-IsGated sql opts version (E.parse_one sql) resp refl e h)

  -- Whatever handler built it, a Success of the pipeline rests on all of these checks, in every mode:
  -- the statement was parsed, in full, the preflight let it pass, its regenerated text spells the
  -- input, and in dynamic mode no deployment-identity name stands in it.
  pub rewrite_statement_success :
      (sql : Bytes) (opts : List RewriteOption) (resp : Response)
      → rewrite_statement E sql opts ≡ ok resp
      → is_success resp.code ≡ true
      → IsGated sql opts (find_active opts)
  unfolding rewrite_statement
  rewrite_statement_success sql opts resp e h =
      (answer-IsGated sql opts (admit (find_active opts)) resp e h).1
