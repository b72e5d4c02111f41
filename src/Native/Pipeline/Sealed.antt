-- ===== src/Native/Pipeline/Sealed.antt =====
-- Every statement that is parsed leaves through `finalize`, or, outside dynamic mode, as an error.
use rewriter_go.Prelude.{◌≡◌, refl, inl, inr, Bool, true, false, ◌&&◌, arith, Bool-cases}
use rewriter_go.Prelude.Text.{Bytes}
use rewriter_go.Native.Response.{unsupported_statement, Response, Result, ok, err}
use rewriter_go.Native.Gates.{unsupported_statement_message}
use rewriter_go.Native.Engine.{
  Engine, Handled, failed, not_handled, handled, SessionSet, not_set, refused_set, plain_set,
}
use rewriter_go.Native.Classify.{is_query_kind}
use rewriter_go.Native.Finalize.{is_dynamic, is_specified}
use rewriter_go.Native.Pipeline.{
  Run, finish, refuse_statement, seal, session_set, generate_success, unmodelled, select_outcome,
  last_phase, phase, phases, has_error, is_live_view, parsed,
}

abbrev pub is_ok : Result Response → Bool
is_ok (ok _) = true
is_ok (err _) = false

module _ (E : Engine) where
  -- A result of the steps behind the parser: a finished response, or the error of a request that is
  -- not dynamic.
  pub data Leaves (r : Run E) : Result Response → Type 0 where
    finished : (resp : Response) → Leaves r (ok (finish E r resp))
    legacy : (cause : Bytes) → is_dynamic r.sel ≡ false → Leaves r (err cause)

  seal-Leaves : (r : Run E) (cause : Bytes) → Leaves r (seal E r cause)
  unfolding seal refuse_statement
  seal-Leaves r cause = elim (Bool-cases (is_specified r.version)) [
    | inl specified ↦ rw specified (finished _)
    | inr unspecified ↦ elim (Bool-cases (is_dynamic r.sel)) [
      | inl dynamic ↦ rw (unspecified, dynamic) (finished _)
      | inr other ↦ rw (unspecified, other) (legacy cause other)
    ]
  ]

  phase-Leaves :
      (r : Run E) (h : Handled) (next : Result Response)
      → Leaves r next
      → Leaves r (phase E r h next)
  unfolding phase
  phase-Leaves r (failed e) next l = seal-Leaves r e
  phase-Leaves r not_handled next l = l
  phase-Leaves r (handled resp) next l = finished resp

  unmodelled-Leaves : (r : Run E) → Leaves r (ok (unmodelled E r))
  unfolding unmodelled refuse_statement generate_success
  unmodelled-Leaves r = elim (Bool-cases (is_specified r.version)) [
    | inl specified ↦ rw specified (finished _)
    | inr unspecified ↦ elim (Bool-cases (is_dynamic r.sel)) [
      | inl dynamic ↦
          rw (unspecified, dynamic)
            (set_Leaves r (session_set E (E.node_kind r.ast) (E.command_sql r.ast)))
      | inr other ↦ rw (unspecified, other) (finished _)
    ]
  ]
    where
      set_Leaves :
          (r : Run E) (s : SessionSet)
          → Leaves r (
              ok (elim s [
                | not_set ↦ refuse_statement E r unsupported_statement unsupported_statement_message
                | refused_set code message ↦ refuse_statement E r code message
                | plain_set ↦ generate_success E r
              ]))
      set_Leaves r not_set = finished _
      set_Leaves r (refused_set code message) = finished _
      set_Leaves r plain_set = finished _

  select_outcome-Leaves : (r : Run E) (res : Result Response) → Leaves r (select_outcome E r res)
  unfolding select_outcome
  select_outcome-Leaves r (err e) = seal-Leaves r e
  select_outcome-Leaves r (ok resp) = finished resp

  last_phase-Leaves : (r : Run E) → Leaves r (last_phase E r)
  unfolding last_phase
  last_phase-Leaves r = elim (Bool-cases (is_query_kind (E.node_kind r.ast))) [
    | inl query ↦ rw query (select_outcome-Leaves r (E.rewrite_select r.ast r.opts r.sql))
    | inr other ↦ rw other (unmodelled-Leaves r)
  ]

  phases-Leaves : (r : Run E) → Leaves r (phases E r)
  unfolding phases
  phases-Leaves r = phase-Leaves r _ _ (
      phase-Leaves r _ _ (
        phase-Leaves r _ _
          (phase-Leaves r _ _ (phase-Leaves r _ _ (phase-Leaves r _ _ (last_phase-Leaves r))))))

  pub parsed-Leaves : (r : Run E) → Leaves r (parsed E r)
  unfolding parsed refuse_statement
  parsed-Leaves r =
      elim (Bool-cases
        (is_specified r.version && is_live_view (E.classify_live_view r.ast r.sql))) [
          | inl live ↦ rw live (finished _)
          | inr other ↦ elim (Bool-cases (has_error (E.check_parsed_in_full r.sql r.ast))) [
            | inl partial ↦ rw (other, partial) (finished _)
            | inr full ↦ rw (other, full) (phases-Leaves r)
          ]
        ]

  pub Leaves-ok :
      {r : Run E} {res : Result Response}
      → Leaves r res
      → (resp : Response) → res ≡ ok resp
      → (from : Response) × (resp ≡ finish E r from)
  Leaves-ok (finished from) resp e = (from, cc)
  Leaves-ok (legacy cause other) resp e = absurd (cc)

  pub Leaves-dynamic :
      {r : Run E} {res : Result Response}
      → Leaves r res
      → is_dynamic r.sel ≡ true
      → is_ok res ≡ true
  Leaves-dynamic (finished from) h = refl
  Leaves-dynamic (legacy cause other) h = ground arith
