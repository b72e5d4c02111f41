-- ===== src/Handlers/Composition.antt =====
-- The preflight of internal/handlers, and the check of internal/engine that a statement was parsed in
-- full, in the pipeline of native.go.
use rewriter_go.Prelude.{List, Option, arith, inl, inr, none, some, true, ◌≡◌}
use rewriter_go.Engine.Whole.{NotInFull, Trees, check_parsed_in_full}
use rewriter_go.Handlers.Preflight.{preflight_table_references}
use rewriter_go.Handlers.Preflight.Admitted.{preflight_table_references_admits}
use rewriter_go.Handlers.Preflight.Policy.{IsAdmitted}
use rewriter_go.Handlers.Preflight.Refusals.{preflight_table_references-IsRefusal}
use rewriter_go.Handlers.Readers.{Readers}
use rewriter_go.Handlers.Settings.{check_session_set}
use rewriter_go.Nameresolve.Request.{DynamicArgs, RewriteOption}
use rewriter_go.Nameresolve.Selecting.{find_active, mode_dynamic}
use rewriter_go.Native.Engine.{Engine}
use rewriter_go.Native.Pipeline.Outcomes.{IsPassed}
use rewriter_go.Native.Response.{Response, is_success, ok}
use rewriter_go.Native.Rewrite.{do_rewrite}
use rewriter_go.Native.Rewrite.Total.{IsRemnant, do_rewrite_success}
use rewriter_go.Prelude.Text.{Bytes}

-- The pipeline whose preflight is that of internal/handlers, over these readers.
abbrev pub preflighted : (E : Engine) → Readers E.Ast → Engine
preflighted E I = record E {
  node_kind = I.node_kind;
  collect_object_refs = I.collect_object_refs;
  preflight_table_references = preflight_table_references I;
  check_session_set = check_session_set I.tokenize_raw;
}

module _ (E : Engine) (I : Readers E.Ast) where
  passed-IsAdmitted :
      (ast : E.Ast) (text : Bytes) (opts : List RewriteOption) (a : DynamicArgs)
      → find_active opts ≡ mode_dynamic a
      → IsPassed (preflight_table_references I ast text opts)
      → IsAdmitted I ast text a
  passed-IsAdmitted ast text opts a e (inl passed) =
      (preflight_table_references_admits I ast text opts a e).0 passed
  passed-IsAdmitted ast text opts a e (inr (resp, answered, succeeded)) =
      let refusal = preflight_table_references-IsRefusal I ast text opts resp answered in
      absurd (ground arith)

  -- A Success of the whole rewrite in dynamic mode, whichever handler built it, rests on a statement
  -- that the policy on table references admits: the statement, or what is left of it without the
  -- view comment or the keyword.
  pub do_rewrite-IsAdmitted :
      (sql : Bytes) (opts : List RewriteOption) (a : DynamicArgs) (out : Response)
      → find_active opts ≡ mode_dynamic a
      → do_rewrite (preflighted E I) sql opts ≡ ok out
      → is_success out.code ≡ true
      → (text : Bytes) × IsRemnant (preflighted E I) sql opts text
        × ((ast : E.Ast) × (E.parse_one text ≡ ok ast) × IsAdmitted I ast text a)
  do_rewrite-IsAdmitted sql opts a out dynamic e h =
      let (text, left, gated) = do_rewrite_success (preflighted E I) sql opts out e h in
      (
        text,
        left,
        (
          gated.ast,
          gated.parsed_to,
          passed-IsAdmitted gated.ast text opts a dynamic gated.preflighted,
        ),
      )

abbrev pub with_text : (NotInFull → Bytes) → Option NotInFull → Option Bytes
with_text error_of none = none
with_text error_of (some why) = some (error_of why)

-- The pipeline that checks with these trees whether a statement was parsed in full; `error_of` is the
-- text of its error.
abbrev pub read_whole : (E : Engine) → Trees E.Ast → (NotInFull → Bytes) → Engine
read_whole E T error_of = record E {
  parse_one = T.parse_one;
  node_kind = T.node_kind;
  check_parsed_in_full = λ sql ast. with_text error_of (check_parsed_in_full T sql ast);
}
