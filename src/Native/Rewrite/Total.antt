-- ===== src/Native/Rewrite/Total.antt =====
-- The whole rewrite, with the keyword and the comment that the parser cannot read.
use rewriter_go.Prelude.{
  List, ◌≡◌, refl, ◌⊎◌, inl, inr, Bool, true, false, Option, none, some, arith, Bool-cases,
  Option-cases,
}
use rewriter_go.Prelude.Text.{Bytes}
use rewriter_go.Nameresolve.Request.{RewriteOption}
use rewriter_go.Nameresolve.Selecting.{find_active}
use rewriter_go.Native.Response.{Response, Result, ok, err, is_success}
use rewriter_go.Native.Engine.{Engine}
use rewriter_go.Native.Finalize.{is_dynamic}
use rewriter_go.Native.Pipeline.{view_comment_not_restored, rewrite_statement}
use rewriter_go.Native.Pipeline.Sealed.{is_ok}
use rewriter_go.Native.Pipeline.Outcomes.{
  IsGated, rewrite_statement_dynamic, rewrite_statement_success,
}
use rewriter_go.Native.Rewrite.{
  seal_create_table_empty, restore_comment, restored_empty, restore_empty, rewrite_stripped,
  do_rewrite,
}

module _ (E : Engine) (sql : Bytes) (opts : List RewriteOption) where
  -- In dynamic mode the seal answers, and never with a Success.
  seal_ok :
      (resp : Response) (cause : Bytes)
      → is_dynamic (find_active opts) ≡ true
      → is_ok (seal_create_table_empty E resp sql opts cause) ≡ true
  unfolding seal_create_table_empty
  seal_ok resp cause dynamic = ground arith

  seal_fails :
      (resp out : Response) (cause : Bytes)
      → seal_create_table_empty E resp sql opts cause ≡ ok out
      → is_success out.code ≡ false
  unfolding seal_create_table_empty
  seal_fails resp out cause e = elim (Bool-cases (is_dynamic (find_active opts))) [
    | inl dynamic ↦ ground arith
    | inr other ↦ absurd (ground arith)
  ]

  restore_comment_ok :
      (comment : Bytes) (res : Result Response)
      → is_dynamic (find_active opts) ≡ true
      → is_ok res ≡ true
      → is_ok (restore_comment E sql comment opts res) ≡ true
  unfolding restore_comment
  restore_comment_ok comment (err m) dynamic h = h
  restore_comment_ok comment (ok resp) dynamic h =
      ground (arith, seal_ok resp view_comment_not_restored dynamic)

  restored_empty_ok :
      (resp : Response) (out : Result Bytes)
      → is_dynamic (find_active opts) ≡ true
      → is_ok (restored_empty E resp sql opts out) ≡ true
  unfolding restored_empty
  restored_empty_ok resp (ok out) dynamic = refl
  restored_empty_ok resp (err m) dynamic = seal_ok resp m dynamic

  restore_empty_ok :
      (strip_error : Option Bytes) (res : Result Response)
      → is_dynamic (find_active opts) ≡ true
      → is_ok res ≡ true
      → is_ok (restore_empty E sql opts strip_error res) ≡ true
  unfolding restore_empty
  restore_empty_ok strip_error (err m) dynamic h = h
  restore_empty_ok none (ok resp) dynamic h =
      ground
        (arith, restored_empty_ok resp (E.insert_create_table_empty resp.sql_after_rewrite) dynamic)
  restore_empty_ok (some m) (ok resp) dynamic h = ground (arith, seal_ok resp m dynamic)

  -- What a step that puts the keyword or the comment back keeps: a Success comes from one.
  comment_gated :
      (comment : Bytes) (res : Result Response) (out : Response)
      → restore_comment E sql comment opts res ≡ ok out
      → is_success out.code ≡ true
      → (resp : Response) × (res ≡ ok resp) × (is_success resp.code ≡ true)
  unfolding restore_comment
  comment_gated comment (err m) out e h = absurd (ground arith)
  comment_gated comment (ok resp) out e h =
      (resp, refl, ground (arith, seal_fails resp out view_comment_not_restored))

  empty_gated :
      (strip_error : Option Bytes) (res : Result Response) (out : Response)
      → restore_empty E sql opts strip_error res ≡ ok out
      → is_success out.code ≡ true
      → (resp : Response) × (res ≡ ok resp) × (is_success resp.code ≡ true)
  unfolding restore_empty
  empty_gated strip_error (err m) out e h = absurd (ground arith)
  empty_gated strip_error (ok resp) out e h = (resp, refl, ground arith)

  stripped_ok :
      (s : Bytes × Bool × Option Bytes)
      → is_dynamic (find_active opts) ≡ true
      → is_ok (rewrite_stripped E sql opts s) ≡ true
  unfolding rewrite_stripped
  stripped_ok (text, false, none) dynamic = rewrite_statement_dynamic E sql opts dynamic
  stripped_ok (text, true, none) dynamic =
      restore_empty_ok none _ dynamic (rewrite_statement_dynamic E text opts dynamic)
  stripped_ok (text, false, some m) dynamic =
      restore_empty_ok (some m) _ dynamic (rewrite_statement_dynamic E sql opts dynamic)
  stripped_ok (text, true, some m) dynamic =
      restore_empty_ok (some m) _ dynamic (rewrite_statement_dynamic E text opts dynamic)

  -- In dynamic mode the whole rewrite always answers with a response, never with an error, also where
  -- a keyword or a comment that was taken out cannot be put back.
  pub do_rewrite_dynamic :
      is_dynamic (find_active opts) ≡ true → is_ok (do_rewrite E sql opts) ≡ true
  unfolding do_rewrite
  do_rewrite_dynamic dynamic = elim (Option-cases (E.strip_view_comment sql)) [
    | inl plain ↦ ground (arith, stripped_ok (E.strip_create_table_empty sql) dynamic)
    | inr ((text, comment), found) ↦
        let answered = rewrite_statement_dynamic E text opts dynamic in
        ground (arith, restore_comment_ok comment (rewrite_statement E text opts) dynamic answered)
  ]

  -- The statement, or what is left of it without the comment or the keyword.
  abbrev pub IsRemnant : Bytes → Type 0
  IsRemnant text =
      (text ≡ sql)
      ⊎ (((comment : Bytes) × (E.strip_view_comment sql ≡ some (text, comment)))
          ⊎ (text ≡ (E.strip_create_table_empty sql).0))

  abbrev GatedText : Type 0
  GatedText = (text : Bytes) × IsRemnant text × IsGated E text opts (find_active opts)

  gated_text :
      (text : Bytes) (resp : Response)
      → IsRemnant text
      → rewrite_statement E text opts ≡ ok resp
      → is_success resp.code ≡ true
      → GatedText
  gated_text text resp left e h = (text, left, rewrite_statement_success E text opts resp e h)

  stripped_gated :
      (s : Bytes × Bool × Option Bytes) (out : Response)
      → s.0 ≡ (E.strip_create_table_empty sql).0
      → rewrite_stripped E sql opts s ≡ ok out
      → is_success out.code ≡ true
      → GatedText
  unfolding rewrite_stripped
  stripped_gated (text, false, none) out same e h = gated_text sql out (inl refl) e h
  stripped_gated (text, true, none) out same e h =
      let (resp, from, passed) = empty_gated none _ out e h in
      gated_text text resp (inr (inr same)) from passed
  stripped_gated (text, true, some m) out same e h =
      let (resp, from, passed) = empty_gated (some m) _ out e h in
      gated_text text resp (inr (inr same)) from passed
  stripped_gated (text, false, some m) out same e h =
      let (resp, from, passed) = empty_gated (some m) _ out e h in
      gated_text sql resp (inl refl) from passed

  -- A Success of the whole rewrite rests on a text, the statement or what is left of it without the
  -- view comment or the keyword, that was parsed, in full, that the preflight let pass, whose
  -- regenerated text spells it, and in which, in dynamic mode, no deployment-identity name stands.
  pub do_rewrite_success :
      (out : Response)
      → do_rewrite E sql opts ≡ ok out
      → is_success out.code ≡ true
      → (text : Bytes) × IsRemnant text × IsGated E text opts (find_active opts)
  unfolding do_rewrite
  do_rewrite_success out e h = elim (Option-cases (E.strip_view_comment sql)) [
    | inl plain ↦ stripped_gated (E.strip_create_table_empty sql) out refl (ground arith) h
    | inr ((text, comment), found) ↦
        let (resp, from, passed) =
          comment_gated comment (rewrite_statement E text opts) out (ground arith) h in
        gated_text text resp (inr (inl (comment, found))) from passed
  ]
