-- ===== src/Native/Connection/Hiding.antt =====
-- What an error text that is handed out does not name.
use mathlib.Core.Path.{subst}
use rewriter_go.Prelude.{
  List, [], ◌∷◌, ◌≡◌, refl, sym, ◌∙◌, ap, ◌≢◌, ◌⊎◌, inl, inr, Bool, true, false, not, ◌&&◌, ◌||◌,
  none, some, arith, any, Bool-cases, Option-cases, is_some,
}
use rewriter_go.Prelude.Text.{Bytes, ◌==◌, eq_iff, contains}
use rewriter_go.Prelude.Dict.{Dict, lookup, has_key}
use rewriter_go.Nameresolve.Request.{DynamicArgs, RewriteOption, Upstream}
use rewriter_go.Nameresolve.Namespaces.{protected_database}
use rewriter_go.Nameresolve.Selecting.{Selection, mode_dynamic, find_active}
use rewriter_go.Nameresolve.Hidden.{hidden_names, hidden_names_of}
use rewriter_go.Nameresolve.Hidden.Identifiers.{hidden_identifiers_dynamic}
use rewriter_go.Nameresolve.Hidden.Literals.{long, hidden_names_of-IsHidden}
use rewriter_go.Reverse.Withheld.{index, contains_identifier, mentions_hidden, withheld_message}
use rewriter_go.Native.Response.{Response, Result, ok, err, is_success}
use rewriter_go.Native.Engine.{Engine}
use rewriter_go.Native.Rewrite.{do_rewrite}
use rewriter_go.Native.Connection.{
  CallContext, Connection, context_of, options_for, stash_result, rewrite, screened, invert_last,
  rewrite_error_message, service_verdict, service_rewrite_error_message,
}

any-false :
    (p : Bytes → Bool) (x : Bytes) (xs : List Bytes)
    → any p xs ≡ false
    → contains x xs ≡ true
    → p x ≡ false
unfolding contains
any-false p x [] h k = absurd (ground arith)
any-false p x (y ∷ ys) h k = ground (arith, eq_iff y x, any-false p x ys)

-- A database that is protected, and that the caller has no name for.
abbrev pub is_foreign : DynamicArgs → Bytes → Bool
is_foreign a db =
    protected_database db a
    && not (a.upstream_logical_database_in_context == db || has_key db a.database_map)

-- A text that names no such database as an identifier, and no password of a remote upstream that is
-- long enough to be looked for.
abbrev pub IsClean : DynamicArgs → Bytes → Type 0
IsClean a text =
    ((db : Bytes) → is_foreign a db ≡ true → contains_identifier text db ≡ false)
    × ((key : Bytes) (up : Upstream)
        → lookup key a.remote_upstreams ≡ some up
        → long up.password ≡ true
        → index text up.password ≡ none)

unmentioned_identifier :
    (s db : Bytes) (identifiers literals : List Bytes)
    → mentions_hidden s identifiers literals ≡ false
    → contains db identifiers ≡ true
    → contains_identifier s db ≡ false
unfolding mentions_hidden
unmentioned_identifier s db identifiers literals h k =
    any-false (λ ident. contains_identifier s ident) db identifiers (ground arith) k

unmentioned_literal :
    (s lit : Bytes) (identifiers literals : List Bytes)
    → mentions_hidden s identifiers literals ≡ false
    → contains lit literals ≡ true
    → (not (lit == []) && is_some (index s lit)) ≡ false
unfolding mentions_hidden
unmentioned_literal s lit identifiers literals h k =
    any-false (λ l. not (l == []) && is_some (index s l)) lit literals (ground arith) k

long_nonempty : (v : Bytes) → long v ≡ true → v == [] ≡ false
unfolding ◌==◌
long_nonempty [] h = absurd (ground arith)
long_nonempty (c ∷ v) h = refl

unmentioned-IsClean :
    (a : DynamicArgs) (s : Bytes)
    → (let names = hidden_names_of (mode_dynamic a) in
        mentions_hidden s (names.0) (names.1) ≡ false)
    → IsClean a s
unmentioned-IsClean a s h =
    let names = hidden_names_of (mode_dynamic a) in
    (
      λ db foreign.
          unmentioned_identifier s db (names.0) (names.1) h
            (hidden_identifiers_dynamic db a ∙ foreign),
      λ key up found secret. ground (
        arith,
        unmentioned_literal s up.password (names.0) (names.1) h
            ((hidden_names_of-IsHidden a key up found).1 secret),
        long_nonempty up.password secret,
      ),
    )

screened-IsClean :
    (inverted out : Bytes) (opts : List RewriteOption) (a : DynamicArgs)
    → find_active opts ≡ mode_dynamic a
    → screened inverted opts ≡ some out
    → IsClean a out
unfolding screened hidden_names
screened-IsClean inverted out opts a dynamic h =
    let m : Selection → Bool =
      λ sel. mentions_hidden inverted ((hidden_names_of sel).0) ((hidden_names_of sel).1) in
    elim (Bool-cases (m (find_active opts))) [
      | inl mentions ↦ absurd (ground arith)
      | inr silent ↦
          let same : inverted ≡ out = ground arith in
          subst (IsClean a) same (unmentioned-IsClean a inverted (ap m (sym dynamic) ∙ silent))
    ]

-- An error, or a response that is no Success.
abbrev pub has_failed : Result Response → Bool
has_failed (err m) = true
has_failed (ok resp) = not (is_success resp.code)

-- What may be handed out for a request: the withheld message, or a clean text.
abbrev pub IsSafeText : DynamicArgs → Bytes → Type 0
IsSafeText a text = (text ≡ withheld_message) ⊎ IsClean a text

module _ (E : Engine) (invert : Bytes → Bytes → Bytes → Dict Bytes → Dict Bytes → Bytes) where
  invert_last_safe :
      (message : Bytes) (last : CallContext) (a : DynamicArgs)
      → find_active last.options ≡ mode_dynamic a
      → IsSafeText a (invert_last E invert message last)
  unfolding invert_last
  invert_last_safe message last a dynamic =
      let inverted =
        invert message last.sql last.sql_after_rewrite last.table_rewrites last.database_rewrites in
      elim (Bool-cases (is_success last.code)) [
        | inl passed ↦ elim (Option-cases (screened inverted last.options)) [
          | inl stopped ↦ inl (ground arith)
          | inr (out, screened_to) ↦ inr (
              rw (passed, screened_to)
                (screened-IsClean inverted out last.options a dynamic screened_to))
        ]
        | inr failed ↦ inl (ground arith)
      ]

  invert_last_failed :
      (message : Bytes) (last : CallContext)
      → is_success last.code ≡ false
      → invert_last E invert message last ≡ withheld_message
  unfolding invert_last
  invert_last_failed message last failed = ground arith

  service_verdict_safe :
      (msg sql : Bytes) (opts : List RewriteOption) (a : DynamicArgs) (res : Result Response)
      → find_active opts ≡ mode_dynamic a
      → IsSafeText a ((service_verdict E invert msg sql opts res).error_after_rewrite)
  unfolding service_verdict
  service_verdict_safe msg sql opts a (err m) dynamic = inl refl
  service_verdict_safe msg sql opts a (ok resp) dynamic =
      let inverted =
        invert msg sql resp.sql_after_rewrite resp.table_rewrites resp.database_rewrites in
      elim (Bool-cases (is_success resp.code)) [
        | inl passed ↦ elim (Option-cases (screened inverted opts)) [
          | inl stopped ↦ inl (ground arith)
          | inr (out, screened_to) ↦
              let clean = screened-IsClean inverted out opts a dynamic screened_to in
              let handed : (service_verdict E invert msg sql opts (ok resp)).error_after_rewrite
                  ≡ out =
                ground arith in
              inr (subst (IsClean a) (sym handed) clean)
        ]
        | inr failed ↦ inl (ground arith)
      ]

  -- After a call that rewrote under dynamic options, the error text handed out for a message that is
  -- not empty is, whatever the inversion does, the withheld message or a clean text: one that names no
  -- protected database the caller has no name for, and no password of a remote upstream of four bytes
  -- or more. Where the rewrite was no Success, it is the withheld message.
  pub rewrite_error_message_safe :
      (c : Connection) (sql account message : Bytes) (resp : Response) (a : DynamicArgs)
      → find_active (options_for c account) ≡ mode_dynamic a
      → do_rewrite E sql (options_for c account) ≡ ok resp
      → message ≢ []
      → IsSafeText a (rewrite_error_message E invert ((rewrite E invert c sql account).0) message)
        × (is_success resp.code ≡ false
            → rewrite_error_message E invert ((rewrite E invert c sql account).0) message
              ≡ withheld_message)
  unfolding rewrite_error_message rewrite stash_result
  rewrite_error_message_safe c sql account message resp a dynamic answered given =
      let last = context_of sql account (options_for c account) resp in
      let handed : rewrite_error_message E invert ((rewrite E invert c sql account).0) message
          ≡ invert_last E invert message last =
        ground (arith, eq_iff message []) in
      (
        subst (IsSafeText a) (sym handed) (invert_last_safe message last a dynamic),
        λ failed. handed ∙ invert_last_failed message last failed,
      )

  service_verdict_failed :
      (msg sql : Bytes) (opts : List RewriteOption) (res : Result Response)
      → has_failed res ≡ true
      → (service_verdict E invert msg sql opts res).error_after_rewrite ≡ withheld_message
  unfolding service_verdict
  service_verdict_failed msg sql opts (err m) failed = refl
  service_verdict_failed msg sql opts (ok resp) failed = ground arith

  -- For a message and a statement that are not empty, under dynamic options, the stateless service
  -- hands out the withheld message or a clean text: one that names no protected database the caller
  -- has no name for, and no password of a remote upstream of four bytes or more. Where the rewrite
  -- fails or is no Success, it hands out the withheld message.
  pub service_rewrite_error_message_safe :
      (msg sql : Bytes) (opts : List RewriteOption) (a : DynamicArgs)
      → find_active opts ≡ mode_dynamic a
      → msg ≢ []
      → sql ≢ []
      → IsSafeText a ((service_rewrite_error_message E invert msg sql opts).error_after_rewrite)
        × (has_failed (do_rewrite E sql opts) ≡ true
            → (service_rewrite_error_message E invert msg sql opts).error_after_rewrite
              ≡ withheld_message)
  unfolding service_rewrite_error_message
  service_rewrite_error_message_safe msg sql opts a dynamic given stated =
      let verdict = service_verdict E invert msg sql opts (do_rewrite E sql opts) in
      let handed : (service_rewrite_error_message E invert msg sql opts).error_after_rewrite
          ≡ verdict.error_after_rewrite =
        ground (arith, eq_iff msg [], eq_iff sql []) in
      (
        subst (IsSafeText a) (sym handed)
            (service_verdict_safe msg sql opts a (do_rewrite E sql opts) dynamic),
        λ failed. handed ∙ service_verdict_failed msg sql opts (do_rewrite E sql opts) failed,
      )
