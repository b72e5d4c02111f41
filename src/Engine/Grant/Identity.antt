-- ===== src/Engine/Grant/Identity.antt =====
-- The marker of a GRANT or REVOKE names the target that its tokens name.
use rewriter_go.Prelude.{
  Bool-cases, List, Option-cases, [], arith, false, if◌then◌else◌, inl, inr, not, refl, some, true,
  ◌||◌, ◌∷◌, ◌≡◌, ◌⊎◌,
}
use rewriter_go.Engine.Grant.{
  GrantNode, GrantNodes, GrantParse, decoded_parse, flat, from_node, from_tokens, grant_of_tokens,
  grant_verb, marked_parse, no_securable, parse_grant, quoted, strip_on_cluster, structured_parse,
  token_securable, tokens_have_replace_option, tokens_have_securable_on,
}
use rewriter_go.Engine.Tokens.{RawToken}
use rewriter_go.Nameescape.{run}
use rewriter_go.Native.Response.{Result, err, ok}
use rewriter_go.Prelude.Text.{Bytes, ◌==◌}

result_cases {ℓ} :
    {A : Type ℓ} (r : Result A) → ((x : A) × (r ≡ ok x)) ⊎ ((e : Bytes) × (r ≡ err e))
result_cases (ok x) = inl (x, refl)
result_cases (err e) = inr (e, refl)

verb_unset :
    (tok : RawToken) (toks : List RawToken) (gp : GrantParse)
    → grant_verb tok toks ≡ some gp
    → gp.structured ≡ false
unfolding grant_verb
verb_unset tok toks gp found = ground arith

module _ {Ast : Type 0} (G : GrantNodes Ast) where
  -- `gp.marker` is generated from the node of the generic parser under the name that `gp.target` is
  -- quoted to, and the node's own name is the flat spelling of `gp.target`.
  abbrev pub IsMarker : Bytes → List RawToken → GrantParse → Type 0
  IsMarker sql toks gp =
      (node : Ast) × (read : GrantNode) × (named : Ast) × (G.parse_generic
          (strip_on_cluster sql toks)
        ≡ ok node)
      × (G.decode_grant_node node ≡ ok read)
      × ((read.securable_name == flat gp.target) ≡ true)
      × (G.set_grant_securable_name node (quoted gp.target) ≡ ok named)
      × (G.generate named ≡ ok gp.marker)

  -- The statement is no ATTACH GRANT and no WITH REPLACE OPTION, and has a target, the one its tokens
  -- name.
  abbrev pub IsTargeted : List RawToken → GrantParse → Type 0
  IsTargeted toks gp =
      (gp.is_attach ≡ false)
      × (tokens_have_securable_on toks ≡ true)
      × (tokens_have_replace_option toks ≡ false)
      × (gp.target ≡ token_securable toks)

  abbrev pub finished : GrantParse → Bytes → GrantParse
  finished gp text = record gp { marker = text; structured = true }

  marked_structured :
      (node : Ast) (gp : GrantParse)
      → gp.structured ≡ false
      → (marked_parse G node gp).structured ≡ true
      → (named : Ast) × (text : Bytes) × (G.set_grant_securable_name node (quoted gp.target)
          ≡ ok named)
        × (G.generate named ≡ ok text)
        × (marked_parse G node gp ≡ finished gp text)
  unfolding marked_parse
  marked_structured node gp unset h =
      elim (result_cases (G.set_grant_securable_name node (quoted gp.target))) [
        | inr (e, fails) ↦ absurd (ground arith)
        | inl (named, set) ↦ elim (result_cases (G.generate named)) [
          | inr (e, fails) ↦ absurd (ground arith)
          | inl (text, made) ↦ (named, text, set, made, rw (marked_parse, set, made) refl)
        ]
      ]

  decoded_structured :
      (node : Ast) (gp : GrantParse)
      → gp.structured ≡ false
      → (decoded_parse G node gp).structured ≡ true
      → (read : GrantNode) × (named : Ast) × (text : Bytes) × (G.decode_grant_node node ≡ ok read)
        × ((read.securable_name == flat gp.target) ≡ true)
        × (G.set_grant_securable_name node (quoted gp.target) ≡ ok named)
        × (G.generate named ≡ ok text)
        × (decoded_parse G node gp ≡ finished (from_node read gp) text)
  unfolding decoded_parse from_node
  decoded_structured node gp unset h = elim (result_cases (G.decode_grant_node node)) [
    | inr (e, fails) ↦ absurd (ground arith)
    | inl (read, reads) ↦ elim (Bool-cases (read.securable_name == flat gp.target)) [
      | inr other ↦ absurd (ground arith)
      | inl same ↦
          let shown : (marked_parse G node (from_node read gp)).structured ≡ true = ground arith in
          let (named, text, set, made, run) =
            marked_structured node (from_node read gp) unset shown in
          (read, named, text, reads, same, set, made, rw (decoded_parse, reads, same) run)
    ]
  ]

  structured-IsMarker :
      (sql : Bytes) (toks : List RawToken) (gp : GrantParse)
      → gp.structured ≡ false
      → gp.has_on ≡ tokens_have_securable_on toks
      → gp.has_replace ≡ tokens_have_replace_option toks
      → gp.target ≡ (if gp.has_on then token_securable toks else no_securable)
      → (structured_parse G sql toks gp).structured ≡ true
      → IsTargeted toks (structured_parse G sql toks gp)
        × IsMarker sql toks (structured_parse G sql toks gp)
  unfolding structured_parse from_node
  structured-IsMarker sql toks gp unset on replace aim h =
      elim (Bool-cases (gp.is_attach || (not gp.has_on || gp.has_replace))) [
        | inl stops ↦ absurd (ground arith)
        | inr goes ↦ elim (result_cases (G.parse_generic (strip_on_cluster sql toks))) [
          | inr (e, fails) ↦ absurd (ground arith)
          | inl (node, parses) ↦
              let attach : gp.is_attach ≡ false = ground arith in
              let there : tokens_have_securable_on toks ≡ true = ground arith in
              let kept : tokens_have_replace_option toks ≡ false = ground arith in
              let names : gp.target ≡ token_securable toks = ground arith in
              let shown : (decoded_parse G node gp).structured ≡ true = ground arith in
              let (read, named, text, reads, same, set, made, run) =
                decoded_structured node gp unset shown in
              let whole : structured_parse G sql toks gp ≡ finished (from_node read gp) text =
                rw (structured_parse, goes, parses) run in
              rw whole
                ((attach, there, kept, names), (node, read, named, parses, reads, same, set, made))
        ]
      ]

  grant-IsMarker :
      (sql : Bytes) (toks : List RawToken)
      → (grant_of_tokens G sql toks).structured ≡ true
      → IsTargeted toks (grant_of_tokens G sql toks)
        × IsMarker sql toks (grant_of_tokens G sql toks)
  unfolding grant_of_tokens from_tokens
  grant-IsMarker sql [] h = absurd (ground arith)
  grant-IsMarker sql (tok ∷ toks) h = elim (Option-cases (grant_verb tok toks)) [
    | inl none_found ↦ absurd (ground arith)
    | inr (gp, found) ↦
        let all_toks = tok ∷ toks in
        let whole : grant_of_tokens G sql all_toks
            ≡ structured_parse G sql all_toks (from_tokens all_toks gp) =
          rw (grant_of_tokens, found) refl in
        let shown : (structured_parse G sql all_toks (from_tokens all_toks gp)).structured ≡ true =
          ground arith in
        rw whole (
          structured-IsMarker sql all_toks (from_tokens all_toks gp) (verb_unset tok toks gp found)
            refl refl refl shown)
  ]

  -- A GRANT or REVOKE counts as structured only where its target is the one that its tokens name, and the
  -- marker is generated from a node that names that target too, renamed to the quoted spelling of it.
  pub parse_grant_structured :
      (sql : Bytes) (gp : GrantParse)
      → parse_grant G sql ≡ ok gp
      → gp.structured ≡ true
      → (toks : List RawToken) × (G.tokenize_raw sql ≡ ok toks)
        × IsTargeted toks gp
        × IsMarker sql toks gp
  unfolding parse_grant
  parse_grant_structured sql gp parses h = elim (result_cases (G.tokenize_raw sql)) [
    | inr (e, fails) ↦ absurd (ground arith)
    | inl (toks, lexed) ↦
        let made : grant_of_tokens G sql toks ≡ gp = ground arith in
        let shown : (grant_of_tokens G sql toks).structured ≡ true = ground arith in
        let (aim, text) = grant-IsMarker sql toks shown in
        (toks, lexed, rw (← made) aim, rw (← made) text)
  ]
