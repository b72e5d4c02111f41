-- ===== src/Native/Pipeline/Configured.antt =====
-- A Success is answered only under a valid configuration.
use rewriter_go.Prelude.{List, ◌≡◌, inl, inr, true, ◌||◌, none, arith, Bool-cases, Option-cases}
use rewriter_go.Prelude.Text.{Bytes}
use rewriter_go.Nameresolve.Request.{
  DynamicArgs, RewriteOption, ContractVersion, contract_unspecified, is_v1, is_v2,
  get_storage_integrity,
}
use rewriter_go.Nameresolve.Contract.{storage_integrity_surface_active}
use rewriter_go.Nameresolve.Validate.{validate_storage_integrity, validate_protected_databases}
use rewriter_go.Nameresolve.Selecting.{mode_dynamic, find_active}
use rewriter_go.Native.Response.{Response, ok, is_success}
use rewriter_go.Native.Engine.{Engine}
use rewriter_go.Native.Pipeline.{admit, admit_protected, admitted, rewrite_statement}
use rewriter_go.Native.Pipeline.Outcomes.{answer-IsGated}

-- What an admitted dynamic request has passed.
abbrev pub IsConfigured : DynamicArgs → Type 0
IsConfigured a =
    (validate_protected_databases a ≡ none)
    × (storage_integrity_surface_active a ≡ true
        → (validate_storage_integrity a ≡ none)
          × ((is_v1 (get_storage_integrity a).contract_version
                || is_v2 (get_storage_integrity a).contract_version)
              ≡ true))

admit_protected_sound :
    (a : DynamicArgs) (version v : ContractVersion)
    → admit_protected a version ≡ admitted v
    → validate_protected_databases a ≡ none
unfolding admit_protected
admit_protected_sound a version v h = elim (Option-cases (validate_protected_databases a)) [
  | inl valid ↦ valid
  | inr (e, invalid) ↦ absurd (ground arith)
]

admit_sound :
    (a : DynamicArgs) (v : ContractVersion) → admit (mode_dynamic a) ≡ admitted v → IsConfigured a
unfolding admit
admit_sound a v h = elim (Bool-cases (storage_integrity_surface_active a)) [
  | inl active ↦ elim (Option-cases (validate_storage_integrity a)) [
    | inl valid ↦
        let version = (get_storage_integrity a).contract_version in
        (ground (arith, admit_protected_sound a version v), λ _. (valid, ground arith))
    | inr (e, invalid) ↦ absurd (ground arith)
  ]
  | inr inactive ↦
      (ground (arith, admit_protected_sound a contract_unspecified v), λ active. absurd (cc))
]

-- In dynamic mode a Success is answered only under valid protected databases and, while the
-- storage-integrity surface is active, under valid arguments of contract version V1 or V2.
pub rewrite_statement-IsConfigured :
    (E : Engine) (sql : Bytes) (opts : List RewriteOption) (a : DynamicArgs) (resp : Response)
    → find_active opts ≡ mode_dynamic a
    → rewrite_statement E sql opts ≡ ok resp
    → is_success resp.code ≡ true
    → IsConfigured a
unfolding rewrite_statement
rewrite_statement-IsConfigured E sql opts a resp dynamic e h =
    let ((v, passed), _) = answer-IsGated E sql opts (admit (find_active opts)) resp e h in
    admit_sound a v (ground arith)
