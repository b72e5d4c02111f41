-- ===== src/Native/Finalize/Passed.antt =====
-- What a Success needs to pass the gates of `finalize`.
use rewriter_go.Prelude.{
  Bool-cases, List, Option, Option-cases, any, arith, false, inl, inr, none, refl, some, true, ◌↔◌,
  ◌≡◌,
}
use rewriter_go.Prelude.Text.{Bytes}
use rewriter_go.Nameresolve.Contract.{storage_integrity_surface_active}
use rewriter_go.Nameresolve.Request.{ContractVersion, DynamicArgs, StaticArgs}
use rewriter_go.Nameresolve.Selecting.{Selection, mode_dynamic, mode_none, mode_static}
use rewriter_go.Native.Engine.{Engine, ObjectRef}
use rewriter_go.Native.Finalize.{
  finalize, regenerated_verdict, reject_system_tables_on_success, success_verdict,
  system_tables_verdict,
}
use rewriter_go.Native.Finalize.Refusals.{finalize_verdict}
use rewriter_go.Native.Gates.Scan.{not_allowed, scan_refs_lem}
use rewriter_go.Native.Response.{ExistenceClause, Response, Result, err, is_success, ok}

-- References that can be read, none to a system table off the allowlist.
abbrev pub AreAllowed : DynamicArgs → Result (List ObjectRef) → Type 0
AreAllowed a (err _) = ⊥
AreAllowed a (ok refs) = any (not_allowed a) refs ≡ false

system_tables_iff :
    (a : DynamicArgs) (resp : Response) (sql : Bytes) (refs : Result (List ObjectRef))
    → (system_tables_verdict a resp sql refs ≡ none) ↔ AreAllowed a refs
unfolding system_tables_verdict
system_tables_iff a resp sql (err _) = (λ h. absurd (ground arith), λ h. absurd h)
system_tables_iff a resp sql (ok refs) =
    let (same, _, _) = scan_refs_lem a refs in (λ h. ground arith, λ h. ground arith)

module _ (E : Engine) (ast : E.Ast) (sql : Bytes) where
  -- What the gates ask of the tree and of the text that is generated from it. In dynamic mode, while
  -- the storage-integrity surface is active, no reference names a system table off the allowlist; in
  -- every mode, the text spells the statement; in dynamic mode, no deployment-identity name stands in
  -- it.
  abbrev pub IsPassed : Selection → Type 0
  IsPassed (mode_dynamic a) =
      (storage_integrity_surface_active a ≡ true → AreAllowed a (E.collect_object_refs ast sql))
      × ((E.check_regenerated sql ast ≡ none)
          × (E.first_deployment_identity_name ast sql ≡ ok none))
  IsPassed sel = E.check_regenerated sql ast ≡ none

  regenerated_iff :
      (a : DynamicArgs) (resp : Response) (checked : Option Bytes) (name : Result (Option Bytes))
      → (regenerated_verdict resp sql (mode_dynamic a) checked name ≡ none)
        ↔ ((checked ≡ none) × (name ≡ ok none))
  unfolding regenerated_verdict
  regenerated_iff a resp (some m) name =
      (λ h. absurd (ground arith), λ (e, f). absurd (ground arith))
  regenerated_iff a resp none (err m) =
      (λ h. absurd (ground arith), λ (e, f). absurd (ground arith))
  regenerated_iff a resp none (ok (some n)) =
      (λ h. absurd (ground arith), λ (e, f). absurd (ground arith))
  regenerated_iff a resp none (ok none) = (λ h. (refl, refl), λ h. refl)

  spelled_none :
      (resp : Response) (checked : Option Bytes) (name : Result (Option Bytes))
      → (regenerated_verdict resp sql mode_none checked name ≡ none) ↔ (checked ≡ none)
  unfolding regenerated_verdict
  spelled_none resp none name = (λ h. refl, λ h. refl)
  spelled_none resp (some m) name = (λ h. absurd (ground arith), λ h. absurd (ground arith))

  spelled_static :
      (a : StaticArgs) (resp : Response) (checked : Option Bytes) (name : Result (Option Bytes))
      → (regenerated_verdict resp sql (mode_static a) checked name ≡ none) ↔ (checked ≡ none)
  unfolding regenerated_verdict
  spelled_static a resp none name = (λ h. refl, λ h. refl)
  spelled_static a resp (some m) name = (λ h. absurd (ground arith), λ h. absurd (ground arith))

  verdict_iff :
      (sel : Selection) (resp : Response)
      → (success_verdict E ast sql sel resp ≡ none) ↔ IsPassed sel
  unfolding success_verdict reject_system_tables_on_success
  verdict_iff mode_none resp = spelled_none resp _ _
  verdict_iff (mode_static a) resp = spelled_static a resp _ _
  verdict_iff (mode_dynamic a) resp =
      let refs = E.collect_object_refs ast sql in
      let (f, g) = system_tables_iff a resp sql refs in
      let (p, q) =
        regenerated_iff a resp (E.check_regenerated sql ast)
          (E.first_deployment_identity_name ast sql) in
      elim (Bool-cases (storage_integrity_surface_active a)) [
        | inr idle ↦ (
          λ h. (λ active. absurd (ground arith), p (ground arith)),
          λ (s, r). ground (arith, q r),
        )
        | inl active ↦ elim (Option-cases (system_tables_verdict a resp sql refs)) [
          | inl clear ↦ (λ h. (λ same. f clear, p (ground arith)), λ (s, r). ground (arith, q r))
          | inr (refused, stopped) ↦
              (λ h. absurd (ground arith), λ (s, r). absurd (ground (arith, g (s active))))
        ]
      ]

  -- A response leaves `finalize` as a Success exactly when it comes as one, the text generated from its
  -- tree spells the statement, and, in dynamic mode, no deployment-identity name stands in it and, while
  -- the storage-integrity surface is active, its references can be read and none names a system table
  -- off the allowlist.
  pub finalize_success :
      (resp : Response) (ec : ExistenceClause) (version : ContractVersion) (sel : Selection)
      → (is_success (finalize E resp ast sql ec version sel).code ≡ true)
        ↔ ((is_success resp.code ≡ true) × IsPassed sel)
  finalize_success resp ec version sel =
      let stamped = record resp { existence_clause = ec; contract_version = version } in
      let same = finalize_verdict E ast sql resp ec version sel in
      let (f, g) = verdict_iff sel stamped in
      elim (Option-cases (success_verdict E ast sql sel stamped)) [
        | inl passed ↦ (λ h. (ground arith, f passed), λ (h, p). ground arith)
        | inr (refused, stopped) ↦
            (λ h. absurd (ground arith), λ (h, p). absurd (ground (arith, g p)))
      ]
