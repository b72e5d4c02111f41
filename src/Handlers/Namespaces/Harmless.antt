-- ===== src/Handlers/Namespaces/Harmless.antt =====
-- What the policy on namespaces lets pass.
use rewriter_go.Prelude.{
  All, Bool, Bool-cases, List, Option, Option-cases, [], arith, false, if◌then◌else◌, inl, inr,
  none, not, refl, true, ◌&&◌, ◌↔◌, ◌∷◌, ◌≡◌,
}
use rewriter_go.Handlers.Namespaces.{
  NamespaceRef, current_refusal, decoded, exact_key_refusal, first_refused_ref, is_in_table,
  placed_refusal, ref_refusal, reject_storage_integrity_namespaces, resolved_refusal,
  table_function_execution_database,
}
use rewriter_go.Nameresolve.Contract.{storage_integrity_surface_active}
use rewriter_go.Nameresolve.Integrity.{lookup_storage_integrity}
use rewriter_go.Nameresolve.Namespaces.{
  is_storage_integrity_logical_database, is_storage_integrity_physical_database,
}
use rewriter_go.Nameresolve.Request.{DynamicArgs}
use rewriter_go.Nameresolve.Selecting.{mode_dynamic}
use rewriter_go.Native.Response.{Response, RewriteCode}
use rewriter_go.Prelude.Text.{Bytes, ◌==◌}

-- A known table that lies in no namespace of the surface.
abbrev pub IsElsewhere : DynamicArgs → Bytes → Bytes → Type 0
IsElsewhere a db table =
    (is_storage_integrity_physical_database db a ≡ false)
    × (lookup_storage_integrity db table a ≡ none)
    × (is_storage_integrity_logical_database db a ≡ false)

-- A reference through the current database: its table is no key of the session's logical database,
-- unless an IN operand, which has a rewrite of its own, and where the statement runs it is elsewhere.
abbrev pub IsCurrentHarmless : DynamicArgs → NamespaceRef → Type 0
IsCurrentHarmless a ref =
    (is_in_table ref.source ≡ false → lookup_storage_integrity [] ref.target.table a ≡ none)
    × (ref.target.table == [] ≡ false)
    × (table_function_execution_database a == [] ≡ false)
    × IsElsewhere a (table_function_execution_database a) ref.target.table

-- A reference that the policy lets pass: one that is resolved, and names nothing of the surface.
abbrev pub IsHarmless : DynamicArgs → NamespaceRef → Type 0
IsHarmless a ref =
    (ref.uses_current_database ≡ true → IsCurrentHarmless a ref)
    × (ref.uses_current_database ≡ false
        → (ref.resolved ≡ true) × IsElsewhere a ref.target.db ref.target.table)

branches_iff :
    {P Q : Type 0} (b : Bool) {x y : Option Response}
    → ((x ≡ none) ↔ P)
    → ((y ≡ none) ↔ Q)
    → ((if b then x else y) ≡ none) ↔ ((b ≡ true → P) × (b ≡ false → Q))
branches_iff true p q = (λ h. (λ e. p.0 h, λ e. absurd (ground arith)), λ (f, g). p.1 (f refl))
branches_iff false p q = (λ h. (λ e. absurd (ground arith), λ e. q.0 h), λ (f, g). q.1 (g refl))

module _ (code : RewriteCode) (a : DynamicArgs) (resp : Response) where
  resolved_iff :
      (ref : NamespaceRef) (db table : Bytes)
      → (resolved_refusal code a resp ref db table ≡ none) ↔ IsElsewhere a db table
  unfolding resolved_refusal
  resolved_iff ref db table = elim (Bool-cases (is_storage_integrity_physical_database db a)) [
    | inl p ↦
        rw (resolved_refusal, p) (λ h. absurd (ground arith), λ (x, y, z). absurd (ground arith))
    | inr p ↦ elim (Option-cases (lookup_storage_integrity db table a)) [
      | inr ((t, key), l) ↦
          rw (resolved_refusal, p, l)
            (λ h. absurd (ground arith), λ (x, y, z). absurd (ground arith))
      | inl l ↦ elim (Bool-cases (is_storage_integrity_logical_database db a)) [
        | inl o ↦
            rw (resolved_refusal, p, l, o)
              (λ h. absurd (ground arith), λ (x, y, z). absurd (ground arith))
        | inr o ↦ rw (resolved_refusal, p, l, o) (λ h. (refl, refl, refl), λ t. refl)
      ]
    ]
  ]

  exact_iff :
      (ref : NamespaceRef)
      → ref.target.table == [] ≡ false
      → (exact_key_refusal code a resp ref ≡ none)
        ↔ (is_in_table ref.source ≡ false → lookup_storage_integrity [] ref.target.table a ≡ none)
  unfolding exact_key_refusal
  exact_iff ref named = elim (Bool-cases (is_in_table ref.source)) [
    | inl i ↦ rw (exact_key_refusal, named, i) (λ h e. absurd (ground arith), λ f. refl)
    | inr i ↦ elim (Option-cases (lookup_storage_integrity [] ref.target.table a)) [
      | inl l ↦ rw (exact_key_refusal, named, i, l) (λ h e. refl, λ f. refl)
      | inr ((t, key), l) ↦
          rw (exact_key_refusal, named, i, l)
            (λ h. absurd (ground arith), λ f. absurd (let g = f refl in ground arith))
    ]
  ]

  placed_iff :
      (ref : NamespaceRef) (resolved : Bool) (db table : Bytes)
      → (placed_refusal code a resp ref resolved db table ≡ none)
        ↔ ((resolved ≡ true) × IsElsewhere a db table)
  unfolding placed_refusal
  placed_iff ref true db table =
      let known = resolved_iff ref db table in (λ h. (refl, known.0 h), λ (r, e). known.1 e)
  placed_iff ref false db table = (λ h. absurd (ground arith), λ (r, e). absurd (ground arith))

  current_iff :
      (ref : NamespaceRef)
      → (current_refusal code a resp ref (table_function_execution_database a) ref.target.table
          ≡ none)
        ↔ IsCurrentHarmless a ref
  unfolding current_refusal
  current_iff ref =
      let db = table_function_execution_database a in
      let table = ref.target.table in
      let placed = placed_iff ref (not (db == []) && not (table == [])) db table in
      elim (Option-cases (exact_key_refusal code a resp ref)) [
        | inr (refused, x) ↦
            rw (current_refusal, x)
              (
                λ h. absurd (ground arith),
                λ (f, y, z, w). absurd (let g = (exact_iff ref y).1 f in ground arith),
              )
        | inl x ↦
            rw (current_refusal, x)
              (
                λ h.
                    let (r, e) = placed.0 h in
                    let named : table == [] ≡ false = ground arith in
                    ((exact_iff ref named).0 x, named, ground arith, e),
                λ (f, y, z, w). placed.1 (ground arith, w),
              )
      ]

  ref_iff : (ref : NamespaceRef) → (ref_refusal code a resp ref ≡ none) ↔ IsHarmless a ref
  unfolding ref_refusal
  ref_iff ref =
      branches_iff ref.uses_current_database (current_iff ref)
        (placed_iff ref ref.resolved ref.target.db ref.target.table)

module _ (semantic_namespace_ref : NamespaceRef → Option NamespaceRef) where
  first_iff :
      (code : RewriteCode) (a : DynamicArgs) (resp : Response) (refs : List NamespaceRef)
      → (first_refused_ref semantic_namespace_ref code a resp refs ≡ none)
        ↔ All (λ ref. IsHarmless a (decoded semantic_namespace_ref ref)) refs
  unfolding first_refused_ref
  first_iff code a resp [] = (λ h. tt, λ h. refl)
  first_iff code a resp (ref ∷ refs) =
      let this = ref_iff code a resp (decoded semantic_namespace_ref ref) in
      elim (Option-cases (ref_refusal code a resp (decoded semantic_namespace_ref ref))) [
        | inl e ↦
            let later = first_iff code a resp refs in
            rw (first_refused_ref, e) (λ h. (this.0 e, later.0 h), λ (p, ps). later.1 ps)
        | inr (refused, e) ↦
            rw (first_refused_ref, e)
              (λ h. absurd (ground arith), λ (p, ps). absurd (let g = this.1 p in ground arith))
      ]

  -- While the surface is active, the references of a statement pass exactly when each of them, as its
  -- identifiers decode, is resolved and names nothing of the surface: no protocol-owned database, no
  -- table of the surface and no logical database of one, there and, for an unqualified name that
  -- is no IN operand, in the session's logical database.
  pub reject_storage_integrity_namespaces_passes :
      (resp : Response) (refs : List NamespaceRef) (a : DynamicArgs) (code : RewriteCode)
      → storage_integrity_surface_active a ≡ true
      → (reject_storage_integrity_namespaces semantic_namespace_ref resp refs (mode_dynamic a) code
          ≡ none)
        ↔ All (λ ref. IsHarmless a (decoded semantic_namespace_ref ref)) refs
  unfolding reject_storage_integrity_namespaces
  reject_storage_integrity_namespaces_passes resp refs a code active =
      rw (reject_storage_integrity_namespaces, active) (first_iff code a resp refs)
