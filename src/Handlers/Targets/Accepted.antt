-- ===== src/Handlers/Targets/Accepted.antt =====
-- What an accepted write target is.
use mathlib.Core.Path.{subst}
use rewriter_go.Prelude.{
  Bool, Bool-cases, List, Option-cases, [], ap, arith, false, inl, inr, none, refl, some, sym, true,
  ◌&&◌, ◌||◌, ◌∙◌, ◌∷◌, ◌≡◌, ◌≢◌,
}
use rewriter_go.Handlers.Targets.{
  Decision, action_rename, blocked_key, decide_slots, decide_status, decide_write_target,
}
use rewriter_go.Nameresolve.Integrity.{context_database, lookup_storage_integrity}
use rewriter_go.Nameresolve.Namespaces.{protected_database}
use rewriter_go.Nameresolve.Request.{DynamicArgs}
use rewriter_go.Nameresolve.Resolve.{
  Outcome, Status, apply_dynamic, status_invalid, status_passthrough, status_remote,
  status_remote_unsupported, status_rewrite,
}
use rewriter_go.Nameresolve.Resolve.Routing.{
  apply_dynamic_accepts, apply_dynamic_routes, is_invalid,
}
use rewriter_go.Nameresolve.Selecting.{
  Selection, mode_dynamic, resolve, storage_integrity_drop_contract,
}
use rewriter_go.Native.Gates.{record_accessed_write}
use rewriter_go.Native.Response.{Response}
use rewriter_go.Prelude.Text.{Bytes, codes, ◌==◌}

some_injective : (ds es : List Decision) → some ds ≡ some es → ds ≡ es
some_injective ds es e = cc

recorded_code :
    (resp : Response) (db table : Bytes) (sel : Selection)
    → (record_accessed_write resp db table sel).code ≡ resp.code
unfolding record_accessed_write
recorded_code resp db table sel = ground arith

-- The kinds that may write to a storage-integrity table: INSERT, and DROP TABLE under contract V2.
abbrev pub may_write : Bytes → DynamicArgs → Bool
may_write kind a =
    kind == codes "insert"
    || (kind == codes "drop_table" && storage_integrity_drop_contract (mode_dynamic a))

unblocked :
    (db table kind : Bytes) (a : DynamicArgs)
    → blocked_key db table kind (mode_dynamic a) ≡ none
    → may_write kind a ≡ false
    → lookup_storage_integrity db table a ≡ none
unfolding blocked_key
unblocked db table kind a free other = elim (Option-cases (lookup_storage_integrity db table a)) [
  | inl missing ↦ missing
  | inr (found, e) ↦ absurd (ground arith)
]

-- What an accepted target of a dynamic write is: its database is not protected, no storage-integrity
-- table stands behind it unless the kind may write to one, and it is renamed to where it is routed.
abbrev pub IsAccepted : Bytes → Bytes → Bytes → DynamicArgs → Decision → Type 0
IsAccepted db table kind a d =
    (protected_database (context_database db a) a ≡ false)
    × (may_write kind a ≡ false → lookup_storage_integrity db table a ≡ none)
    × (d
        ≡ action_rename (apply_dynamic db table a).physical_db (apply_dynamic db table a).new_table)

-- A decided status: an acceptance is a plain rewrite, and keeps the code.
status_accepts :
    (s : Status) (o : Outcome) (db table kind : Bytes) (resp after : Response) (d : Decision)
    → decide_status s o db table kind resp ≡ (some d, after)
    → s ≢ status_passthrough
    → (is_invalid s ≡ false)
      × (d ≡ action_rename o.physical_db o.new_table)
      × (after.code ≡ resp.code)
unfolding decide_status
status_accepts status_passthrough o db table kind resp after d e h = absurd (h refl)
status_accepts status_rewrite o db table kind resp after d e h =
    (refl, cc, sym (ap (λ p. p.1.code) e))
status_accepts status_remote o db table kind resp after d e h = absurd (cc)
status_accepts status_remote_unsupported o db table kind resp after d e h = absurd (cc)
status_accepts status_invalid o db table kind resp after d e h = absurd (cc)

no_passthrough :
    (db table : Bytes) (a : DynamicArgs) → (apply_dynamic db table a).status ≢ status_passthrough
no_passthrough db table a e = elim (Bool-cases (is_invalid (apply_dynamic db table a).status)) [
  | inl refused ↦ absurd (ground arith)
  | inr accepted ↦ elim (apply_dynamic_routes db table a accepted).4 [
    | inl rewritten ↦ absurd (ground arith)
    | inr remote ↦ absurd (ground arith)
  ]
]

-- A dynamic write target is accepted only where its database is not protected and, unless the kind may
-- write to one, no storage-integrity table stands behind it; it is then renamed to where it is routed,
-- never to a remote upstream, and the code of the response stays.
pub decide_write_target-IsAccepted :
    (db table kind : Bytes) (a : DynamicArgs) (resp after : Response) (d : Decision)
    → decide_write_target db table kind (mode_dynamic a) resp ≡ (some d, after)
    → IsAccepted db table kind a d × (after.code ≡ resp.code)
unfolding decide_write_target resolve
decide_write_target-IsAccepted db table kind a resp after d e =
    let recorded = record_accessed_write resp db table (mode_dynamic a) in
    let o = apply_dynamic db table a in
    elim (Option-cases (blocked_key db table kind (mode_dynamic a))) [
      | inl free ↦
          let decided : decide_status o.status o db table kind recorded ≡ (some d, after) =
            ground arith in
          let (valid, renamed, same) =
            status_accepts o.status o db table kind recorded after d decided
              (no_passthrough db table a) in
          (
            (
              ((apply_dynamic_accepts db table a).0 valid).1,
              unblocked db table kind a free,
              renamed,
            ),
            same ∙ recorded_code resp db table (mode_dynamic a),
          )
      | inr (key, blocked) ↦ absurd (ground arith)
    ]

-- Each target with its decision.
abbrev pub AreAccepted : Bytes → DynamicArgs → List (Bytes × Bytes) → List Decision → Type 0
AreAccepted kind a [] [] = true ≡ true
AreAccepted kind a [] (d ∷ ds) = true ≡ false
AreAccepted kind a (slot ∷ slots) [] = true ≡ false
AreAccepted kind a ((db, table) ∷ slots) (d ∷ ds) =
    IsAccepted db table kind a d × AreAccepted kind a slots ds

-- Where the loop over the targets of a dynamic write returns decisions, there is one for each target,
-- in order; no target names a protected database, none is a storage-integrity table unless the kind
-- may write to one, each is renamed to where it is routed, and the code of the response stays.
pub decide_slots-AreAccepted :
    (kind : Bytes) (a : DynamicArgs) (slots : List (Bytes × Bytes)) (resp after : Response)
    (ds : List Decision)
    → decide_slots kind (mode_dynamic a) slots resp ≡ (some ds, after)
    → AreAccepted kind a slots ds × (after.code ≡ resp.code)
unfolding decide_slots
decide_slots-AreAccepted kind a [] resp after [] e = (refl, sym (ap (λ p. p.1.code) e))
decide_slots-AreAccepted kind a [] resp after (d ∷ ds) e = absurd (cc)
decide_slots-AreAccepted kind a ((db, table) ∷ slots) resp after ds e =
    let x = decide_write_target db table kind (mode_dynamic a) resp in
    let y = decide_slots kind (mode_dynamic a) slots x.1 in
    elim (Option-cases x.0) [
      | inl refused ↦ absurd (ground arith)
      | inr (d, accepted) ↦ elim (Option-cases y.0) [
        | inl stopped ↦ absurd (ground arith)
        | inr (ds2, finished_with) ↦
            let here =
              decide_write_target-IsAccepted db table kind a resp x.1 d
                (ap (λ o. (o, x.1)) accepted) in
            let there =
              decide_slots-AreAccepted kind a slots x.1 y.1 ds2
                (ap (λ o. (o, y.1)) finished_with) in
            let whole : decide_slots kind (mode_dynamic a) ((db, table) ∷ slots) resp
                ≡ (some (d ∷ ds2), y.1) =
              rw (accepted, finished_with, decide_slots) refl in
            let ended : (some (d ∷ ds2), y.1) ≡ (some ds, after) = sym whole ∙ e in
            let all_of_them : some (d ∷ ds2) ≡ some ds = ap (λ p. p.0) ended in
            let same : d ∷ ds2 ≡ ds = some_injective (d ∷ ds2) ds all_of_them in
            (
              subst (AreAccepted kind a ((db, table) ∷ slots)) same (here.0, there.0),
              sym (ap (λ p. p.1.code) ended) ∙ (there.1 ∙ here.1),
            )
      ]
    ]
