-- ===== src/Handlers/Preflight/Admitted/Parts.antt =====
-- When a part of the preflight goes on.
use rewriter_go.Prelude.{
  Bool, Bool-cases, List, Option, Option-cases, [], ap, arith, false, inl, inr, none, not, refl,
  some, true, ◌&&◌, ◌↔◌, ◌∷◌, ◌≡◌,
}
use rewriter_go.Engine.Allowlists.{refused_table_setting}
use rewriter_go.Engine.Allowlists.Accepted.{
  IsAllowedEngine, classify_table_engine_allowed, classify_table_function_accepts,
}
use rewriter_go.Handlers.Accessed.{echoing, fresh}
use rewriter_go.Handlers.Carriers.{engine_refusal, function_refusal, setting_refusal, storage_check}
use rewriter_go.Handlers.Check.{echoed, first_refusal, goes_on}
use rewriter_go.Handlers.Check.Laws.{echoed_iff, first_refusal_iff, refuses_if_iff, then_iff}
use rewriter_go.Handlers.Preflight.{
  database_refusal, findings_check, lookup_refusal, raw_lookups_check, system_check, target_check,
  target_database_refusal, tree_lookup_refusal,
}
use rewriter_go.Handlers.Preflight.Policy.{
  IsAcceptedFunction, IsAcceptedStorage, IsAcceptedTarget, IsCleanText, IsFreeDatabase,
  IsQueryLookup, IsSystemFree,
}
use rewriter_go.Handlers.Readers.{CommandFindings, StorageEngine, StringLookup}
use rewriter_go.Nameresolve.Namespaces.{is_storage_integrity_physical_database, protected_database}
use rewriter_go.Nameresolve.Request.{DynamicArgs}
use rewriter_go.Nameresolve.Selecting.{mode_dynamic}
use rewriter_go.Native.Engine.{ObjectRef}
use rewriter_go.Native.Gates.{nothing_found, reject_system_table, scan_refs}
use rewriter_go.Native.Gates.Scan.{scan_refs_lem}
use rewriter_go.Prelude.Text.{Bytes, contains}

pub function_refusal_iff :
    (name : Bytes) → (function_refusal fresh name ≡ none) ↔ IsAcceptedFunction name
unfolding function_refusal
function_refusal_iff name =
    let accepts = classify_table_function_accepts name in (λ h. ground arith, λ h. ground arith)

pub engine_refusal_iff :
    (eng : StorageEngine)
    → (engine_refusal fresh eng ≡ none) ↔ IsAllowedEngine eng.name eng.arg_count
unfolding engine_refusal
engine_refusal_iff eng =
    let allowed = classify_table_engine_allowed eng.name eng.arg_count in
    (λ h. allowed.0 (ground arith), λ h. let e = allowed.1 h in ground arith)

pub setting_refusal_iff :
    (s : Bytes) → (setting_refusal fresh s ≡ none) ↔ (refused_table_setting s ≡ false)
unfolding setting_refusal
setting_refusal_iff s = (λ h. ground arith, λ h. ground arith)

pub database_refusal_iff :
    (sql : Bytes) (a : DynamicArgs) (blind : List Bytes) (db : Bytes)
    → (database_refusal sql a blind db ≡ none) ↔ IsFreeDatabase a blind db
unfolding database_refusal
database_refusal_iff sql a blind db = elim (Bool-cases (protected_database db a)) [
  | inl e ↦
      elim (Bool-cases (is_storage_integrity_physical_database db a && not (contains db blind))) [
        | inl f ↦ (λ h p. (ground arith, ground arith), λ g. ground arith)
        | inr f ↦ (λ h p. absurd (ground arith), λ g. absurd (let (x, y) = g e in ground arith))
      ]
  | inr e ↦ (λ h p. absurd (ground arith), λ g. ground arith)
]

hides : (refused object : Bool) → (refused ≡ true → object ≡ true) → (refused && not object) ≡ false
hides refused object h = ground arith

pub system_check_iff :
    (sql : Bytes) (a : DynamicArgs) (refs : List ObjectRef)
    → (system_check sql a refs ≡ goes_on) ↔ IsSystemFree a refs
unfolding system_check
system_check_iff sql a refs =
    let scan = scan_refs a nothing_found refs in
    let (refused, object, table) = scan_refs_lem a refs in
    let either =
      refuses_if_iff (scan.refused && not scan.si_object)
        (echoing sql (reject_system_table fresh scan.table (mode_dynamic a))) in
    (
      λ h n. let e = either.0 h in ground arith,
      λ free.
          either.1 (hides scan.refused scan.si_object (λ r. rw (object) (free (rw (← refused) r)))),
    )

pub target_iff :
    (sql : Bytes) (a : DynamicArgs) (db : Bytes)
    → (target_database_refusal sql a db ≡ none) ↔ (protected_database db a ≡ false)
unfolding target_database_refusal
target_iff sql a db = (λ h. ground arith, λ h. ground arith)

lookups_empty :
    (sql : Bytes) (calls : List StringLookup)
    → (first_refusal (lookup_refusal sql) calls ≡ goes_on) ↔ (calls ≡ [])
unfolding first_refusal lookup_refusal
lookups_empty sql [] = (λ h. refl, λ h. refl)
lookups_empty sql (c ∷ calls) = (λ h. absurd (ground arith), λ h. absurd (ground arith))

pub tree_lookup_iff :
    (sql : Bytes) (call : StringLookup) → (tree_lookup_refusal sql call ≡ none) ↔ IsQueryLookup call
unfolding tree_lookup_refusal lookup_refusal
tree_lookup_iff sql call = (λ h. (ground arith, ground arith), λ (x, y). ground arith)

pub raw_lookups_iff :
    (sql : Bytes) (calls : Option (List StringLookup))
    → (raw_lookups_check sql calls ≡ goes_on) ↔ (calls ≡ some [])
unfolding raw_lookups_check
raw_lookups_iff sql none = (λ h. absurd (ground arith), λ h. absurd (ground arith))
raw_lookups_iff sql (some calls) =
    let empty = lookups_empty sql calls in (λ h. ap some (empty.0 h), λ h. empty.1 (ground arith))

pub one_function_iff :
    (name : Bytes)
    → (first_refusal (function_refusal fresh) (name ∷ []) ≡ goes_on) ↔ IsAcceptedFunction name
one_function_iff name =
    let all_of = first_refusal_iff (function_refusal fresh) (name ∷ []) function_refusal_iff in
    (λ h. (all_of.0 h).0, λ h. all_of.1 (h, tt))

pub target_check_iff :
    (sql : Bytes) (a : DynamicArgs) (findings : CommandFindings)
    → (target_check sql a findings ≡ goes_on) ↔ IsAcceptedTarget a findings
unfolding target_check
target_check_iff sql a findings = elim (Option-cases findings.target_function) [
  | inl e ↦ rw (target_check, e) (λ h. tt, λ h. refl)
  | inr (name, e) ↦
      rw (target_check, e)
        (then_iff (echoed sql (first_refusal (function_refusal fresh) (name ∷ []))) _
          (echoed_iff sql (first_refusal (function_refusal fresh) (name ∷ []))
            (one_function_iff name))
          (first_refusal_iff (target_database_refusal sql a) findings.target_arg_databases
            (target_iff sql a)))
]

pub findings_check_iff :
    (sql : Bytes) (a : DynamicArgs) (found : Option CommandFindings)
    → (findings_check sql a found ≡ goes_on) ↔ IsCleanText a found
unfolding findings_check
findings_check_iff sql a none = (λ h. absurd (ground arith), λ (f, e, x, y). absurd (ground arith))
findings_check_iff sql a (some findings) =
    let both =
      then_iff (first_refusal (lookup_refusal sql) findings.lookup_calls)
        (target_check sql a findings) (lookups_empty sql findings.lookup_calls)
        (target_check_iff sql a findings) in
    (
      λ h. let (x, y) = both.0 h in (findings, refl, x, y),
      λ (f, e, x, y). let same : findings ≡ f = ground arith in both.1 (rw (same) x, rw (same) y),
    )

pub storage_check_iff :
    (storage : Option (List StorageEngine × List Bytes))
    → (storage_check fresh storage ≡ goes_on) ↔ IsAcceptedStorage storage
unfolding storage_check
storage_check_iff none = (λ h. tt, λ h. refl)
storage_check_iff (some (engines, settings)) =
    then_iff (first_refusal (engine_refusal fresh) engines) _
      (first_refusal_iff (engine_refusal fresh) engines engine_refusal_iff)
      (first_refusal_iff (setting_refusal fresh) settings setting_refusal_iff)
