-- ===== src/Nameresolve/Resolve/Routing.antt =====
-- Where `ApplyDynamic` sends a target, and what it never does.
use rewriter_go.Prelude.{
  ◌≡◌, sym, ◌∙◌, ◌≢◌, ◌↔◌, ◌⊎◌, inl, inr, Bool, true, false, [], ◌∷◌, List, none, some, arith,
  Bool-cases, Option-cases, is_some,
}
use rewriter_go.Prelude.Text.{Bytes, ◌==◌, contains, eq_iff, eq_refl}
use rewriter_go.Prelude.Dict.{lookup, has_key, any_value-lookup}
use rewriter_go.Nameresolve.Request.{DynamicArgs}
use rewriter_go.Nameresolve.Namespaces.{protected_database}
use rewriter_go.Nameresolve.Integrity.{context_database}
use rewriter_go.Nameresolve.Messages.{protected_database_reject_message}
use rewriter_go.Nameresolve.Resolve.{
  Status, status_rewrite, status_remote, status_invalid, invalid, known_physical,
  resolve_physical_database, build_dynamic_table_name, is_logical_remote_mapped, apply_dynamic,
}

abbrev pub is_remote : Status → Bool
is_remote status_remote = true
is_remote _ = false

abbrev pub is_invalid : Status → Bool
is_invalid status_invalid = true
is_invalid _ = false

pub known_physical-some :
    (logical : Bytes) (ks : List Bytes) (a : DynamicArgs) (p : Bytes)
    → known_physical logical ks a ≡ some p
    → (p ≡ logical) × (contains logical ks ≡ true) × (protected_database logical a ≡ false)
unfolding known_physical contains
known_physical-some logical [] a p h = ground arith
known_physical-some logical (k ∷ ks) a p h = elim (Bool-cases (k == logical)) [
  | inl e ↦ ground (arith, eq_iff k logical)
  | inr e ↦ ground (arith, known_physical-some logical ks a p)
]

mapped_protected :
    (logical : Bytes) (a : DynamicArgs) (p : Bytes)
    → p ≢ []
    → lookup logical a.database_map ≡ some p
    → protected_database p a ≡ true
unfolding protected_database
mapped_protected logical a p h e =
    ground (arith, eq_iff p [], any_value-lookup (λ x. x == p) logical a.database_map e (eq_refl p))

-- A physical database that a logical one resolves to is either protected, so that caller SQL cannot
-- name it, or the logical name itself: a listed known-physical database that is not protected and
-- that database_map does not route.
pub resolve_physical_database_protected :
    (logical : Bytes) (a : DynamicArgs) (p : Bytes)
    → p ≢ []
    → resolve_physical_database logical a ≡ some p
    → (protected_database p a ≡ true)
      ⊎ ((p ≡ logical)
          × (protected_database logical a ≡ false)
          × (contains logical a.known_physical_databases ≡ true)
          × (lookup logical a.database_map ≡ none))
unfolding resolve_physical_database
resolve_physical_database_protected logical a p h e =
    elim (Option-cases (lookup logical a.database_map)) [
      | inl unmapped ↦
          let found : known_physical logical a.known_physical_databases a ≡ some p = ground arith in
          let (same, listed, free) =
            known_physical-some logical a.known_physical_databases a p found in
          inr (same, free, listed, unmapped)
      | inr (q, mapped) ↦ inl (mapped_protected logical a p h (ground arith))
    ]

-- The remote upstream that the index names for a logical database, where it names one, is configured.
abbrev pub upstream_known : Bytes → DynamicArgs → Bool
upstream_known logical a = elim (lookup logical a.logical_database_to_remote_upstream_index) [
  | none ↦ true
  | some key ↦ is_some (lookup key a.remote_upstreams)
]

-- A dynamic target is accepted exactly when it has a database, its own or the session's, that is not
-- protected, that resolves to a physical database, and whose remote upstream, if it has one, is
-- configured.
pub apply_dynamic_accepts :
    (db table : Bytes) (a : DynamicArgs)
    → (is_invalid (apply_dynamic db table a).status ≡ false) ↔ (
        (context_database db a == [] ≡ false)
        × (protected_database (context_database db a) a ≡ false)
        × (is_some (resolve_physical_database (context_database db a) a) ≡ true)
        × (upstream_known (context_database db a) a ≡ true))
unfolding apply_dynamic
apply_dynamic_accepts db table a = ground arith

-- An accepted target carries its logical database, the physical database that this one resolves to
-- and the dynamic name of the table; it is remote exactly when the logical database is mapped to a
-- remote upstream, and otherwise a plain rewrite.
pub apply_dynamic_routes :
    (db table : Bytes) (a : DynamicArgs)
    → is_invalid (apply_dynamic db table a).status ≡ false
    → (apply_dynamic db table a).logical_db ≡ context_database db a
      × resolve_physical_database (context_database db a) a
        ≡ some (apply_dynamic db table a).physical_db
      × (apply_dynamic db table a).new_table
        ≡ build_dynamic_table_name (context_database db a) table a
      × is_remote (apply_dynamic db table a).status
        ≡ is_logical_remote_mapped (context_database db a) a
      × (((apply_dynamic db table a).status ≡ status_rewrite)
          ⊎ ((apply_dynamic db table a).status ≡ status_remote))
unfolding apply_dynamic is_logical_remote_mapped has_key
apply_dynamic_routes db table a h = ground arith

refuses_protected :
    (db table : Bytes) (a : DynamicArgs)
    → db ≢ []
    → protected_database db a ≡ true
    → apply_dynamic db table a ≡ invalid (protected_database_reject_message db)
unfolding apply_dynamic context_database
refuses_protected db table a h p = ground (arith, eq_iff db [])

-- Where an accepted target is sent to another database than the one it names, that database cannot
-- be named in turn: any target in it is refused as protected.
pub apply_dynamic_not_twice :
    (db table other : Bytes) (a : DynamicArgs)
    → is_invalid (apply_dynamic db table a).status ≡ false
    → (apply_dynamic db table a).physical_db ≢ []
    → (apply_dynamic db table a).physical_db ≢ (apply_dynamic db table a).logical_db
    → apply_dynamic (apply_dynamic db table a).physical_db other a
      ≡ invalid (protected_database_reject_message (apply_dynamic db table a).physical_db)
apply_dynamic_not_twice db table other a h nonempty moved =
    let o = apply_dynamic db table a in
    let (logical, resolved, _, _, _) = apply_dynamic_routes db table a h in
    elim (resolve_physical_database_protected (context_database db a) a o.physical_db nonempty
      resolved) [
        | inl free ↦ refuses_protected o.physical_db other a nonempty free
        | inr (same, _, _, _) ↦ absurd (moved (same ∙ sym logical))
      ]
