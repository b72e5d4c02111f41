-- ===== src/Engine/Allowlists/Accepted.antt =====
-- What the allowlists accept.
use rewriter_go.Prelude.{
  Bool, Bool-cases, List, [], all, any, arith, drop, eqb, false, inl, inr, length, not, refl, true,
  ℕ, ◌++◌, ◌||◌, ◌↔◌, ◌∷◌, ◌≡◌, ◌⊎◌,
}
use rewriter_go.Engine.Allowlists.{
  TableFunctionClass, allowed_table_engines, classify_table_engine, classify_table_function,
  data_only_table_functions, external_table_functions, is_replicated_engine,
  refused_table_functions, replicated, same_but_case, table_engine_allowed_class,
  table_function_data_only, table_function_external,
}
use rewriter_go.Engine.Case.{to_lower}
use rewriter_go.Prelude.Text.{
  Bytes, codes, contains, contains-append, drop-append_length, eq_of_test, has_prefix,
  has_prefix-append, has_prefix-split, ◌==◌,
}

-- A test that all entries of a list pass holds of what the list contains.
pub contains-all :
    (p : Bytes → Bool) (s : Bytes) (xs : List Bytes)
    → contains s xs ≡ true
    → all p xs ≡ true
    → p s ≡ true
unfolding contains
contains-all p s [] h g = ground arith
contains-all p s (x ∷ xs) h g = elim (Bool-cases (x == s)) [
  | inl e ↦ let same : x ≡ s = eq_of_test x s e in rw (← same) (ground arith)
  | inr e ↦ contains-all p s xs (ground arith) (ground arith)
]

-- The table functions that go on are those of these two lists.
abbrev pub accepted_functions : List Bytes
accepted_functions = data_only_table_functions ++ external_table_functions

abbrev pub is_accepted_function : TableFunctionClass → Bool
is_accepted_function table_function_data_only = true
is_accepted_function table_function_external = true
is_accepted_function _ = false

abbrev is_refused_name : Bytes → Bool
is_refused_name name = contains name refused_table_functions || has_prefix name (codes "mergetree")

accepted-apart : all (λ name. not (is_refused_name name)) accepted_functions ≡ true
unfolding contains refused_table_functions data_only_table_functions external_table_functions
    has_prefix ◌==◌
accepted-apart = refl

-- A table function is accepted exactly when its name, in lower case, is on the list of those that
-- read their arguments alone or on the list of those that read external data: no name on either is
-- refused by the case of the switch before it.
pub classify_table_function_accepts :
    (name : Bytes)
    → is_accepted_function (classify_table_function name)
      ≡ contains (to_lower name) accepted_functions
unfolding classify_table_function
classify_table_function_accepts name =
    let split =
      contains-append (to_lower name) data_only_table_functions external_table_functions in
    elim (Bool-cases (contains (to_lower name) accepted_functions)) [
      | inl h ↦
          let apart =
            contains-all (λ n. not (is_refused_name n)) (to_lower name) accepted_functions h
              accepted-apart in
          ground arith
      | inr h ↦ ground arith
    ]

plain-apart : all (λ name. not (is_replicated_engine name)) allowed_table_engines ≡ true
unfolding contains allowed_table_engines is_replicated_engine has_prefix ◌==◌
plain-apart = refl

-- An engine that a table may have with this many arguments.
abbrev pub IsAllowedEngine : Bytes → ℕ → Type 0
IsAllowedEngine name arg_count =
    (contains name allowed_table_engines ≡ true)
    ⊎ ((base : Bytes) × (name ≡ replicated ++ base)
        × (contains base allowed_table_engines ≡ true)
        × (arg_count ≡ 0))

is_replicated_engine-append :
    (base : Bytes)
    → contains base allowed_table_engines ≡ true
    → is_replicated_engine (replicated ++ base) ≡ true
unfolding is_replicated_engine
is_replicated_engine-append base h =
    ground (arith, has_prefix-append replicated base, drop-append_length replicated base)

engine-IsAllowed :
    (name : Bytes) (n : ℕ)
    → classify_table_engine name n ≡ table_engine_allowed_class
    → IsAllowedEngine name n
unfolding classify_table_engine is_replicated_engine
engine-IsAllowed name n h = elim (Bool-cases (is_replicated_engine name)) [
  | inl r ↦ inr (
    drop (length replicated) name,
    has_prefix-split name replicated (ground arith),
    ground arith,
    elim (Bool-cases (eqb n 0)) [ inl z ↦ ground arith | inr z ↦ absurd (ground arith) ],
  )
  | inr r ↦ elim (Bool-cases (contains name allowed_table_engines)) [
    | inl c ↦ inl c
    | inr c ↦ elim (Bool-cases (any (same_but_case (to_lower name)) allowed_table_engines)) [
      | inl a ↦ absurd (ground arith)
      | inr a ↦ absurd (ground arith)
    ]
  ]
]

engine_of-IsAllowed :
    (name : Bytes) (n : ℕ)
    → IsAllowedEngine name n
    → classify_table_engine name n ≡ table_engine_allowed_class
unfolding classify_table_engine
engine_of-IsAllowed name n (inl c) =
    let apart =
      contains-all (λ e. not (is_replicated_engine e)) name allowed_table_engines c plain-apart in
    ground arith
engine_of-IsAllowed name n (inr (base, e, c, z)) =
    let r = is_replicated_engine-append base c in rw (e) (ground arith)

-- A table engine is allowed exactly when it is on the list in this very spelling, or is a name of the
-- list behind the word Replicated and has no arguments.
pub classify_table_engine_allowed :
    (name : Bytes) (n : ℕ)
    → (classify_table_engine name n ≡ table_engine_allowed_class) ↔ IsAllowedEngine name n
classify_table_engine_allowed name n = (engine-IsAllowed name n, engine_of-IsAllowed name n)
