-- ===== src/Nameresolve/Selecting/Policy.antt =====
-- Which option is in force.
use rewriter_go.Prelude.{
  ◌≡◌, refl, ◌&&◌, List, [], ◌∷◌, Option, none, some, arith, if◌then◌else◌, ◌>>=◌, or_default,
  is_some,
}
use rewriter_go.Nameresolve.Request.{
  DynamicArgs, TableNameArgs, RewriteOption, is_table_name_rewrite,
}
use rewriter_go.Nameresolve.Selecting.{
  Selection, mode_none, mode_static, mode_dynamic, select_args, select_names, select_from,
  find_active, found_from, find_dynamic_args,
}

-- The policy that one option carries: static arguments before dynamic ones.
abbrev pub policy_of_args : TableNameArgs → Option Selection
policy_of_args na = elim na.static_args [
  | some a ↦ some (mode_static a)
  | none ↦ elim na.dynamic_args [ some d ↦ some (mode_dynamic d) | none ↦ none ]
]

abbrev pub policy_of : RewriteOption → Option Selection
policy_of o = if is_table_name_rewrite o.op then o.table_name_args >>= policy_of_args else none

-- The policy of the last option that carries one.
abbrev pub last_policy : List RewriteOption → Option Selection
last_policy [] = none
last_policy (o ∷ opts) = elim (last_policy opts) [ some sel ↦ some sel | none ↦ policy_of o ]

-- One round of the loop.
round_policy :
    (sel : Selection) (o : RewriteOption)
    → (if is_table_name_rewrite o.op then select_names sel o.table_name_args else sel)
      ≡ or_default (policy_of o) sel
unfolding select_names select_args
round_policy sel o = ground arith

select_from-last :
    (sel : Selection) (opts : List RewriteOption)
    → select_from sel opts ≡ or_default (last_policy opts) sel
unfolding select_from
select_from-last sel [] = refl
select_from-last sel (o ∷ opts) =
    let next = if is_table_name_rewrite o.op then select_names sel o.table_name_args else sel in
    ground (arith, select_from-last next opts, round_policy sel o)

-- The policy in force is that of the last option that carries one, and none is in force where no
-- option does. An option with neither kind of arguments changes nothing.
pub find_active-last :
    (opts : List RewriteOption) → find_active opts ≡ or_default (last_policy opts) mode_none
unfolding find_active
find_active-last opts = select_from-last mode_none opts

-- While the selection in force is dynamic, the last dynamic arguments are those in force.
abbrev Agrees : Selection → Option DynamicArgs → Type 0
Agrees sel found = (a : DynamicArgs) → sel ≡ mode_dynamic a → found ≡ some a

round-Agrees :
    (sel : Selection) (found : Option DynamicArgs) (o : RewriteOption)
    → Agrees sel found
    → Agrees (if is_table_name_rewrite o.op then select_names sel o.table_name_args else sel) (
        if is_table_name_rewrite o.op && is_some (o.table_name_args >>= (λ na. na.dynamic_args))
        then o.table_name_args >>= (λ na. na.dynamic_args)
        else found)
unfolding select_names select_args
round-Agrees sel found o h a e = ground (arith, h a)

found_from-Agrees :
    (sel : Selection) (found : Option DynamicArgs) (opts : List RewriteOption)
    → Agrees sel found
    → Agrees (select_from sel opts) (found_from found opts)
unfolding select_from found_from
found_from-Agrees sel found [] h = h
found_from-Agrees sel found (o ∷ opts) h =
    let d = o.table_name_args >>= (λ na. na.dynamic_args) in
    found_from-Agrees
      (if is_table_name_rewrite o.op then select_names sel o.table_name_args else sel)
      (if is_table_name_rewrite o.op && is_some d then d else found) opts
      (round-Agrees sel found o h)

-- Where the policy in force is dynamic, the database-level handlers, which look for dynamic arguments
-- alone, find the same arguments.
pub find_dynamic_args-active :
    (opts : List RewriteOption) (a : DynamicArgs)
    → find_active opts ≡ mode_dynamic a
    → find_dynamic_args opts ≡ some a
unfolding find_active find_dynamic_args
find_dynamic_args-active opts a h = found_from-Agrees mode_none none opts (λ b e. cc) a h
