-- ===== src/Nameresolve/Hidden/Literals.antt =====
-- Which literals are hidden.
use rewriter_go.Prelude.{
  ◌≡◌, refl, inl, inr, Bool, true, false, not, ◌&&◌, List, [], ◌∷◌, ◌++◌, Option, none, some, arith,
  if◌then◌else◌, Bool-cases, Option-cases, all, length, leb, eqb,
}
use rewriter_go.Prelude.Text.{
  Bytes, ◌==◌, eq_refl, eq_of_test, contains, contains-append, cut_at, has_byte, trim, trim_left,
  fields,
}
use rewriter_go.Prelude.Dict.{Dict, lookup, keys, has_key, has_key-contains}
use rewriter_go.Prelude.Sort.{sort_strings, contains-sort_strings}
use rewriter_go.Nameresolve.Request.{DynamicArgs, Upstream, RemoteTable}
use rewriter_go.Nameresolve.Selecting.{Selection, mode_none, mode_static, mode_dynamic}
use rewriter_go.Nameresolve.Hidden.{
  min_hidden_literal, add_literal, add_host, add_parts, is_separator, append_remote_address,
  append_secret, add_upstream, upstream_literals, add_remote, remote_literals, hidden_names_of,
}

-- Long enough to be looked for.
abbrev pub long : Bytes → Bool
long v = leb min_hidden_literal (length v)

all-append : (p : Bytes → Bool) (xs ys : List Bytes) → all p (xs ++ ys) ≡ (all p xs && all p ys)
all-append p [] ys = refl
all-append p (x ∷ xs) ys = ground (arith, all-append p xs ys)

-- What an operation on the literals keeps: all of them long, and those there before.
abbrev Grows : List Bytes → List Bytes → Type 0
Grows before after =
    (all long before ≡ true → all long after ≡ true)
    × ((v : Bytes) → contains v before ≡ true → contains v after ≡ true)

Grows-refl : (xs : List Bytes) → Grows xs xs
Grows-refl xs = (λ h. h, λ v h. h)

Grows-trans : (xs ys zs : List Bytes) → Grows xs ys → Grows ys zs → Grows xs zs
Grows-trans xs ys zs g h = (λ k. h.0 (g.0 k), λ v k. h.1 v (g.1 v k))

Grows-append : (xs : List Bytes) (v : Bytes) → long v ≡ true → Grows xs (xs ++ (v ∷ []))
Grows-append xs v h = (
  λ k. ground (arith, all-append long xs (v ∷ [])),
  λ w k. ground (arith, contains-append w xs (v ∷ [])),
)

add_literal-Grows : (v : Bytes) (xs : List Bytes) → Grows xs (add_literal v xs)
unfolding add_literal
add_literal-Grows v xs = elim (Bool-cases (long (trim v) && not (contains (trim v) xs))) [
  | inl e ↦ rw e (Grows-append xs (trim v) (ground arith))
  | inr e ↦ rw e (Grows-refl xs)
]

if_Grows : (b : Bool) (v : Bytes) (xs : List Bytes) → Grows xs (if b then xs else add_literal v xs)
if_Grows true v xs = Grows-refl xs
if_Grows false v xs = add_literal-Grows v xs

contains_self : (v : Bytes) → contains v (v ∷ []) ≡ true
unfolding contains
contains_self v = ground (arith, eq_refl v)

add_host-Grows : (part : Bytes) (xs : List Bytes) → Grows xs (add_host part xs)
unfolding add_host
add_host-Grows [] xs = Grows-refl xs
add_host-Grows (c ∷ rest) xs = elim (Bool-cases (eqb c b'[')) [
  | inl e ↦ elim (Option-cases (cut_at b']' rest)) [
    | inl f ↦ rw (e, f) (Grows-refl xs)
    | inr ((host, more), f) ↦ rw (e, f) (add_literal-Grows host xs)
  ]
  | inr e ↦ elim (Option-cases (cut_at b':' (c ∷ rest))) [
    | inl f ↦ rw (e, f) (Grows-refl xs)
    | inr ((host, port), f) ↦ rw (e, f) (if_Grows (has_byte b':' port) host xs)
  ]
]

add_parts-Grows : (parts xs : List Bytes) → Grows xs (add_parts parts xs)
unfolding add_parts
add_parts-Grows [] xs = Grows-refl xs
add_parts-Grows (part ∷ parts) xs =
    let p = trim_left part in
    let ys = add_literal p xs in
    Grows-trans xs (add_host p ys) (add_parts parts (add_host p ys))
      (Grows-trans xs ys (add_host p ys) (add_literal-Grows p xs) (add_host-Grows p ys))
      (add_parts-Grows parts (add_host p ys))

append_remote_address-Grows :
    (xs : List Bytes) (addr : Bytes) → Grows xs (append_remote_address xs addr)
unfolding append_remote_address
append_remote_address-Grows xs addr =
    let ys = add_literal addr xs in
    Grows-trans xs ys (add_parts (fields is_separator addr) ys) (add_literal-Grows addr xs)
      (add_parts-Grows (fields is_separator addr) ys)

append_secret-Grows : (xs : List Bytes) (secret : Bytes) → Grows xs (append_secret xs secret)
unfolding append_secret
append_secret-Grows xs secret = elim (Bool-cases (long secret)) [
  | inl e ↦ rw e (Grows-append xs secret e)
  | inr e ↦ rw e (Grows-refl xs)
]

-- The literals of one remote target.
abbrev pub target_literals : List Bytes → Bytes → Bytes → List Bytes
target_literals xs addr password = append_secret (append_remote_address xs addr) password

target_literals-Grows :
    (xs : List Bytes) (addr password : Bytes) → Grows xs (target_literals xs addr password)
target_literals-Grows xs addr password =
    Grows-trans xs (append_remote_address xs addr) (target_literals xs addr password)
      (append_remote_address-Grows xs addr)
      (append_secret-Grows (append_remote_address xs addr) password)

add_literal-contains :
    (v : Bytes) (xs : List Bytes)
    → long (trim v) ≡ true
    → contains (trim v) (add_literal v xs) ≡ true
unfolding add_literal
add_literal-contains v xs h =
    ground (arith, contains-append (trim v) xs (trim v ∷ []), contains_self (trim v))

append_secret-contains :
    (xs : List Bytes) (secret : Bytes)
    → long secret ≡ true
    → contains secret (append_secret xs secret) ≡ true
unfolding append_secret
append_secret-contains xs secret h =
    ground (arith, contains-append secret xs (secret ∷ []), contains_self secret)

-- The address as a whole and the password are among the literals of their target.
abbrev pub IsHidden : Bytes → Bytes → List Bytes → Type 0
IsHidden addr password literals =
    (long (trim addr) ≡ true → contains (trim addr) literals ≡ true)
    × (long password ≡ true → contains password literals ≡ true)

target-IsHidden :
    (xs : List Bytes) (addr password : Bytes)
    → IsHidden addr password (target_literals xs addr password)
unfolding append_remote_address
target-IsHidden xs addr password =
    let ys = add_literal addr xs in
    let zs = add_parts (fields is_separator addr) ys in
    (
      λ h. (append_secret-Grows zs password).1 (trim addr) (
          (add_parts-Grows (fields is_separator addr) ys).1 (trim addr)
            (add_literal-contains addr xs h)),
      append_secret-contains zs password,
    )

Grows-IsHidden :
    (addr password : Bytes) (xs ys : List Bytes)
    → Grows xs ys
    → IsHidden addr password xs
    → IsHidden addr password ys
Grows-IsHidden addr password xs ys g h = (λ k. g.1 (trim addr) (h.0 k), λ k. g.1 password (h.1 k))

add_upstream-Grows : (xs : List Bytes) (o : Option Upstream) → Grows xs (add_upstream xs o)
unfolding add_upstream
add_upstream-Grows xs none = Grows-refl xs
add_upstream-Grows xs (some up) = target_literals-Grows xs up.addr up.password

upstream_literals-Grows :
    (ups : Dict Upstream) (ks xs : List Bytes) → Grows xs (upstream_literals ups ks xs)
unfolding upstream_literals
upstream_literals-Grows ups [] xs = Grows-refl xs
upstream_literals-Grows ups (k ∷ ks) xs =
    let ys = add_upstream xs (lookup k ups) in
    Grows-trans xs ys (upstream_literals ups ks ys) (add_upstream-Grows xs (lookup k ups))
      (upstream_literals-Grows ups ks ys)

add_upstream-IsHidden :
    (xs : List Bytes) (o : Option Upstream) (up : Upstream)
    → o ≡ some up
    → IsHidden up.addr up.password (add_upstream xs o)
unfolding add_upstream
add_upstream-IsHidden xs o up e = rw e (target-IsHidden xs up.addr up.password)

upstream_literals-IsHidden :
    (ups : Dict Upstream) (ks xs : List Bytes) (key : Bytes) (up : Upstream)
    → lookup key ups ≡ some up
    → contains key ks ≡ true
    → IsHidden up.addr up.password (upstream_literals ups ks xs)
unfolding upstream_literals contains
upstream_literals-IsHidden ups [] xs key up found listed = absurd (ground arith)
upstream_literals-IsHidden ups (k ∷ ks) xs key up found listed =
    let ys = add_upstream xs (lookup k ups) in
    elim (Bool-cases (k == key)) [
      | inl same ↦
          Grows-IsHidden up.addr up.password ys (upstream_literals ups ks ys)
            (upstream_literals-Grows ups ks ys)
            (add_upstream-IsHidden xs (lookup k ups) up (rw (eq_of_test k key same) found))
      | inr other ↦ upstream_literals-IsHidden ups ks ys key up found (ground arith)
    ]

add_remote-Grows : (xs : List Bytes) (o : Option RemoteTable) → Grows xs (add_remote xs o)
unfolding add_remote
add_remote-Grows xs none = Grows-refl xs
add_remote-Grows xs (some r) = target_literals-Grows xs r.addr r.password

remote_literals-Grows :
    (remotes : Dict RemoteTable) (ks xs : List Bytes) → Grows xs (remote_literals remotes ks xs)
unfolding remote_literals
remote_literals-Grows remotes [] xs = Grows-refl xs
remote_literals-Grows remotes (k ∷ ks) xs =
    let ys = add_remote xs (lookup k remotes) in
    Grows-trans xs ys (remote_literals remotes ks ys) (add_remote-Grows xs (lookup k remotes))
      (remote_literals-Grows remotes ks ys)

looked_up_key :
    (key : Bytes) (m : Dict Upstream) {up : Upstream}
    → lookup key m ≡ some up
    → contains key (sort_strings (keys m)) ≡ true
unfolding has_key
looked_up_key key m h = ground (arith, has_key-contains key m, contains-sort_strings key (keys m))

-- In dynamic mode the literals hold, of every configured remote upstream, the address (without the
-- blanks around it) and the password, where they have at least four bytes.
pub hidden_names_of-IsHidden :
    (a : DynamicArgs) (key : Bytes) (up : Upstream)
    → lookup key a.remote_upstreams ≡ some up
    → IsHidden up.addr up.password ((hidden_names_of (mode_dynamic a)).1)
unfolding hidden_names_of
hidden_names_of-IsHidden a key up found =
    upstream_literals-IsHidden a.remote_upstreams (sort_strings (keys a.remote_upstreams)) [] key up
      found (looked_up_key key a.remote_upstreams found)

-- Every hidden literal has at least four bytes, in every mode.
pub hidden_literals_long : (sel : Selection) → all long ((hidden_names_of sel).1) ≡ true
unfolding hidden_names_of
hidden_literals_long mode_none = refl
hidden_literals_long (mode_dynamic a) =
    (upstream_literals-Grows a.remote_upstreams (sort_strings (keys a.remote_upstreams)) []).0 refl
hidden_literals_long (mode_static a) =
    (remote_literals-Grows a.remote_table_map (sort_strings (keys a.remote_table_map)) []).0 refl
