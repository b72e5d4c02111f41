-- ===== src/Prelude/Sort.antt =====
-- `sort.Strings` on the keys of a set (distinct strings), and what sorting keeps.
use mathlib.Core.Path.{◌≡◌, refl, sym, ◌∙◌, ap, ap₂}
use mathlib.Core.Bool.{Bool, true, false, not, ◌&&◌, ◌||◌}
use mathlib.Core.Logic.{inl, inr}
use mathlib.Core.List.{List, [], ◌∷◌}
use native.Mathlib.Omega.{arith}
use rewriter_go.Prelude.Tests.{if◌then◌else◌, Bool-cases}
use rewriter_go.Prelude.Lists.{any, all}
use rewriter_go.Prelude.Text.{
  Bytes, ◌==◌, contains, less, less_irrefl, less_trans, less_total, eq_refl, eq_of_test, eq_iff,
  eq_comm,
}

insert : Bytes → List Bytes → List Bytes
insert s [] = s ∷ []
insert s (x ∷ xs) = if less x s then x ∷ insert s xs else s ∷ x ∷ xs

unfoldable pub sort_strings : List Bytes → List Bytes
unfolding insert
sort_strings [] = []
sort_strings (x ∷ xs) = insert x (sort_strings xs)

-- `seen[s] = true`
unfoldable pub add_key : Bytes → List Bytes → List Bytes
add_key s seen = if contains s seen then seen else s ∷ seen

contains-insert :
    (k s : Bytes) (xs : List Bytes) → contains k (insert s xs) ≡ (s == k || contains k xs)
unfolding insert contains
contains-insert k s [] = refl
contains-insert k s (x ∷ xs) = ground (arith, contains-insert k s xs)

pub contains-sort_strings :
    (k : Bytes) (xs : List Bytes) → contains k (sort_strings xs) ≡ contains k xs
unfolding sort_strings contains
contains-sort_strings k [] = refl
contains-sort_strings k (x ∷ xs) =
    ground (arith, contains-insert k x (sort_strings xs), contains-sort_strings k xs)

-- A string that is there already adds nothing.
or_known :
    (k s : Bytes) (xs : List Bytes)
    → any (λ x. x == s) xs ≡ true
    → any (λ x. x == k) xs ≡ (s == k || any (λ x. x == k) xs)
or_known k s xs h = elim (Bool-cases (s == k)) [
  | inl e ↦ rw e (rw (eq_of_test s k e) at h)
  | inr e ↦ rw e refl
]

pub contains-add_key :
    (k s : Bytes) (xs : List Bytes) → contains k (add_key s xs) ≡ (s == k || contains k xs)
unfolding add_key contains
contains-add_key k s xs = elim (Bool-cases (any (λ x. x == s) xs)) [
  | inl old ↦ rw old (or_known k s xs old)
  | inr new ↦ rw new refl
]

-- Strictly ascending: sorted, and no string twice.
abbrev pub Ascending : List Bytes → Type 0
Ascending [] = Unit
Ascending (x ∷ xs) = (all (less x) xs ≡ true) × Ascending xs

abbrev pub Distinct : List Bytes → Type 0
Distinct [] = Unit
Distinct (x ∷ xs) = (contains x xs ≡ false) × Distinct xs

pub add_key-Distinct : (s : Bytes) (xs : List Bytes) → Distinct xs → Distinct (add_key s xs)
unfolding add_key
add_key-Distinct s xs h = ground arith

all-less_trans :
    (x y : Bytes) (xs : List Bytes)
    → less x y ≡ true
    → all (less y) xs ≡ true
    → all (less x) xs ≡ true
all-less_trans x y [] h k = refl
all-less_trans x y (z ∷ xs) h k = ground (arith, less_trans x y z h, all-less_trans x y xs h)

all-less-insert :
    (y x : Bytes) (xs : List Bytes)
    → less y x ≡ true
    → all (less y) xs ≡ true
    → all (less y) (insert x xs) ≡ true
unfolding insert
all-less-insert y x [] h k = ground arith
all-less-insert y x (z ∷ xs) h k = ground (arith, all-less-insert y x xs h)

insert-Ascending :
    (x : Bytes) (xs : List Bytes) → contains x xs ≡ false → Ascending xs → Ascending (insert x xs)
unfolding insert contains
insert-Ascending x [] h a = (refl, tt)
insert-Ascending x (y ∷ xs) h (least, a) = elim (Bool-cases (less y x)) [
  | inl below ↦
      rw below (all-less-insert y x xs below least, insert-Ascending x xs (ground arith) a)
  | inr above ↦
      let least' : less x y ≡ true = less_total y x (ground arith) above in
      rw above (ground (arith, all-less_trans x y xs least' least), (least, a))
]

-- Sorting the keys of a set gives each of them once, in ascending order.
pub sort_strings-Ascending : (xs : List Bytes) → Distinct xs → Ascending (sort_strings xs)
unfolding sort_strings
sort_strings-Ascending [] h = tt
sort_strings-Ascending (x ∷ xs) (new, h) =
    insert-Ascending x (sort_strings xs) (contains-sort_strings x xs ∙ new)
      (sort_strings-Ascending xs h)

less_of_contains :
    (x y : Bytes) (xs : List Bytes)
    → all (less x) xs ≡ true
    → contains y xs ≡ true
    → less x y ≡ true
unfolding contains
less_of_contains x y [] h k = ground arith
less_of_contains x y (z ∷ xs) h k = ground (arith, eq_iff z y, less_of_contains x y xs)

not_contains : (x : Bytes) (xs : List Bytes) → all (less x) xs ≡ true → contains x xs ≡ false
not_contains x xs h = ground (arith, less_of_contains x x xs h, less_irrefl x)

head_eq :
    (x y : Bytes) (xs ys : List Bytes)
    → all (less x) xs ≡ true
    → all (less y) ys ≡ true
    → ((k : Bytes) → contains k (x ∷ xs) ≡ contains k (y ∷ ys))
    → x ≡ y
unfolding contains
head_eq x y xs ys a b h = eq_of_test x y (
    ground (
      arith,
      h x,
      h y,
      eq_refl x,
      eq_refl y,
      eq_comm x y,
      less_of_contains x y xs a,
      less_of_contains y x ys b,
      less_trans x y x,
      less_irrefl x,
    ))

tails_agree :
    (x : Bytes) (xs ys : List Bytes)
    → all (less x) xs ≡ true
    → all (less x) ys ≡ true
    → ((k : Bytes) → contains k (x ∷ xs) ≡ contains k (x ∷ ys))
    → (k : Bytes) → contains k xs ≡ contains k ys
unfolding contains
tails_agree x xs ys a b h k =
    ground (arith, h k, eq_iff x k, not_contains x xs a, not_contains x ys b)

-- An ascending list is determined by what it holds.
pub Ascending-ext :
    (xs ys : List Bytes)
    → Ascending xs
    → Ascending ys
    → ((k : Bytes) → contains k xs ≡ contains k ys)
    → xs ≡ ys
unfolding contains
Ascending-ext [] [] a b h = refl
Ascending-ext [] (y ∷ ys) a b h = ground (arith, h y, eq_refl y)
Ascending-ext (x ∷ xs) [] a b h = ground (arith, h x, eq_refl x)
Ascending-ext (x ∷ xs) (y ∷ ys) (a, as') (b, bs) h =
    let e = head_eq x y xs ys a b h in
    let b' : all (less x) ys ≡ true = rw e b in
    let h' : (k : Bytes) → contains k (x ∷ xs) ≡ contains k (x ∷ ys) =
      λ k. h k ∙ ap (λ z. contains k (z ∷ ys)) (sym e) in
    ap₂ ◌∷◌ e (Ascending-ext xs ys as' bs (tails_agree x xs ys a b' h'))

unfoldable pub distinct : List Bytes → Bool
distinct [] = true
distinct (x ∷ xs) = not (contains x xs) && distinct xs

-- The strings of a literal list are compared by evaluation.
pub Distinct-of_test : (xs : List Bytes) → distinct xs ≡ true → Distinct xs
unfolding distinct
Distinct-of_test [] h = tt
Distinct-of_test (x ∷ xs) h = (ground arith, Distinct-of_test xs (ground arith))

all-insert :
    (p : Bytes → Bool) (x : Bytes) (xs : List Bytes) → all p (insert x xs) ≡ (p x && all p xs)
unfolding insert
all-insert p x [] = refl
all-insert p x (y ∷ xs) = ground (arith, all-insert p x xs)

-- A test of all strings does not depend on their order.
pub all-sort_strings : (p : Bytes → Bool) (xs : List Bytes) → all p (sort_strings xs) ≡ all p xs
unfolding sort_strings
all-sort_strings p [] = refl
all-sort_strings p (x ∷ xs) =
    ground (arith, all-insert p x (sort_strings xs), all-sort_strings p xs)

pub all_of_contains :
    (p : Bytes → Bool) (x : Bytes) (xs : List Bytes)
    → all p xs ≡ true
    → contains x xs ≡ true
    → p x ≡ true
unfolding contains
all_of_contains p x [] h k = ground arith
all_of_contains p x (y ∷ xs) h k = ground (arith, eq_iff y x, all_of_contains p x xs)
