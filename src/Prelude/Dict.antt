-- ===== src/Prelude/Dict.antt =====
-- A Go `map[string]V`: an association list, read by its first entry. The order of the list is the
-- order in which one run of `range` meets the entries; Go promises none.
use mathlib.Core.Path.{◌≡◌, refl, ◌∙◌}
use mathlib.Core.Bool.{Bool, true, Bool-set}
use mathlib.Core.Logic.{inl, inr, ∥∥₁_elim}
use mathlib.Core.Option.{Option, none, some}
use mathlib.Core.List.{List, [], ◌∷◌, Perm, Permᴰ}
use native.Mathlib.Omega.{arith}
use rewriter_go.Prelude.Tests.{if◌then◌else◌, is_some, Bool-cases}
use rewriter_go.Prelude.Lists.{any}
use rewriter_go.Prelude.Text.{Bytes, ◌==◌, contains}

abbrev pub Dict : Type 0 → Type 0
Dict V = List (Bytes × V)

module _ {V : Type 0} where
  unfoldable pub lookup : Bytes → Dict V → Option V
  lookup k [] = none
  lookup k ((j, v) ∷ m) = if j == k then some v else lookup k m

  -- `_, ok := m[k]`
  unfoldable pub has_key : Bytes → Dict V → Bool
  has_key k m = is_some (lookup k m)

  unfoldable pub keys : Dict V → List Bytes
  keys [] = []
  keys ((j, _) ∷ m) = j ∷ keys m

  unfoldable pub any_value : (V → Bool) → Dict V → Bool
  any_value p m = any (λ e. p (e.1)) m

  pub has_key-contains : (k : Bytes) (m : Dict V) → has_key k m ≡ contains k (keys m)
  unfolding has_key lookup keys contains
  has_key-contains k [] = refl
  has_key-contains k ((j, v) ∷ m) = ground (arith, has_key-contains k m)

  -- The value that a look-up finds is one of the map's values.
  pub any_value-lookup :
      (p : V → Bool) (k : Bytes) (m : Dict V) {v : V}
      → lookup k m ≡ some v
      → p v ≡ true
      → any_value p m ≡ true
  unfolding lookup any_value
  any_value-lookup p k [] h g = ground arith
  any_value-lookup p k ((j, w) ∷ m) {v} h g = elim (Bool-cases (j == k)) [
    | inl e ↦ ground arith
    | inr e ↦ ground (arith, any_value-lookup p k m (ground arith) g)
  ]

any-permᴰ {ℓ} : {A : Type ℓ} (p : A → Bool) {xs ys : List A} → Permᴰ xs ys → any p xs ≡ any p ys
any-permᴰ p Permᴰ.nil = refl
any-permᴰ p (Permᴰ.cons {a} {b} e h) = rw (e, any-permᴰ p h) refl
any-permᴰ p (Permᴰ.swap {a} {b} e f) = rw (e, f) (ground arith)
any-permᴰ p (Permᴰ.trans h k) = any-permᴰ p h ∙ any-permᴰ p k

-- A test over all entries does not depend on the order in which `range` meets them.
pub any-perm {ℓ} : {A : Type ℓ} (p : A → Bool) {xs ys : List A} → Perm xs ys → any p xs ≡ any p ys
any-perm p h = ∥∥₁_elim h (Bool-set _ _) (any-permᴰ p)
