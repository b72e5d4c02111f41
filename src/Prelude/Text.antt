-- ===== src/Prelude/Text.antt =====
-- Go's `string` is a sequence of bytes: a list of native numbers. Equality, order, search, prefixes.
use Prim.Native.Nat.{ℕ, zero, suc, ◌+◌, ◌-◌}
use Prim.Native.Char.{code}
use Prim.Native.String.{String}
use mathlib.Core.Path.{◌≡◌, refl, ◌∙◌, ap}
use mathlib.Core.Bool.{Bool, true, false, ◌&&◌, ◌||◌}
use mathlib.Core.Logic.{◌↔◌}
use mathlib.Core.Option.{Option, none, some}
use mathlib.Core.List.{List, [], ◌∷◌, ◌++◌, reverse}
use native.Mathlib.Omega.{arith}
use rewriter_go.Prelude.Tests.{ltb, leb, eqb, if◌then◌else◌}
use rewriter_go.Prelude.Lists.{any, any-append, length, take, drop}

abbrev pub Bytes : Type 0
Bytes = List ℕ

-- The bytes of a literal, for ASCII text.
abbrev pub codes : String → Bytes
codes String.[] = []
codes (String.◌∷◌ c s) = code c ∷ codes s

infix 50 ◌==◌
unfoldable pub ◌==◌ : Bytes → Bytes → Bool
[] == [] = true
[] == (_ ∷ _) = false
(_ ∷ _) == [] = false
(a ∷ s) == (b ∷ t) = eqb a b && s == t

pub eq_refl : (s : Bytes) → s == s ≡ true
unfolding ◌==◌
eq_refl [] = refl
eq_refl (a ∷ s) = ground (arith, eq_refl s)

pub eq_of_test : (s t : Bytes) → s == t ≡ true → s ≡ t
unfolding ◌==◌
eq_of_test [] [] h = refl
eq_of_test [] (b ∷ t) h = ground arith
eq_of_test (a ∷ s) [] h = ground arith
eq_of_test (a ∷ s) (b ∷ t) h = ground (arith, eq_of_test s t)

pub eq_iff : (s t : Bytes) → (s == t ≡ true) ↔ (s ≡ t)
eq_iff s t = (eq_of_test s t, λ e. rw (← e) (eq_refl s))

pub eq_comm : (s t : Bytes) → s == t ≡ t == s
unfolding ◌==◌
eq_comm [] [] = refl
eq_comm [] (b ∷ t) = refl
eq_comm (a ∷ s) [] = refl
eq_comm (a ∷ s) (b ∷ t) = ground (arith, eq_comm s t)

-- `slices.Contains`, and a look-up in a `map[string]bool`.
unfoldable pub contains : Bytes → List Bytes → Bool
contains s xs = any (λ x. x == s) xs

pub contains-append :
    (s : Bytes) (xs ys : List Bytes) → contains s (xs ++ ys) ≡ (contains s xs || contains s ys)
unfolding contains
contains-append s xs ys = any-append (λ x. x == s) xs ys

-- Lexicographic order by bytes, as Go compares strings.
unfoldable pub less : Bytes → Bytes → Bool
less [] [] = false
less [] (_ ∷ _) = true
less (_ ∷ _) [] = false
less (a ∷ s) (b ∷ t) = ltb a b || (eqb a b && less s t)

pub less_irrefl : (s : Bytes) → less s s ≡ false
unfolding less
less_irrefl [] = refl
less_irrefl (a ∷ s) = ground (arith, less_irrefl s)

pub less_trans : (s t u : Bytes) → less s t ≡ true → less t u ≡ true → less s u ≡ true
unfolding less
less_trans [] [] u h k = ground arith
less_trans [] (b ∷ t) [] h k = ground arith
less_trans [] (b ∷ t) (c ∷ u) h k = refl
less_trans (a ∷ s) [] u h k = ground arith
less_trans (a ∷ s) (b ∷ t) [] h k = ground arith
less_trans (a ∷ s) (b ∷ t) (c ∷ u) h k = ground (arith, less_trans s t u)

pub less_total : (s t : Bytes) → (s == t ≡ false) → (less s t ≡ false) → less t s ≡ true
unfolding less ◌==◌
less_total [] [] h k = ground arith
less_total [] (b ∷ t) h k = ground arith
less_total (a ∷ s) [] h k = refl
less_total (a ∷ s) (b ∷ t) h k = ground (arith, less_total s t)

-- `strings.IndexByte(s, c) >= 0`
unfoldable pub has_byte : ℕ → Bytes → Bool
has_byte c s = any (λ b. eqb b c) s

-- `strings.Count(s, c)` for one byte
unfoldable pub count_byte : ℕ → Bytes → ℕ
count_byte c [] = 0
count_byte c (b ∷ s) = (if eqb b c then 1 else 0) + count_byte c s

-- `s[:i], s[i+1:]` at `i = strings.IndexByte(s, c)`; none when `c` does not occur.
unfoldable pub cut_at : ℕ → Bytes → Option (Bytes × Bytes)
cut_at c [] = none
cut_at c (b ∷ s) =
    if eqb b c
    then some ([], s)
    else elim (cut_at c s) [ none ↦ none | some (l, r) ↦ some (b ∷ l, r) ]

-- `strings.HasPrefix(s, p)`
unfoldable pub has_prefix : Bytes → Bytes → Bool
has_prefix s [] = true
has_prefix [] (_ ∷ _) = false
has_prefix (a ∷ s) (b ∷ p) = eqb a b && has_prefix s p

-- `strings.HasSuffix(s, p)`: what stands behind `len(s) - len(p)` bytes is p.
unfoldable pub has_suffix : Bytes → Bytes → Bool
has_suffix s p = leb (length p) (length s) && drop (length s - length p) s == p

pub has_prefix-append : (p s : Bytes) → has_prefix (p ++ s) p ≡ true
unfolding has_prefix
has_prefix-append [] [] = refl
has_prefix-append [] (a ∷ s) = refl
has_prefix-append (a ∷ p) s = ground (arith, has_prefix-append p s)

pub has_prefix-split : (s p : Bytes) → has_prefix s p ≡ true → s ≡ p ++ drop (length p) s
unfolding has_prefix
has_prefix-split s [] h = refl
has_prefix-split [] (b ∷ p) h = ground arith
has_prefix-split (a ∷ s) (b ∷ p) h = ground (arith, has_prefix-split s p)

pub take-drop : (n : ℕ) (s : Bytes) → take n s ++ drop n s ≡ s
take-drop zero s = refl
take-drop (suc n) [] = refl
take-drop (suc n) (a ∷ s) = ground (arith, take-drop n s)

pub drop-append_length : (s t : Bytes) → drop (length s) (s ++ t) ≡ t
drop-append_length [] t = refl
drop-append_length (a ∷ s) t = drop-append_length s t

drop-nil : (n : ℕ) → drop {A = ℕ} n [] ≡ []
drop-nil zero = refl
drop-nil (suc n) = refl

pub drop-drop : (m n : ℕ) (s : Bytes) → drop m (drop n s) ≡ drop (n + m) s
drop-drop m zero s = ground arith
drop-drop m (suc n) [] = ground (arith, drop-nil m, drop-nil (suc n + m))
drop-drop m (suc n) (a ∷ s) =
    let e : suc (n + m) ≡ suc n + m = omega arith in drop-drop m n s ∙ ap (λ k. drop k (a ∷ s)) e

pub length-drop : (n : ℕ) (s : Bytes) → length (drop n s) ≡ length s - n
length-drop zero s = omega arith
length-drop (suc n) [] = omega arith
length-drop (suc n) (a ∷ s) = omega (arith, length-drop n s)

-- `strings.TrimLeft(s, " \t")`
unfoldable pub trim_left : Bytes → Bytes
trim_left [] = []
trim_left (c ∷ s) = if eqb c b' ' || eqb c b'\t' then trim_left s else c ∷ s

-- `strings.Trim(s, " \t")`
unfoldable pub trim : Bytes → Bytes
trim s = reverse (trim_left (reverse (trim_left s)))

-- `strings.FieldsFunc(s, sep)`: the runs of bytes that are no separators. `cur` is the run so far.
unfoldable pub fields_from : (ℕ → Bool) → Bytes → Bytes → List Bytes
fields_from sep cur [] = if cur == [] then [] else cur ∷ []
fields_from sep cur (c ∷ s) =
    let ended = fields_from sep [] s in
    let longer = fields_from sep (cur ++ (c ∷ [])) s in
    if sep c then (if cur == [] then ended else cur ∷ ended) else longer

unfoldable pub fields : (ℕ → Bool) → Bytes → List Bytes
fields sep s = fields_from sep [] s
