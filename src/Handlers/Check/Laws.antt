-- ===== src/Handlers/Check/Laws.antt =====
-- The refusals of a sequence of checks, and when a sequence goes on.
use rewriter_go.Prelude.{
  All, Bool, List, Option, Option-cases, [], arith, false, if◌then◌else◌, inl, inr, none, not, refl,
  some, true, ◌↔◌, ◌∷◌, ◌≡◌,
}
use rewriter_go.Handlers.Check.{
  Check, echoed, first_refusal, goes_on, reading, refuses, refuses_if, to_handled, ◌>>◌,
}
use rewriter_go.Native.Engine.{handled}
use rewriter_go.Native.Response.{Response, Result, err, ok}
use rewriter_go.Prelude.Text.{Bytes}

-- Every refusal of a check satisfies P.
pub data Refuses (P : Response → Type 0) : Check → Type 0 where
  by_error : {e : Bytes} → Refuses P (err e)
  by_none : Refuses P goes_on
  by_refusal : {resp : Response} → P resp → Refuses P (refuses resp)

module _ {P : Response → Type 0} where
  pub Refuses-then : {c next : Check} → Refuses P c → Refuses P next → Refuses P (c >> next)
  unfolding ◌>>◌
  Refuses-then by_error n = by_error
  Refuses-then by_none n = n
  Refuses-then (by_refusal p) n = by_refusal p

  pub Refuses-reading {ℓ} :
      {A : Type ℓ} (r : Result A) {next : A → Check}
      → ((x : A) → Refuses P (next x))
      → Refuses P (reading r next)
  unfolding reading
  Refuses-reading (err e) n = by_error
  Refuses-reading (ok x) n = n x

  pub Refuses-if : (b : Bool) (resp : Response) → P resp → Refuses P (refuses_if b resp)
  Refuses-if true resp p = by_refusal p
  Refuses-if false resp p = by_none

  pub Refuses-first {ℓ} :
      {A : Type ℓ} (f : A → Option Response) (xs : List A)
      → ((x : A) (resp : Response) → f x ≡ some resp → P resp)
      → Refuses P (first_refusal f xs)
  unfolding first_refusal
  Refuses-first f [] h = by_none
  Refuses-first f (x ∷ xs) h = elim (Option-cases (f x)) [
    | inl e ↦ rw (first_refusal, e) (Refuses-first f xs h)
    | inr (resp, e) ↦ rw (first_refusal, e) (by_refusal (h x resp e))
  ]

  pub Refuses-handled :
      {c : Check} {resp : Response} → Refuses P c → to_handled c ≡ handled resp → P resp
  Refuses-handled by_error e = absurd (ground arith)
  Refuses-handled by_none e = absurd (ground arith)
  Refuses-handled {resp = resp} (by_refusal {resp = r} p) e =
      let same : r ≡ resp = ground arith in rw (← same) p

-- A sequence goes on exactly when both parts do.
pub then_iff :
    {P Q : Type 0} (c next : Check)
    → ((c ≡ goes_on) ↔ P)
    → ((next ≡ goes_on) ↔ Q)
    → ((c >> next) ≡ goes_on) ↔ (P × Q)
unfolding ◌>>◌
then_iff (err e) next p q = (λ h. absurd (ground arith), λ (x, y). p.1 x)
then_iff (ok (some resp)) next p q =
    (λ h. absurd (ground arith), λ (x, y). absurd (let g = p.1 x in ground arith))
then_iff (ok none) next p q = (λ h. (p.0 refl, q.0 h), λ (x, y). q.1 y)

pub reading_iff {ℓ} :
    {A : Type ℓ} {Q : A → Type 0} (r : Result A) {next : A → Check}
    → ((x : A) → (next x ≡ goes_on) ↔ Q x)
    → (reading r next ≡ goes_on) ↔ ((x : A) × (r ≡ ok x) × Q x)
unfolding reading
reading_iff (err e) n = (λ h. absurd (ground arith), λ (x, g, y). absurd (ground arith))
reading_iff {Q = Q} (ok z) n = (
  λ h. (z, refl, (n z).0 h),
  λ (x, g, y). let same : z ≡ x = ground arith in (n z).1 (rw (same) y),
)

pub refuses_if_iff : (b : Bool) (resp : Response) → (refuses_if b resp ≡ goes_on) ↔ (b ≡ false)
refuses_if_iff true resp = (λ h. absurd (ground arith), λ h. absurd (ground arith))
refuses_if_iff false resp = (λ h. refl, λ h. refl)

pub first_refusal_iff :
    {A : Type 0} {P : A → Type 0} (f : A → Option Response) (xs : List A)
    → ((x : A) → (f x ≡ none) ↔ P x)
    → (first_refusal f xs ≡ goes_on) ↔ All P xs
unfolding first_refusal
first_refusal_iff f [] h = (λ e. tt, λ u. refl)
first_refusal_iff f (x ∷ xs) h = elim (Option-cases (f x)) [
  | inl e ↦
      let later = first_refusal_iff f xs h in
      rw (first_refusal, e) (λ g. ((h x).0 e, later.0 g), λ (p, ps). later.1 ps)
  | inr (resp, e) ↦
      rw (first_refusal, e)
        (λ g. absurd (ground arith), λ (p, ps). absurd (let g = (h x).1 p in ground arith))
]

pub if_iff :
    {P : Type 0} (b : Bool) {c : Check}
    → ((c ≡ goes_on) ↔ P)
    → ((if b then goes_on else c) ≡ goes_on) ↔ (b ≡ false → P)
if_iff true p = (λ h e. absurd (ground arith), λ f. refl)
if_iff false p = (λ h e. p.0 h, λ f. p.1 (f refl))

pub either_iff :
    {P Q : Type 0} (b : Bool) {c d : Check}
    → ((c ≡ goes_on) ↔ P)
    → ((d ≡ goes_on) ↔ Q)
    → ((if b then c else d) ≡ goes_on) ↔ ((b ≡ true → P) × (b ≡ false → Q))
either_iff true p q = (λ h. (λ e. p.0 h, λ e. absurd (ground arith)), λ (f, g). p.1 (f refl))
either_iff false p q = (λ h. (λ e. absurd (ground arith), λ e. q.0 h), λ (f, g). q.1 (g refl))

pub when_iff :
    {P : Type 0} (b : Bool) {c : Check}
    → ((c ≡ goes_on) ↔ P)
    → ((if not b then goes_on else c) ≡ goes_on) ↔ (b ≡ true → P)
when_iff true p = (λ h e. p.0 h, λ f. p.1 (f refl))
when_iff false p = (λ h e. absurd (ground arith), λ f. refl)

pub echoed_iff :
    (sql : Bytes) (c : Check) {P : Type 0} → ((c ≡ goes_on) ↔ P) → (echoed sql c ≡ goes_on) ↔ P
unfolding echoed
echoed_iff sql (err e) p = (λ h. absurd (ground arith), λ x. absurd (let g = p.1 x in ground arith))
echoed_iff sql (ok none) p = p
echoed_iff sql (ok (some r)) p =
    (λ h. absurd (ground arith), λ x. absurd (let g = p.1 x in ground arith))
