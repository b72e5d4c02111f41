-- ===== src/Handlers/Check.antt =====
-- The way the checks of internal/handlers return.
pub mod Laws
use rewriter_go.Prelude.{Bool, List, Option, [], if◌then◌else◌, none, some, ◌∷◌}
use rewriter_go.Native.Engine.{Handled, failed, handled, not_handled}
use rewriter_go.Native.Response.{Response, Result, err, ok}
use rewriter_go.Prelude.Text.{Bytes}

-- What a check returns, `(bool, error)` beside the response that it writes to, or `(response, bool,
-- error)`: an error, the refused response, or nothing, after which the next check runs.
abbrev pub Check : Type 0
Check = Result (Option Response)

abbrev pub goes_on : Check
goes_on = ok none

abbrev pub refuses : Response → Check
refuses resp = ok (some resp)

-- `if rejected, err := c; err != nil || rejected { return … }`, and then what follows.
infixr 4 ◌>>◌
unfoldable pub ◌>>◌ : Check → Check → Check
err e >> next = err e
ok (some resp) >> next = ok (some resp)
ok none >> next = next

-- `x, err := …; if err != nil { return …, err }`, and then what follows.
unfoldable pub reading {ℓ} : {A : Type ℓ} → Result A → (A → Check) → Check
reading (err e) next = err e
reading (ok x) next = next x

-- `if b { return a refusal }`
abbrev pub refuses_if : Bool → Response → Check
refuses_if b resp = if b then refuses resp else goes_on

-- A loop that refuses at the first element with a refusal.
unfoldable pub first_refusal {ℓ} : {A : Type ℓ} → (A → Option Response) → List A → Check
first_refusal refusal [] = goes_on
first_refusal refusal (x ∷ xs) = elim (refusal x) [
  | some resp ↦ refuses resp
  | none ↦ first_refusal refusal xs
]

-- `resp.SqlAfterRewrite = sql` where a shared check has refused.
unfoldable pub echoed : Bytes → Check → Check
echoed sql (err e) = err e
echoed sql (ok none) = ok none
echoed sql (ok (some resp)) = ok (some (record resp { sql_after_rewrite = sql }))

-- What a check of a whole statement is to the pipeline.
abbrev pub to_handled : Check → Handled
to_handled (err e) = failed e
to_handled (ok none) = not_handled
to_handled (ok (some resp)) = handled resp
