-- ===== src/Attempts/Steps/Cancel.antt =====
-- What a request to cancel leaves.
use mathlib.Core.Option
use range42_backend_api.Prelude.{
  String, ◌≡◌, refl, Bool, not, Option, none, some, arith, ◌==◌, string_eq, if◌then◌else◌,
  Bool-cases, inl, inr,
}
use range42_backend_api.Prelude.Table.{get-update_if}
use range42_backend_api.Prelude.Result.{ok}
use range42_backend_api.Models.{Db, Attempt, Deployment, deployment?, attempt?}
use range42_backend_api.Lifecycle.{terminal}
use range42_backend_api.Lifecycle.Rows.{current?}
use range42_backend_api.Scenario.{truthy, or_empty}
use range42_backend_api.Attempts.{cancel_marked, cancel_attempt, cancel_for, cancel_current_attempt}

abbrev pub cancel_row : Attempt → Attempt
cancel_row a = if not (terminal a.state) then cancel_marked a else a

-- The tables after a granted request on the attempt `k`.
abbrev pub Cancelled : Db → Db → String → Type 0
Cancelled db db' k =
    ((j : String)
      → attempt? db' j ≡ (if k == j then Option.map cancel_row (attempt? db j) else attempt? db j))
    × ((j : String) → current? db' j ≡ current? db j)

module _ (tracked : String → Bool) (signalled : Bool) (db db' : Db) where
  attempt-Cancelled :
      (o : Option Attempt)
      → cancel_attempt tracked signalled db o ≡ ok db'
      → (k : String) × Cancelled db db' k
  unfolding cancel_attempt
  attempt-Cancelled none h = absurd (ground arith)
  attempt-Cancelled (some a) h = (
    a.id,
    (
      λ j. ground (
        arith,
        get-update_if (λ (x : Attempt). x.id) a.id cancel_marked (λ x. not (terminal x.state)) j
            db.attempts (λ x. refl),
      ),
      λ j. ground arith,
    ),
  )

  cancel_for-Cancelled :
      (o : Option Deployment)
      → cancel_for tracked signalled db o ≡ ok db'
      → (k : String) × Cancelled db db' k
  unfolding cancel_for
  cancel_for-Cancelled none h = absurd (ground arith)
  cancel_for-Cancelled (some dep) h = elim (Bool-cases (truthy dep.current_attempt_id)) [
    | inl e ↦ attempt-Cancelled (attempt? db (or_empty dep.current_attempt_id)) (rw e at h)
    | inr e ↦ absurd (ground arith)
  ]

  pub cancel_current_attempt-Cancelled :
      (d : String)
      → cancel_current_attempt tracked signalled db d ≡ ok db'
      → (k : String) × Cancelled db db' k
  unfolding cancel_current_attempt
  cancel_current_attempt-Cancelled d h = cancel_for-Cancelled (deployment? db d) h
