-- ===== src/Attempts/Invariants.antt =====
-- What holds of the attempts after any sequence of transactions.
use range42_backend_api.Prelude.{
  String, ◌≡◌, false, some, arith, ◌==◌, string_eq, Option-cases, Bool-cases, inl, inr,
}
use range42_backend_api.Models.{Db, Attempt, attempt?}
use range42_backend_api.Lifecycle.{terminal}
use range42_backend_api.Lifecycle.Rows.{current?}
use range42_backend_api.Attempts.Steps.Adding.{Adds}
use range42_backend_api.Attempts.Steps.{Kept, maps, adds, Step-Kept, Reach, here, next}
use range42_backend_api.Attempts.Evolving.{Evolves, Evolves-refl, Evolves-trans, Maps}

-- An attempt goes on as `b`.
abbrev pub Continues : Db → String → Attempt → Type 0
Continues db j a = (b : Attempt) × (attempt? db j ≡ some b) × Evolves a b

Kept-Continues :
    {db db' : Db} (j : String) (a : Attempt)
    → attempt? db j ≡ some a
    → Kept db db'
    → Continues db' j a
Kept-Continues {db} {db'} j a e (maps m) =
    let (f, evolves, rows) = m.rows j in (f a, ground arith, evolves a)
Kept-Continues {db} {db'} j a e (adds x) = (a, ground (arith, x.rows j, x.fresh), Evolves-refl a)

-- No sequence of reservations, starts, completions, cursor updates, heartbeats, cancellations,
-- sweeps, and executions and recoveries of snapshot plans loses an attempt, moves it to another
-- deployment or scope, reopens it once it has ended, lowers its event cursor or forgets a request
-- to cancel it.
pub Reach-Continues :
    {db db' : Db} (j : String) (a : Attempt)
    → attempt? db j ≡ some a
    → Reach db db'
    → Continues db' j a
Reach-Continues j a e here = (a, e, Evolves-refl a)
Reach-Continues {db} j a e (next r s) =
    let (b, eb, h) = Reach-Continues j a e r in
    let (c, ec, g) = Kept-Continues j b eb (Step-Kept s) in (c, ec, Evolves-trans a b c h g)

-- Every attempt that has not ended is the current one of its deployment.
abbrev pub IsExclusive : Db → Type 0
IsExclusive db =
    (j : String) (a : Attempt)
    → attempt? db j ≡ some a
    → terminal a.state ≡ false
    → current? db a.deployment_id ≡ some (some j)

Maps-IsExclusive : {db db' : Db} → Maps db db' → IsExclusive db → IsExclusive db'
Maps-IsExclusive {db} {db'} m inv j b e live = elim (Option-cases (attempt? db j)) [
  | inl n ↦ let (f, evolves, rows) = m.rows j in absurd (ground arith)
  | inr (a, ea) ↦
      let (f, evolves, rows) = m.rows j in
      let same : b ≡ f a = ground arith in
      let h = evolves a in
      ground (arith, m.current b.deployment_id, inv j a, h.settled, h.same_deployment)
]

Adds-IsExclusive : {db db' : Db} → Adds db db' → IsExclusive db → IsExclusive db'
Adds-IsExclusive {db} {db'} x inv j b e live = elim (Bool-cases (x.row.id == j)) [
  | inl p ↦ ground (arith, x.rows j, x.current b.deployment_id)
  | inr p ↦
      let before : attempt? db j ≡ some b = ground (arith, x.rows j) in
      ground (arith, x.current b.deployment_id, inv j b before live, x.idle j b before)
]

Kept-IsExclusive : {db db' : Db} → Kept db db' → IsExclusive db → IsExclusive db'
Kept-IsExclusive (maps m) inv = Maps-IsExclusive m inv
Kept-IsExclusive (adds x) inv = Adds-IsExclusive x inv

-- Where every attempt that has not ended is the current one of its deployment, that stays so
-- whatever sequence of reservations, starts, completions, cursor updates, heartbeats,
-- cancellations, sweeps, and executions and recoveries of snapshot plans runs.
pub Reach-IsExclusive : {db db' : Db} → IsExclusive db → Reach db db' → IsExclusive db'
Reach-IsExclusive inv here = inv
Reach-IsExclusive inv (next r s) = Kept-IsExclusive (Step-Kept s) (Reach-IsExclusive inv r)

-- From tables in which every attempt that has not ended is the current one of its deployment,
-- whatever sequence of reservations, starts, completions, cursor updates, heartbeats,
-- cancellations, sweeps, and executions and recoveries of snapshot plans runs: two attempts of one
-- deployment that have not ended are the same.
pub one_active_attempt :
    {db db' : Db}
    → IsExclusive db
    → Reach db db'
    → (i j : String) (a b : Attempt) → attempt? db' i ≡ some a
    → attempt? db' j ≡ some b
    → a.deployment_id ≡ b.deployment_id
    → terminal a.state ≡ false
    → terminal b.state ≡ false
    → i ≡ j
one_active_attempt inv r i j a b ea eb same la lb =
    let all = Reach-IsExclusive inv r in ground (arith, all i a ea la, all j b eb lb)
