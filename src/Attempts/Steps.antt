-- ===== src/Attempts/Steps.antt =====
-- The transactions on attempts as the steps of one system: requests, runners, observers and the
-- sweep of abandoned locks act in any order; and what a step makes of the rows.
pub mod Cancel
pub mod Recovering
pub mod Adding
use mathlib.Core.Option
use range42_backend_api.Prelude.{
  ℕ, String, ◌≡◌, ◌≢◌, refl, ◌≤◌, Bool, true, false, not, ◌&&◌, ◌||◌, Option, none, some, arith,
  ◌==◌, ◌!=◌, string_eq, if◌then◌else◌, Option-cases, Bool-cases, inl, inr, ap, ◌∙◌,
}
use range42_backend_api.Prelude.Result.{Result, ok}
use range42_backend_api.Models.{
  Db, Attempt, AttemptState, Deployment, Owner, SnapshotOperation, OperationState, deployment?,
  attempt?, operation?,
}
use range42_backend_api.Processes.{Machine}
use range42_backend_api.Locks.{acquire_lock, cleanup_stale_locks}
use range42_backend_api.Locks.Sweep.{attempts-cleanup_stale_locks, deployments-cleanup_stale_locks}
use range42_backend_api.Lifecycle.{
  terminal, cancel_requested, Outcome, finish_row, finished, with_rc, with_tip, terminal_state,
  startable, started, advance_attempt_cursor, heartbeat_attempt, mark_attempt_running,
  finish_attempt,
}
use range42_backend_api.Lifecycle.Rows.{
  current?, mark, advance, attempt-finish_attempt, current-finish_attempt,
  attempt-mark_attempt_running, current-mark_attempt_running, attempt-advance_attempt_cursor,
  current-advance_attempt_cursor, attempts-heartbeat_attempt, deployments-heartbeat_attempt,
}
use range42_backend_api.Attempts.{
  Request, AttemptCreate, active_attempt, reserve_attempt, cancel_current_attempt,
}
use range42_backend_api.Scenario.{or_empty}
use range42_backend_api.Snapshots.Admission.{Host, Execution, begin_execution}
use range42_backend_api.Snapshots.Recovery.{Cluster}
use range42_backend_api.Snapshots.Closing.{ended_attempt, reconcile_operation}
use Adding.{Adds, reserve_attempt-Adds, begin_execution-Adds}
use Recovering.{Closed, reconcile_operation-cases}
use Cancel.{Cancelled, cancel_current_attempt-Cancelled, cancel_row}
use range42_backend_api.Attempts.Evolving.{
  Evolves, Evolves-refl, Evolves-trans, Evolves-finish_row, Evolves-mark, Evolves-cancel_row,
  Evolves-advance, Maps, Maps-row, Maps-locks, Evolves-ended,
}

-- One committed transaction. A new attempt takes an identifier that no attempt has.
pub data Step (db db' : Db) : Type 0 where
  reserve :
      (r : Request) (d : String) (payload : AttemptCreate) (row : Attempt)
      → attempt? db r.new_id ≡ none
      → reserve_attempt r db d payload ≡ ok (row, db')
      → Step db db'
  start :
      (now : ℕ) (k : String) (pid : Option ℕ) (dir : String)
      → db' ≡ (mark_attempt_running now db k pid dir).1
      → Step db db'
  finish : (now : ℕ) (k : String) (o : Outcome) → db' ≡ (finish_attempt now db k o).1 → Step db db'
  progress : (k : String) (tip : ℕ) → db' ≡ advance_attempt_cursor db k tip → Step db db'
  beat : (now : ℕ) (k d : String) → db' ≡ (heartbeat_attempt now db k d).1 → Step db db'
  cancel :
      (tracked : String → Bool) (signalled : Bool) (d : String)
      → cancel_current_attempt tracked signalled db d ≡ ok db'
      → Step db db'
  execute :
      (x : Execution) (d set_id plan_digest : String)
      → attempt? db x.new_id ≡ none
      → begin_execution x db d set_id plan_digest ≡ ok db'
      → Step db db'
  recover :
      (c : Cluster) (hosts : String → Option Host) (now : ℕ) (k : String)
      → reconcile_operation c hosts now db k ≡ ok db'
      → Step db db'
  sweep :
      (m : Machine) (now : ℕ) (scope : Option String)
      → db' ≡ (cleanup_stale_locks m now db scope).1
      → Step db db'

pub data Kept (db db' : Db) : Type 0 where
  maps : Maps db db' → Kept db db'
  adds : Adds db db' → Kept db db'

Maps-Closed : (now : ℕ) (db db' : Db) (k : String) → Closed now db db' k → Maps db db'
Maps-Closed now db db' k c =
    Maps-row db db' k (ended_attempt now c.state) (Evolves-ended now c.state) c.rows c.current

recover-Maps :
    (c : Cluster) (hosts : String → Option Host) (now : ℕ) (db db' : Db) (k : String)
    → reconcile_operation c hosts now db k ≡ ok db'
    → Maps db db'
recover-Maps c hosts now db db' k h = elim (reconcile_operation-cases c hosts now db db' k h) [
  | inl same ↦ Maps-locks db db' same.attempts same.deployments
  | inr (o, e, closed) ↦ Maps-Closed now db db' (or_empty o.attempt_id) closed
]

pub Step-Kept : {db db' : Db} → Step db db' → Kept db db'
Step-Kept {db} {db'} (reserve r d payload row fresh h) =
    adds (reserve_attempt-Adds r db d payload row db' fresh h)
Step-Kept {db} {db'} (execute x d set_id plan_digest fresh h) =
    adds (begin_execution-Adds x db db' d set_id plan_digest fresh h)
Step-Kept {db} {db'} (recover c hosts now k h) = maps (recover-Maps c hosts now db db' k h)
Step-Kept {db} {db'} (start now k pid dir e) = rw e (
    maps (
      Maps-row db (mark_attempt_running now db k pid dir).1 k (mark now db k pid dir)
        (Evolves-mark now db k pid dir) (attempt-mark_attempt_running now db k pid dir)
        (current-mark_attempt_running now db k pid dir)))
Step-Kept {db} {db'} (finish now k o e) = rw e (
    maps (
      Maps-row db (finish_attempt now db k o).1 k (finish_row now o) (Evolves-finish_row now o)
        (attempt-finish_attempt now db k o) (current-finish_attempt now db k o)))
Step-Kept {db} {db'} (progress k tip e) = rw e (
    maps (
      Maps-row db (advance_attempt_cursor db k tip) k (advance db k tip k)
        (Evolves-advance db k tip k) (attempt-advance_attempt_cursor db k tip)
        (current-advance_attempt_cursor db k tip)))
Step-Kept {db} {db'} (beat now k d e) = maps (
    Maps-locks db db' (ap (λ (x : Db). x.attempts) e ∙ attempts-heartbeat_attempt now db k d)
      (ap (λ (x : Db). x.deployments) e ∙ deployments-heartbeat_attempt now db k d))
Step-Kept {db} {db'} (cancel tracked signalled d h) =
    let (k, (rows, current)) = cancel_current_attempt-Cancelled tracked signalled db db' d h in
    maps (Maps-row db db' k cancel_row Evolves-cancel_row rows current)
Step-Kept {db} {db'} (sweep m now scope e) = maps (
    Maps-locks db db' (ap (λ (x : Db). x.attempts) e ∙ attempts-cleanup_stale_locks m now db scope)
      (ap (λ (x : Db). x.deployments) e ∙ deployments-cleanup_stale_locks m now db scope))

pub data Reach (db : Db) : Db → Type 0 where
  here : Reach db db
  next : {mid last : Db} → Reach db mid → Step mid last → Reach db last
