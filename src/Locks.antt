-- ===== src/Locks.antt =====
-- core/locks.py: the lock on a deployment's workspace, with its heartbeat.
pub mod Exclusion
pub mod Sweep
mod Leases
pub mod Refinement
mod Examples
use range42_backend_api.Prelude.{
  ℕ, ◌+◌, ◌-◌, ◌*◌, String, ◌<>◌, Bool, true, false, not, ◌&&◌, ◌||◌, Option, none, some, List, [],
  ◌∷◌, ltb, ◌==◌, ◌!=◌, if◌then◌else◌, any, option_eq, string_eq, nat_eq,
}
use range42_backend_api.Prelude.Table.{select, update, delete}
use range42_backend_api.Prelude.Result.{Result, ok, raise, error}
use range42_backend_api.Models
use range42_backend_api.Models.{
  Db, Attempt, Deployment, WorkspaceLock, Owner, owner_eq, deployment?, attempt?, lock?,
}
use range42_backend_api.Processes.{Machine, process_matches}

unfoldable pub is_stale : ℕ → WorkspaceLock → Bool
is_stale now lock = ltb (3 * lock.heartbeat_interval_s) (now - lock.heartbeat_at)

-- `artifact.resolve()` lies in the workspace, and is what the attempt recorded, if it did.
artifact_is_own : Machine → Deployment → Attempt → String → Bool
artifact_is_own m dep att artifact = elim (m.resolve artifact) [
  | none ↦ false
  | some resolved ↦ elim (m.resolve dep.workspace_path) [
    | none ↦ false
    | some workspace ↦
        not (m.is_symlink artifact)
        && m.is_relative_to resolved workspace
        && elim att.artifact_dir [
          | none ↦ true
          | some dir ↦ dir == "" || m.resolve dir == some resolved
        ]
  ]
]

-- `attempt.pid or int((artifact / "pid").read_text())`
attempt_pid : Machine → Attempt → String → Option ℕ
attempt_pid m att artifact =
    let from_file = m.read_pid (artifact <> "/pid") in
    elim att.pid [ none ↦ from_file | some p ↦ if p == 0 then from_file else some p ]

workspace_process_alive : Machine → Deployment → Attempt → Bool
unfolding artifact_is_own attempt_pid process_matches
workspace_process_alive m dep att =
    let artifact = dep.workspace_path <> "/runner/" <> att.id in
    artifact_is_own m dep att artifact && elim (attempt_pid m att artifact) [
      | none ↦ false
      | some pid ↦ process_matches m artifact pid
    ]

-- A remote native task survives the API: its operation must be reconciled before the lock goes.
is_active : Models.OperationState → Bool
is_active Models.OperationState.running = true
is_active Models.OperationState.needs_review = true
is_active _ = false

native_task_alive : Db → Attempt → Bool
unfolding is_active
native_task_alive db att = any (λ o. o.attempt_id == some att.id && is_active o.state) db.operations

attempt_alive : Machine → Db → WorkspaceLock → Option Attempt → Bool
unfolding native_task_alive workspace_process_alive
attempt_alive m db lock none = false
attempt_alive m db lock (some att) =
    if att.deployment_id != lock.deployment_id
    then false
    else if att.scope == "snapshot_set"
    then native_task_alive db att
    else elim (deployment? db lock.deployment_id) [
      | none ↦ false
      | some dep ↦ workspace_process_alive m dep att
    ]

unfoldable pub runner_alive : Machine → Db → WorkspaceLock → Bool
unfolding attempt_alive
runner_alive m db lock = elim lock.owner [
  | Owner.attempt id ↦ attempt_alive m db lock (attempt? db id)
  | Owner.other _ ↦ false
]

abbrev pub new_lock : ℕ → String → Owner → ℕ → WorkspaceLock
new_lock now deployment_id owner interval_s = record {
  deployment_id = deployment_id;
  owner = owner;
  acquired_at = now;
  heartbeat_at = now;
  heartbeat_interval_s = interval_s;
}

-- `LockHeldError`
abbrev pub lock_held : Result Db
lock_held = raise (error 409 "DEPLOYMENT_LOCKED")

abbrev delete_lock : Db → String → Db
delete_lock db k = record db { locks = delete (λ l. l.deployment_id) k db.locks }

abbrev add_lock : Db → WorkspaceLock → Db
add_lock db lock = record db { locks = lock ∷ db.locks }

acquire_over : Machine → ℕ → Db → WorkspaceLock → Option WorkspaceLock → Result Db
acquire_over m now db lock none = ok (add_lock db lock)
acquire_over m now db lock (some existing) =
    if is_stale now existing && not (runner_alive m db existing)
    then ok (add_lock (delete_lock db existing.deployment_id) lock)
    else lock_held

-- The new row is the first of the table.
unfoldable pub acquire_lock : Machine → ℕ → Db → String → Owner → ℕ → Result Db
unfolding acquire_over
acquire_lock m now db deployment_id owner interval_s =
    acquire_over m now db (new_lock now deployment_id owner interval_s) (lock? db deployment_id)

owns : Owner → Option WorkspaceLock → Bool
owns owner none = false
owns owner (some existing) = existing.owner == owner

unfoldable pub release_lock : Db → String → Owner → Bool × Db
unfolding owns
release_lock db deployment_id owner =
    if owns owner (lock? db deployment_id)
    then (true, delete_lock db deployment_id)
    else (false, db)

abbrev pub renewed : ℕ → WorkspaceLock → WorkspaceLock
renewed now l = record l { heartbeat_at = now }

unfoldable pub heartbeat : ℕ → Db → String → Owner → Bool × Db
unfolding owns
heartbeat now db deployment_id owner =
    if owns owner (lock? db deployment_id)
    then (
      true,
      record db { locks = update (λ l. l.deployment_id == deployment_id) (renewed now) db.locks },
    )
    else (false, db)

-- The loop over the rows: one decision for each row, against the attempts as they are stored.
sweep : Machine → ℕ → List WorkspaceLock → Db → ℕ × Db
sweep m now [] db = (0, db)
sweep m now (row ∷ rows) db =
    let gone = is_stale now row && not (runner_alive m db row) in
    let rest = sweep m now rows (if gone then delete_lock db row.deployment_id else db) in
    (if gone then rest.0 + 1 else rest.0, rest.1)

unfoldable pub cleanup_stale_locks : Machine → ℕ → Db → Option String → ℕ × Db
unfolding sweep
cleanup_stale_locks m now db none = sweep m now db.locks db
cleanup_stale_locks m now db (some k) = sweep m now (select (λ l. l.deployment_id == k) db.locks) db
