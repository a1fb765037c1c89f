-- ===== src/Orphans.antt =====
-- core/orphans.py, `reconcile_once`: what becomes of the attempts that were left when the service
-- stopped. A raise ends the pass, with the changes that earlier attempts have committed.
mod Advancing
pub mod Ending
mod Examples
use range42_backend_api.Prelude.{
  ℕ, ◌+◌, ◌-◌, String, ◌<>◌, Bool, true, false, not, ◌&&◌, ◌||◌, Option, none, some, List, [], ◌∷◌,
  ltb, ◌==◌, ◌!=◌, if◌then◌else◌, option_eq, string_eq, nat_eq,
}
use range42_backend_api.Prelude.Result.{Result, ok, raise, error}
use range42_backend_api.Models.{
  Db, Attempt, AttemptState, Deployment, WorkspaceLock, Owner, owner_eq, state_eq, ℤ, deployment?,
  lock?,
}
use range42_backend_api.Processes.{Machine, process_matches}
use range42_backend_api.Locks.{new_lock}
use range42_backend_api.Lifecycle.{
  Outcome, terminal, cancel_requested, advance_attempt_cursor, finish_attempt,
}
use range42_backend_api.Snapshots.Admission.{Host}
use range42_backend_api.Snapshots.Recovery.{Cluster}
use range42_backend_api.Snapshots.Closing.{reconcile_operation}

-- The result of `observe_runtime_completion`
pub record Completion : Type 0 where
  pub partial : Bool
  pub error_code : Option String

-- What a pass reads from outside: the machine with the `rc` files, the tasks in `_TASKS` that go
-- on, the times in `updated_at`, the operation that an attempt names, the cluster, the cursors that
-- the drained events report, the assessment of a runtime attempt, and the number of the event that
-- is appended.
pub record Restart : Type 0 where
  pub machine : Machine
  pub now : ℕ
  pub read_rc : String → Option ℤ
  pub is_tracked : String → Bool
  pub updated_at : String → ℕ
  pub operation_of : String → Option String
  pub cluster : Cluster
  pub hosts : String → Option Host
  pub drained : String → List ℕ
  pub completion : String → Completion
  pub append : String → ℕ

-- `locked_cancel`
unfoldable pub has_own_lock : Db → Attempt → Bool
has_own_lock db a = elim (lock? db a.deployment_id) [
  | none ↦ false
  | some lock ↦ lock.owner == Owner.attempt a.id
]

unfoldable pub is_orphan : Db → Attempt → Bool
is_orphan db a = not (terminal a.state) || (a.state == AttemptState.cancelled && has_own_lock db a)

-- The rows of the query: the attempts with their deployments.
unfoldable pub orphan_rows : Db → List Attempt → List (Attempt × Deployment)
orphan_rows db [] = []
orphan_rows db (a ∷ rest) =
    let later = orphan_rows db rest in
    elim (deployment? db a.deployment_id) [
      | none ↦ later
      | some dep ↦ if is_orphan db a then (a, dep) ∷ later else later
    ]

abbrev pub artifact_of : Attempt → Deployment → String
artifact_of a dep = dep.workspace_path <> "/runner/" <> a.id

-- The recorded artifact, if there is one, resolves to `resolved`. `resolve` may raise.
unfoldable pub is_recorded : Machine → Option String → String → Result Bool
is_recorded m none resolved = ok true
is_recorded m (some dir) resolved =
    if dir == ""
    then ok true
    else elim (m.resolve dir) [ none ↦ raise (error 500 "INTERNAL") | some r ↦ ok (r == resolved) ]

-- The artifact is the recorded one, and lies in the workspace.
unfoldable pub owns_artifact : Machine → Attempt → Deployment → Result Bool
owns_artifact m a dep = elim (m.resolve (artifact_of a dep)) [
  | none ↦ raise (error 500 "INTERNAL")
  | some resolved ↦ elim (m.resolve dep.workspace_path) [
    | none ↦ raise (error 500 "INTERNAL")
    | some workspace ↦ elim (is_recorded m a.artifact_dir resolved) [
      | raise e ↦ raise e
      | ok same ↦
          ok (same && not (m.is_symlink (artifact_of a dep)) && m.is_relative_to resolved workspace)
    ]
  ]
]

abbrev pub started_or : Option ℕ → ℕ → ℕ
started_or none updated = updated
started_or (some started) updated = started

-- The PID of the runner; `none` skips an attempt that has none and is younger than 90 seconds.
unfoldable pub orphan_pid : Restart → Attempt → Deployment → Option ℕ
orphan_pid x a dep =
    let from_file : Option ℕ = elim (x.machine.read_pid (artifact_of a dep <> "/pid")) [
      | some pid ↦ some pid
      | none ↦
          if ltb (x.now - started_or a.started_at (x.updated_at dep.id)) 90 then none else some 0
    ] in
    elim a.pid [ none ↦ from_file | some p ↦ if p == 0 then from_file else some p ]

-- What a pass does with an attempt.
pub data Fate : Type 0 where
  snapshot : Fate
  passed_over : Fate
  alive : Fate
  gone : Option ℤ → Fate

unfoldable pub fate_at : Restart → Attempt → Deployment → Option ℕ → Fate
fate_at x a dep none = Fate.passed_over
fate_at x a dep (some pid) =
    if process_matches x.machine (artifact_of a dep) pid
    then Fate.alive
    else Fate.gone (x.read_rc (artifact_of a dep <> "/rc"))

unfoldable pub fate_of : Restart → Attempt → Deployment → Result Fate
fate_of x a dep =
    if a.scope == "snapshot_set"
    then ok Fate.snapshot
    else if x.is_tracked a.id
    then ok Fate.passed_over
    else elim (owns_artifact x.machine a dep) [
      | raise e ↦ raise e
      | ok owned ↦ ok (if owned then fate_at x a dep (orphan_pid x a dep) else Fate.passed_over)
    ]

-- A live process keeps its lock, or gets it back; a lock of another attempt stays.
unfoldable pub adopt : ℕ → Db → Attempt → Deployment → Db
adopt now db a dep = elim (lock? db dep.id) [
  | some lock ↦ db
  | none ↦ record db { locks = new_lock now dep.id (Owner.attempt a.id) 30 ∷ db.locks }
]

unfoldable pub drain : Db → String → List ℕ → Db
drain db k [] = db
drain db k (cursor ∷ cursors) = drain (advance_attempt_cursor db k cursor) k cursors

abbrev pub unobserved : Outcome
unobserved = record {
  rc = none;
  event_cursor_tip = none;
  error_code = some "RUNNER_EXIT_UNOBSERVED";
  warning_code = none;
  cancelled = false;
  unknown = true;
  partial = false;
}

-- `runtime_result` is empty but for a runtime attempt.
abbrev pub observed : Completion → ℤ → Outcome
observed c rc = record {
  rc = some rc;
  event_cursor_tip = none;
  error_code = c.error_code;
  warning_code = none;
  cancelled = false;
  unknown = false;
  partial = c.partial;
}

abbrev pub plain : Completion
plain = record { partial = false; error_code = none }

unfoldable pub recovered_outcome : Restart → Attempt → Option ℤ → Outcome
recovered_outcome x a none = unobserved
recovered_outcome x a (some rc) =
    observed (if a.scope == "runtime" then x.completion a.id else plain) rc

-- The second call of `finish_attempt`, after the event that reports the end
abbrev pub with_cursor : Option ℤ → ℕ → Outcome
with_cursor rc cursor = record {
  rc = rc;
  event_cursor_tip = some cursor;
  error_code = none;
  warning_code = none;
  cancelled = false;
  unknown = false;
  partial = false;
}

-- `_finish_recovered`
unfoldable pub finish_recovered : Restart → Db → Attempt → Option ℤ → Db
finish_recovered x db a rc =
    let ended =
      (finish_attempt x.now (drain db a.id (x.drained a.id)) a.id (recovered_outcome x a rc)).1 in
    (finish_attempt x.now ended a.id (with_cursor rc (x.append a.id))).1

-- `except Range42Error`: any other exception ends the pass.
unfoldable pub unless_verified : Db → Result Db → Result Db
unless_verified db (ok after) = ok after
unless_verified db (raise e) = if e.code == "INTERNAL" then raise e else ok db

unfoldable pub recover_snapshot : Restart → Db → Option String → Result Db
recover_snapshot x db none = ok db
recover_snapshot x db (some k) =
    unless_verified db (reconcile_operation x.cluster x.hosts x.now db k)

unfoldable pub meet : Restart → Db → Attempt → Deployment → Fate → Result Db
meet x db a dep Fate.snapshot = recover_snapshot x db (x.operation_of a.id)
meet x db a dep Fate.passed_over = ok db
meet x db a dep Fate.alive = ok (adopt x.now db a dep)
meet x db a dep (Fate.gone rc) = ok (finish_recovered x db a rc)

unfoldable pub reconcile_attempt : Restart → Db → Attempt → Deployment → Result Db
reconcile_attempt x db a dep = elim (fate_of x a dep) [
  | raise e ↦ raise e
  | ok fate ↦ meet x db a dep fate
]

-- The tables at the end of a pass, and the error that has ended it early.
unfoldable pub reconcile_orphans : Restart → Db → List (Attempt × Deployment) → Db × Bool
reconcile_orphans x db [] = (db, true)
reconcile_orphans x db ((a, dep) ∷ rest) = elim (reconcile_attempt x db a dep) [
  | raise e ↦ (db, false)
  | ok after ↦ reconcile_orphans x after rest
]

unfoldable pub reconcile_once : Restart → Db → Db × Bool
reconcile_once x db = reconcile_orphans x db (orphan_rows db db.attempts)
