-- ===== src/Attempts.antt =====
-- routes/v1/deployments/attempts.py: `reserve_attempt` up to its commit, and the failure path of
-- its automatic start; routes/v1/deployments/snapshots.py: `cancel_current_attempt`.
mod Guards
pub mod Reservation
mod Evolving
pub mod Steps
pub mod Invariants
mod Examples
use range42_backend_api.Prelude.{
  ℕ, ◌<>◌, String, Bool, true, false, not, ◌&&◌, ◌||◌, Option, none, some, List, [], ◌∷◌, ltb, leb,
  ◌==◌, ◌!=◌, contains, if◌then◌else◌, option_eq, string_eq,
}
use range42_backend_api.Prelude.Table.{update}
use range42_backend_api.Prelude.Result.{Result, ok, raise, error, raise_if, ◌>>=◌, ◌>>◌}
use range42_backend_api.Models
use range42_backend_api.Models.{
  Db, Attempt, AttemptState, Deployment, Owner, ℤ, pos, negsuc, state_eq, deployment?, attempt?,
  lock?,
}
use range42_backend_api.Processes.{Machine}
use range42_backend_api.Locks.{cleanup_stale_locks}
use range42_backend_api.Lifecycle.{terminal, finish_attempt, Outcome}
use range42_backend_api.Scenario.{
  validate_concrete_scope, validate_project_revision, destructive_actions, truthy, or_empty,
}

-- `AttemptCreate`, whose scope and revision its schema has checked
pub record AttemptCreate : Type 0 where
  pub scope : String
  pub team_id : Option ℤ
  pub confirm_codename : Option String
  pub project_sha : Option String

-- What a reservation takes from outside: the machine, the clock, a fresh identifier, `str.lower`,
-- the arguments beside the payload, and the scenario's playbooks (`resolve_attempt_playbook`).
pub record Request : Type 0 where
  pub machine : Machine
  pub now : ℕ
  pub new_id : String
  pub lower : String → String
  pub has_operation : Bool
  pub has_legacy_vars : Bool
  pub resolve_playbook : String → String → Result (Unit {0})

in_team_range : ℤ → ℕ → Bool
in_team_range (pos t) count = leb 1 t && leb t count
in_team_range (negsuc t) count = false

-- `payload.team_id is not None and not 1 <= payload.team_id <= dep.team_count`
bad_team : Option ℤ → ℕ → Bool
unfolding in_team_range
bad_team none count = false
bad_team (some t) count = not (in_team_range t count)

is_none {ℓ} : {A : Type ℓ} → Option A → Bool
is_none none = true
is_none (some _) = false

abbrev attempt_scope : Request → AttemptCreate → String
attempt_scope r payload = if r.has_operation then "runtime" else payload.scope

abbrev destructive : Deployment → AttemptCreate → Bool
destructive dep payload =
    payload.scope == "teardown"
    || (not (is_none dep.native) && contains destructive_actions payload.scope)

-- The guards in front of the reservation.
unfoldable pub check_request : Request → Deployment → AttemptCreate → Result (Unit {0})
unfolding bad_team is_none validate_concrete_scope validate_project_revision
check_request r dep payload = do
  let scope = attempt_scope r payload
  validate_concrete_scope dep scope
  validate_project_revision r.lower dep scope payload.project_sha
  raise_if (contains ("rollback_all" ∷ "rollback_team" ∷ []) scope && not r.has_legacy_vars)
      (error 400 "USE_SCOPED_ENDPOINT")
  raise_if (bad_team payload.team_id dep.team_count) (error 400 "TEAM_OUT_OF_RANGE")
  raise_if
      (contains ("team_reset" ∷ "rollback_team" ∷ "snapshot_team" ∷ []) scope
        && is_none payload.team_id)
      (error 400 "TEAM_REQUIRED")
  raise_if (destructive dep payload && payload.confirm_codename != some dep.codename)
      (error 400 "TEARDOWN_CONFIRM_MISMATCH")
  raise_if (destructive dep payload && dep.state == AttemptState.unknown)
      (error 409 "DEPLOYMENT_UNKNOWN_STATE")

-- `(payload.project_sha or dep.project_sha or "").lower() or None`
attempt_sha : (String → String) → Option String → Option String → Option String
attempt_sha lower a b =
    let sha = lower (if truthy a then or_empty a else or_empty b) in
    if sha == "" then none else some sha

unfoldable pub new_attempt : Request → Deployment → AttemptCreate → Attempt
unfolding attempt_sha
new_attempt r dep payload = record {
  id = r.new_id;
  deployment_id = dep.id;
  scope = attempt_scope r payload;
  project_sha = attempt_sha r.lower payload.project_sha dep.project_sha;
  team_id = payload.team_id;
  state = AttemptState.pending;
  sub_reason = none;
  rc = none;
  started_at = some r.now;
  ended_at = none;
  event_cursor_tip = 0;
  pid = none;
  artifact_dir = none;
}

-- The subquery `active_attempt`: the deployment's current attempt exists and has not ended.
unfoldable pub active_attempt : Db → Deployment → Bool
active_attempt db dep = elim dep.current_attempt_id [
  | none ↦ false
  | some k ↦ elim (attempt? db k) [ none ↦ false | some a ↦ not (terminal a.state) ]
]

unfoldable pub add_attempt : Db → Attempt → Db
add_attempt db a = record db { attempts = a ∷ db.attempts }

abbrev points_to : String → Deployment → Deployment
points_to k d = record d { current_attempt_id = some k; state = AttemptState.pending }

pub point_to : Db → String → String → Db
point_to db deployment_id k = record db {
  deployments = update (λ d. d.id == deployment_id) (points_to k) db.deployments;
}

-- The conditional update, on the tables with the new row and without stale locks.
claim : Request → Deployment → Attempt → Db → Result (Attempt × Db)
claim r dep row db = do
  raise_if (active_attempt db dep || not (is_none (lock? db dep.id)))
      (error 409 "ATTEMPT_IN_PROGRESS")
  if not (truthy dep.project_sha) && row.scope != "full"
      then r.resolve_playbook dep.scenario_label row.scope
      else ok tt
  ok (row, point_to db dep.id row.id)

reserve_for : Request → Db → AttemptCreate → Option Deployment → Result (Attempt × Db)
reserve_for r db payload none = raise (error 404 "NOT_FOUND")
reserve_for r db payload (some dep) = do
  check_request r dep payload
  let row = new_attempt r dep payload
  claim r dep row (cleanup_stale_locks r.machine r.now (add_attempt db row) (some dep.id)).1

-- A raise rolls the transaction back.
pub reserve_attempt : Request → Db → String → AttemptCreate → Result (Attempt × Db)
reserve_attempt r db deployment_id payload = reserve_for r db payload (deployment? db deployment_id)

abbrev cancel_marked : Attempt → Attempt
cancel_marked a = record a { sub_reason = some "cancel_requested" }

cancel_attempt : (String → Bool) → Bool → Db → Option Attempt → Result Db
cancel_attempt tracked signalled db none = raise (error 409 "ATTEMPT_TERMINAL")
cancel_attempt tracked signalled db (some att) = do
  raise_if
      (att.scope == "snapshot_set"
        && not (
            contains (AttemptState.succeeded ∷ AttemptState.partial ∷ AttemptState.failed ∷ [])
              att.state))
      (error 409 "SNAPSHOT_RECONCILIATION_REQUIRED")
  raise_if (terminal att.state) (error 409 "ATTEMPT_TERMINAL")
  raise_if (not signalled && not (att.state == AttemptState.pending && tracked att.id))
      (error 409 "RUNNER_NOT_RUNNING")
  ok (record db {
    attempts = update (λ a. a.id == att.id && not (terminal a.state)) cancel_marked db.attempts;
  })

cancel_for : (String → Bool) → Bool → Db → Option Deployment → Result Db
cancel_for tracked signalled db none = raise (error 404 "NOT_FOUND")
cancel_for tracked signalled db (some dep) =
    if truthy dep.current_attempt_id
    then cancel_attempt tracked signalled db (attempt? db (or_empty dep.current_attempt_id))
    else raise (error 409 "NO_INFLIGHT_ATTEMPT")

-- `tracked` is `attempt_is_tracked` of this API process, and `signalled` whether SIGTERM reached the
-- runner (`signal_running_attempt`). The states `pending`, `running` and `deploying` of the
-- conditional update are those that have not ended.
pub cancel_current_attempt : (String → Bool) → Bool → Db → String → Result Db
cancel_current_attempt tracked signalled db deployment_id =
    cancel_for tracked signalled db (deployment? db deployment_id)

abbrev failure : Option String → Option ℕ → Outcome
failure error_code tip = record {
  rc = none;
  event_cursor_tip = tip;
  error_code = error_code;
  warning_code = none;
  cancelled = false;
  unknown = false;
  partial = false;
}

-- The handler around `start_attempt`: a durable end first, then the cursor of its event, where the
-- event could be written.
unfoldable pub autostart_failed : ℕ → Db → String → String → Option ℕ → Db
autostart_failed now db attempt_id code cursor =
    let ended = (finish_attempt now db attempt_id (failure (some code) none)).1 in
    elim cursor [
      | none ↦ ended
      | some tip ↦ (finish_attempt now ended attempt_id (failure none (some tip))).1
    ]
