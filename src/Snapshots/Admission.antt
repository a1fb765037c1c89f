-- ===== src/Snapshots/Admission.antt =====
-- core/snapshot_sets.py: the binding of a set to its deployment and target, the first transaction
-- of `execute`, and `cancel_plan`.
pub mod Exclusion
mod Examples
use range42_backend_api.Prelude.{
  ℕ, String, Bool, true, false, not, ◌&&◌, ◌||◌, Option, none, some, List, [], ◌∷◌, leb, map, any,
  all, ◌==◌, ◌!=◌, if◌then◌else◌, nat_eq, string_eq, option_eq, Eq,
}
use range42_backend_api.Prelude.Table.{update}
use range42_backend_api.Prelude.Result.{Result, ok, raise, error, raise_if, ◌>>=◌, ◌>>◌}
use range42_backend_api.Models.{
  Db, Attempt, AttemptState, Deployment, Owner, ℤ, JournalRow, MemberState, Member, SetMember, Plan,
  RetentionPolicy, SnapshotKind, SnapshotOperation, SnapshotProof, SnapshotSet, OperationState,
  SetState, deployment?, attempt?, operation?, snapshot?,
}
use range42_backend_api.Processes.{Machine}
use range42_backend_api.Locks.{acquire_lock}
use range42_backend_api.Scenario.{truthy}
use range42_backend_api.Attempts.{active_attempt}

-- A registered target. `target_digest` is the hash of its identity and credentials
-- (`target_digest`), which is a parameter.
pub record Host : Type 0 where
  pub id : String
  pub target_digest : String

-- `blocked(message, code)`
abbrev pub blocked {ℓ} : {A : Type ℓ} → String → Result A
blocked code = raise (error 409 code)

OperationState-discrete : Discrete OperationState
OperationState-discrete = hlevel

instance unfoldable pub operation_state_eq : Eq OperationState
unfolding OperationState-discrete
operation_state_eq = record { dec = OperationState-discrete }

target_of : (String → Option Host) → Deployment → Result (Deployment × Host)
target_of hosts dep = elim (hosts dep.target_host_id) [
  | none ↦ blocked "SNAPSHOT_TARGET_CHANGED"
  | some host ↦ ok (dep, host)
]

-- `_deployment`
unfoldable pub hosted : (String → Option Host) → Db → String → Result (Deployment × Host)
unfolding target_of
hosted hosts db deployment_id = elim (deployment? db deployment_id) [
  | none ↦ raise (error 404 "NOT_FOUND")
  | some dep ↦
      if not (truthy dep.project_sha) || dep.scenario_label == "_universal"
      then blocked "SNAPSHOT_SCENARIO_UNSUPPORTED"
      else target_of hosts dep
]

-- `_binding`
unfoldable pub binding : SnapshotSet → Deployment → Host → Result (Unit {0})
binding s dep host =
    raise_if
      (s.deployment_id != dep.id
        || s.project_sha != dep.project_sha
        || s.host_id != dep.target_host_id
        || s.target_digest != host.target_digest)
      (error 409 "SNAPSHOT_TARGET_CHANGED")

-- What `execute` takes from outside: the machine, the registered targets, the clock, a fresh
-- identifier, whether a plan still has its digest, and the checks of the retention policy and of
-- the guests against the plan (`_check_retention`, `_guard_members`), which read the cluster.
pub record Execution : Type 0 where
  pub machine : Machine
  pub hosts : String → Option Host
  pub now : ℕ
  pub new_id : String
  pub intact : SnapshotOperation → Bool
  pub check_retention : Db → SnapshotSet → RetentionPolicy → Result (Unit {0})
  pub guard_members : Host → SnapshotSet → SnapshotOperation → Result (Unit {0})

-- The operation of a set with this plan digest.
pub find_plan : String → String → List SnapshotOperation → Option SnapshotOperation
find_plan set_id plan_digest [] = none
find_plan set_id plan_digest (o ∷ rest) =
    if o.set_id == set_id && o.plan_digest == plan_digest
    then some o
    else find_plan set_id plan_digest rest

abbrev pub snapshot_attempt : Execution → Deployment → Attempt
snapshot_attempt x dep = record {
  id = x.new_id;
  deployment_id = dep.id;
  scope = "snapshot_set";
  project_sha = dep.project_sha;
  team_id = none;
  state = AttemptState.deploying;
  sub_reason = none;
  rc = none;
  started_at = some x.now;
  ended_at = none;
  event_cursor_tip = 0;
  pid = none;
  artifact_dir = none;
}

unfoldable pub executing : SnapshotKind → SetState
executing SnapshotKind.create = SetState.creating
executing SnapshotKind.rollback = SetState.rolling_back
executing SnapshotKind.delete = SetState.deleting

-- The other plans of the set are superseded and the chosen one runs.
abbrev pub run_plan : String → SnapshotOperation → SnapshotOperation → SnapshotOperation
run_plan attempt_id o x =
    if x.id == o.id
    then record x { attempt_id = some attempt_id; state = OperationState.running }
    else if x.set_id == o.set_id && x.state == OperationState.planned
    then record x { state = OperationState.superseded }
    else x

abbrev pub runs : String → Deployment → Deployment
runs k d = record d { current_attempt_id = some k; state = AttemptState.deploying }

-- The writes of the transaction, on the tables with the lock.
unfoldable pub start_plan : Execution → Deployment → SnapshotSet → SnapshotOperation → Db → Db
unfolding executing
start_plan x dep s o db = record db {
  attempts = snapshot_attempt x dep ∷ db.attempts;
  deployments = update (λ d. d.id == dep.id) (runs x.new_id) db.deployments;
  operations = update (λ _. true) (run_plan x.new_id o) db.operations;
  snapshots = update (λ y. y.id == s.id) (λ y. record y { state = executing o.kind }) db.snapshots;
}

check_plan_retention : Execution → Db → SnapshotSet → SnapshotOperation → Result (Unit {0})
check_plan_retention x db s o = elim o.plan.retention [
  | none ↦ ok tt
  | some policy ↦ x.check_retention db s policy
]

admit : Execution → Db → SnapshotSet → SnapshotOperation → Deployment × Host → Result Db
admit x db s o (dep, host) = do
  binding s dep host
  check_plan_retention x db s o
  x.guard_members host s o
  raise_if (active_attempt db dep) (error 409 "ATTEMPT_IN_PROGRESS")
  locked ← acquire_lock x.machine x.now db dep.id (Owner.attempt x.new_id) 30
  ok (start_plan x dep s o locked)

-- `operation.state != "planned" or utc(operation.expires_at) <= now()` or another plan
abbrev pub unusable : Execution → SnapshotOperation → Bool
unusable x o = o.state != OperationState.planned || leb o.expires_at x.now || not (x.intact o)

begin_plan : Execution → Db → String → Option SnapshotSet → Option SnapshotOperation → Result Db
begin_plan x db deployment_id none o = blocked "SNAPSHOT_PLAN_STALE"
begin_plan x db deployment_id (some s) none = blocked "SNAPSHOT_PLAN_STALE"
begin_plan x db deployment_id (some s) (some o) = do
  raise_if (s.deployment_id != deployment_id) (error 409 "SNAPSHOT_PLAN_STALE")
  raise_if (unusable x o) (error 409 "SNAPSHOT_PLAN_STALE")
  target ← hosted x.hosts db deployment_id
  admit x db s o target

-- `execute` up to its first commit. A raise rolls the transaction back.
pub begin_execution : Execution → Db → String → String → String → Result Db
begin_execution x db deployment_id set_id plan_digest =
    begin_plan x db deployment_id (snapshot? db set_id) (find_plan set_id plan_digest db.operations)

cancel_found : Db → String → Option SnapshotOperation → Result Db
cancel_found db set_id none = raise (error 404 "NOT_FOUND")
cancel_found db set_id (some o) = do
  raise_if (o.set_id != set_id) (error 404 "NOT_FOUND")
  raise_if (o.state != OperationState.planned || truthy o.attempt_id)
      (error 409 "SNAPSHOT_RECONCILIATION_REQUIRED")
  ok (record db {
    operations =
        update (λ x. x.id == o.id) (λ x. record x { state = OperationState.cancelled })
          db.operations;
  })

cancel_stored : Db → String → String → String → Option SnapshotSet → Result Db
cancel_stored db deployment_id set_id operation_id none = raise (error 404 "NOT_FOUND")
cancel_stored db deployment_id set_id operation_id (some s) =
    if s.deployment_id != deployment_id
    then raise (error 404 "NOT_FOUND")
    else cancel_found db set_id (operation? db operation_id)

pub cancel_plan : Db → String → String → String → Result Db
cancel_plan db deployment_id set_id operation_id =
    cancel_stored db deployment_id set_id operation_id (snapshot? db set_id)
