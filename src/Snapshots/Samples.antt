-- ===== src/Snapshots/Samples.antt =====
-- A set of one guest with its operation, for the examples.
use range42_backend_api.Prelude.{String, Option, none, some, [], ◌∷◌, false, true}
use range42_backend_api.Prelude.Result.{ok}
use range42_backend_api.Models.{
  Db, Attempt, AttemptState, Owner, JournalRow, MemberState, Member, Plan, SnapshotKind,
  SnapshotOperation, SnapshotProof, SnapshotSet, OperationState, SetState,
}
use range42_backend_api.Processes.{Machine}
use range42_backend_api.Locks.{new_lock}
use range42_backend_api.Lifecycle.Samples.{deployment}
use range42_backend_api.Snapshots.Admission.{Host, Execution}
use range42_backend_api.Snapshots.Recovery.{Cluster, TaskStatus}

abbrev pub guest : Member
guest = record {
  vm_id = 2000;
  vm_name = "web";
  uuid = "u";
  config_digest = "c";
  restore_digest = "r";
  running = true;
}

abbrev pub proof : SnapshotProof
proof = record { snaptime = 7; config_digest = "r" }

abbrev pub planned_row : JournalRow
planned_row = record {
  vm_id = 2000;
  state = MemberState.planned;
  code = none;
  upid = none;
  snapshot = none;
}

abbrev pub accepted_row : JournalRow
accepted_row = record planned_row { state = MemberState.accepted; upid = some "UPID" }

abbrev pub succeeded_row : JournalRow
succeeded_row = record accepted_row { state = MemberState.succeeded; snapshot = some proof }

abbrev pub stored_set : SnapshotSet
stored_set = record {
  id = "s1";
  deployment_id = "d1";
  project_sha = some "ab12";
  host_id = "h1";
  target_digest = "t";
  native_name = "r42s";
  state = SetState.planned;
  members = record { member = guest; snapshot = none } ∷ [];
  created_at = 50;
}

abbrev pub plan : Plan
plan = record { members = guest ∷ []; snapshots = []; retention = none }

abbrev pub planned_operation : SnapshotOperation
planned_operation = record {
  id = "o1";
  set_id = "s1";
  kind = SnapshotKind.create;
  state = OperationState.planned;
  plan_digest = "p";
  plan = plan;
  members = planned_row ∷ [];
  attempt_id = none;
  created_at = 60;
  expires_at = 360;
}

abbrev pub running_operation : SnapshotOperation
running_operation = record planned_operation {
  state = OperationState.running;
  members = accepted_row ∷ [];
  attempt_id = some "a1";
}

abbrev pub planned_db : Db
planned_db = record {
  deployments = deployment ∷ [];
  attempts = [];
  locks = [];
  operations = planned_operation ∷ [];
  snapshots = stored_set ∷ [];
}

abbrev pub snapshot_row : Attempt
snapshot_row = record {
  id = "a1";
  deployment_id = "d1";
  scope = "snapshot_set";
  project_sha = some "ab12";
  team_id = none;
  state = AttemptState.deploying;
  sub_reason = none;
  rc = none;
  started_at = some 100;
  ended_at = none;
  event_cursor_tip = 0;
  pid = none;
  artifact_dir = none;
}

abbrev pub running_db : Db
running_db = record {
  deployments =
      record deployment { current_attempt_id = some "a1"; state = AttemptState.deploying } ∷ [];
  attempts = snapshot_row ∷ [];
  locks = new_lock 100 "d1" (Owner.attempt "a1") 30 ∷ [];
  operations = running_operation ∷ [];
  snapshots = record stored_set { state = SetState.creating } ∷ [];
}

abbrev pub hosts : String → Option Host
hosts k = some (record { id = k; target_digest = "t" })

abbrev pub machine : Machine
machine = record {
  proc_stat = λ _. none;
  boot_id = none;
  recorded = λ _. none;
  resolve = λ p. some p;
  is_symlink = λ _. false;
  is_relative_to = λ _ _. true;
  read_pid = λ _. none;
}

abbrev pub execution : Execution
execution = record {
  machine = machine;
  hosts = hosts;
  now = 100;
  new_id = "a1";
  intact = λ _. true;
  check_retention = λ _ _ _. ok tt;
  guard_members = λ _ _ _. ok tt;
}

abbrev pub finished_task : TaskStatus
finished_task = record { upid = some "UPID"; status = some "stopped"; exitstatus = some "OK" }

abbrev pub cluster : Cluster
cluster = record {
  text_length = λ _. 4;
  has_task_form = λ _ _ _. true;
  task = λ _. some finished_task;
  observe = λ m. ok m.member;
  snapshot = λ _. ok (some proof);
}
