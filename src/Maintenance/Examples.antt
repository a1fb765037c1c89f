-- ===== src/Maintenance/Examples.antt =====
-- The audit of a host with one attempt that has ended.
use range42_backend_api.Prelude.{
  ◌≡◌, refl, true, false, none, some, [], ◌∷◌, string_eq, nat_eq, option_eq, ◌==◌, if◌then◌else◌,
}
use range42_backend_api.Prelude.Table.{get}
use range42_backend_api.Models.{Db, ℤ, state_eq, owner_eq}
use range42_backend_api.Json.{Json, field, end, get_field}
use range42_backend_api.Processes.{
  Machine, ProcessIdentity, process_identity, process_matches, identity_eq,
}
use range42_backend_api.Lifecycle.Samples.{deployment, failed_attempt, idle_db, with_attempt}
use range42_backend_api.Orphans.{Restart, reconcile_once}
use range42_backend_api.Snapshots.Samples.{cluster}
use range42_backend_api.Maintenance.{
  Disk, settled, put_entry, row_directory, add_rows, audit_rows, add_directory, add_directories,
  add_workspace, add_workspaces, read_artifact, agrees, is_unset, positive, identity_pid,
  read_identity, known_pid, is_quiet, assert_idle,
}
use range42_backend_api.Maintenance.Restarting.{IsIdle, assert_idle-IsIdle, reconcile_once-idle}

abbrev identity : ProcessIdentity
identity = record { pid = 77; start_time = "5"; boot_id = "b" }

-- PID 77 was given to another process since.
abbrev machine : Machine
machine = record {
  proc_stat = λ _. some (record { state = "S"; start_time = "9" });
  boot_id = some "b";
  recorded = λ _. some identity;
  resolve = λ path. some path;
  is_symlink = λ _. false;
  is_relative_to = λ _ _. true;
  read_pid = λ _. some 77;
}

abbrev document : Json
document = Json.object (
    field "pid" (Json.number (ℤ.pos 77))
      (field "start_time" (Json.string "5") (field "boot_id" (Json.string "b") end)))

abbrev disk : Disk
disk = record {
  file_name = λ name. name;
  entries = λ path.
      if path == "/ranges"
      then "/w" ∷ []
      else if path == "/w/runner"
      then "/w/runner/a1" ∷ "/w/runner/old" ∷ []
      else [];
  exists = λ _. true;
  is_dir = λ _. true;
  open_file = λ _. some (record { is_regular = true; size = 60 });
  read = λ _ _. some "text";
  parse_int = λ _. some (ℤ.pos 77);
  parse_json = λ _. some document;
  is_digit = λ _. true;
}

abbrev db : Db
db = record idle_db { deployments = deployment ∷ []; attempts = failed_attempt ∷ [] }

passes : assert_idle machine disk "/ranges" db ≡ true
unfolding assert_idle settled put_entry row_directory add_rows audit_rows add_directory
    add_directories add_workspace add_workspaces read_artifact agrees is_unset positive identity_pid
    read_identity known_pid is_quiet process_matches process_identity identity_eq get get_field
    string_eq nat_eq option_eq
passes = refl

-- A lock that is held refuses the audit, and so does a process that still has its start time.
refuses_lock : assert_idle machine disk "/ranges" (with_attempt failed_attempt) ≡ false
unfolding passes
refuses_lock = refl

refuses_live :
    assert_idle
      (record machine { proc_stat = λ _. some (record { state = "S"; start_time = "5" }) })
      disk
      "/ranges"
      db
    ≡ false
unfolding passes
refuses_live = refl

abbrev restart : Restart
restart = record {
  machine = machine;
  now = 300;
  read_rc = λ _. some (ℤ.pos 0);
  is_tracked = λ _. false;
  updated_at = λ _. 100;
  operation_of = λ _. none;
  cluster = cluster;
  hosts = λ _. none;
  drained = λ _. 5 ∷ 6 ∷ [];
  completion = λ _. record { partial = false; error_code = none };
  append = λ _. 7;
}

assert_idle-IsIdle_example : IsIdle machine disk "/ranges" db
assert_idle-IsIdle_example = assert_idle-IsIdle machine disk "/ranges" db passes

reconcile_once-idle_example : reconcile_once restart db ≡ (db, true)
reconcile_once-idle_example = reconcile_once-idle machine disk "/ranges" db restart passes
