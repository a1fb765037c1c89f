-- ===== src/Processes.antt =====
-- core/runner_detached.py: the identity by which a runner's process is recognised, over a machine
-- whose process table and file system are parameters.
use range42_backend_api.Prelude.{
  ℕ, String, Bool, false, Option, none, some, ◌==◌, if◌then◌else◌, string_eq, nat_eq, Eq,
}

-- `_process_identity`: a PID with the boot and the start time that tell it from a recycled one.
pub record ProcessIdentity : Type 0 where
  pub pid : ℕ
  pub start_time : String
  pub boot_id : String

ProcessIdentity-discrete : Discrete ProcessIdentity
ProcessIdentity-discrete = hlevel (string_eq.dec, nat_eq.dec)

instance unfoldable pub identity_eq : Eq ProcessIdentity
unfolding ProcessIdentity-discrete string_eq
identity_eq = record { dec = ProcessIdentity-discrete }

-- The two fields of /proc/<pid>/stat that are read.
pub record ProcStat : Type 0 where
  pub state : String
  pub start_time : String

-- The file system and the process table, as far as they are read. A `none` is a read that raises
-- `OSError`, `ValueError` or `RuntimeError`. A negative PID has no process, as PID 0.
pub record Machine : Type 0 where
  pub proc_stat : ℕ → Option ProcStat
  pub boot_id : Option String
  -- process.json of an artifact directory; a document that is no identity matches none
  pub recorded : String → Option ProcessIdentity
  pub resolve : String → Option String
  pub is_symlink : String → Bool
  pub is_relative_to : String → String → Bool
  pub read_pid : String → Option ℕ

live_identity : ℕ → Option ProcStat → Option String → Option ProcessIdentity
live_identity pid none boot = none
live_identity pid (some s) none = none
live_identity pid (some s) (some boot) =
    if s.state == "Z"
    then none
    else some (record { pid = pid; start_time = s.start_time; boot_id = boot })

unfoldable pub process_identity : Machine → ℕ → Option ProcessIdentity
unfolding live_identity
process_identity m pid = if pid == 0 then none else live_identity pid (m.proc_stat pid) m.boot_id

same_identity : Option ProcessIdentity → Option ProcessIdentity → Bool
same_identity none current = false
same_identity (some r) none = false
same_identity (some r) (some c) = r == c

unfoldable pub process_matches : Machine → String → ℕ → Bool
unfolding same_identity
process_matches m artifact pid = same_identity (m.recorded artifact) (process_identity m pid)
