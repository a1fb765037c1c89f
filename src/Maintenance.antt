-- ===== src/Maintenance.antt =====
-- core/maintenance_guard.py, `assert_idle`: the audit of the tables and of the workspaces that lets
-- an operator replace the container. Whatever it raises, `main` answers "refused": `false` and
-- `none` stand for a raise. Paths are texts as `Path` writes them.
pub mod Identity
unfoldable pub use Identity.*
pub mod Idle
pub mod Collecting
pub mod Restarting
mod Examples
use range42_backend_api.Prelude.{
  ℕ, ◌+◌, String, ◌<>◌, Bool, true, false, not, ◌&&◌, ◌||◌, Option, none, some, List, [], ◌∷◌, map,
  ltb, leb, length, all, contains, ◌==◌, ◌!=◌, if◌then◌else◌, string_eq, nat_eq,
}
use range42_backend_api.Prelude.Dict.{keys}
use range42_backend_api.Models.{Db, Attempt, AttemptState, ℤ, deployment?}
use range42_backend_api.Processes.{Machine, process_matches}
use range42_backend_api.Json.{Json, Fields, end, field, get_field}

-- A recorded PID, and whether an attempt's row names the directory.
abbrev pub Entry : Type 0
Entry = Option ℤ × Bool

-- The dictionary `artifacts`, in the order of insertion.
abbrev pub Artifacts : Type 0
Artifacts = List (String × Entry)

abbrev pub audit_bound : ℕ
audit_bound = 100000

-- `_TERMINAL`
unfoldable pub settled : AttemptState → Bool
settled AttemptState.pending = false
settled AttemptState.running = false
settled AttemptState.deploying = false
settled AttemptState.succeeded = true
settled AttemptState.completed = true
settled AttemptState.partial = true
settled AttemptState.failed = true
settled AttemptState.cancelled = true
settled AttemptState.unknown = false

-- `artifacts[directory] = entry`
unfoldable pub put_entry : String → Entry → Artifacts → Artifacts
put_entry k v [] = (k, v) ∷ []
put_entry k v ((j, w) ∷ rest) =
    let later = put_entry k v rest in if j == k then (j, v) ∷ rest else (j, w) ∷ later

-- `artifacts.setdefault(directory, entry)`
abbrev pub set_default : String → Entry → Artifacts → Artifacts
set_default k v d = if contains (keys d) k then d else put_entry k v d

abbrev pub pid_of : Option ℕ → Option ℤ
pid_of none = none
pid_of (some p) = some (ℤ.pos p)

abbrev pub resolves_to_itself : Machine → String → Bool
resolves_to_itself m dir = elim (m.resolve dir) [ none ↦ false | some r ↦ r == dir ]

-- `not (recorded and Path(recorded) != directory)`
abbrev pub recorded_as : Option String → String → Bool
recorded_as none dir = true
recorded_as (some recorded) dir = recorded == "" || recorded == dir

module _ (m : Machine) (disk : Disk) (root : String) where
  -- The artifact directory of an attempt, where its ownership is consistent.
  unfoldable pub row_directory : Db → Attempt → Option String
  row_directory db a = elim (deployment? db a.deployment_id) [
    | none ↦ none
    | some dep ↦
        let dir = dep.workspace_path <> "/runner/" <> a.id in
        if dep.workspace_path == "" || disk.file_name a.id != a.id
        then none
        else if resolves_to_itself m dir
            && m.is_relative_to dir root
            && recorded_as a.artifact_dir dir
        then some dir
        else none
  ]

  unfoldable pub add_rows : Db → List Attempt → Artifacts → Option Artifacts
  add_rows db [] d = some d
  add_rows db (a ∷ rest) d = elim (row_directory db a) [
    | none ↦ none
    | some dir ↦ add_rows db rest (put_entry dir (pid_of a.pid, true) d)
  ]

  -- The rows of the query, which stops after one row more than the bound.
  unfoldable pub audit_rows : Db → Option Artifacts
  audit_rows db =
      let read = add_rows db db.attempts [] in
      if ltb audit_bound (length db.attempts) then none else read

module _ (m : Machine) (disk : Disk) where
  -- One directory of `runner.iterdir()`
  unfoldable pub add_directory : String → Artifacts → Option Artifacts
  add_directory dir d =
      let added = set_default dir (none, false) d in
      if m.is_symlink dir || not (disk.is_dir dir)
      then none
      else if ltb audit_bound (length added)
      then none
      else some added

  unfoldable pub add_directories : List String → Artifacts → Option Artifacts
  add_directories [] d = some d
  add_directories (dir ∷ rest) d = elim (add_directory dir d) [
    | none ↦ none
    | some added ↦ add_directories rest added
  ]

  abbrev pub has_runner : String → Bool
  has_runner workspace =
      disk.exists (workspace <> "/runner") || m.is_symlink (workspace <> "/runner")

  unfoldable pub add_workspace : ℕ → String → Artifacts → Option Artifacts
  add_workspace count workspace d =
      let runner = workspace <> "/runner" in
      let read = add_directories (disk.entries runner) d in
      if leb audit_bound count
      then none
      else if not (has_runner workspace)
      then some d
      else if m.is_symlink workspace || m.is_symlink runner || not (disk.is_dir runner)
      then none
      else read

  unfoldable pub add_workspaces : ℕ → List String → Artifacts → Option Artifacts
  add_workspaces count [] d = some d
  add_workspaces count (workspace ∷ rest) d = elim (add_workspace count workspace d) [
    | none ↦ none
    | some added ↦ add_workspaces (count + 1) rest added
  ]

module _ (m : Machine) (disk : Disk) (root : String) where
  -- The loop's body: no verified runner is active in the directory.
  unfoldable pub is_quiet : String × Entry → Bool
  is_quiet (dir, (pid, recorded)) = if m.is_symlink dir then false else elim (m.resolve dir) [
    | none ↦ false
    | some resolved ↦ m.is_relative_to resolved root && elim (known_pid m disk dir pid) [
      | none ↦ false
      | some known ↦
          is_unset known && not (disk.exists (dir <> "/process.json")) && recorded
          || elim (read_identity m disk dir known) [
            | none ↦ false
            | some p ↦ not (process_matches m dir p)
          ]
    ]
  ]

  abbrev pub audit_artifacts : Db → Option Artifacts
  audit_artifacts db = elim (audit_rows m disk root db) [
    | none ↦ none
    | some d ↦ add_workspaces m disk 0 (disk.entries root) d
  ]

  -- Whether `assert_idle` returns
  unfoldable pub assert_idle : Db → Bool
  assert_idle db =
      all (λ (a : Attempt). settled a.state) db.attempts
      && length db.locks == 0
      && elim (audit_artifacts db) [ none ↦ false | some d ↦ all is_quiet d ]
