-- ===== src/Maintenance/Restarting.antt =====
-- What an audit that returns proves of the tables and the workspaces, and of the next start.
use range42_backend_api.Prelude.{
  String, ◌<>◌, ◌≡◌, refl, inl, inr, true, false, some, List, [], ◌∷◌, All, all, length, ◌==◌,
  arith, string_eq, nat_eq, Option-cases, ap,
}
use range42_backend_api.Prelude.Table.{get}
use range42_backend_api.Models.{Db, Attempt, WorkspaceLock, state_eq, owner_eq}
use range42_backend_api.Processes.{Machine}
use range42_backend_api.Lifecycle.{terminal}
use range42_backend_api.Orphans.{
  Restart, is_orphan, has_own_lock, orphan_rows, reconcile_orphans, reconcile_once,
}
use range42_backend_api.Maintenance.{
  Disk, Artifacts, settled, row_directory, add_rows, audit_rows, has_runner, is_quiet,
  audit_artifacts, assert_idle,
}
use range42_backend_api.Maintenance.Idle.{IsStopped, Has, all_quiet-IsStopped}
use range42_backend_api.Maintenance.Collecting.{
  RowIn, WorkspaceIn, All-RowIn, add_rows-RowIn, add_workspaces-Has,
}

-- An attempt has ended, and its directory, which the workspace owns, has no active runner.
abbrev pub HasRested : Machine → Disk → String → Db → Attempt → Type 0
HasRested m disk root db a =
    (settled a.state ≡ true)
    × ((dir : String) × (row_directory m disk root db a ≡ some dir) × IsStopped m disk dir)

-- No directory under the `runner` of a workspace has an active runner.
abbrev pub IsQuiet : Machine → Disk → String → Type 0
IsQuiet m disk workspace =
    has_runner m disk workspace ≡ true
    → All (IsStopped m disk) (disk.entries (workspace <> "/runner"))

pub record IsIdle (m : Machine) (disk : Disk) (root : String) (db : Db) : Type 0 where
  pub attempts : All (HasRested m disk root db) db.attempts
  pub unlocked : db.locks ≡ []
  pub workspaces : All (IsQuiet m disk) (disk.entries root)

no_locks : (locks : List WorkspaceLock) → (length locks == 0) ≡ true → locks ≡ []
no_locks [] h = refl
no_locks (l ∷ rest) h = absurd (ground arith)

module _ (m : Machine) (disk : Disk) (root : String) (db : Db) where
  collected :
      assert_idle m disk root db ≡ true
      → (d : Artifacts) × (audit_artifacts m disk root db ≡ some d)
        × (all (is_quiet m disk root) d ≡ true)
  unfolding assert_idle
  collected h = elim (Option-cases (audit_artifacts m disk root db)) [
    | inl e ↦ absurd (ground arith)
    | inr (d, e) ↦ (d, e, ground arith)
  ]

  All-IsIn :
      (d : Artifacts)
      → audit_artifacts m disk root db ≡ some d
      → All (RowIn m disk root db d) db.attempts × All (WorkspaceIn m disk d) (disk.entries root)
  unfolding audit_rows
  All-IsIn d h = elim (Option-cases (add_rows m disk root db db.attempts [])) [
    | inl e ↦ absurd (ground arith)
    | inr (rows, e) ↦
        let (found, _) = add_rows-RowIn m disk root db db.attempts [] rows e in
        let (spaces, kept) =
          add_workspaces-Has m disk 0 (disk.entries root) rows d (ground arith) in
        (All-RowIn m disk root db rows d db.attempts kept found, spaces)
  ]

  module _ (d : Artifacts) (quiet : all (is_quiet m disk root) d ≡ true) where
    All-IsStopped : (dirs : List String) → All (Has d) dirs → All (IsStopped m disk) dirs
    All-IsStopped [] has = tt
    All-IsStopped (dir ∷ rest) (h, has) =
        (all_quiet-IsStopped m disk root d dir quiet h, All-IsStopped rest has)

    All-HasRested :
        (rows : List Attempt)
        → all (λ (a : Attempt). settled a.state) rows ≡ true
        → All (RowIn m disk root db d) rows
        → All (HasRested m disk root db) rows
    All-HasRested [] h has = tt
    All-HasRested (a ∷ rest) h ((dir, e, has_dir), has) = (
      (ground arith, (dir, e, all_quiet-IsStopped m disk root d dir quiet has_dir)),
      All-HasRested rest (ground arith) has,
    )

    All-IsQuiet :
        (spaces : List String) → All (WorkspaceIn m disk d) spaces → All (IsQuiet m disk) spaces
    All-IsQuiet [] has = tt
    All-IsQuiet (w ∷ rest) (h, has) =
        (λ there. All-IsStopped (disk.entries (w <> "/runner")) (h there), All-IsQuiet rest has)

  -- Where the audit returns, every attempt has ended in one of the states of `_TERMINAL` and has an
  -- artifact directory in its workspace, no workspace lock is held, and each artifact directory,
  -- whether an attempt's row names it or only the file system, has no identity file or has a well
  -- formed one whose process is gone.
  pub assert_idle-IsIdle : assert_idle m disk root db ≡ true → IsIdle m disk root db
  unfolding assert_idle
  assert_idle-IsIdle h =
      let (d, e, quiet) = collected h in
      let (found, spaces) = All-IsIn d e in
      record {
        attempts = All-HasRested d quiet db.attempts (ground arith) found;
        unlocked = no_locks db.locks (ground arith);
        workspaces = All-IsQuiet d quiet (disk.entries root) spaces;
      }

settled-terminal :
    (db : Db) (a : Attempt) → settled a.state ≡ true → db.locks ≡ [] → is_orphan db a ≡ false
unfolding is_orphan has_own_lock settled terminal get
settled-terminal db a h e = ground arith

orphan_rows-none :
    (db : Db) (rows : List Attempt)
    → all (λ (a : Attempt). settled a.state) rows ≡ true
    → db.locks ≡ []
    → orphan_rows db rows ≡ []
unfolding orphan_rows
orphan_rows-none db [] h e = refl
orphan_rows-none db (a ∷ rest) h e = ground (arith, settled-terminal db a, orphan_rows-none db rest)

-- Where the audit has returned, the pass at the next start finds no attempt to recover and leaves
-- the tables as they are, whatever it reads from outside.
pub reconcile_once-idle :
    (m : Machine) (disk : Disk) (root : String) (db : Db) (x : Restart)
    → assert_idle m disk root db ≡ true
    → reconcile_once x db ≡ (db, true)
unfolding assert_idle reconcile_once reconcile_orphans
reconcile_once-idle m disk root db x h =
    let none_left =
      orphan_rows-none db db.attempts (ground arith) (no_locks db.locks (ground arith)) in
    ap (reconcile_orphans x db) none_left
