-- ===== src/Orphans/Examples.antt =====
-- One attempt that was left running: its process is gone, or lives.
use range42_backend_api.Prelude.{
  ◌≡◌, refl, none, some, true, false, [], ◌∷◌, string_eq, option_eq, nat_eq,
}
use range42_backend_api.Prelude.Table.{get, update, delete}
use range42_backend_api.Prelude.Result.{ok}
use range42_backend_api.Models.{Db, AttemptState, Deployment, Owner, ℤ, state_eq, owner_eq}
use range42_backend_api.Processes.{
  Machine, ProcessIdentity, process_identity, process_matches, identity_eq,
}
use range42_backend_api.Locks.{new_lock, release_lock}
use range42_backend_api.Lifecycle.{
  terminal, terminal_state, finished, with_rc, with_tip, finish_row, finish_attempt,
  advance_attempt_cursor,
}
use range42_backend_api.Lifecycle.Samples.{deployment, running_attempt, with_attempt}
use range42_backend_api.Snapshots.Samples.{cluster}
use range42_backend_api.Orphans.{
  Restart, Fate, is_orphan, has_own_lock, orphan_rows, is_recorded, owns_artifact, orphan_pid,
  fate_at, fate_of, adopt, drain, recovered_outcome, finish_recovered, meet, reconcile_attempt,
  reconcile_orphans, reconcile_once,
}

abbrev identity : ProcessIdentity
identity = record { pid = 77; start_time = "5"; boot_id = "b" }

abbrev rebooted : Machine
rebooted = record {
  proc_stat = λ _. none;
  boot_id = some "b2";
  recorded = λ _. some identity;
  resolve = λ path. some path;
  is_symlink = λ _. false;
  is_relative_to = λ _ _. true;
  read_pid = λ _. none;
}

abbrev running : Machine
running = record rebooted {
  proc_stat = λ _. some (record { state = "S"; start_time = "5" });
  boot_id = some "b";
}

abbrev restart : Machine → Restart
restart m = record {
  machine = m;
  now = 300;
  read_rc = λ _. some (ℤ.pos 0);
  is_tracked = λ _. false;
  updated_at = λ _. 100;
  operation_of = λ _. none;
  cluster = cluster;
  hosts = λ _. none;
  drained = λ _. 5 ∷ 6 ∷ [];
  completion = λ _. record { partial = false; error_code = none };
  append = λ _. 7;
}

abbrev owner : Deployment
owner = record deployment { current_attempt_id = some "a1" }

pass : Unit {0}
unfolding reconcile_once reconcile_orphans reconcile_attempt orphan_rows is_orphan has_own_lock
    fate_of fate_at owns_artifact is_recorded orphan_pid process_matches process_identity
    identity_eq meet adopt finish_recovered recovered_outcome drain finish_attempt finish_row
    finished with_rc with_tip terminal terminal_state release_lock advance_attempt_cursor get update
    delete string_eq option_eq nat_eq state_eq owner_eq
pass = tt

lives : fate_of (restart running) running_attempt owner ≡ ok Fate.alive
unfolding pass
lives = refl

abbrev after : Db
after = (reconcile_once (restart rebooted) (with_attempt running_attempt)).0

-- The exit status is recorded, the cursor is that of the appended event, and the lock is gone.
row_after :
    (after.attempts
      ≡ record running_attempt {
        state = AttemptState.succeeded;
        rc = some (ℤ.pos 0);
        ended_at = some 300;
        event_cursor_tip = 7;
      }
        ∷ [])
    × (after.locks ≡ [])
unfolding pass
row_after = (refl, refl)

-- The lock was lost, and comes back.
abbrev unlocked : Db
unlocked = record (with_attempt running_attempt) { locks = [] }

abbrev adopted : Db
adopted = record unlocked { locks = new_lock 300 "d1" (Owner.attempt "a1") 30 ∷ [] }

adopts : reconcile_attempt (restart running) unlocked running_attempt owner ≡ ok adopted
unfolding pass
adopts = refl
