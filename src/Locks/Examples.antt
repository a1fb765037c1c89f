-- ===== src/Locks/Examples.antt =====
-- The lock at work on small inputs.
use range42_backend_api.Prelude.{
  ◌≡◌, refl, true, false, none, some, [], ◌∷◌, arith, string_eq, nat_eq, option_eq, if◌then◌else◌,
  ◌&&◌, List, String,
}
use range42_backend_api.Prelude.Table.{get, delete, holds_at}
use range42_backend_api.Prelude.Result.{ok}
use range42_backend_api.Models.{Db, WorkspaceLock, Owner, owner_eq, lock?}
use range42_backend_api.Processes.{Machine, identity_eq}
use range42_backend_api.Locks.{
  is_stale, runner_alive, new_lock, lock_held, acquire_over, acquire_lock, sweep,
  cleanup_stale_locks,
}
use range42_backend_api.Locks.Exclusion.{acquire_lock-lease}
use range42_backend_api.Locks.Leases.{LockOp, run_ops, spec_ops, alive_in, leases}
use range42_backend_api.Locks.Refinement.{run_ops-spec_ops}
use range42_backend_api.Locks.Sweep.{cleanup_stale_locks_lem, in_scope, abandoned, key}

abbrev machine : Machine
machine = record {
  proc_stat = λ _. none;
  boot_id = none;
  recorded = λ _. none;
  resolve = λ p. some p;
  is_symlink = λ _. false;
  is_relative_to = λ _ _. true;
  read_pid = λ _. none;
}

abbrev old_lock : WorkspaceLock
old_lock = new_lock 100 "d1" (Owner.attempt "a1") 30

abbrev db : Db
db = record {
  deployments = [];
  attempts = [];
  locks = old_lock ∷ [];
  operations = [];
  snapshots = [];
}

-- The heartbeat of 100 has expired at 191, and not at 190.
acquire_expired :
    acquire_lock machine 191 db "d1" (Owner.attempt "a2") 30
    ≡ ok (record db { locks = new_lock 191 "d1" (Owner.attempt "a2") 30 ∷ [] })
unfolding acquire_lock acquire_over is_stale runner_alive string_eq get delete
acquire_expired = refl

acquire_live : acquire_lock machine 190 db "d1" (Owner.attempt "a2") 30 ≡ lock_held
unfolding acquire_lock acquire_over is_stale runner_alive string_eq get delete
acquire_live = refl

cleanup_counts : (cleanup_stale_locks machine 191 db none).0 ≡ 1
unfolding cleanup_stale_locks sweep is_stale runner_alive string_eq get delete
cleanup_counts = refl

abbrev taken : Db
taken = record db { locks = new_lock 191 "d1" (Owner.attempt "a2") 30 ∷ [] }

acquire_lock-lease_example : acquire_lock machine 281 taken "d1" (Owner.attempt "a3") 5 ≡ lock_held
acquire_lock-lease_example =
    acquire_lock-lease machine machine 191 281 db taken "d1" (Owner.attempt "a2")
      (Owner.attempt "a3") 30 5 acquire_expired (omega arith)

cleanup_stale_locks_lem_example : lock? (cleanup_stale_locks machine 191 db none).1 "d1" ≡ (
    if in_scope machine 191 none "d1" && holds_at key (abandoned machine 191 db) (lock? db "d1")
    then none
    else lock? db "d1")
unfolding get
cleanup_stale_locks_lem_example = cleanup_stale_locks_lem machine 191 db none (refl, tt) "d1"

-- A takeover, a heartbeat of the new owner and its release.
abbrev ops : List LockOp
ops =
    LockOp.acquire machine 191 "d1" (Owner.attempt "a2") 30
    ∷ LockOp.beat 200 "d1" (Owner.attempt "a2")
    ∷ LockOp.release "d1" (Owner.attempt "a2")
    ∷ []

run_ops-spec_ops_example :
    ((run_ops db ops).0 ≡ (spec_ops (alive_in db) (leases db) ops).0)
    × ((j : String) → leases (run_ops db ops).1 j ≡ (spec_ops (alive_in db) (leases db) ops).1 j)
run_ops-spec_ops_example = run_ops-spec_ops db ops
