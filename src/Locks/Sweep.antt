-- ===== src/Locks/Sweep.antt =====
-- `cleanup_stale_locks` removes the abandoned locks and no other.
use range42_backend_api.Prelude.{
  ℕ, String, ◌≡◌, refl, Bool, true, not, ◌&&◌, Option, none, some, List, [], ◌∷◌, arith, ◌==◌,
  string_eq, any, if◌then◌else◌, Option-cases, inl, inr,
}
use mathlib.Core.Path.{subst}
use range42_backend_api.Prelude.Table.{
  Unique, holds_at, get-delete, select, select, any-eq-holds_at, any-select-key,
}
use range42_backend_api.Models.{Db, WorkspaceLock, lock?}
use range42_backend_api.Processes.{Machine}
use range42_backend_api.Locks.{is_stale, runner_alive, sweep, cleanup_stale_locks, delete_lock}

abbrev pub key : WorkspaceLock → String
key l = l.deployment_id

-- The heartbeat expired and the runner is gone.
abbrev pub abandoned : Machine → ℕ → Db → WorkspaceLock → Bool
abandoned m now db row = is_stale now row && not (runner_alive m db row)

abandoned-delete_lock :
    (m : Machine) (now : ℕ) (db : Db) (k : String)
    → abandoned m now (delete_lock db k) ≡ abandoned m now db
unfolding runner_alive
abandoned-delete_lock m now db k = refl

module _ (m : Machine) (now : ℕ) where
  abbrev Swept : (WorkspaceLock → Bool) → List WorkspaceLock → Db → String → Type 0
  Swept gone rows db j =
      lock? (sweep m now rows db).1 j
      ≡ (if any (λ row. key row == j && gone row) rows then none else lock? db j)

  lock-sweep :
      (rows : List WorkspaceLock) (db : Db) (j : String) → Swept (abandoned m now db) rows db j
  unfolding sweep
  lock-sweep [] db j = refl
  lock-sweep (row ∷ rows) db j =
      let k = key row in
      let after_delete : Swept (abandoned m now db) rows (delete_lock db k) j =
        subst (λ gone. Swept gone rows (delete_lock db k) j) (abandoned-delete_lock m now db k)
          (lock-sweep rows (delete_lock db k) j) in
      ground (arith, after_delete, lock-sweep rows db j, get-delete key k j db.locks)

  attempts-sweep :
      (rows : List WorkspaceLock) (db : Db) → (sweep m now rows db).1.attempts ≡ db.attempts
  unfolding sweep
  attempts-sweep [] db = refl
  attempts-sweep (row ∷ rows) db =
      ground (arith, attempts-sweep rows db, attempts-sweep rows (delete_lock db (key row)))

  deployments-sweep :
      (rows : List WorkspaceLock) (db : Db) → (sweep m now rows db).1.deployments ≡ db.deployments
  unfolding sweep
  deployments-sweep [] db = refl
  deployments-sweep (row ∷ rows) db =
      ground (arith, deployments-sweep rows db, deployments-sweep rows (delete_lock db (key row)))

  module _ (db : Db) (scope : Option String) where
    pub attempts-cleanup_stale_locks : (cleanup_stale_locks m now db scope).1.attempts ≡ db.attempts
    unfolding cleanup_stale_locks
    attempts-cleanup_stale_locks = elim (Option-cases scope) [
      | inl e ↦ rw e (attempts-sweep db.locks db)
      | inr (k, e) ↦ rw e (attempts-sweep (select (λ l. key l == k) db.locks) db)
    ]

    pub deployments-cleanup_stale_locks :
        (cleanup_stale_locks m now db scope).1.deployments ≡ db.deployments
    unfolding cleanup_stale_locks
    deployments-cleanup_stale_locks = elim (Option-cases scope) [
      | inl e ↦ rw e (deployments-sweep db.locks db)
      | inr (k, e) ↦ rw e (deployments-sweep (select (λ l. key l == k) db.locks) db)
    ]

  abbrev pub in_scope : Option String → String → Bool
  in_scope none j = true
  in_scope (some k) j = k == j

  -- In a table with one lock for each deployment, the cleanup removes a lock exactly when it is in
  -- the scope of the call, its heartbeat expired and its runner is gone; it changes no other lock.
  pub cleanup_stale_locks_lem :
      (db : Db) (scope : Option String)
      → Unique key db.locks
      → (j : String)
      → lock? (cleanup_stale_locks m now db scope).1 j ≡ (
          if in_scope scope j && holds_at key (abandoned m now db) (lock? db j)
          then none
          else lock? db j)
  unfolding cleanup_stale_locks
  cleanup_stale_locks_lem db none u j =
      rw (← any-eq-holds_at key (abandoned m now db) j db.locks u) (lock-sweep db.locks db j)
  cleanup_stale_locks_lem db (some k) u j =
      rw
        (
          ← any-eq-holds_at key (abandoned m now db) j db.locks u,
          ← any-select-key key (abandoned m now db) k j db.locks,
        )
        (lock-sweep (select (λ l. key l == k) db.locks) db j)
