-- ===== src/Locks/Exclusion.antt =====
-- The lock excludes: who may acquire, release and renew it.
use range42_backend_api.Prelude.{
  ℕ, ◌+◌, ◌*◌, ◌≤◌, String, ◌≡◌, ◌⊎◌, inl, inr, true, false, Option, none, some, arith, ◌==◌,
  string_eq, Option-cases, if◌then◌else◌, refl,
}
use mathlib.Core.Option
use range42_backend_api.Prelude.Table.{get-cons, get-delete, get-update-key, key-get}
use range42_backend_api.Prelude.Result.{ok}
use range42_backend_api.Models.{Db, WorkspaceLock, Owner, owner_eq, lock?}
use range42_backend_api.Processes.{Machine}
use range42_backend_api.Locks.{
  is_stale, runner_alive, new_lock, lock_held, acquire_over, acquire_lock, release_lock, heartbeat,
  add_lock, delete_lock, owns, renewed,
}

-- Nobody holds the lock on `k`: there is no row, or its heartbeat expired and its runner is gone.
abbrev pub IsFree : Machine → ℕ → Db → String → Type 0
IsFree m now db k =
    (l : WorkspaceLock)
    → lock? db k ≡ some l
    → (is_stale now l ≡ true) × (runner_alive m db l ≡ false)

module _ (m : Machine) (now : ℕ) (db : Db) (k : String) (owner : Owner) (interval_s : ℕ) where
  abbrev pub granted : WorkspaceLock
  granted = new_lock now k owner interval_s

  -- The row of the deployment is the granted one, and the other locks are as before.
  abbrev pub LocksAfter : Db → Type 0
  LocksAfter db' = (j : String) → lock? db' j ≡ (if k == j then some granted else lock? db j)

  lock-acquire_over :
      (o : Option WorkspaceLock) (db' : Db)
      → lock? db k ≡ o
      → acquire_over m now db granted o ≡ ok db'
      → (j : String) → lock? db' j ≡ (if k == j then some granted else lock? db j)
  unfolding acquire_over
  lock-acquire_over none db' e h j =
      ground (arith, get-cons (λ (l : WorkspaceLock). l.deployment_id) j granted db.locks)
  lock-acquire_over (some l) db' e h j = ground (
    arith,
    key-get (λ (l : WorkspaceLock). l.deployment_id) k db.locks l,
    get-cons (λ (l : WorkspaceLock). l.deployment_id) j granted
        (delete_lock db l.deployment_id).locks,
    get-delete (λ (l : WorkspaceLock). l.deployment_id) l.deployment_id j db.locks,
  )

  free-acquire_over :
      (o : Option WorkspaceLock) (db' : Db)
      → acquire_over m now db granted o ≡ ok db'
      → (l : WorkspaceLock) → o ≡ some l
      → (is_stale now l ≡ true) × (runner_alive m db l ≡ false)
  unfolding acquire_over
  free-acquire_over none db' h l e = ground arith
  free-acquire_over (some x) db' h l e = ground arith

  -- A lock is granted only where there is none, or a stale one whose runner is gone; then the row
  -- of that deployment is the caller's, with a fresh heartbeat, and the locks of the other
  -- deployments are as before.
  pub acquire_lock-grants :
      (db' : Db)
      → acquire_lock m now db k owner interval_s ≡ ok db'
      → IsFree m now db k × LocksAfter db'
  unfolding acquire_lock
  acquire_lock-grants db' h =
      (free-acquire_over (lock? db k) db' h, lock-acquire_over (lock? db k) db' refl h)

module _ (m : Machine) (now : ℕ) (db : Db) (k : String) (owner : Owner) (interval_s : ℕ) where
  -- A lock whose heartbeat is recent, or whose runner lives, is refused to everybody.
  pub acquire_lock-held :
      (l : WorkspaceLock)
      → lock? db k ≡ some l
      → (now ≤ l.heartbeat_at + 3 * l.heartbeat_interval_s) ⊎ (runner_alive m db l ≡ true)
      → acquire_lock m now db k owner interval_s ≡ lock_held
  unfolding acquire_lock acquire_over is_stale
  acquire_lock-held l e (inl fresh) = ground arith
  acquire_lock-held l e (inr alive) = ground arith

  -- Where nobody holds the lock, it is granted.
  pub acquire_lock-free :
      IsFree m now db k → (db' : Db) × (acquire_lock m now db k owner interval_s ≡ ok db')
  unfolding acquire_lock acquire_over
  acquire_lock-free free = elim (Option-cases (lock? db k)) [
    | inl e ↦ (add_lock db (new_lock now k owner interval_s), ground arith)
    | inr (l, e) ↦ (
      add_lock (delete_lock db l.deployment_id) (new_lock now k owner interval_s),
      ground (arith, free l e),
    )
  ]

-- A granted lock is a lease: until three heartbeat intervals have passed, every further request
-- for the same deployment is refused, the holder's own included, whatever became of its process.
pub acquire_lock-lease :
    (m m' : Machine) (now later : ℕ) (db db' : Db) (k : String) (owner owner' : Owner)
    (interval_s interval_s' : ℕ)
    → acquire_lock m now db k owner interval_s ≡ ok db'
    → later ≤ now + 3 * interval_s
    → acquire_lock m' later db' k owner' interval_s' ≡ lock_held
acquire_lock-lease m m' now later db db' k owner owner' interval_s interval_s' h t =
    let (_, rows) = acquire_lock-grants m now db k owner interval_s db' h in
    acquire_lock-held m' later db' k owner' interval_s' (new_lock now k owner interval_s)
      (ground (arith, rows k)) (inl t)

module _ (db : Db) (k : String) (owner : Owner) where
  abbrev pub Holds : Type 0
  Holds = (l : WorkspaceLock) × (lock? db k ≡ some l) × (l.owner ≡ owner)

  -- A release by the owner removes the lock of that deployment alone; any other changes nothing.
  abbrev pub ReleaseOutcome : Type 0
  ReleaseOutcome =
      (((release_lock db k owner).0 ≡ true)
        × Holds
        × ((j : String)
            → lock? (release_lock db k owner).1 j ≡ (if k == j then none else lock? db j)))
      ⊎ ((release_lock db k owner ≡ (false, db)) × ¬ Holds)

  -- Only the owner releases: it reports `true` and removes the lock of that deployment alone;
  -- anybody else gets `false` and changes nothing.
  pub release_lock_lem : ReleaseOutcome
  unfolding release_lock owns
  release_lock_lem = elim (Option-cases (lock? db k)) [
    | inl e ↦ inr (ground arith, λ held. ground (arith, held.1))
    | inr (l, e) ↦ elim (owner_eq.dec l.owner owner) [
      | yes p ↦ inl (
        ground arith,
        (l, e, p),
        λ j. ground (arith, get-delete (λ (l : WorkspaceLock). l.deployment_id) k j db.locks),
      )
      | no n ↦ inr (ground arith, λ (x, ex, px). n (ground arith))
    ]
  ]

  -- A renewal by the owner sets the heartbeat of that lock alone; any other changes nothing.
  abbrev pub RenewalOutcome : ℕ → Type 0
  RenewalOutcome now =
      (((heartbeat now db k owner).0 ≡ true)
        × Holds
        × ((j : String)
            → lock? (heartbeat now db k owner).1 j
              ≡ (if k == j then Option.map (renewed now) (lock? db j) else lock? db j)))
      ⊎ ((heartbeat now db k owner ≡ (false, db)) × ¬ Holds)

  -- Only the owner renews: it reports `true`, the heartbeat of that lock is set to the present and
  -- no other lock changes; anybody else gets `false` and changes nothing.
  pub heartbeat_lem : (now : ℕ) → RenewalOutcome now
  unfolding heartbeat owns
  heartbeat_lem now = elim (Option-cases (lock? db k)) [
    | inl e ↦ inr (ground arith, λ held. ground (arith, held.1))
    | inr (l, e) ↦ elim (owner_eq.dec l.owner owner) [
      | yes p ↦ inl (
        ground arith,
        (l, e, p),
        λ j. ground (
          arith,
          get-update-key (λ (l : WorkspaceLock). l.deployment_id) k (renewed now) j db.locks
              (λ l. refl),
        ),
      )
      | no n ↦ inr (ground arith, λ (x, ex, px). n (ground arith))
    ]
  ]

-- Acquiring writes to the locks alone.
pub operations-acquire_lock :
    (m : Machine) (now : ℕ) (db : Db) (k : String) (owner : Owner) (interval_s : ℕ) (db' : Db)
    → acquire_lock m now db k owner interval_s ≡ ok db'
    → db'.operations ≡ db.operations
unfolding acquire_lock acquire_over
operations-acquire_lock m now db k owner interval_s db' h = ground arith

pub attempts-acquire_lock :
    (m : Machine) (now : ℕ) (db : Db) (k : String) (owner : Owner) (interval_s : ℕ) (db' : Db)
    → acquire_lock m now db k owner interval_s ≡ ok db'
    → db'.attempts ≡ db.attempts
unfolding acquire_lock acquire_over
attempts-acquire_lock m now db k owner interval_s db' h = ground arith

pub deployments-acquire_lock :
    (m : Machine) (now : ℕ) (db : Db) (k : String) (owner : Owner) (interval_s : ℕ) (db' : Db)
    → acquire_lock m now db k owner interval_s ≡ ok db'
    → db'.deployments ≡ db.deployments
unfolding acquire_lock acquire_over
deployments-acquire_lock m now db k owner interval_s db' h = ground arith

-- Releasing does, too.
module _ (db : Db) (k : String) (o : Owner) where
  pub attempts-release_lock : (release_lock db k o).1.attempts ≡ db.attempts
  unfolding release_lock
  attempts-release_lock = ground arith

  pub deployments-release_lock : (release_lock db k o).1.deployments ≡ db.deployments
  unfolding release_lock
  deployments-release_lock = ground arith

  pub operations-release_lock : (release_lock db k o).1.operations ≡ db.operations
  unfolding release_lock
  operations-release_lock = ground arith
