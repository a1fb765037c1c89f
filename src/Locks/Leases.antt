-- ===== src/Locks/Leases.antt =====
-- A map from deployments to leases with its operations, and the same operations of the lock table.
use mathlib.Core.Option
use range42_backend_api.Prelude.{
  ℕ, ◌+◌, ◌*◌, String, Bool, true, false, not, ◌&&◌, Option, none, some, List, [], ◌∷◌, ltb, ◌==◌,
  string_eq, if◌then◌else◌,
}
use range42_backend_api.Prelude.Result.{Result, ok, raise}
use range42_backend_api.Models.{Db, WorkspaceLock, Owner, owner_eq, lock?}
use range42_backend_api.Processes.{Machine}
use range42_backend_api.Locks.{runner_alive, new_lock, acquire_lock, release_lock, heartbeat}

-- A lease: who has it, and the last second in which nobody else gets it.
pub record Lease : Type 0 where
  pub owner : Owner
  pub interval_s : ℕ
  pub until : ℕ

abbrev pub Leases : Type 0
Leases = String → Option Lease

abbrev pub lease_of : WorkspaceLock → Lease
lease_of l = record {
  owner = l.owner;
  interval_s = l.heartbeat_interval_s;
  until = l.heartbeat_at + 3 * l.heartbeat_interval_s;
}

-- What the table says of a deployment.
abbrev pub leases : Db → Leases
leases db k = Option.map lease_of (lock? db k)

pub data LockOp : Type 0 where
  acquire : (m : Machine) (now : ℕ) (k : String) (owner : Owner) (interval_s : ℕ) → LockOp
  release : (k : String) (owner : Owner) → LockOp
  beat : (now : ℕ) (k : String) (owner : Owner) → LockOp

abbrev pub put : String → Option Lease → Leases → Leases
put k lease s j = if k == j then lease else s j

abbrev pub new_lease : ℕ → Owner → ℕ → Lease
new_lease now owner interval_s = record {
  owner = owner;
  interval_s = interval_s;
  until = now + 3 * interval_s;
}

-- A lease is over when its time has passed and its owner is not alive.
abbrev pub is_over : Bool → ℕ → Option Lease → Bool
is_over alive now none = true
is_over alive now (some l) = ltb l.until now && not alive

abbrev pub is_of : Owner → Option Lease → Bool
is_of owner none = false
is_of owner (some l) = l.owner == owner

abbrev pub owner_alive : (Owner → Bool) → Option Lease → Bool
owner_alive alive none = false
owner_alive alive (some l) = alive l.owner

abbrev pub extended : ℕ → Lease → Lease
extended now l = record l { until = now + 3 * l.interval_s }

-- The operations of the map: what is answered, and the map after it. `alive` tells whether the
-- process of an owner on a deployment lives.
unfoldable pub spec : (Machine → String → Owner → Bool) → Leases → LockOp → Bool × Leases
spec alive s (LockOp.acquire m now k owner interval_s) =
    if is_over (owner_alive (alive m k) (s k)) now (s k)
    then (true, put k (some (new_lease now owner interval_s)) s)
    else (false, s)
spec alive s (LockOp.release k owner) =
    if is_of owner (s k) then (true, put k none s) else (false, s)
spec alive s (LockOp.beat now k owner) =
    if is_of owner (s k) then (true, put k (Option.map (extended now) (s k)) s) else (false, s)

abbrev pub granted_or : Db → Result Db → Bool × Db
granted_or db (ok db') = (true, db')
granted_or db (raise e) = (false, db)

-- The operations of the table
unfoldable pub run_op : Db → LockOp → Bool × Db
run_op db (LockOp.acquire m now k owner interval_s) =
    granted_or db (acquire_lock m now db k owner interval_s)
run_op db (LockOp.release k owner) = release_lock db k owner
run_op db (LockOp.beat now k owner) = heartbeat now db k owner

-- Whether the runner of an owner on a deployment lives, as the tables tell it.
unfoldable pub alive_in : Db → Machine → String → Owner → Bool
alive_in db m k owner = runner_alive m db (new_lock 0 k owner 0)

-- A sequence of operations, with what each answers
unfoldable pub run_ops : Db → List LockOp → List Bool × Db
run_ops db [] = ([], db)
run_ops db (op ∷ ops) =
    let later = run_ops (run_op db op).1 ops in ((run_op db op).0 ∷ later.0, later.1)

unfoldable pub spec_ops :
    (Machine → String → Owner → Bool) → Leases → List LockOp → List Bool × Leases
spec_ops alive s [] = ([], s)
spec_ops alive s (op ∷ ops) =
    let first = spec alive s op in
    let later = spec_ops alive first.1 ops in (first.0 ∷ later.0, later.1)
