-- ===== src/Locks/Refinement.antt =====
-- The lock table as a map from deployments to leases, and its operations as operations of the map.
use range42_backend_api.Prelude.{
  ℕ, String, ◌≡◌, refl, ap, ◌∙◌, inl, inr, Bool, true, false, some, List, [], ◌∷◌, arith, string_eq,
  Option-cases, Bool-cases,
}
use range42_backend_api.Prelude.Table.{key-get}
use range42_backend_api.Prelude.Result.{ok}
use range42_backend_api.Models.{Db, WorkspaceLock, Owner, owner_eq, lock?}
use range42_backend_api.Processes.{Machine}
use range42_backend_api.Locks.{
  is_stale, runner_alive, lock_held, acquire_lock, release_lock, heartbeat,
}
use range42_backend_api.Locks.Exclusion.{
  attempts-release_lock, deployments-release_lock, operations-release_lock, attempts-acquire_lock,
  deployments-acquire_lock, operations-acquire_lock, acquire_lock-grants, acquire_lock-held,
  acquire_lock-free, release_lock_lem, heartbeat_lem, Holds,
}
use range42_backend_api.Locks.Leases.{
  leases, LockOp, is_over, is_of, owner_alive, spec, run_op, alive_in, run_ops, spec_ops,
}

runner_alive-alive_in :
    (db : Db) (m : Machine) (k : String) (l : WorkspaceLock)
    → lock? db k ≡ some l
    → alive_in db m k l.owner ≡ runner_alive m db l
unfolding alive_in runner_alive
runner_alive-alive_in db m k l e =
    ground (arith, key-get (λ (x : WorkspaceLock). x.deployment_id) k db.locks l e)

-- One operation of the table and the same operation of the map: the answers agree, the map tells
-- what the table says then, and who lives stays as it was.
pub record Agrees (db : Db) (op : LockOp) : Type 0 where
  pub answers : (run_op db op).0 ≡ (spec (alive_in db) (leases db) op).0
  pub maps : (j : String) → leases (run_op db op).1 j ≡ (spec (alive_in db) (leases db) op).1 j
  pub alive :
      (m : Machine) (k : String) (o : Owner) → alive_in (run_op db op).1 m k o ≡ alive_in db m k o

-- `runner_alive` reads three tables, none of which an operation on locks writes.
alive_in-same :
    (db db' : Db)
    → db'.attempts ≡ db.attempts
    → db'.deployments ≡ db.deployments
    → db'.operations ≡ db.operations
    → (m : Machine) (k : String) (o : Owner) → alive_in db' m k o ≡ alive_in db m k o
unfolding alive_in runner_alive
alive_in-same db db' a d o m k owner =
    ap (λ xs. alive_in (record db' { attempts = xs }) m k owner) a
    ∙ ap (λ xs. alive_in (record db' { attempts = db.attempts; deployments = xs }) m k owner) d
    ∙ ap
        (λ xs.
          alive_in
            (record db' { attempts = db.attempts; deployments = db.deployments; operations = xs }) m
            k owner)
        o

module _ (db : Db) (m : Machine) (now : ℕ) (k : String) (owner : Owner) (interval_s : ℕ) where
  abbrev op : LockOp
  op = LockOp.acquire m now k owner interval_s

  over : Bool
  over = is_over (owner_alive (alive_in db m k) (leases db k)) now (leases db k)

  over-free :
      over ≡ true
      → (l : WorkspaceLock) → lock? db k ≡ some l
      → (is_stale now l ≡ true) × (runner_alive m db l ≡ false)
  unfolding over is_stale
  over-free h l e = ground (arith, runner_alive-alive_in db m k l e)

  not_over-held : over ≡ false → acquire_lock m now db k owner interval_s ≡ lock_held
  unfolding over is_stale
  not_over-held h = elim (Option-cases (lock? db k)) [
    | inl e ↦ absurd (ground arith)
    | inr (l, e) ↦ elim (Bool-cases (runner_alive m db l)) [
      | inl lives ↦ acquire_lock-held m now db k owner interval_s l e (inr lives)
      | inr dead ↦
          acquire_lock-held m now db k owner interval_s l e
            (inl (ground (arith, runner_alive-alive_in db m k l e)))
    ]
  ]

  Agrees-granted :
      (db' : Db) → over ≡ true → acquire_lock m now db k owner interval_s ≡ ok db' → Agrees db op
  unfolding run_op spec over
  Agrees-granted db' h e =
      let (_, rows) = acquire_lock-grants m now db k owner interval_s db' e in
      record {
        answers = ground arith;
        maps = λ j. ground (arith, rows j);
        alive = λ m' j o. rw e (
            alive_in-same db db' (attempts-acquire_lock m now db k owner interval_s db' e)
              (deployments-acquire_lock m now db k owner interval_s db' e)
              (operations-acquire_lock m now db k owner interval_s db' e) m' j o);
      }

  Agrees-acquire : Agrees db op
  unfolding run_op spec over
  Agrees-acquire = elim (Bool-cases over) [
    | inl h ↦
        let (db', e) = acquire_lock-free m now db k owner interval_s (over-free h) in
        Agrees-granted db' h e
    | inr h ↦
        let e = not_over-held h in
        record { answers = ground arith; maps = λ j. ground arith; alive = λ m' j o. rw e }
  ]

is_of-lock :
    (db : Db) (k : String) (owner : Owner) (l : WorkspaceLock)
    → lock? db k ≡ some l
    → l.owner ≡ owner
    → is_of owner (leases db k) ≡ true
is_of-lock db k owner l e own = ground arith

not_Holds-is_of :
    (db : Db) (k : String) (owner : Owner) → ¬ Holds db k owner → is_of owner (leases db k) ≡ false
not_Holds-is_of db k owner free = elim (Option-cases (lock? db k)) [
  | inl e ↦ ground arith
  | inr (l, e) ↦ elim (owner_eq.dec l.owner owner) [
    | yes p ↦ absurd (free (l, e, p))
    | no n ↦ ground arith
  ]
]

module _ (db : Db) (k : String) (owner : Owner) where
  Agrees-release : Agrees db (LockOp.release k owner)
  unfolding run_op spec
  Agrees-release = elim (release_lock_lem db k owner) [
    | inl (granted, (l, e, own), rows) ↦
        let mine = is_of-lock db k owner l e own in
        record {
          answers = ground arith;
          maps = λ j. ground (arith, rows j);
          alive =
              alive_in-same db (release_lock db k owner).1 (attempts-release_lock db k owner)
                (deployments-release_lock db k owner) (operations-release_lock db k owner);
        }
    | inr (same, free) ↦
        let foreign = not_Holds-is_of db k owner free in
        record { answers = ground arith; maps = λ j. ground arith; alive = λ m j o. rw same }
  ]

  Agrees-beat : (now : ℕ) → Agrees db (LockOp.beat now k owner)
  unfolding run_op spec heartbeat
  Agrees-beat now = elim (heartbeat_lem db k owner now) [
    | inl (granted, (l, e, own), rows) ↦
        let mine = is_of-lock db k owner l e own in
        record {
          answers = ground arith;
          maps = λ j. ground (arith, rows j);
          alive =
              alive_in-same db (heartbeat now db k owner).1 (ground arith) (ground arith)
                (ground arith);
        }
    | inr (same, free) ↦
        let foreign = not_Holds-is_of db k owner free in
        record { answers = ground arith; maps = λ j. ground arith; alive = λ m j o. rw same }
  ]

agrees : (db : Db) (op : LockOp) → Agrees db op
agrees db (LockOp.acquire m now k owner interval_s) = Agrees-acquire db m now k owner interval_s
agrees db (LockOp.release k owner) = Agrees-release db k owner
agrees db (LockOp.beat now k owner) = Agrees-beat db k owner now

head-tail : {a b : Bool} {xs ys : List Bool} → a ≡ b → xs ≡ ys → (a ∷ xs) ≡ (b ∷ ys)
head-tail e h = ground arith

-- A sequence of requests, releases and heartbeats on the lock table refines the same sequence on a
-- map from deployments to leases, in which a lease is granted where there is none, or where its
-- time has passed and the runner of its owner is gone, and is given back and extended by its owner
-- alone: the answers are the same, and the map tells the lease of every deployment at the end.
pub run_ops-spec_ops :
    (db : Db) (ops : List LockOp)
    → ((run_ops db ops).0 ≡ (spec_ops (alive_in db) (leases db) ops).0)
      × ((j : String) → leases (run_ops db ops).1 j ≡ (spec_ops (alive_in db) (leases db) ops).1 j)
unfolding run_ops spec_ops
run_ops-spec_ops db [] = (refl, λ j. refl)
run_ops-spec_ops db (op ∷ ops) =
    let a = agrees db op in
    let next = (run_op db op).1 in
    let lives : alive_in next ≡ alive_in db = λ i m k o. a.alive m k o i in
    let mapped : leases next ≡ (spec (alive_in db) (leases db) op).1 = λ i j. a.maps j i in
    let same =
      ap (λ f. spec_ops f (leases next) ops) lives
      ∙ ap (λ s. spec_ops (alive_in db) s ops) mapped in
    let (answers, maps) = run_ops-spec_ops next ops in
    (head-tail a.answers (answers ∙ ap (λ r. r.0) same), λ j. maps j ∙ ap (λ r. r.1 j) same)
