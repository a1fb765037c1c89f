-- ===== src/Snapshots/Admission/Exclusion.antt =====
-- A plan is executed once, on an idle deployment, under its lock.
use mathlib.Core.Option
use mathlib.Core.Path.{subst}
use range42_backend_api.Prelude.{
  String, ◌≡◌, ◌≢◌, refl, true, false, Option, none, some, List, [], ◌∷◌, arith, ◌!=◌, string_eq,
  option_eq,
}
use range42_backend_api.Prelude.Table.{update, get-cons, key-get}
use range42_backend_api.Prelude.Result.{ok, raise_if, error, >>=-eq-ok}
use range42_backend_api.Models.{
  Db, Attempt, Deployment, Owner, SnapshotOperation, SnapshotSet, OperationState, attempt?, lock?,
  deployment?, snapshot?,
}
use range42_backend_api.Locks.{acquire_lock, new_lock}
use range42_backend_api.Locks.Exclusion.{IsFree, acquire_lock-grants, operations-acquire_lock}
use range42_backend_api.Lifecycle.{terminal}
use range42_backend_api.Attempts.{active_attempt}
use range42_backend_api.Snapshots.Admission.{
  Host, hosted, binding, Execution, find_plan, snapshot_attempt, run_plan, start_plan,
  check_plan_retention, admit, unusable, begin_plan, begin_execution, blocked, operation_state_eq,
}

hosted-deployment? :
    (hosts : String → Option Host) (db : Db) (k : String) (dep : Deployment) (host : Host)
    → hosted hosts db k ≡ ok (dep, host)
    → deployment? db k ≡ some dep
unfolding hosted
hosted-deployment? hosts db k dep host h = ground arith

-- Without an active attempt, the attempt that a deployment points to has ended.
idle-ended :
    (db : Db) (dep : Deployment) (k : String) (a : Attempt)
    → active_attempt db dep ≡ false
    → dep.current_attempt_id ≡ some k
    → attempt? db k ≡ some a
    → terminal a.state ≡ true
unfolding active_attempt
idle-ended db dep k a idle e ea = ground arith

-- What the first transaction of an execution has checked and done.
pub record Admitted (x : Execution) (db : Db) (d : String) (o : SnapshotOperation) (s : SnapshotSet)
    (db' : Db) : Type 0 where
  pub dep : Deployment
  pub locked : Db
  pub found : deployment? db d ≡ some dep
  pub same : dep.id ≡ d
  pub usable : unusable x o ≡ false
  pub idle : active_attempt db dep ≡ false
  pub granted : acquire_lock x.machine x.now db dep.id (Owner.attempt x.new_id) 30 ≡ ok locked
  pub after : db' ≡ start_plan x dep s o locked

module _ (x : Execution) (db : Db) (d : String) (s : SnapshotSet) (o : SnapshotOperation)
    (db' : Db) where
  admit-Admitted :
      (dep : Deployment) (host : Host)
      → deployment? db d ≡ some dep
      → unusable x o ≡ false
      → admit x db s o (dep, host) ≡ ok db'
      → Admitted x db d o s db'
  unfolding admit
  admit-Admitted dep host found u h =
      let (_, _, h₁) = >>=-eq-ok (binding s dep host) _ h in
      let (_, _, h₂) = >>=-eq-ok (check_plan_retention x db s o) _ h₁ in
      let (_, _, h₃) = >>=-eq-ok (x.guard_members host s o) _ h₂ in
      let (_, idle, h₄) =
        >>=-eq-ok (raise_if (active_attempt db dep) (error 409 "ATTEMPT_IN_PROGRESS")) _ h₃ in
      let (locked, granted, h₅) =
        >>=-eq-ok (acquire_lock x.machine x.now db dep.id (Owner.attempt x.new_id) 30) _ h₄ in
      record {
        dep = dep;
        locked = locked;
        found = found;
        same = key-get (λ (y : Deployment). y.id) d db.deployments dep found;
        usable = u;
        idle = ground arith;
        granted = granted;
        after = ground arith;
      }

  begin_plan-Admitted : begin_plan x db d (some s) (some o) ≡ ok db' → Admitted x db d o s db'
  unfolding begin_plan
  begin_plan-Admitted h =
      let (_, _, h₁) =
        >>=-eq-ok (raise_if (s.deployment_id != d) (error 409 "SNAPSHOT_PLAN_STALE")) _ h in
      let (_, u, h₂) = >>=-eq-ok (raise_if (unusable x o) (error 409 "SNAPSHOT_PLAN_STALE")) _ h₁ in
      let ((dep, host), target, h₃) = >>=-eq-ok (hosted x.hosts db d) _ h₂ in
      admit-Admitted dep host (hosted-deployment? x.hosts db d dep host target) (ground arith) h₃

module _ (x : Execution) (db db' : Db) (d set_id plan_digest : String) where
  abbrev Begun : Type 0
  Begun =
      (s : SnapshotSet) × (o : SnapshotOperation) × (snapshot? db set_id ≡ some s)
      × (find_plan set_id plan_digest db.operations ≡ some o)
      × Admitted x db d o s db'

  begin-cases :
      (s : Option SnapshotSet) (o : Option SnapshotOperation)
      → snapshot? db set_id ≡ s
      → find_plan set_id plan_digest db.operations ≡ o
      → begin_plan x db d s o ≡ ok db'
      → Begun
  unfolding begin_plan
  begin-cases none o es eo h = absurd (ground arith)
  begin-cases (some s) none es eo h = absurd (ground arith)
  begin-cases (some s) (some o) es eo h = (s, o, es, eo, begin_plan-Admitted x db d s o db' h)

  pub begin_execution-Begun : begin_execution x db d set_id plan_digest ≡ ok db' → Begun
  unfolding begin_execution
  begin_execution-Begun h =
      begin-cases (snapshot? db set_id) (find_plan set_id plan_digest db.operations) refl refl h

  -- An execution begins only on a stored deployment, whose current attempt, if it is stored, has
  -- ended, and whose lock is absent, or stale with its runner gone; it leaves the lock to the new
  -- attempt, with a fresh heartbeat, and that attempt is stored.
  pub begin_execution-exclusive :
      begin_execution x db d set_id plan_digest ≡ ok db'
      → (dep : Deployment) × (deployment? db d ≡ some dep)
        × ((k : String) (a : Attempt)
            → dep.current_attempt_id ≡ some k
            → attempt? db k ≡ some a
            → terminal a.state ≡ true)
        × IsFree x.machine x.now db d
        × (lock? db' d ≡ some (new_lock x.now d (Owner.attempt x.new_id) 30))
        × (attempt? db' x.new_id ≡ some (snapshot_attempt x dep))
  begin_execution-exclusive h =
      let (s, o, _, _, a) = begin_execution-Begun h in
      let (free, rows) =
        acquire_lock-grants x.machine x.now db a.dep.id (Owner.attempt x.new_id) 30 a.locked
          a.granted in
      (
        a.dep,
        a.found,
        λ k y. idle-ended db a.dep k y a.idle,
        subst (IsFree x.machine x.now db) a.same free,
        subst (λ j. lock? db' j ≡ some (new_lock x.now j (Owner.attempt x.new_id) 30)) a.same
            (unfold start_plan in ground (arith, a.after, rows a.dep.id)),
        unfold start_plan in
            ground (
              arith,
              a.after,
              get-cons (λ (y : Attempt). y.id) x.new_id (snapshot_attempt x a.dep)
                  a.locked.attempts,
            ),
      )

find_plan-update :
    (k : String) (o : SnapshotOperation) (set_id plan_digest : String) (l : List SnapshotOperation)
    → find_plan set_id plan_digest (update (λ _. true) (run_plan k o) l)
      ≡ Option.map (run_plan k o) (find_plan set_id plan_digest l)
unfolding find_plan update
find_plan-update k o set_id plan_digest [] = refl
find_plan-update k o set_id plan_digest (x ∷ l) =
    ground (arith, find_plan-update k o set_id plan_digest l)

stale-begin_plan :
    (x : Execution) (db : Db) (d : String) (s : Option SnapshotSet) (o : SnapshotOperation)
    → o.state ≢ OperationState.planned
    → begin_plan x db d s (some o) ≡ blocked "SNAPSHOT_PLAN_STALE"
unfolding begin_plan
stale-begin_plan x db d none o h = refl
stale-begin_plan x db d (some s) o h = ground arith

-- The tables that the beginning of a plan's execution leaves refuse another execution of this plan,
-- at whatever time and by whatever request.
pub begin_execution-once :
    (x x' : Execution) (db db' : Db) (d d' set_id plan_digest : String)
    → begin_execution x db d set_id plan_digest ≡ ok db'
    → begin_execution x' db' d' set_id plan_digest ≡ blocked "SNAPSHOT_PLAN_STALE"
unfolding begin_execution start_plan
begin_execution-once x x' db db' d d' set_id plan_digest h =
    let (s, o, _, eo, a) = begin_execution-Begun x db db' d set_id plan_digest h in
    let found : find_plan set_id plan_digest db'.operations ≡ some (run_plan x.new_id o o) =
      ground (
        arith,
        a.after,
        operations-acquire_lock x.machine x.now db a.dep.id (Owner.attempt x.new_id) 30 a.locked
            a.granted,
        find_plan-update x.new_id o set_id plan_digest db.operations,
      ) in
    rw found
      (stale-begin_plan x' db' d' (snapshot? db' set_id) (run_plan x.new_id o o) (ground arith))
