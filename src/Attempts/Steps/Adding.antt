-- ===== src/Attempts/Steps/Adding.antt =====
-- Both ways in which an attempt begins, a reservation and the execution of a snapshot plan, add one
-- row and make it the current attempt of a deployment whose earlier ones have ended.
use range42_backend_api.Prelude.{
  String, ◌≡◌, refl, true, none, some, arith, ◌==◌, string_eq, if◌then◌else◌,
}
use range42_backend_api.Prelude.Table.{get-cons, get-update-key}
use range42_backend_api.Prelude.Result.{ok}
use range42_backend_api.Models.{Db, Attempt, Deployment, Owner, attempt?}
use range42_backend_api.Locks.Exclusion.{attempts-acquire_lock, deployments-acquire_lock}
use range42_backend_api.Lifecycle.{terminal}
use range42_backend_api.Lifecycle.Rows.{current?}
use range42_backend_api.Attempts.{Request, AttemptCreate, active_attempt, reserve_attempt}
use range42_backend_api.Attempts.Reservation.{
  reserve_attempt-Reserved, id-Reserved, deployment_id-Reserved, attempt-prepared, attempt-Reserved,
  current-Reserved,
}
use range42_backend_api.Snapshots.Admission.{
  Execution, snapshot_attempt, runs, start_plan, begin_execution,
}
use range42_backend_api.Snapshots.Admission.Exclusion.{begin_execution-Begun}

pub record Adds (db db' : Db) : Type 0 where
  pub row : Attempt
  pub fresh : attempt? db row.id ≡ none
  pub rows : (j : String) → attempt? db' j ≡ (if row.id == j then some row else attempt? db j)
  pub current :
      (j : String)
      → current? db' j ≡ (if row.deployment_id == j then some (some row.id) else current? db j)
  pub idle :
      (j : String) (b : Attempt)
      → attempt? db j ≡ some b
      → current? db row.deployment_id ≡ some (some j)
      → terminal b.state ≡ true

pub reserve_attempt-Adds :
    (r : Request) (db : Db) (d : String) (payload : AttemptCreate) (row : Attempt) (db' : Db)
    → attempt? db r.new_id ≡ none
    → reserve_attempt r db d payload ≡ ok (row, db')
    → Adds db db'
unfolding active_attempt
reserve_attempt-Adds r db d payload row db' fresh h =
    let (dep, x) = reserve_attempt-Reserved r db d payload row db' h in
    let same = deployment_id-Reserved r db d payload row db' dep x in
    record {
      row = row;
      fresh = rw (id-Reserved r db d payload row db' dep x) fresh;
      rows = attempt-Reserved r db d payload row db' dep x;
      current = λ j. ground (arith, current-Reserved r db d payload row db' dep x j);
      idle = λ j b e p. ground (
        arith,
        x.idle,
        x.found,
        id-Reserved r db d payload row db' dep x,
        attempt-prepared r db d payload row db' dep x j,
      );
    }

pub begin_execution-Adds :
    (x : Execution) (db db' : Db) (d set_id plan_digest : String)
    → attempt? db x.new_id ≡ none
    → begin_execution x db d set_id plan_digest ≡ ok db'
    → Adds db db'
unfolding active_attempt start_plan
begin_execution-Adds x db db' d set_id plan_digest fresh h =
    let (s, o, _, _, a) = begin_execution-Begun x db db' d set_id plan_digest h in
    let attempts =
      attempts-acquire_lock x.machine x.now db a.dep.id (Owner.attempt x.new_id) 30 a.locked
        a.granted in
    let deployments =
      deployments-acquire_lock x.machine x.now db a.dep.id (Owner.attempt x.new_id) 30 a.locked
        a.granted in
    record {
      row = snapshot_attempt x a.dep;
      fresh = fresh;
      rows = λ j. ground (
        arith,
        a.after,
        attempts,
        get-cons (λ (y : Attempt). y.id) j (snapshot_attempt x a.dep) db.attempts,
      );
      current = λ j. ground (
        arith,
        a.after,
        deployments,
        a.found,
        get-update-key (λ (y : Deployment). y.id) a.dep.id (runs x.new_id) j db.deployments
            (λ y. refl),
      );
      idle = λ j b e p. ground (arith, a.idle, a.found);
    }
