-- ===== src/Attempts/Reservation.antt =====
-- What a reservation needs and what it leaves.
use mathlib.Core.Path.{subst}
use range42_backend_api.Prelude.{
  ◌≢◌, sym, true, not, ◌&&◌, ◌||◌, ◌!=◌, option_eq, String, ◌≡◌, refl, false, Option, none, some,
  arith, ◌==◌, string_eq, if◌then◌else◌,
}
use range42_backend_api.Prelude.Table.{key-get, get-cons, get-update-key}
use range42_backend_api.Prelude.Result.{Result, ok, error, raise_if, >>=-eq-ok}
use range42_backend_api.Models.{Db, Attempt, Deployment, deployment?, attempt?, lock?}
use range42_backend_api.Locks.{cleanup_stale_locks}
use range42_backend_api.Locks.Sweep.{attempts-cleanup_stale_locks, deployments-cleanup_stale_locks}
use range42_backend_api.Lifecycle.{terminal}
use range42_backend_api.Lifecycle.Rows.{current?}
use range42_backend_api.Scenario.{truthy}
use range42_backend_api.Attempts.Guards.{IsGuarded, check_request-IsGuarded}
use range42_backend_api.Attempts.{
  Request, AttemptCreate, check_request, new_attempt, active_attempt, add_attempt, points_to,
  attempt_scope, point_to, claim, reserve_for, reserve_attempt, is_none,
}

-- The tables at the conditional update: the new row is in, the deployment's abandoned lock is out.
abbrev pub prepared : Request → Db → Deployment → AttemptCreate → Db
prepared r db dep payload =
    (cleanup_stale_locks r.machine r.now (add_attempt db (new_attempt r dep payload))
      (some dep.id)).1

pub record Reserved (r : Request) (db : Db) (k : String) (payload : AttemptCreate) (row : Attempt)
    (db' : Db) (dep : Deployment) : Type 0 where
  pub found : deployment? db k ≡ some dep
  pub is_scope : row.scope ≡ (if r.has_operation then "runtime" else payload.scope)
  pub guarded : IsGuarded r dep payload row.scope
  pub has_playbook :
      truthy dep.project_sha ≡ false
      → row.scope ≢ "full"
      → r.resolve_playbook dep.scenario_label row.scope ≡ ok tt
  pub ended :
      (j : String) (a : Attempt)
      → dep.current_attempt_id ≡ some j
      → attempt? db j ≡ some a
      → terminal a.state ≡ true
  pub row_is_new : row ≡ new_attempt r dep payload
  pub idle : active_attempt (prepared r db dep payload) dep ≡ false
  pub unlocked : lock? (prepared r db dep payload) dep.id ≡ none
  pub after : db' ≡ point_to (prepared r db dep payload) dep.id row.id

claim-Reserved :
    (r : Request) (dep : Deployment) (row row' : Attempt) (db db' : Db)
    → claim r dep row db ≡ ok (row', db')
    → (active_attempt db dep ≡ false)
      × (lock? db dep.id ≡ none)
      × (truthy dep.project_sha ≡ false
          → row.scope ≢ "full"
          → r.resolve_playbook dep.scenario_label row.scope ≡ ok tt)
      × (row' ≡ row)
      × (db' ≡ point_to db dep.id row.id)
unfolding claim is_none
claim-Reserved r dep row row' db db' h =
    let busy = active_attempt db dep || not (is_none (lock? db dep.id)) in
    let (_, free, h₁) = >>=-eq-ok (raise_if busy (error 409 "ATTEMPT_IN_PROGRESS")) _ h in
    let needed = not (truthy dep.project_sha) && row.scope != "full" in
    let resolved : Result (Unit {0}) =
      if needed then r.resolve_playbook dep.scenario_label row.scope else ok tt in
    let (_, found, h₂) = >>=-eq-ok resolved _ h₁ in
    (ground arith, ground arith, λ p q. ground arith, ground arith, ground arith)

-- The row that is added is active, and the tables with it have the other attempts as before, so a
-- current attempt that is not active has ended in the tables before.
idle-ended :
    (r : Request) (db : Db) (dep : Deployment) (payload : AttemptCreate) (j : String) (a : Attempt)
    → active_attempt (prepared r db dep payload) dep ≡ false
    → dep.current_attempt_id ≡ some j
    → attempt? db j ≡ some a
    → terminal a.state ≡ true
unfolding active_attempt add_attempt new_attempt terminal
idle-ended r db dep payload j a idle e ea = ground (
  arith,
  attempts-cleanup_stale_locks r.machine r.now (add_attempt db (new_attempt r dep payload))
      (some dep.id),
  get-cons (λ (x : Attempt). x.id) j (new_attempt r dep payload) db.attempts,
)

scope-new_attempt :
    (r : Request) (dep : Deployment) (payload : AttemptCreate)
    → (new_attempt r dep payload).scope ≡ attempt_scope r payload
unfolding new_attempt
scope-new_attempt r dep payload = refl

reserve_for-Reserved :
    (r : Request) (db : Db) (k : String) (payload : AttemptCreate) (row : Attempt) (db' : Db)
    (o : Option Deployment)
    → deployment? db k ≡ o
    → reserve_for r db payload o ≡ ok (row, db')
    → (dep : Deployment) × Reserved r db k payload row db' dep
unfolding reserve_for
reserve_for-Reserved r db k payload row db' none e h = cc
reserve_for-Reserved r db k payload row db' (some dep) e h =
    let (_, checked, h') =
      >>=-eq-ok (check_request r dep payload)
        (λ _. claim r dep (new_attempt r dep payload) (prepared r db dep payload)) h in
    let (idle, unlocked, playbook, new, after) =
      claim-Reserved r dep (new_attempt r dep payload) row (prepared r db dep payload) db' h' in
    (
      dep,
      record {
        found = e;
        is_scope = ground (arith, scope-new_attempt r dep payload);
        guarded =
            subst (IsGuarded r dep payload) (ground (arith, scope-new_attempt r dep payload))
              (check_request-IsGuarded r dep payload checked);
        has_playbook =
            subst
              (λ (y : Attempt).
                truthy dep.project_sha ≡ false
                → y.scope ≢ "full"
                → r.resolve_playbook dep.scenario_label y.scope ≡ ok tt)
              (sym new) playbook;
        ended = λ j a. idle-ended r db dep payload j a idle;
        row_is_new = new;
        idle = idle;
        unlocked = unlocked;
        after = rw new after;
      },
    )

-- A reservation that succeeds met all its guards: the action and the revision are ones that the
-- scenario admits, a rollback has its variables, the team is in range and given where the scope
-- needs one, a destructive request was confirmed with the code name on a deployment whose state is
-- known, and a scenario without a project has the playbook. The deployment's current attempt had
-- ended, the sweep of the deployment's locks left none, and the tables after it have the new row and
-- the deployment pointing to it.
pub reserve_attempt-Reserved :
    (r : Request) (db : Db) (k : String) (payload : AttemptCreate) (row : Attempt) (db' : Db)
    → reserve_attempt r db k payload ≡ ok (row, db')
    → (dep : Deployment) × Reserved r db k payload row db' dep
unfolding reserve_attempt
reserve_attempt-Reserved r db k payload row db' h =
    reserve_for-Reserved r db k payload row db' (deployment? db k) refl h

module _ (r : Request) (db : Db) (k : String) (payload : AttemptCreate) (row : Attempt) (db' : Db)
    (dep : Deployment) (x : Reserved r db k payload row db' dep) where
  abbrev db₁ : Db
  db₁ = add_attempt db (new_attempt r dep payload)

  pub id-Reserved : row.id ≡ r.new_id
  unfolding new_attempt
  id-Reserved = ground (arith, x.row_is_new)

  pub deployment_id-Reserved : row.deployment_id ≡ k
  unfolding new_attempt
  deployment_id-Reserved =
      ground (arith, x.row_is_new, key-get (λ (d : Deployment). d.id) k db.deployments dep x.found)

  -- The new row is in, before the update of the deployment.
  pub attempt-prepared :
      (j : String)
      → attempt? (prepared r db dep payload) j ≡ (if row.id == j then some row else attempt? db j)
  unfolding add_attempt
  attempt-prepared j = ground (
    arith,
    x.row_is_new,
    attempts-cleanup_stale_locks r.machine r.now db₁ (some dep.id),
    get-cons (λ (a : Attempt). a.id) j row db.attempts,
  )

  pub attempt-Reserved :
      (j : String) → attempt? db' j ≡ (if row.id == j then some row else attempt? db j)
  unfolding add_attempt point_to
  attempt-Reserved j = ground (
    arith,
    x.after,
    x.row_is_new,
    attempts-cleanup_stale_locks r.machine r.now db₁ (some dep.id),
    get-cons (λ (a : Attempt). a.id) j row db.attempts,
  )

  pub current-Reserved :
      (j : String) → current? db' j ≡ (if k == j then some (some row.id) else current? db j)
  unfolding add_attempt point_to
  current-Reserved j = ground (
    arith,
    x.after,
    x.row_is_new,
    deployments-cleanup_stale_locks r.machine r.now db₁ (some dep.id),
    key-get (λ (d : Deployment). d.id) k db.deployments dep x.found,
    get-update-key (λ (d : Deployment). d.id) dep.id (points_to row.id) j db.deployments
        (λ d. refl),
  )
