-- ===== src/Lifecycle/Rows.antt =====
-- What each transaction leaves of the rows: the attempt of its key changes by one function of the
-- row, other attempts and every deployment's current attempt stay.
use mathlib.Core.Option
use range42_backend_api.Prelude.{
  ℕ, String, ◌≡◌, refl, Option, none, some, arith, ◌==◌, string_eq, option_eq, if◌then◌else◌, ltb,
}
use range42_backend_api.Prelude.Table.{update, get-update-key, get-update_if}
use range42_backend_api.Models.{Db, Attempt, AttemptState, Deployment, Owner, deployment?, attempt?}
use range42_backend_api.Locks.{heartbeat}
pub use range42_backend_api.Locks.Exclusion.{
  attempts-release_lock, deployments-release_lock, operations-release_lock,
}
use range42_backend_api.Lifecycle.{
  advance_attempt_cursor, heartbeat_attempt, mark_attempt_running, mark_row, finish_attempt,
  finish_found, finish_row, Outcome, startable, started, raise_tip, update_current,
}

-- The current attempt of a deployment.
abbrev pub current? : Db → String → Option (Option String)
current? db k = Option.map (λ d. d.current_attempt_id) (deployment? db k)

abbrev key : Attempt → String
key a = a.id

pub current-update_current :
    (db : Db) (d k : String) (state : AttemptState) (j : String)
    → current? (update_current db d k state) j ≡ current? db j
current-update_current db d k state j = ground (
  arith,
  get-update_if (λ (x : Deployment). x.id) d (λ x. record x { state = state })
      (λ x. x.current_attempt_id == some k) j db.deployments (λ x. refl),
)

pub id-finish_row : (now : ℕ) (o : Outcome) (a : Attempt) → (finish_row now o a).id ≡ a.id
unfolding finish_row
id-finish_row now o a = ground arith

module _ (now : ℕ) (db : Db) (k : String) (o : Outcome) where
  abbrev pub recorded : Db
  recorded = record db { attempts = update (λ a. a.id == k) (finish_row now o) db.attempts }

  found-attempts : (r : Option Attempt) → (finish_found recorded k r).1.attempts ≡ recorded.attempts
  unfolding finish_found
  found-attempts none = refl
  found-attempts (some a) = attempts-release_lock _ a.deployment_id (Owner.attempt k)

  pub attempt-finish_attempt :
      (j : String)
      → attempt? (finish_attempt now db k o).1 j
        ≡ (if k == j then Option.map (finish_row now o) (attempt? db j) else attempt? db j)
  unfolding finish_attempt
  attempt-finish_attempt j =
      rw (found-attempts (attempt? recorded k))
        (get-update-key key k (finish_row now o) j db.attempts (id-finish_row now o))

  found-current :
      (r : Option Attempt) (j : String) → current? (finish_found recorded k r).1 j ≡ current? db j
  unfolding finish_found
  found-current none j = refl
  found-current (some a) j =
      rw deployments-release_lock (current-update_current recorded a.deployment_id k a.state j)

  pub current-finish_attempt :
      (j : String) → current? (finish_attempt now db k o).1 j ≡ current? db j
  unfolding finish_attempt
  current-finish_attempt j = found-current (attempt? recorded k) j

module _ (now : ℕ) (db : Db) (k : String) (pid : Option ℕ) (dir : String) where
  abbrev pub mark : Attempt → Attempt
  mark a = if startable a then started now pid dir a else a

  mark_row-attempt :
      (r : Option Attempt) (j : String)
      → attempt? db k ≡ r
      → attempt? (mark_row now db k pid dir r).1 j
        ≡ (if k == j then Option.map mark (attempt? db j) else attempt? db j)
  unfolding mark_row
  mark_row-attempt none j e = ground arith
  mark_row-attempt (some a) j e =
      ground (arith, get-update_if key k (started now pid dir) startable j db.attempts (λ x. refl))

  pub attempt-mark_attempt_running :
      (j : String)
      → attempt? (mark_attempt_running now db k pid dir).1 j
        ≡ (if k == j then Option.map mark (attempt? db j) else attempt? db j)
  unfolding mark_attempt_running
  attempt-mark_attempt_running j = mark_row-attempt (attempt? db k) j refl

  mark_row-current :
      (r : Option Attempt) (j : String) → current? (mark_row now db k pid dir r).1 j ≡ current? db j
  unfolding mark_row
  mark_row-current none j = refl
  mark_row-current (some a) j =
      ground (arith, current-update_current db a.deployment_id k AttemptState.deploying j)

  pub current-mark_attempt_running :
      (j : String) → current? (mark_attempt_running now db k pid dir).1 j ≡ current? db j
  unfolding mark_attempt_running
  current-mark_attempt_running j = mark_row-current (attempt? db k) j

module _ (db : Db) (k : String) (tip : ℕ) (j : String) where
  abbrev pub advance : Attempt → Attempt
  advance a = if ltb a.event_cursor_tip tip then raise_tip tip a else a

  pub attempt-advance_attempt_cursor :
      attempt? (advance_attempt_cursor db k tip) j
      ≡ (if k == j then Option.map advance (attempt? db j) else attempt? db j)
  unfolding advance_attempt_cursor
  attempt-advance_attempt_cursor =
      get-update_if key k (raise_tip tip) (λ a. ltb a.event_cursor_tip tip) j db.attempts
        (λ x. refl)

  pub current-advance_attempt_cursor : current? (advance_attempt_cursor db k tip) j ≡ current? db j
  unfolding advance_attempt_cursor
  current-advance_attempt_cursor = refl

module _ (now : ℕ) (db : Db) (k d : String) where
  pub attempts-heartbeat_attempt : (heartbeat_attempt now db k d).1.attempts ≡ db.attempts
  unfolding heartbeat_attempt heartbeat
  attempts-heartbeat_attempt = ground arith

  pub deployments-heartbeat_attempt : (heartbeat_attempt now db k d).1.deployments ≡ db.deployments
  unfolding heartbeat_attempt heartbeat
  deployments-heartbeat_attempt = ground arith
