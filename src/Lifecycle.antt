-- ===== src/Lifecycle.antt =====
-- core/attempt_lifecycle.py: the transactions that record a runner's progress. A `raise` cannot
-- happen here; each function returns what the code returns, and the tables after its commit.
pub mod Rows
pub mod Completion
pub mod Samples
mod Examples
use range42_backend_api.Prelude.{
  ℕ, zero, String, Bool, true, false, not, ◌&&◌, ◌||◌, Option, none, some, List, [], ◌∷◌, ltb, ◌==◌,
  ◌!=◌, if◌then◌else◌, option_eq, string_eq,
}
use range42_backend_api.Prelude.Table.{update}
use range42_backend_api.Models
use range42_backend_api.Models.{
  Db, Attempt, AttemptState, Deployment, Owner, ℤ, pos, negsuc, deployment?, attempt?,
}
use range42_backend_api.Locks.{heartbeat, release_lock}

-- `TERMINAL_ATTEMPT_STATES`
unfoldable pub terminal : AttemptState → Bool
terminal AttemptState.pending = false
terminal AttemptState.running = false
terminal AttemptState.deploying = false
terminal AttemptState.succeeded = true
terminal AttemptState.completed = true
terminal AttemptState.partial = true
terminal AttemptState.failed = true
terminal AttemptState.cancelled = true
terminal AttemptState.unknown = true

abbrev pub cancel_requested : Attempt → Bool
cancel_requested a = a.sub_reason == some "cancel_requested"

abbrev update_attempt : Db → String → (Attempt → Bool) → (Attempt → Attempt) → Db
update_attempt db k p f = record db { attempts = update (λ a. a.id == k && p a) f db.attempts }

-- The update of a deployment whose current attempt is `attempt_id`.
abbrev update_current : Db → String → String → AttemptState → Db
update_current db deployment_id attempt_id state = record db {
  deployments =
      update (λ d. d.id == deployment_id && d.current_attempt_id == some attempt_id)
        (λ d. record d { state = state }) db.deployments;
}

abbrev raise_tip : ℕ → Attempt → Attempt
raise_tip tip a = record a { event_cursor_tip = tip }

unfoldable pub advance_attempt_cursor : Db → String → ℕ → Db
advance_attempt_cursor db attempt_id tip =
    update_attempt db attempt_id (λ a. ltb a.event_cursor_tip tip) (raise_tip tip)

unfoldable pub heartbeat_attempt : ℕ → Db → String → String → Bool × Db
heartbeat_attempt now db attempt_id deployment_id =
    heartbeat now db deployment_id (Owner.attempt attempt_id)

abbrev pub startable : Attempt → Bool
startable a = not (terminal a.state) && not (cancel_requested a)

abbrev pub started : ℕ → Option ℕ → String → Attempt → Attempt
started now pid artifact_dir a = record a {
  state = AttemptState.deploying;
  pid = pid;
  artifact_dir = some artifact_dir;
  started_at = some now;
}

mark_row : ℕ → Db → String → Option ℕ → String → Option Attempt → Bool × Db
mark_row now db attempt_id pid artifact_dir none = (false, db)
mark_row now db attempt_id pid artifact_dir (some a) =
    if startable a
    then (
      true,
      update_current (update_attempt db attempt_id startable (started now pid artifact_dir))
          a.deployment_id attempt_id AttemptState.deploying,
    )
    else (false, db)

-- The row count of the update is that of the one row with this primary key.
unfoldable pub mark_attempt_running : ℕ → Db → String → Option ℕ → String → Bool × Db
unfolding mark_row
mark_attempt_running now db attempt_id pid artifact_dir =
    mark_row now db attempt_id pid artifact_dir (attempt? db attempt_id)

-- The arguments of `finish_attempt` beside the attempt.
pub record Outcome : Type 0 where
  pub rc : Option ℤ
  pub event_cursor_tip : Option ℕ
  pub error_code : Option String
  pub warning_code : Option String
  pub cancelled : Bool
  pub unknown : Bool
  pub partial : Bool

abbrev exit_success : Option ℤ → Bool
exit_success (some (pos zero)) = true
exit_success (some (pos n)) = false
exit_success (some (negsuc n)) = false
exit_success none = false

unfoldable pub terminal_state : Outcome → AttemptState
terminal_state o =
    if o.cancelled
    then AttemptState.cancelled
    else if o.unknown
    then AttemptState.unknown
    else if o.partial
    then AttemptState.partial
    else if exit_success o.rc && o.error_code == none
    then AttemptState.succeeded
    else AttemptState.failed

-- Python's `a or b` on optional texts: the empty text counts as absent.
abbrev py_or : Option String → Option String → Option String
py_or none b = b
py_or (some a) b = if a == "" then b else some a

-- The first statement: the outcome, unless one is recorded already. A request to cancel wins.
unfoldable pub finished : ℕ → Outcome → Attempt → Attempt
unfolding terminal_state
finished now o a = record a {
  state = if cancel_requested a then AttemptState.cancelled else terminal_state o;
  rc = o.rc;
  sub_reason =
      if cancel_requested a then some "cancel_requested" else py_or o.error_code o.warning_code;
  ended_at = some now;
}

-- `if attempt.rc is None and rc is not None: attempt.rc = rc`
unfoldable pub with_rc : Option ℤ → Attempt → Attempt
with_rc rc a = elim a.rc [ none ↦ record a { rc = rc } | some _ ↦ a ]

unfoldable pub with_tip : Option ℕ → Attempt → Attempt
with_tip none a = a
with_tip (some tip) a = if ltb a.event_cursor_tip tip then raise_tip tip a else a

-- What the three statements make of the row.
unfoldable pub finish_row : ℕ → Outcome → Attempt → Attempt
unfolding finished with_rc with_tip terminal
finish_row now o a =
    with_tip o.event_cursor_tip (with_rc o.rc (if terminal a.state then a else finished now o a))

finish_found : Db → String → Option Attempt → Option AttemptState × Db
finish_found db attempt_id none = (none, db)
finish_found db attempt_id (some a) = (
  some a.state,
  (release_lock (update_current db a.deployment_id attempt_id a.state) a.deployment_id
      (Owner.attempt attempt_id)).1,
)

unfoldable pub finish_attempt : ℕ → Db → String → Outcome → Option AttemptState × Db
unfolding finish_found finish_row
finish_attempt now db attempt_id o =
    let after = record db {
      attempts = update (λ a. a.id == attempt_id) (finish_row now o) db.attempts;
    } in
    finish_found after attempt_id (attempt? after attempt_id)
