-- ===== src/Attempts/Examples.antt =====
-- A reservation, a completion and the invariants on small inputs.
use range42_backend_api.Prelude.{
  String, ◌≡◌, refl, true, false, none, some, [], ◌∷◌, string_eq, option_eq,
}
use range42_backend_api.Prelude.Table.{get, update, delete, select}
use range42_backend_api.Prelude.Result.{ok, raise, error}
use range42_backend_api.Models.{Db, Attempt, AttemptState, Deployment, pos, attempt?, state_eq}
use range42_backend_api.Processes.{Machine}
use range42_backend_api.Locks.{cleanup_stale_locks}
use range42_backend_api.Lifecycle.{finish_attempt, terminal}
use range42_backend_api.Lifecycle.Samples.{
  deployment, idle_db, with_attempt, running_attempt, asked_attempt, returned,
}
use range42_backend_api.Attempts.{
  Request, AttemptCreate, reserve_attempt, reserve_for, check_request, claim, point_to, new_attempt,
  add_attempt, cancel_current_attempt, cancel_for, cancel_attempt, is_none, active_attempt,
}
use range42_backend_api.Attempts.Reservation.{Reserved, reserve_attempt-Reserved}
use range42_backend_api.Attempts.Steps.{Reach, here, next, reserve, finish}
use range42_backend_api.Attempts.Invariants.{
  Continues, Reach-Continues, IsExclusive, Reach-IsExclusive, one_active_attempt,
}

abbrev machine : Machine
machine = record {
  proc_stat = λ _. none;
  boot_id = none;
  recorded = λ _. none;
  resolve = λ p. some p;
  is_symlink = λ _. false;
  is_relative_to = λ _ _. true;
  read_pid = λ _. none;
}

abbrev request : Request
request = record {
  machine = machine;
  now = 100;
  new_id = "a1";
  lower = λ s. s;
  has_operation = false;
  has_legacy_vars = false;
  resolve_playbook = λ _ _. ok tt;
}

abbrev payload : AttemptCreate
payload = record { scope = "full"; team_id = none; confirm_codename = none; project_sha = none }

abbrev row : Attempt
row = record {
  id = "a1";
  deployment_id = "d1";
  scope = "full";
  project_sha = some "ab12";
  team_id = none;
  state = AttemptState.pending;
  sub_reason = none;
  rc = none;
  started_at = some 100;
  ended_at = none;
  event_cursor_tip = 0;
  pid = none;
  artifact_dir = none;
}

abbrev reserved_db : Db
reserved_db = record idle_db {
  deployments = record deployment { current_attempt_id = some "a1" } ∷ [];
  attempts = row ∷ [];
}

reservation : Unit {0}
unfolding reserve_attempt reserve_for check_request claim point_to new_attempt add_attempt is_none
    active_attempt cleanup_stale_locks terminal string_eq option_eq state_eq get update delete
    select
reservation = tt

reserve_idle : reserve_attempt request idle_db "d1" payload ≡ ok (row, reserved_db)
unfolding reservation
reserve_idle = refl

-- While the first attempt goes on, a second one is refused.
reserve_busy :
    reserve_attempt (record request { new_id = "a2" }) reserved_db "d1" payload
    ≡ raise (error 409 "ATTEMPT_IN_PROGRESS")
unfolding reservation
reserve_busy = refl

-- A teardown without the codename is refused.
reserve_unconfirmed :
    reserve_attempt request idle_db "d1" (record payload { scope = "teardown" })
    ≡ raise (error 400 "TEARDOWN_CONFIRM_MISMATCH")
unfolding reservation
reserve_unconfirmed = refl

cancel_busy :
    cancel_current_attempt (λ _. false) true (with_attempt running_attempt) "d1"
    ≡ ok (record (with_attempt running_attempt) { attempts = asked_attempt ∷ [] })
unfolding cancel_current_attempt cancel_for cancel_attempt reservation
cancel_busy = refl

reserve_attempt-Reserved_example :
    (dep : Deployment) × Reserved request idle_db "d1" payload row reserved_db dep
reserve_attempt-Reserved_example =
    reserve_attempt-Reserved request idle_db "d1" payload row reserved_db reserve_idle

fresh_id : attempt? idle_db "a1" ≡ none
unfolding get
fresh_id = refl

abbrev path : Reach idle_db reserved_db
path = next here (reserve request "d1" payload row fresh_id reserve_idle)

idle-IsExclusive : IsExclusive idle_db
unfolding get
idle-IsExclusive j a e live = cc

Reach-IsExclusive_example : IsExclusive reserved_db
Reach-IsExclusive_example = Reach-IsExclusive idle-IsExclusive path

stored_row : attempt? reserved_db "a1" ≡ some row
unfolding get string_eq
stored_row = refl

row_is_live : terminal row.state ≡ false
unfolding terminal
row_is_live = refl

one_active_attempt_example : ◌≡◌ {A = String} "a1" "a1"
one_active_attempt_example =
    one_active_attempt idle-IsExclusive path "a1" "a1" row row stored_row stored_row refl
      row_is_live row_is_live

abbrev finished_db : Db
finished_db = (finish_attempt 200 (with_attempt running_attempt) "a1" (returned (pos 0))).1

stored_running : attempt? (with_attempt running_attempt) "a1" ≡ some running_attempt
unfolding get string_eq
stored_running = refl

Reach-Continues_example : Continues finished_db "a1" running_attempt
Reach-Continues_example =
    Reach-Continues "a1" running_attempt stored_running
      (next here (finish 200 "a1" (returned (pos 0)) refl))
