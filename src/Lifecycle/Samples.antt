-- ===== src/Lifecycle/Samples.antt =====
-- A deployment with an attempt, for the examples.
use range42_backend_api.Prelude.{none, some, [], ◌∷◌, false}
use range42_backend_api.Models.{Db, Deployment, Attempt, AttemptState, Owner, ℤ}
use range42_backend_api.Locks.{new_lock}
use range42_backend_api.Lifecycle.{Outcome}

abbrev pub deployment : Deployment
deployment = record {
  id = "d1";
  codename = "lab";
  scenario_label = "demo";
  target_host_id = "h1";
  project_sha = some "ab12";
  native = none;
  team_count = 2;
  state = AttemptState.pending;
  current_attempt_id = none;
  workspace_path = "/w";
}

abbrev pub running_attempt : Attempt
running_attempt = record {
  id = "a1";
  deployment_id = "d1";
  scope = "full";
  project_sha = some "ab12";
  team_id = none;
  state = AttemptState.deploying;
  sub_reason = none;
  rc = none;
  started_at = some 100;
  ended_at = none;
  event_cursor_tip = 4;
  pid = some 77;
  artifact_dir = none;
}

abbrev pub asked_attempt : Attempt
asked_attempt = record running_attempt { sub_reason = some "cancel_requested" }

abbrev pub failed_attempt : Attempt
failed_attempt = record running_attempt { state = AttemptState.failed; ended_at = some 150 }

abbrev pub idle_db : Db
idle_db = record {
  deployments = deployment ∷ [];
  attempts = [];
  locks = [];
  operations = [];
  snapshots = [];
}

abbrev pub with_attempt : Attempt → Db
with_attempt a = record idle_db {
  deployments = record deployment { current_attempt_id = some a.id } ∷ [];
  attempts = a ∷ [];
  locks = new_lock 100 "d1" (Owner.attempt a.id) 30 ∷ [];
}

abbrev pub returned : ℤ → Outcome
returned rc = record {
  rc = some rc;
  event_cursor_tip = some 9;
  error_code = none;
  warning_code = none;
  cancelled = false;
  unknown = false;
  partial = false;
}
