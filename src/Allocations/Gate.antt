-- ===== src/Allocations/Gate.antt =====
-- core/deployment_allocations.py, `ensure_for_attempt`: the gate before a launch, within
-- `BEGIN IMMEDIATE`.
use range42_backend_api.Prelude.{
  ℕ, String, Bool, true, false, ◌&&◌, ◌||◌, Option, none, some, List, [], ◌∷◌, ◌!=◌, nat_eq,
  string_eq, option_eq, if◌then◌else◌,
}
use range42_backend_api.Prelude.Table.{get}
use range42_backend_api.Prelude.Result.{Result, ok, error, raise_if, ◌>>=◌, ◌>>◌}
use range42_backend_api.Models.{Db, Deployment, deployment?}
use range42_backend_api.Allocations.{Assignment, TargetHost, Ledger, Codec, refuse}
use range42_backend_api.Allocations.Binding.{bind}

abbrev is_some {ℓ} : {A : Type ℓ} → Option A → Bool
is_some none = false
is_some (some _) = true

abbrev is_cons {ℓ} : {A : Type ℓ} → List A → Bool
is_cons [] = false
is_cons (_ ∷ _) = true

-- The rows that the gate reads again, the checks on them, and the claim. `prepared` is the
-- deployment and `checked_host` the host that the launch was prepared for.
gate :
    Codec
    → ℕ
    → String
    → Ledger
    → Deployment
    → List Assignment
    → Bool
    → TargetHost
    → Deployment
    → Option TargetHost
    → Result Ledger
gate x now id l prepared assignments create checked_host fresh none =
    refuse "ALLOCATION_TARGET_CHANGED"
gate x now id l prepared assignments create checked_host fresh (some host) = do
  raise_if
      (host.api_url != checked_host.api_url
        || host.node_name != checked_host.node_name
        || host.protected_vmids_override_json != checked_host.protected_vmids_override_json)
      (error 409 "ALLOCATION_TARGET_CHANGED")
  if is_some (get (λ c. c.deployment_id) fresh.id l.claims) || create && is_cons assignments
      then bind x now id l fresh host assignments none none >>= (λ bound. ok bound.1)
      else ok l

pub ensure_for_attempt :
    Codec
    → ℕ
    → String
    → Db
    → (String → Option TargetHost)
    → Ledger
    → Deployment
    → List Assignment
    → Bool
    → TargetHost
    → Result Ledger
ensure_for_attempt x now id db hosts l prepared assignments create checked_host =
    elim (deployment? db prepared.id) [
      | none ↦ refuse "ALLOCATION_TARGET_CHANGED"
      | some fresh ↦ do
        raise_if
            (fresh.target_host_id != prepared.target_host_id
              || fresh.project_sha != prepared.project_sha)
            (error 409 "ALLOCATION_TARGET_CHANGED")
        gate x now id l prepared assignments create checked_host fresh (hosts fresh.target_host_id)
    ]
