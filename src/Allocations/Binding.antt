-- ===== src/Allocations/Binding.antt =====
-- core/deployment_allocations.py, `bind`: the claim of a deployment on its VMIDs and addresses,
-- within `BEGIN IMMEDIATE`.
pub mod Claiming
mod Agreement
pub mod Vacancy
pub mod Disjointness
pub mod Examples
use range42_backend_api.Prelude.{
  ℕ, String, Bool, true, false, not, ◌&&◌, ◌||◌, Option, none, some, List, [], ◌∷◌, ltb, leb, any,
  ◌==◌, ◌!=◌, nat_eq, string_eq, option_eq, if◌then◌else◌,
}
use range42_backend_api.Prelude.Table.{get, delete, select}
use range42_backend_api.Prelude.Result.{Result, ok, raise, error, raise_if, ◌>>=◌, ◌>>◌}
use range42_backend_api.Models.{Db, Deployment, deployment?}
use range42_backend_api.Vmids.{Range, is_protected}
use range42_backend_api.Allocations.Documents.{same_mapping, same_assignments}
use range42_backend_api.Allocations.{
  Nic, Assignment, AllocationReservation, DeploymentAllocation, TargetHost, Ledger, Codec,
  reservation?, refuse, token_digest, ownership, protected_ranges, overlaps, validate_binding,
}

-- `expires_at > now`
abbrev pub live : ℕ → AllocationReservation → Bool
live now r = ltb now r.expires_at

-- The checks of the draft that is to be transferred.
reviewed :
    Codec
    → ℕ
    → TargetHost
    → List Assignment
    → String
    → Option AllocationReservation
    → Result (Option AllocationReservation)
reviewed x now host assignments token none = refuse "ALLOCATION_EXPIRED"
reviewed x now host assignments token (some lease) = do
  raise_if (leb lease.expires_at now) (error 409 "ALLOCATION_EXPIRED")
  digest ← token_digest x token
  ownership lease digest host.id
  raise_if (lease.api_url != some host.api_url || lease.node_name != host.node_name)
      (error 409 "ALLOCATION_TARGET_CHANGED")
  raise_if (not (same_mapping lease.assignments assignments))
      (error 409 "ALLOCATION_MAPPING_CHANGED")
  ok (some lease)

-- `if reservation_id:` and `if not token:`, where an empty text counts as absent
abbrev given : Option String → Option String
given none = none
given (some s) = if s == "" then none else some s

with_token :
    Codec
    → ℕ
    → Ledger
    → TargetHost
    → List Assignment
    → String
    → Option String
    → Result (Option AllocationReservation)
with_token x now l host assignments reservation_id none = raise (error 403 "ALLOCATION_OWNERSHIP")
with_token x now l host assignments reservation_id (some token) =
    reviewed x now host assignments token (reservation? l reservation_id)

pub transfer :
    Codec
    → ℕ
    → Ledger
    → TargetHost
    → List Assignment
    → Option String
    → Option String
    → Result (Option AllocationReservation)
transfer x now l host assignments reservation_id token = elim (given reservation_id) [
  | none ↦ ok none
  | some id ↦ with_token x now l host assignments id (given token)
]

abbrev pub is_lease : Option AllocationReservation → AllocationReservation → Bool
is_lease none r = false
is_lease (some lease) r = r.id == lease.id

-- The loop over the claims and the live leases, without the one that is transferred.
unfoldable pub is_occupied : ℕ → Ledger → List Assignment → Option AllocationReservation → Bool
is_occupied now l assignments lease =
    any (λ c. overlaps assignments c.assignments) l.claims
    || any (λ r. live now r && not (is_lease lease r) && overlaps assignments r.assignments)
        l.reservations

abbrev pub source_of : Option AllocationReservation → Option (List Assignment)
source_of none = none
source_of (some lease) = some lease.assignments

abbrev pub new_claim :
    ℕ
    → String
    → Deployment
    → TargetHost
    → List Assignment
    → Option AllocationReservation
    → DeploymentAllocation
new_claim now id dep host assignments lease = record {
  id = id;
  deployment_id = dep.id;
  project_sha = dep.project_sha;
  host_id = host.id;
  api_url = host.api_url;
  node_name = host.node_name;
  assignments = assignments;
  source_assignments = source_of lease;
  created_at = now;
}

unfoldable pub consume :
    Option AllocationReservation → List AllocationReservation → List AllocationReservation
consume none rows = rows
consume (some lease) rows = delete (λ r. r.id) lease.id rows

-- The new claim, if its VMIDs are allowed and nobody has its VMIDs or addresses.
unfoldable pub settle :
    ℕ
    → String
    → Ledger
    → Deployment
    → TargetHost
    → List Assignment
    → Option AllocationReservation
    → List Range
    → Result (DeploymentAllocation × Ledger)
settle now id l dep host assignments lease ranges = do
  raise_if (any (λ a. is_protected a.vm_id ranges) assignments) (error 409 "ALLOCATION_PROTECTED")
  raise_if (is_occupied now l assignments lease) (error 409 "ALLOCATION_OCCUPIED")
  let claim = new_claim now id dep host assignments lease
  ok (claim, record { reservations = consume lease l.reservations; claims = claim ∷ l.claims })

-- A deployment without a claim.
unfoldable pub claim_fresh :
    Codec
    → ℕ
    → String
    → Ledger
    → Deployment
    → TargetHost
    → List Assignment
    → Option String
    → Option String
    → Result (DeploymentAllocation × Ledger)
claim_fresh x now id l dep host assignments reservation_id token = do
  lease ← transfer x now l host assignments reservation_id token
  ranges ← protected_ranges x host
  settle now id l dep host assignments lease ranges

unfoldable pub bind :
    Codec
    → ℕ
    → String
    → Ledger
    → Deployment
    → TargetHost
    → List Assignment
    → Option String
    → Option String
    → Result (DeploymentAllocation × Ledger)
bind x now id l dep host assignments reservation_id token =
    elim (get (λ c. c.deployment_id) dep.id l.claims) [
      | none ↦ claim_fresh x now id l dep host assignments reservation_id token
      | some existing ↦ do
        validate_binding existing dep (some host)
        raise_if (not (same_assignments existing.assignments assignments))
            (error 409 "ALLOCATION_MAPPING_CHANGED")
        ok (existing, l)
    ]
