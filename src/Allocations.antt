-- ===== src/Allocations.antt =====
-- core/allocation_models.py, with the helpers of core/deployment_allocations.py and
-- core/allocation_reservations.py: which VMIDs and addresses belong to a draft or a deployment.
mod Samples
pub mod Overlaps
pub mod Request
pub mod Retained
pub mod Planning
pub mod Documents
pub mod Binding
pub mod Gate
pub mod Leases
pub mod Reserving
use range42_backend_api.Prelude.{
  ℕ, String, Bool, true, false, not, ◌&&◌, ◌||◌, Option, none, some, List, [], ◌∷◌, ltb, leb, any,
  length, ◌==◌, ◌!=◌, nat_eq, string_eq, option_eq, Eq, if◌then◌else◌,
}
use range42_backend_api.Prelude.Table.{get, delete, select}
use range42_backend_api.Prelude.Result.{Result, ok, raise, error, raise_if, ◌>>=◌, ◌>>◌}
use range42_backend_api.Models.{Deployment, ℤ}
use range42_backend_api.Json.{Json, Items}
use range42_backend_api.Vmids.{Range}

-- A NIC of a VM. What only drafts store is optional.
pub record Nic : Type 0 where
  pub index : ℕ
  pub bridge : String
  pub ip : String
  pub nic_key : Option String
  pub network_id : Option String
  pub subnet : Option String

-- `name` is `vm_name` in a deployment and `node_id` in a draft.
pub record Assignment : Type 0 where
  pub vm_id : ℕ
  pub name : Option String
  pub nics : List Nic

-- A draft's lease, which expires.
pub record AllocationReservation : Type 0 where
  pub id : String
  pub project_key : String
  pub host_id : String
  pub node_name : String
  pub api_url : Option String
  pub token_hash : String
  pub assignments : List Assignment
  pub expires_at : ℕ
  pub checked_at : ℕ

-- A deployment's claim, which does not expire.
pub record DeploymentAllocation : Type 0 where
  pub id : String
  pub deployment_id : String
  pub project_sha : Option String
  pub host_id : String
  pub api_url : String
  pub node_name : String
  pub assignments : List Assignment
  pub source_assignments : Option (List Assignment)
  pub created_at : ℕ

-- A registered host, as far as it is read here.
pub record TargetHost : Type 0 where
  pub id : String
  pub api_url : String
  pub node_name : String
  pub protected_vmids_override_json : Option String

-- The two tables.
pub record Ledger : Type 0 where
  pub reservations : List AllocationReservation
  pub claims : List DeploymentAllocation

abbrev pub reservation? : Ledger → String → Option AllocationReservation
reservation? l k = get (λ r. r.id) k l.reservations

abbrev pub claim? : Ledger → String → Option DeploymentAllocation
claim? l k = get (λ c. c.id) k l.claims

-- `_error(code, message)`
abbrev pub refuse {ℓ} : {A : Type ℓ} → String → Result A
refuse code = raise (error 409 code)

-- What is called: the check of a token's form, its SHA-256, and `json.loads`.
pub record Codec : Type 0 where
  pub is_token : String → Bool
  pub sha256 : String → String
  pub loads : String → Option Json

unfoldable pub token_digest : Codec → String → Result String
token_digest x token =
    if x.is_token token then ok (x.sha256 token) else raise (error 422 "ALLOCATION_INVALID")

unfoldable pub ownership : AllocationReservation → String → String → Result (Unit {0})
ownership row token_hash host_id =
    raise_if (row.token_hash != token_hash || row.host_id != host_id)
      (error 403 "ALLOCATION_OWNERSHIP")

-- `[lo, hi]` with `100 <= lo <= hi <= 999999999`
range_of : Json → Option Range
range_of
      (Json.array
        (Items.item (Json.number (ℤ.pos lo)) (Items.item (Json.number (ℤ.pos hi)) Items.nil))) =
    if leb 100 lo && (leb lo hi && leb hi 999999999) then some (lo, hi) else none
range_of _ = none

ranges_of : Items → Option (List Range)
unfolding range_of
ranges_of Items.nil = some []
ranges_of (Items.item v rest) = elim (ranges_of rest) [
  | none ↦ none
  | some later ↦ elim (range_of v) [ none ↦ none | some r ↦ some (r ∷ later) ]
]

override_text : Option String → String
override_text none = "[]"
override_text (some s) = if s == "" then "[]" else s

-- `_protected`: the overrides of a host, or an error if they are not valid.
bounded : Option (List Range) → Result (List Range)
bounded none = refuse "ALLOCATION_INVALID"
bounded (some ranges) = if ltb 256 (length ranges) then refuse "ALLOCATION_INVALID" else ok ranges

unfoldable pub protected_ranges : Codec → TargetHost → Result (List Range)
unfolding ranges_of override_text bounded
protected_ranges x host = elim (x.loads (override_text host.protected_vmids_override_json)) [
  | some (Json.array items) ↦ bounded (ranges_of items)
  | _ ↦ refuse "ALLOCATION_INVALID"
]

unfoldable pub same_address : Nic → Nic → Bool
same_address a b = a.bridge == b.bridge && a.ip == b.ip

-- `ids & other_ids or addresses & other_addresses`, on what two rows `occupied`.
unfoldable pub same_vmid : Assignment → Assignment → Bool
same_vmid a b = a.vm_id == b.vm_id

unfoldable pub share_address : Assignment → Assignment → Bool
share_address a b = any (λ n. any (same_address n) b.nics) a.nics

unfoldable pub overlaps : List Assignment → List Assignment → Bool
overlaps xs ys = any (λ a. any (same_vmid a) ys) xs || any (λ a. any (share_address a) ys) xs

-- `validate_binding`
unfoldable pub validate_binding :
    DeploymentAllocation → Deployment → Option TargetHost → Result (Unit {0})
validate_binding claim dep none = refuse "ALLOCATION_TARGET_CHANGED"
validate_binding claim dep (some host) =
    raise_if
      (claim.host_id != dep.target_host_id
        || claim.api_url != host.api_url
        || claim.node_name != host.node_name
        || claim.project_sha != dep.project_sha)
      (error 409 "ALLOCATION_TARGET_CHANGED")
