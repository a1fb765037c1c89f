-- ===== src/Snapshots/Observation.antt =====
-- core/snapshot_sets.py: `observe`, the identity of the guests of a set as the cluster reports it,
-- and `_config_digest`. The answers of the cluster are JSON; names are texts. Python's handling of
-- texts and the digest of a document are parameters.
mod Settled
mod Identity
mod Examples
use range42_backend_api.Prelude.{
  ℕ, ◌<>◌, String, Bool, true, false, not, ◌&&◌, ◌||◌, Option, none, some, List, [], ◌∷◌, ltb, any,
  length, ◌==◌, ◌!=◌, contains, nat_eq, string_eq, option_eq, if◌then◌else◌,
}
use range42_backend_api.Prelude.Table.{select}
use range42_backend_api.Prelude.Result.{Result, ok, raise, error, raise_if, ◌>>=◌, ◌>>◌}
use range42_backend_api.Models.{Member, ℤ}
use range42_backend_api.Json.{Json, Items, Fields, get_field}
use range42_backend_api.Vmids.{assert_vmid_safe}
use range42_backend_api.Snapshots.Admission.{blocked}

-- The texts: `str(value).splitlines()`, the `uuid=` parts of `smbios1`, the canonical form of a
-- UUID, `re.fullmatch(r"unused\d+", key)` and the digest of a document.
pub record Reader : Type 0 where
  pub lines : Option Json → List String
  pub uuids : Option Json → Option (List String)
  pub canonical : String → Option String
  pub is_unused : String → Bool
  pub digest : Fields → String

-- What the cluster answers: `none` is an answer of another form. A read that fails raises.
pub record Answers : Type 0 where
  pub roster : Result (Option (List Fields))
  pub config : ℕ → Result (Option Fields)
  pub pending : ℕ → Result (Option (List Fields))
  pub status : ℕ → Result (Option Fields)

-- `if value:`
abbrev pub is_truthy : Option Json → Bool
is_truthy none = false
is_truthy (some Json.null) = false
is_truthy (some (Json.boolean b)) = b
is_truthy (some (Json.number (ℤ.pos n))) = n != 0
is_truthy (some (Json.number (ℤ.negsuc n))) = true
is_truthy (some (Json.float s)) = s != "0.0" && s != "-0.0"
is_truthy (some (Json.string s)) = s != ""
is_truthy (some (Json.array Items.nil)) = false
is_truthy (some (Json.array (Items.item _ _))) = true
is_truthy (some (Json.object Fields.end)) = false
is_truthy (some (Json.object (Fields.field _ _ _))) = true

abbrev pub text_of : Option Json → Option String
text_of (some (Json.string s)) = some s
text_of _ = none

abbrev pub is_vmid : ℕ → Option Json → Bool
is_vmid vmid (some (Json.number (ℤ.pos n))) = n == vmid
is_vmid vmid _ = false

-- The keys that a snapshot or a rollback changes by itself
abbrev pub volatile_keys : List String
volatile_keys =
    "digest" ∷ "parent" ∷ "snaptime" ∷ "snapstate" ∷ "vmstate" ∷ "vmgenid" ∷ "description"
    ∷ "runningmachine" ∷ "runningcpu" ∷ "running-nets-host-mtu" ∷ []

unfoldable pub keep_fields : (String → Bool) → Fields → Fields
keep_fields p Fields.end = Fields.end
keep_fields p (Fields.field k v rest) =
    let later = keep_fields p rest in if p k then Fields.field k v later else later

abbrev pub is_stable : Reader → String → Bool
is_stable r k = not (contains volatile_keys k) && not (r.is_unused k)

-- `_config_digest`
unfoldable pub restore_digest : Reader → Fields → String
restore_digest r config = r.digest (keep_fields (is_stable r) config)

-- The first check: the one row of the guest.
unfoldable pub is_placed : String → Fields → Bool
is_placed node row =
    text_of (get_field "node" row) == some node
    && text_of (get_field "type" row) == some "qemu"
    && not (is_truthy (get_field "template" row))

the_row : String → List Fields → Result Fields
the_row node (row ∷ []) =
    if is_placed node row then ok row else blocked "SNAPSHOT_OWNERSHIP_CHANGED"
the_row node _ = blocked "SNAPSHOT_OWNERSHIP_CHANGED"

unfoldable has_key : String → Fields → Bool
has_key k fields = elim (get_field k fields) [ none ↦ false | some _ ↦ true ]

-- `member.get("vm_name") and member["vm_name"] != config.get("name")`
abbrev is_renamed : Option String → Option String → Bool
is_renamed none name = false
is_renamed (some expected) name = expected != "" && name != some expected

-- The second check: owner, name, lock and pending changes.
unfoldable pub is_settled_guest :
    Reader → String → Option String → Fields → Fields → List Fields → Bool
unfolding has_key
is_settled_guest r deployment_id expected row config pending =
    not (is_truthy (get_field "template" config))
    && not (is_truthy (get_field "lock" config))
    && contains (r.lines (get_field "description" config)) ("range42-deployment:" <> deployment_id)
    && text_of (get_field "name" config) == text_of (get_field "name" row)
    && not (is_renamed expected (text_of (get_field "name" config)))
    && not (any (λ p. has_key "pending" p || is_truthy (get_field "delete" p)) pending)

running_of : Option String → Option Bool
running_of none = none
running_of (some s) =
    if s == "running" then some true else if s == "stopped" then some false else none

unfoldable pub identity_of : Reader → Fields → Result String
identity_of r config = elim (r.uuids (get_field "smbios1" config)) [
  | some (id ∷ []) ↦ elim (r.canonical id) [
    | none ↦ blocked "SNAPSHOT_IDENTITY_UNAVAILABLE"
    | some uuid ↦ ok uuid
  ]
  | _ ↦ blocked "SNAPSHOT_IDENTITY_UNAVAILABLE"
]

-- `config["name"]`
named : Option String → Result String
named none = raise (error 500 "INTERNAL")
named (some name) = ok name

abbrev member_of : Reader → ℕ → Fields → Bool → String → String → Member
member_of r vmid config running uuid name = record {
  vm_id = vmid;
  vm_name = name;
  uuid = uuid;
  config_digest = r.digest (keep_fields (λ k. k != "digest") config);
  restore_digest = restore_digest r config;
  running = running;
}

-- The answers for one guest that are of the expected form, in three steps.
settled_member :
    Reader → String → ℕ → Option String → Fields → Fields → List Fields → Bool → Result Member
settled_member r deployment_id vmid expected row config pending running = do
  raise_if (not (is_settled_guest r deployment_id expected row config pending))
      (error 409 "SNAPSHOT_OWNERSHIP_CHANGED")
  uuid ← identity_of r config
  name ← named (text_of (get_field "name" config))
  ok (member_of r vmid config running uuid name)

with_status :
    Reader
    → String
    → ℕ
    → Option String
    → Fields
    → Fields
    → List Fields
    → Option Bool
    → Result Member
with_status r deployment_id vmid expected row config pending none =
    blocked "SNAPSHOT_OWNERSHIP_CHANGED"
with_status r deployment_id vmid expected row config pending (some running) =
    settled_member r deployment_id vmid expected row config pending running

report :
    Reader
    → String
    → ℕ
    → Option String
    → Fields
    → Option Fields
    → Option (List Fields)
    → Option Fields
    → Result Member
report r deployment_id vmid expected row (some config) (some pending) (some status) =
    with_status r deployment_id vmid expected row config pending
      (running_of (text_of (get_field "status" status)))
report r deployment_id vmid expected row _ _ _ = blocked "SNAPSHOT_OWNERSHIP_CHANGED"

-- One round of the loop. A member is its VMID and its expected name.
pub observe_guest :
    Reader
    → Answers
    → Option (List (List ℕ))
    → String
    → String
    → List Fields
    → ℕ × Option String
    → Result Member
observe_guest r a host_overrides node deployment_id roster (vmid, expected) = do
  assert_vmid_safe vmid host_overrides
  row ← the_row node (select (λ row. is_vmid vmid (get_field "vmid" row)) roster)
  config ← a.config vmid
  pending ← a.pending vmid
  status ← a.status vmid
  report r deployment_id vmid expected row config pending status

unfoldable pub observe_guests :
    Reader
    → Answers
    → Option (List (List ℕ))
    → String
    → String
    → List Fields
    → List (ℕ × Option String)
    → Result (List Member)
observe_guests r a host_overrides node deployment_id roster [] = ok []
observe_guests r a host_overrides node deployment_id roster (m ∷ members) = do
  first ← observe_guest r a host_overrides node deployment_id roster m
  rest ← observe_guests r a host_overrides node deployment_id roster members
  ok (first ∷ rest)

inventory : Option (List Fields) → Result (List Fields)
inventory none = blocked "SNAPSHOT_PLAN_STALE"
inventory (some rows) = if ltb 4096 (length rows) then blocked "SNAPSHOT_PLAN_STALE" else ok rows

pub observe :
    Reader
    → Answers
    → Option (List (List ℕ))
    → String
    → String
    → List (ℕ × Option String)
    → Result (List Member)
observe r a host_overrides node deployment_id members = do
  answer ← a.roster
  roster ← inventory answer
  observe_guests r a host_overrides node deployment_id roster members
