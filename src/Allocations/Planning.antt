-- ===== src/Allocations/Planning.antt =====
-- core/allocation_reservations.py, `_plan`: VMIDs and addresses for an author's request. Sets are
-- lists; a fixed address stands with its bridge, as the pair that the program claims.
pub mod Assigning
pub mod Choices
pub mod Fixing
pub mod Keys
pub mod Giving
pub mod Soundness
pub mod Bridges
use native.Mathlib.Decide.{ℕ_discrete}
use range42_backend_api.Prelude.{
  ℕ, zero, suc, ◌+◌, ◌-◌, String, Bool, true, false, not, ◌&&◌, ◌||◌, Option, none, some, List, [],
  ◌∷◌, ◌++◌, map, leb, ltb, contains, ◌==◌, ◌!=◌, nat_eq, string_eq, option_eq, Eq, if◌then◌else◌,
}
use range42_backend_api.Prelude.Dict.{find_key}
use range42_backend_api.Prelude.Result.{Result, ok, raise, error, raise_if, ◌>>=◌, ◌>>◌}
use range42_backend_api.Vmids.{Range, is_protected}
use range42_backend_api.Allocations.{
  Nic, Assignment, AllocationReservation, TargetHost, Codec, refuse, protected_ranges,
}
use range42_backend_api.Allocations.Request.{
  AllocationNetwork, AllocationNic, AllocationVm, AllocationRequest, Address, address_eq, Subnet,
  Ipv4, is_usable, host_count,
}
use range42_backend_api.Allocations.Retained.{
  Retained, last_with, find_network, same_network, retained_at, retained_nics,
}

-- The key of `fixed_ips`
pub record NicKey : Type 0 where
  pub node_id : String
  pub index : ℕ

NicKey-discrete : Discrete NicKey
NicKey-discrete = hlevel (string_eq.dec, ℕ_discrete)

instance unfoldable pub nic_key_eq : Eq NicKey
unfolding NicKey-discrete string_eq ℕ_discrete
nic_key_eq = record { dec = NicKey-discrete }

abbrev pub nic_key : String → AllocationNic → NicKey
nic_key node_id nic = record { node_id = node_id; index = nic.index }

-- `Occupancy`, as far as it is read here
pub record Occupancy : Type 0 where
  pub vmids : List ℕ
  pub addresses : List Address

-- What the two loops read.
pub record Pool : Type 0 where
  pub networks : List AllocationNetwork
  pub overrides : List Range
  pub unavailable_ids : List ℕ
  pub unavailable_ips : List Address

-- What the first loop fixes.
pub record Fixed : Type 0 where
  pub fixed_ids : List (String × ℕ)
  pub fixed_ips : List (NicKey × Address)
  pub claimed_ids : List ℕ
  pub claimed_ips : List Address

abbrev pub address_at : AllocationNetwork → String → Address
address_at network ip = record { bridge = network.bridge; ip = ip }

-- A text that `ipaddress` does not accept raises.
abbrev pub parsed {ℓ} : {A : Type ℓ} → Option A → Result A
parsed none = raise (error 500 "INTERNAL")
parsed (some a) = ok a

abbrev pub with_id : String → ℕ → Fixed → Fixed
with_id node_id id s = record s {
  fixed_ids = (node_id, id) ∷ s.fixed_ids;
  claimed_ids = id ∷ s.claimed_ids;
}

abbrev pub with_ip : NicKey → Address → Fixed → Fixed
with_ip key pair s = record s {
  fixed_ips = (key, pair) ∷ s.fixed_ips;
  claimed_ips = pair ∷ s.claimed_ips;
}

unfoldable pub fix_id : Pool → String → ℕ → Fixed → Result Fixed
fix_id p node_id id s = do
  raise_if (is_protected id p.overrides) (error 409 "ALLOCATION_PROTECTED")
  raise_if (contains p.unavailable_ids id || contains s.claimed_ids id)
      (error 409 "ALLOCATION_OCCUPIED")
  ok (with_id node_id id s)

unfoldable pub fix_optional_id : Pool → String → Option ℕ → Fixed → Result Fixed
fix_optional_id p node_id none s = ok s
fix_optional_id p node_id (some id) s = fix_id p node_id id s

unfoldable pub fix_ip : Ipv4 → Pool → NicKey → AllocationNetwork → String → Fixed → Result Fixed
fix_ip x p key network ip s = do
  subnet ← parsed (x.network network.subnet)
  address ← parsed (x.address ip)
  raise_if (not (is_usable subnet address)) (error 409 "ALLOCATION_INVALID")
  raise_if
      (contains p.unavailable_ips (address_at network ip)
        || contains s.claimed_ips (address_at network ip))
      (error 409 "ALLOCATION_OCCUPIED")
  ok (with_ip key (address_at network ip) s)

-- `old_nic.get("ip") if unchanged_network else None`
retained_ip : AllocationNetwork → Option Nic → Option String
retained_ip network none = none
retained_ip network (some old) = if same_network old network then some old.ip else none

unfoldable pub wanted_ip : AllocationNic → AllocationNetwork → Option Nic → Option String
unfolding retained_ip
wanted_ip nic network old = elim nic.ip [ none ↦ retained_ip network old | some ip ↦ some ip ]

unfoldable pub fix_optional_ip :
    Ipv4 → Pool → NicKey → AllocationNetwork → Option String → Fixed → Result Fixed
fix_optional_ip x p key network none s = ok s
fix_optional_ip x p key network (some ip) s = fix_ip x p key network ip s

unfoldable pub fix_nic : Ipv4 → Pool → String → Retained → AllocationNic → Fixed → Result Fixed
unfolding wanted_ip fix_optional_ip
fix_nic x p node_id retained nic s = do
  network ← find_network p.networks nic.network_id
  fix_optional_ip x p (nic_key node_id nic) network
      (wanted_ip nic network (retained_at retained nic.index)) s

unfoldable pub fix_nics :
    Ipv4 → Pool → String → Retained → List AllocationNic → Fixed → Result Fixed
fix_nics x p node_id retained [] s = ok s
fix_nics x p node_id retained (nic ∷ nics) s = do
  s₁ ← fix_nic x p node_id retained nic s
  fix_nics x p node_id retained nics s₁

-- `previous.get(vm.node_id, {})`, with the VMID and the NICs of it
unfoldable pub previous_of : List Assignment → String → Option Assignment
previous_of previous node_id = last_with (λ a. a.name == some node_id) previous

unfoldable pub wanted_id : AllocationVm → Option Assignment → Option ℕ
wanted_id vm old = elim vm.vm_id [
  | some id ↦ some id
  | none ↦ elim old [ none ↦ none | some a ↦ some a.vm_id ]
]

unfoldable pub nics_of : Option Assignment → List Nic
nics_of none = []
nics_of (some a) = a.nics

unfoldable pub fix_vm : Ipv4 → Pool → List Assignment → AllocationVm → Fixed → Result Fixed
unfolding previous_of wanted_id nics_of
fix_vm x p previous vm s = do
  let old = previous_of previous vm.node_id
  s₁ ← fix_optional_id p vm.node_id (wanted_id vm old) s
  retained ← retained_nics vm (nics_of old) p.networks
  fix_nics x p vm.node_id retained vm.nics s₁

unfoldable pub fix_vms : Ipv4 → Pool → List Assignment → List AllocationVm → Fixed → Result Fixed
fix_vms x p previous [] s = ok s
fix_vms x p previous (vm ∷ vms) s = do s₁ ← fix_vm x p previous vm s; fix_vms x p previous vms s₁
