-- ===== src/Allocations/Planning/Assigning.antt =====
-- core/allocation_reservations.py, the second loop of `_plan`: what is not fixed is chosen, the
-- lowest free value first.
use range42_backend_api.Prelude.{
  ℕ, zero, suc, ◌+◌, ◌-◌, String, Bool, true, false, not, ◌&&◌, Option, none, some, List, [], ◌∷◌,
  ◌++◌, map, leb, contains, ◌==◌, nat_eq, string_eq, option_eq, if◌then◌else◌,
}
use range42_backend_api.Prelude.Dict.{find_key}
use range42_backend_api.Prelude.Result.{Result, ok, raise, error, ◌>>=◌}
use range42_backend_api.Vmids.{Range, is_protected}
use range42_backend_api.Allocations.{
  Nic, Assignment, AllocationReservation, TargetHost, Codec, protected_ranges,
}
use range42_backend_api.Allocations.Request.{
  AllocationNetwork, AllocationNic, AllocationVm, AllocationRequest, Address, address_eq, Subnet,
  Ipv4, host_count,
}
use range42_backend_api.Allocations.Retained.{find_network}
use range42_backend_api.Allocations.Planning.{
  NicKey, nic_key_eq, nic_key, Occupancy, Pool, Fixed, address_at, parsed, fix_vms,
}

-- The first of `left` numbers from `v` on that is free
unfoldable pub first_free : (ℕ → Bool) → ℕ → ℕ → Option ℕ
first_free free zero v = none
first_free free (suc left) v = elim (free v) [
  | true ↦ some v
  | false ↦ first_free free left (v + 1)
]

unfoldable pub exhausted {ℓ} : {A : Type ℓ} → Option A → Result A
exhausted none = raise (error 409 "ALLOCATION_POOL_EXHAUSTED")
exhausted (some a) = ok a

abbrev pub min : ℕ → ℕ → ℕ
min a b = if leb a b then a else b

abbrev pub id_is_free : Pool → List ℕ → ℕ → Bool
id_is_free p claimed_ids v =
    not (contains p.unavailable_ids v)
    && (not (contains claimed_ids v) && not (is_protected v p.overrides))

abbrev pub ip_is_free : Ipv4 → Pool → AllocationNetwork → List Address → ℕ → Bool
ip_is_free x p network claimed_ips v =
    not (contains p.unavailable_ips (address_at network (x.text v)))
    && not (contains claimed_ips (address_at network (x.text v)))

-- `range(vmid_start, min(vmid_end + 1, vmid_start + 100000))`
unfoldable pub choose_id : AllocationRequest → Pool → List ℕ → Result ℕ
choose_id payload p claimed_ids = exhausted (
    first_free (id_is_free p claimed_ids)
      (min (payload.vmid_end + 1) (payload.vmid_start + 100000) - payload.vmid_start)
      payload.vmid_start)

-- The first 4096 of `subnet.hosts()`
unfoldable pub choose_ip : Ipv4 → Pool → AllocationNetwork → Subnet → List Address → Result ℕ
choose_ip x p network subnet claimed_ips = exhausted (
    first_free (ip_is_free x p network claimed_ips) (min (host_count subnet) 4096)
      (subnet.first + 1))

-- The VMID of a VM, and what is claimed then.
unfoldable pub give_id : AllocationRequest → Pool → Fixed → String → List ℕ → Result (ℕ × List ℕ)
give_id payload p fixed node_id claimed_ids = elim (find_key node_id fixed.fixed_ids) [
  | some id ↦ ok (id, claimed_ids)
  | none ↦ do id ← choose_id payload p claimed_ids; ok (id, id ∷ claimed_ids)
]

unfoldable pub give_ip :
    Ipv4
    → Pool
    → Fixed
    → NicKey
    → AllocationNetwork
    → Subnet
    → List Address
    → Result (String × List Address)
give_ip x p fixed key network subnet claimed_ips = elim (find_key key fixed.fixed_ips) [
  | some pair ↦ ok (pair.ip, claimed_ips)
  | none ↦ do
    address ← choose_ip x p network subnet claimed_ips
    ok (x.text address, address_at network (x.text address) ∷ claimed_ips)
]

abbrev pub allocated_nic : AllocationNic → AllocationNetwork → String → Nic
allocated_nic nic network ip = record {
  index = nic.index;
  bridge = network.bridge;
  ip = ip;
  nic_key = nic.nic_key;
  network_id = some network.network_id;
  subnet = some network.subnet;
}

unfoldable pub give_nic :
    Ipv4 → Pool → Fixed → String → AllocationNic → List Address → Result (Nic × List Address)
give_nic x p fixed node_id nic claimed_ips = do
  network ← find_network p.networks nic.network_id
  subnet ← parsed (x.network network.subnet)
  given ← give_ip x p fixed (nic_key node_id nic) network subnet claimed_ips
  ok (allocated_nic nic network given.0, given.1)

unfoldable pub give_nics :
    Ipv4
    → Pool
    → Fixed
    → String
    → List AllocationNic
    → List Address
    → Result (List Nic × List Address)
give_nics x p fixed node_id [] claimed_ips = ok ([], claimed_ips)
give_nics x p fixed node_id (nic ∷ nics) claimed_ips = do
  first ← give_nic x p fixed node_id nic claimed_ips
  later ← give_nics x p fixed node_id nics first.1
  ok (first.0 ∷ later.0, later.1)

-- `sorted(vm.nics, key=lambda item: item.index)`
unfoldable pub insert : AllocationNic → List AllocationNic → List AllocationNic
insert n [] = n ∷ []
insert n (m ∷ ms) = if leb n.index m.index then n ∷ m ∷ ms else m ∷ insert n ms

unfoldable pub sorted : List AllocationNic → List AllocationNic
sorted [] = []
sorted (n ∷ ns) = insert n (sorted ns)

-- What is claimed, and the assignments so far.
abbrev pub Given : Type 0
Given = List Assignment × (List ℕ × List Address)

unfoldable pub give_vms :
    Ipv4
    → AllocationRequest
    → Pool
    → Fixed
    → List AllocationVm
    → List ℕ
    → List Address
    → Result Given
give_vms x payload p fixed [] claimed_ids claimed_ips = ok ([], (claimed_ids, claimed_ips))
give_vms x payload p fixed (vm ∷ vms) claimed_ids claimed_ips = do
  id ← give_id payload p fixed vm.node_id claimed_ids
  nics ← give_nics x p fixed vm.node_id (sorted vm.nics) claimed_ips
  later ← give_vms x payload p fixed vms id.1 nics.1
  ok (record { vm_id = id.0; name = some vm.node_id; nics = nics.0 } ∷ later.0, later.1)

-- The addresses of an assignment, as pairs
unfoldable pub addresses_of : List Nic → List Address
addresses_of [] = []
addresses_of (n ∷ ns) = record { bridge = n.bridge; ip = n.ip } ∷ addresses_of ns

-- The assignments of the other rows
unfoldable pub others_ids : List (List Assignment) → List ℕ
others_ids [] = []
others_ids (row ∷ rows) = map (λ (a : Assignment). a.vm_id) row ++ others_ids rows

unfoldable pub row_ips : List Assignment → List Address
row_ips [] = []
row_ips (a ∷ rest) = addresses_of a.nics ++ row_ips rest

unfoldable pub others_ips : List (List Assignment) → List Address
others_ips [] = []
others_ips (row ∷ rows) = row_ips row ++ others_ips rows

-- `if network.gateway`: an empty text counts as absent.
gateway_ips : AllocationNetwork → List Address
gateway_ips network = elim network.gateway [
  | none ↦ []
  | some ip ↦ if ip == "" then [] else address_at network ip ∷ []
]

unfoldable pub network_ips : List AllocationNetwork → List Address
unfolding gateway_ips
network_ips [] = []
network_ips (n ∷ ns) = map (address_at n) n.reserved_ips ++ gateway_ips n ++ network_ips ns

unfoldable pub pool_of : AllocationRequest → List Range → List (List Assignment) → Occupancy → Pool
pool_of payload overrides others occupancy = record {
  networks = payload.networks;
  overrides = overrides;
  unavailable_ids = occupancy.vmids ++ others_ids others;
  unavailable_ips = occupancy.addresses ++ others_ips others ++ network_ips payload.networks;
}

abbrev pub nothing_fixed : Fixed
nothing_fixed = record { fixed_ids = []; fixed_ips = []; claimed_ids = []; claimed_ips = [] }

abbrev pub previous_assignments : Option AllocationReservation → List Assignment
previous_assignments none = []
previous_assignments (some row) = row.assignments

-- `_plan`, where `others` are the assignments of the rows other than `current`
unfoldable pub plan :
    Codec
    → Ipv4
    → AllocationRequest
    → TargetHost
    → List (List Assignment)
    → Option AllocationReservation
    → Occupancy
    → Result (List Assignment)
plan codec x payload host others current occupancy = do
  overrides ← protected_ranges codec host
  let p = pool_of payload overrides others occupancy
  fixed ← fix_vms x p (previous_assignments current) payload.vms nothing_fixed
  given ← give_vms x payload p fixed payload.vms fixed.claimed_ids fixed.claimed_ips
  ok given.0
