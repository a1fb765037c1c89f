-- ===== src/Allocations/Planning/Keys.antt =====
-- The keys of the NICs of a request: each names one NIC, and so one bridge.
use range42_backend_api.Prelude.{
  ℕ, ◌≡◌, refl, String, true, false, ◌&&◌, List, [], ◌∷◌, ◌++◌, map, ◌==◌, contains, All, arith,
  ◌||◌, nat_eq, string_eq,
}
use range42_backend_api.Prelude.Dict.{distinct}
use range42_backend_api.Allocations.Request.{AllocationNic, AllocationVm}
use range42_backend_api.Allocations.Planning.{NicKey, nic_key_eq, nic_key}
use range42_backend_api.Allocations.Planning.Assigning.{insert, sorted}

abbrev pub indexes : List AllocationNic → List ℕ
indexes nics = map (λ (n : AllocationNic). n.index) nics

abbrev pub node_ids : List AllocationVm → List String
node_ids vms = map (λ (vm : AllocationVm). vm.node_id) vms

contains-insert :
    (n : AllocationNic) (ms : List AllocationNic) (i : ℕ)
    → contains (indexes (insert n ms)) i ≡ contains (indexes (n ∷ ms)) i
unfolding insert
contains-insert n [] i = refl
contains-insert n (m ∷ ms) i = ground (arith, contains-insert n ms i)

distinct-insert :
    (n : AllocationNic) (ms : List AllocationNic)
    → distinct (indexes (insert n ms)) ≡ distinct (indexes (n ∷ ms))
unfolding insert distinct
distinct-insert n [] = refl
distinct-insert n (m ∷ ms) = ground (arith, distinct-insert n ms, contains-insert n ms m.index)

contains-sorted :
    (ns : List AllocationNic) (i : ℕ) → contains (indexes (sorted ns)) i ≡ contains (indexes ns) i
unfolding sorted
contains-sorted [] i = refl
contains-sorted (n ∷ ns) i = ground (arith, contains-insert n (sorted ns) i, contains-sorted ns i)

-- Sorting keeps the indexes different.
pub distinct-sorted :
    (ns : List AllocationNic) → distinct (indexes (sorted ns)) ≡ distinct (indexes ns)
unfolding sorted distinct
distinct-sorted [] = refl
distinct-sorted (n ∷ ns) =
    ground (arith, distinct-insert n (sorted ns), contains-sorted ns n.index, distinct-sorted ns)

module _ (P : AllocationNic → Type 0) where
  All-insert : (n : AllocationNic) (ms : List AllocationNic) → All P (insert n ms) → P n × All P ms
  unfolding insert
  All-insert n [] h = h
  All-insert n (m ∷ ms) h = ground (arith, All-insert n ms)

  pub All-sorted : (ns : List AllocationNic) → All P (sorted ns) → All P ns
  unfolding sorted
  All-sorted [] h = tt
  All-sorted (n ∷ ns) h =
      let (first, rest) = All-insert n (sorted ns) h in (first, All-sorted ns rest)

-- The keys in the order of the second loop.
unfoldable pub nic_keys : String → List AllocationNic → List NicKey
nic_keys node_id nics = map (nic_key node_id) nics

unfoldable pub all_keys : List AllocationVm → List NicKey
all_keys [] = []
all_keys (vm ∷ vms) = nic_keys vm.node_id (sorted vm.nics) ++ all_keys vms

contains-nic_keys :
    (node_id other : String) (nics : List AllocationNic) (i : ℕ)
    → contains (nic_keys other nics) (record { node_id = node_id; index = i })
      ≡ (node_id == other && contains (indexes nics) i)
unfolding nic_keys
contains-nic_keys node_id other [] i = ground arith
contains-nic_keys node_id other (n ∷ ns) i = ground (arith, contains-nic_keys node_id other ns i)

contains-append :
    (xs ys : List NicKey) (a : NicKey) → contains (xs ++ ys) a ≡ (contains xs a || contains ys a)
contains-append [] ys a = refl
contains-append (x ∷ xs) ys a = ground (arith, contains-append xs ys a)

contains-all_keys :
    (vms : List AllocationVm) (k : NicKey)
    → contains (node_ids vms) k.node_id ≡ false
    → contains (all_keys vms) k ≡ false
unfolding all_keys
contains-all_keys [] k h = refl
contains-all_keys (vm ∷ vms) k h = ground (
  arith,
  contains-append (nic_keys vm.node_id (sorted vm.nics)) (all_keys vms) k,
  contains-nic_keys k.node_id vm.node_id (sorted vm.nics) k.index,
  contains-all_keys vms k,
)

distinct-append :
    (node_id : String) (nics : List AllocationNic) (ks : List NicKey)
    → distinct (indexes nics) ≡ true
    → ((i : ℕ) → contains ks (record { node_id = node_id; index = i }) ≡ false)
    → distinct ks ≡ true
    → distinct (nic_keys node_id nics ++ ks) ≡ true
unfolding nic_keys distinct
distinct-append node_id [] ks u apart v = v
distinct-append node_id (n ∷ ns) ks u apart v = ground (
  arith,
  distinct-append node_id ns ks,
  contains-append (nic_keys node_id ns) ks (nic_key node_id n),
  contains-nic_keys node_id node_id ns n.index,
  apart n.index,
)

-- What the validators of the schema ask of a request: node IDs that differ, and in each VM indexes
-- that differ.
unfoldable pub IsCoherent : List AllocationVm → Type 0
IsCoherent vms =
    (distinct (node_ids vms) ≡ true) × All (λ vm. distinct (indexes vm.nics) ≡ true) vms

pub distinct-all_keys : (vms : List AllocationVm) → IsCoherent vms → distinct (all_keys vms) ≡ true
unfolding all_keys distinct IsCoherent
distinct-all_keys [] h = refl
distinct-all_keys (vm ∷ vms) (u, (v, rest)) =
    distinct-append vm.node_id (sorted vm.nics) (all_keys vms)
      (ground (arith, distinct-sorted vm.nics))
      (λ i. contains-all_keys vms (record { node_id = vm.node_id; index = i }) (ground arith))
      (distinct-all_keys vms (ground arith, rest))
