-- ===== src/Allocations/Planning/Bridges.antt =====
-- In a coherent request the key of a NIC determines its bridge.
use range42_backend_api.Prelude.{
  ◌≡◌, refl, ap, ◌∙◌, String, true, Option, none, some, List, [], ◌∷◌, ◌++◌, All, arith, nat_eq,
  string_eq,
}
use mathlib.Core.Path.{subst, sym}
use range42_backend_api.Prelude.Dict.{find_key, keys, distinct, All-entries}
use range42_backend_api.Prelude.Result.{Result, ok, raise}
use range42_backend_api.Allocations.Request.{AllocationNetwork, AllocationNic, AllocationVm}
use range42_backend_api.Allocations.Retained.{find_network}
use range42_backend_api.Allocations.Planning.{NicKey, nic_key_eq, nic_key, Pool}
use range42_backend_api.Allocations.Planning.Assigning.{sorted}
use range42_backend_api.Allocations.Planning.Fixing.{BridgedNics, Bridged}
use range42_backend_api.Allocations.Planning.Keys.{
  nic_keys, all_keys, IsCoherent, distinct-all_keys, All-sorted,
}

abbrev bridge_or_empty : Result AllocationNetwork → String
bridge_or_empty (ok n) = n.bridge
bridge_or_empty (raise _) = ""

abbrev text_or_empty : Option String → String
text_or_empty none = ""
text_or_empty (some s) = s

module _ (p : Pool) where
  nic_entries : String → List AllocationNic → List (NicKey × String)
  nic_entries node_id [] = []
  nic_entries node_id (n ∷ ns) =
      (nic_key node_id n, bridge_or_empty (find_network p.networks n.network_id))
      ∷ nic_entries node_id ns

  pub all_entries : List AllocationVm → List (NicKey × String)
  unfolding nic_entries
  all_entries [] = []
  all_entries (vm ∷ vms) = nic_entries vm.node_id (sorted vm.nics) ++ all_entries vms

  keys-nic_entries :
      (node_id : String) (nics : List AllocationNic) (rest : List (NicKey × String))
      → keys (nic_entries node_id nics ++ rest) ≡ (nic_keys node_id nics ++ keys rest)
  unfolding nic_entries nic_keys
  keys-nic_entries node_id [] rest = refl
  keys-nic_entries node_id (n ∷ ns) rest =
      ap (λ ks. nic_key node_id n ∷ ks) (keys-nic_entries node_id ns rest)

  keys-all_entries : (vms : List AllocationVm) → keys (all_entries vms) ≡ all_keys vms
  unfolding all_entries all_keys
  keys-all_entries [] = refl
  keys-all_entries (vm ∷ vms) =
      keys-nic_entries vm.node_id (sorted vm.nics) (all_entries vms)
      ∙ ap (λ ks. nic_keys vm.node_id (sorted vm.nics) ++ ks) (keys-all_entries vms)

  module _ (whole : List (NicKey × String)) where
    -- What the key of a NIC is looked up as.
    unfoldable pub bridge_of : NicKey → String
    bridge_of k = text_or_empty (find_key k whole)

    abbrev Found : List (NicKey × String) → Type 0
    Found d = All (λ entry. find_key entry.0 whole ≡ some entry.1) d

    nics-Bridged :
        (node_id : String) (nics : List AllocationNic) (rest : List (NicKey × String))
        → Found (nic_entries node_id nics ++ rest)
        → BridgedNics p bridge_of node_id nics × Found rest
    unfolding nic_entries BridgedNics bridge_of
    nics-Bridged node_id [] rest h = (tt, h)
    nics-Bridged node_id (n ∷ ns) rest (found, h) =
        let (bridged, later) = nics-Bridged node_id ns rest h in
        ((λ network e. ground (arith, found), bridged), later)

    -- In the order of the second loop.
    unfoldable pub AllBridged : List AllocationVm → Type 0
    AllBridged vms = All (λ vm. BridgedNics p bridge_of vm.node_id (sorted vm.nics)) vms

    all-Bridged : (vms : List AllocationVm) → Found (all_entries vms) → AllBridged vms
    unfolding all_entries AllBridged
    all-Bridged [] h = tt
    all-Bridged (vm ∷ vms) h =
        let (bridged, later) = nics-Bridged vm.node_id (sorted vm.nics) (all_entries vms) h in
        (bridged, all-Bridged vms later)

    unsorted-Bridged : (vms : List AllocationVm) → AllBridged vms → Bridged p bridge_of vms
    unfolding AllBridged Bridged BridgedNics
    unsorted-Bridged [] h = tt
    unsorted-Bridged (vm ∷ vms) (b, h) = (All-sorted _ vm.nics b, unsorted-Bridged vms h)

  pub coherent-Bridged :
      (vms : List AllocationVm)
      → IsCoherent vms
      → AllBridged (all_entries vms) vms × Bridged p (bridge_of (all_entries vms)) vms
  coherent-Bridged vms h =
      let b = all-Bridged (all_entries vms) vms (
        All-entries (all_entries vms) (all_entries vms)
          (subst (λ ks. distinct ks ≡ true) (sym (keys-all_entries vms)) (distinct-all_keys vms h))
          (λ k a e. e)) in
      (b, unsorted-Bridged (all_entries vms) vms b)
