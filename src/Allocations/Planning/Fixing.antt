-- ===== src/Allocations/Planning/Fixing.antt =====
-- What the first loop of `_plan` fixes is allowed and free, and no two values of it are equal.
use range42_backend_api.Prelude.{
  ℕ, ◌≡◌, String, Bool, not, ◌&&◌, ◌||◌, Option, none, some, List, [], ◌∷◌, contains, All, arith,
  nat_eq, string_eq,
}
use mathlib.Core.Path.{subst}
use range42_backend_api.Prelude.Result.{ok, raise_if, >>=-eq-ok, raise_if-eq-ok}
use range42_backend_api.Vmids.{is_protected}
use range42_backend_api.Allocations.{Assignment}
use range42_backend_api.Allocations.Request.{
  AllocationNetwork, AllocationNic, AllocationVm, Address, address_eq, Ipv4, is_usable,
}
use range42_backend_api.Allocations.Retained.{Retained, find_network, retained_nics}
use range42_backend_api.Allocations.Planning.{
  NicKey, nic_key_eq, nic_key, Pool, Fixed, address_at, parsed, with_id, with_ip, fix_id,
  fix_optional_id, fix_ip, fix_optional_ip, wanted_id, previous_of, nics_of, fix_nic, fix_nics,
  fix_vm, fix_vms,
}
use range42_backend_api.Allocations.Planning.Choices.{Held, Held-cons}

-- Not protected, and nobody has it.
abbrev pub allowed_id : Pool → ℕ → Bool
allowed_id p v = not (is_protected v p.overrides) && not (contains p.unavailable_ids v)

abbrev pub allowed_ip : Pool → Address → Bool
allowed_ip p a = not (contains p.unavailable_ips a)

module _ (p : Pool) (bridge_of : NicKey → String) where
  pub record IsFixed (s : Fixed) : Type 0 where
    pub ids : Held (allowed_id p) s.fixed_ids s.claimed_ids
    pub ips : Held (allowed_ip p) s.fixed_ips s.claimed_ips
    pub bridges : All (λ entry. bridge_of entry.0 ≡ entry.1.bridge) s.fixed_ips

  -- `bridge_of` reads the bridge of each NIC of the list.
  unfoldable pub BridgedNics : String → List AllocationNic → Type 0
  BridgedNics node_id nics =
      All
        (λ nic.
          (n : AllocationNetwork)
          → find_network p.networks nic.network_id ≡ ok n
          → bridge_of (nic_key node_id nic) ≡ n.bridge)
        nics

  unfoldable pub Bridged : List AllocationVm → Type 0
  unfolding BridgedNics
  Bridged vms = All (λ vm. BridgedNics vm.node_id vm.nics) vms

  module _ (x : Ipv4) where
    module _ (s s' : Fixed) where
      fix_id-IsFixed :
          (node_id : String) (id : ℕ) → fix_id p node_id id s ≡ ok s' → IsFixed s → IsFixed s'
      unfolding fix_id
      fix_id-IsFixed node_id id e h =
          let (_, e₁, e₂) = >>=-eq-ok (raise_if (is_protected id p.overrides) _) _ e in
          let (_, e₃, e₄) =
            >>=-eq-ok (raise_if (contains p.unavailable_ids id || contains s.claimed_ids id) _) _
              e₂ in
          let ok_id = raise_if-eq-ok _ _ e₁ in
          let free = raise_if-eq-ok _ _ e₃ in
          let same : with_id node_id id s ≡ s' = ground arith in
          subst IsFixed same (record {
            ids =
                Held-cons (allowed_id p) s.fixed_ids s.claimed_ids node_id id h.ids (ground arith)
                  (ground arith);
            ips = h.ips;
            bridges = h.bridges;
          })

      fix_ip-IsFixed :
          (key : NicKey) (network : AllocationNetwork) (ip : String)
          → bridge_of key ≡ network.bridge
          → fix_ip x p key network ip s ≡ ok s'
          → IsFixed s
          → IsFixed s'
      unfolding fix_ip
      fix_ip-IsFixed key network ip bridge e h =
          let pair = address_at network ip in
          let (subnet, _, e₁) = >>=-eq-ok (parsed (x.network network.subnet)) _ e in
          let (address, _, e₂) = >>=-eq-ok (parsed (x.address ip)) _ e₁ in
          let (_, _, e₃) = >>=-eq-ok (raise_if (not (is_usable subnet address)) _) _ e₂ in
          let (_, e₄, e₅) =
            >>=-eq-ok (raise_if (contains p.unavailable_ips pair || contains s.claimed_ips pair) _)
              _ e₃ in
          let free = raise_if-eq-ok _ _ e₄ in
          let same : with_ip key pair s ≡ s' = ground arith in
          subst IsFixed same (record {
            ids = h.ids;
            ips =
                Held-cons (allowed_ip p) s.fixed_ips s.claimed_ips key pair h.ips (ground arith)
                  (ground arith);
            bridges = (bridge, h.bridges);
          })

      fix_optional_id-IsFixed :
          (node_id : String) (wanted : Option ℕ)
          → fix_optional_id p node_id wanted s ≡ ok s'
          → IsFixed s
          → IsFixed s'
      unfolding fix_optional_id
      fix_optional_id-IsFixed node_id none e h = subst IsFixed (ground arith) h
      fix_optional_id-IsFixed node_id (some id) e h = fix_id-IsFixed node_id id e h

      fix_optional_ip-IsFixed :
          (key : NicKey) (network : AllocationNetwork) (wanted : Option String)
          → bridge_of key ≡ network.bridge
          → fix_optional_ip x p key network wanted s ≡ ok s'
          → IsFixed s
          → IsFixed s'
      unfolding fix_optional_ip
      fix_optional_ip-IsFixed key network none bridge e h = subst IsFixed (ground arith) h
      fix_optional_ip-IsFixed key network (some ip) bridge e h =
          fix_ip-IsFixed key network ip bridge e h

    fix_nics-IsFixed :
        (node_id : String) (retained : Retained) (nics : List AllocationNic) (s s' : Fixed)
        → BridgedNics node_id nics
        → fix_nics x p node_id retained nics s ≡ ok s'
        → IsFixed s
        → IsFixed s'
    unfolding fix_nics fix_nic BridgedNics
    fix_nics-IsFixed node_id retained [] s s' b e h = subst IsFixed (ground arith) h
    fix_nics-IsFixed node_id retained (nic ∷ nics) s s' b e h =
        let (s₁, e₁, e₂) = >>=-eq-ok (fix_nic x p node_id retained nic s) _ e in
        let (network, found, e₃) = >>=-eq-ok (find_network p.networks nic.network_id) _ e₁ in
        fix_nics-IsFixed node_id retained nics s₁ s' b.1 e₂
          (fix_optional_ip-IsFixed s s₁ (nic_key node_id nic) network _ (b.0 network found) e₃ h)

    pub fix_vms-IsFixed :
        (previous : List Assignment) (vms : List AllocationVm) (s s' : Fixed)
        → Bridged vms
        → fix_vms x p previous vms s ≡ ok s'
        → IsFixed s
        → IsFixed s'
    unfolding fix_vms fix_vm Bridged
    fix_vms-IsFixed previous [] s s' b e h = subst IsFixed (ground arith) h
    fix_vms-IsFixed previous (vm ∷ vms) s s' b e h =
        let old = previous_of previous vm.node_id in
        let (s₁, e₁, e₂) = >>=-eq-ok (fix_vm x p previous vm s) _ e in
        let (s₂, e₃, e₄) = >>=-eq-ok (fix_optional_id p vm.node_id (wanted_id vm old) s) _ e₁ in
        let (retained, _, e₅) = >>=-eq-ok (retained_nics vm (nics_of old) p.networks) _ e₄ in
        let h₂ = fix_optional_id-IsFixed s s₂ vm.node_id (wanted_id vm old) e₃ h in
        let h₁ = fix_nics-IsFixed vm.node_id retained vm.nics s₂ s₁ b.0 e₅ h₂ in
        fix_vms-IsFixed previous vms s₁ s' b.1 e₂ h₁
