-- ===== src/Allocations/Planning/Giving.antt =====
-- The second loop of `_plan` gives every VM and every NIC its fixed value or a free one.
use range42_backend_api.Prelude.{
  ℕ, zero, suc, ◌+◌, ◌≡◌, inl, inr, String, Bool, true, Option, none, some, List, [], ◌∷◌, map, All,
  arith, nat_eq, string_eq, Option-cases,
}
use mathlib.Core.Path.{subst}
use range42_backend_api.Prelude.Dict.{find_key, All-find_key}
use range42_backend_api.Prelude.Result.{Result, ok, ◌>>=◌, >>=-eq-ok}
use range42_backend_api.Allocations.{Nic, Assignment}
use range42_backend_api.Allocations.Request.{
  AllocationNetwork, AllocationNic, AllocationVm, AllocationRequest, Address, address_eq, Subnet,
  Ipv4,
}
use range42_backend_api.Allocations.Retained.{find_network}
use range42_backend_api.Allocations.Planning.{
  NicKey, nic_key_eq, nic_key, Pool, Fixed, address_at, parsed,
}
use range42_backend_api.Allocations.Planning.Assigning.{
  first_free, exhausted, id_is_free, ip_is_free, allocated_nic, Given, choose_id, choose_ip,
  give_id, give_ip, give_nic, give_nics, give_vms, sorted, addresses_of, row_ips,
}
use range42_backend_api.Allocations.Planning.Choices.{Gives, Gives-append}
use range42_backend_api.Allocations.Planning.Fixing.{allowed_id, allowed_ip, IsFixed, BridgedNics}
use range42_backend_api.Allocations.Planning.Keys.{node_ids, nic_keys, all_keys}

first_free-is_free :
    (free : ℕ → Bool) (left v w : ℕ) → first_free free left v ≡ some w → free w ≡ true
unfolding first_free
first_free-is_free free zero v w h = absurd (ground arith)
first_free-is_free free (suc left) v w h = ground (arith, first_free-is_free free left (v + 1) w)

exhausted-ok {ℓ} : {A : Type ℓ} (o : Option A) (a : A) → exhausted o ≡ ok a → o ≡ some a
unfolding exhausted
exhausted-ok none a h = absurd (ground arith)
exhausted-ok (some b) a h = ground arith

module _ (x : Ipv4) (payload : AllocationRequest) (p : Pool) (bridge_of : NicKey → String)
    (fixed : Fixed) (is_fixed : IsFixed p bridge_of fixed) where
  abbrev GivesIds : List ℕ → List String → List ℕ → List ℕ → Type 0
  GivesIds = Gives fixed.fixed_ids (allowed_id p)

  abbrev GivesIps : List Address → List NicKey → List Address → List Address → Type 0
  GivesIps = Gives fixed.fixed_ips (allowed_ip p)

  choose_id-is_free :
      (claimed : List ℕ) (v : ℕ)
      → choose_id payload p claimed ≡ ok v
      → id_is_free p claimed v ≡ true
  unfolding choose_id
  choose_id-is_free claimed v h =
      first_free-is_free (id_is_free p claimed) _ payload.vmid_start v (exhausted-ok _ v h)

  choose_ip-is_free :
      (network : AllocationNetwork) (subnet : Subnet) (claimed : List Address) (v : ℕ)
      → choose_ip x p network subnet claimed ≡ ok v
      → ip_is_free x p network claimed v ≡ true
  unfolding choose_ip
  choose_ip-is_free network subnet claimed v h =
      first_free-is_free (ip_is_free x p network claimed) _ (subnet.first + 1) v
        (exhausted-ok _ v h)

  give_id-Gives :
      (node_id : String) (claimed claimed' : List ℕ) (id : ℕ) (ks : List String) (vs c : List ℕ)
      → give_id payload p fixed node_id claimed ≡ ok (id, claimed')
      → GivesIds claimed' ks vs c
      → GivesIds claimed (node_id ∷ ks) (id ∷ vs) c
  unfolding give_id
  give_id-Gives node_id claimed claimed' id ks vs c e g =
      elim (Option-cases (find_key node_id fixed.fixed_ids)) [
        | inr (v, found) ↦
            let same : v ≡ id = ground arith in
            let kept : claimed' ≡ claimed = ground arith in
            Gives.fixed (ground arith) (subst (λ l. GivesIds l ks vs c) kept g)
        | inl free ↦
            let rest : ℕ → Result (ℕ × List ℕ) = λ v. ok (v, v ∷ claimed) in
            let e' : (choose_id payload p claimed >>= rest) ≡ ok (id, claimed') = ground arith in
            let (v, chosen, e₁) = >>=-eq-ok (choose_id payload p claimed) rest e' in
            let is_free = choose_id-is_free claimed v chosen in
            let same : v ≡ id = ground arith in
            let kept : claimed' ≡ id ∷ claimed = ground arith in
            Gives.fresh (ground arith) (ground arith) (subst (λ l. GivesIds l ks vs c) kept g)
      ]

  give_ip-Gives :
      (key : NicKey) (network : AllocationNetwork) (subnet : Subnet)
      (claimed claimed' : List Address) (ip : String) (ks : List NicKey) (vs c : List Address)
      → bridge_of key ≡ network.bridge
      → give_ip x p fixed key network subnet claimed ≡ ok (ip, claimed')
      → GivesIps claimed' ks vs c
      → GivesIps claimed (key ∷ ks) (address_at network ip ∷ vs) c
  unfolding give_ip
  give_ip-Gives key network subnet claimed claimed' ip ks vs c bridge e g =
      elim (Option-cases (find_key key fixed.fixed_ips)) [
        | inr (pair, found) ↦
            let on_bridge : bridge_of key ≡ pair.bridge =
              All-find_key (λ entry. bridge_of entry.0 ≡ entry.1.bridge) key fixed.fixed_ips pair
                is_fixed.bridges found in
            let same : pair ≡ address_at network ip = ground arith in
            let kept : claimed' ≡ claimed = ground arith in
            Gives.fixed (ground arith) (subst (λ l. GivesIps l ks vs c) kept g)
        | inl free ↦
            let rest : ℕ → Result (String × List Address) =
              λ v. ok (x.text v, address_at network (x.text v) ∷ claimed) in
            let e' : (choose_ip x p network subnet claimed >>= rest) ≡ ok (ip, claimed') =
              ground arith in
            let (v, chosen, e₁) = >>=-eq-ok (choose_ip x p network subnet claimed) rest e' in
            let is_free = choose_ip-is_free network subnet claimed v chosen in
            let same : x.text v ≡ ip = ground arith in
            let kept : claimed' ≡ address_at network ip ∷ claimed = ground arith in
            Gives.fresh (ground arith) (ground arith) (subst (λ l. GivesIps l ks vs c) kept g)
      ]

  give_nics-Gives :
      (node_id : String) (nics : List AllocationNic) (claimed : List Address)
      (r : List Nic × List Address)
      → BridgedNics p bridge_of node_id nics
      → give_nics x p fixed node_id nics claimed ≡ ok r
      → GivesIps claimed (nic_keys node_id nics) (addresses_of r.0) r.1
  unfolding give_nics give_nic addresses_of nic_keys BridgedNics
  give_nics-Gives node_id [] claimed r b e =
      let same : ([], claimed) ≡ r = ground arith in
      subst (λ (q : List Nic × List Address). GivesIps claimed [] (addresses_of q.0) q.1) same
        Gives.done
  give_nics-Gives node_id (nic ∷ nics) claimed r (bridged, b) e =
      let (first, e₁, e₂) = >>=-eq-ok (give_nic x p fixed node_id nic claimed) _ e in
      let (later, e₃, e₄) = >>=-eq-ok (give_nics x p fixed node_id nics first.1) _ e₂ in
      let (network, found, e₅) = >>=-eq-ok (find_network p.networks nic.network_id) _ e₁ in
      let (subnet, _, e₆) = >>=-eq-ok (parsed (x.network network.subnet)) _ e₅ in
      let (ip, given, e₇) =
        >>=-eq-ok (give_ip x p fixed (nic_key node_id nic) network subnet claimed) _ e₆ in
      let same : (first.0 ∷ later.0, later.1) ≡ r = ground arith in
      let is_first : (allocated_nic nic network ip.0, ip.1) ≡ first = ground arith in
      let rest = give_nics-Gives node_id nics first.1 later b e₃ in
      let kept : first.1 ≡ ip.1 = ground arith in
      let whole =
        give_ip-Gives (nic_key node_id nic) network subnet claimed ip.1 ip.0 (nic_keys node_id nics)
          (addresses_of later.0) later.1 (bridged network found) given
          (subst (λ l. GivesIps l (nic_keys node_id nics) (addresses_of later.0) later.1) kept
            rest) in
      subst
        (λ (q : List Nic × List Address).
          GivesIps claimed (nic_keys node_id (nic ∷ nics)) (addresses_of q.0) q.1)
        same
        (subst
          (λ (q : Nic × List Address).
            GivesIps claimed (nic_keys node_id (nic ∷ nics)) (addresses_of (q.0 ∷ later.0)) later.1)
          is_first whole)

  -- What the loop makes of the VMs.
  pub record Assigned (vms : List AllocationVm) (ids : List ℕ) (ips : List Address)
      (out : List Assignment) : Type 0 where
    pub ids' : List ℕ
    pub ips' : List Address
    pub given_ids : GivesIds ids (node_ids vms) (map (λ (a : Assignment). a.vm_id) out) ids'
    pub given_ips : GivesIps ips (all_keys vms) (row_ips out) ips'

  pub give_vms-Assigned :
      (vms : List AllocationVm) (ids : List ℕ) (ips : List Address) (r : Given)
      → All (λ vm. BridgedNics p bridge_of vm.node_id (sorted vm.nics)) vms
      → give_vms x payload p fixed vms ids ips ≡ ok r
      → Assigned vms ids ips r.0
  unfolding give_vms row_ips all_keys
  give_vms-Assigned [] ids ips r b e =
      let same : ([], (ids, ips)) ≡ r = ground arith in
      subst (λ (q : Given). Assigned [] ids ips q.0) same
        (record { ids' = ids; ips' = ips; given_ids = Gives.done; given_ips = Gives.done })
  give_vms-Assigned (vm ∷ vms) ids ips r (bridged, b) e =
      let (id, e₁, e₂) = >>=-eq-ok (give_id payload p fixed vm.node_id ids) _ e in
      let (nics, e₃, e₄) = >>=-eq-ok (give_nics x p fixed vm.node_id (sorted vm.nics) ips) _ e₂ in
      let (later, e₅, e₆) = >>=-eq-ok (give_vms x payload p fixed vms id.1 nics.1) _ e₄ in
      let rest = give_vms-Assigned vms id.1 nics.1 later b e₅ in
      let same : (record { vm_id = id.0; name = some vm.node_id; nics = nics.0 } ∷ later.0, later.1)
          ≡ r =
        ground arith in
      subst (λ (q : Given). Assigned (vm ∷ vms) ids ips q.0) same
        (record {
          ids' = rest.ids';
          ips' = rest.ips';
          given_ids =
              give_id-Gives vm.node_id ids id.1 id.0 (node_ids vms)
                (map (λ (a : Assignment). a.vm_id) later.0) rest.ids' e₁ rest.given_ids;
          given_ips =
              Gives-append fixed.fixed_ips (allowed_ip p)
                (give_nics-Gives vm.node_id (sorted vm.nics) ips nics bridged e₃) rest.given_ips;
        })
