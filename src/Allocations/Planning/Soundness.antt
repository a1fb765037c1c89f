-- ===== src/Allocations/Planning/Soundness.antt =====
-- What `_plan` answers: values that are allowed, free and different from one another.
use range42_backend_api.Prelude.{
  ℕ, ◌≡◌, refl, String, true, Option, List, map, All, nat_eq, string_eq, arith,
}
use mathlib.Core.Path.{subst}
use range42_backend_api.Prelude.Dict.{distinct}
use range42_backend_api.Prelude.Result.{ok, >>=-eq-ok}
use range42_backend_api.Vmids.{Range}
use range42_backend_api.Allocations.{
  Assignment, AllocationReservation, TargetHost, Codec, protected_ranges,
}
use range42_backend_api.Allocations.Request.{AllocationRequest, address_eq, Ipv4}
use range42_backend_api.Allocations.Planning.{NicKey, nic_key_eq, Occupancy, Pool, Fixed, fix_vms}
use range42_backend_api.Allocations.Planning.Assigning.{
  Given, give_vms, row_ips, pool_of, nothing_fixed, previous_assignments, plan,
}
use range42_backend_api.Allocations.Planning.Choices.{Gives-distinct}
use range42_backend_api.Allocations.Planning.Fixing.{
  allowed_id, allowed_ip, IsFixed, fix_vms-IsFixed,
}
use range42_backend_api.Allocations.Planning.Keys.{IsCoherent, distinct-all_keys}
use range42_backend_api.Allocations.Planning.Bridges.{
  all_entries, bridge_of, AllBridged, coherent-Bridged,
}
use range42_backend_api.Allocations.Planning.Giving.{give_vms-Assigned}

abbrev vmids : List Assignment → List ℕ
vmids out = map (λ (a : Assignment). a.vm_id) out

abbrev AllowedIds : Pool → List Assignment → Type 0
AllowedIds p out = (distinct (vmids out) ≡ true) × All (λ v. allowed_id p v ≡ true) (vmids out)

abbrev AllowedIps : Pool → List Assignment → Type 0
AllowedIps p out = (distinct (row_ips out) ≡ true) × All (λ a. allowed_ip p a ≡ true) (row_ips out)

nothing-IsFixed : (p : Pool) (bridge_of : NicKey → String) → IsFixed p bridge_of nothing_fixed
unfolding distinct
nothing-IsFixed p bridge_of = record {
  ids = record { claimed_values = refl; is_distinct = refl; all_good = tt };
  ips = record { claimed_values = refl; is_distinct = refl; all_good = tt };
  bridges = tt;
}

module _ (x : Ipv4) (payload : AllocationRequest) (p : Pool) where
  loops-distinct :
      (previous : List Assignment) (fixed : Fixed) (given : Given)
      → IsCoherent payload.vms
      → fix_vms x p previous payload.vms nothing_fixed ≡ ok fixed
      → give_vms x payload p fixed payload.vms fixed.claimed_ids fixed.claimed_ips ≡ ok given
      → AllowedIds p given.0 × AllowedIps p given.0
  unfolding IsCoherent AllBridged
  loops-distinct previous fixed given coherent e₁ e₂ =
      let vms = payload.vms in
      let bridge = bridge_of p (all_entries p vms) in
      let (sorted_bridged, bridged) = coherent-Bridged p vms coherent in
      let f =
        fix_vms-IsFixed p bridge x previous vms nothing_fixed fixed bridged e₁
          (nothing-IsFixed p bridge) in
      let a = give_vms-Assigned x payload p bridge fixed f vms _ _ given sorted_bridged e₂ in
      (
        Gives-distinct fixed.fixed_ids (allowed_id p) fixed.claimed_ids f.ids a.given_ids
            coherent.0,
        Gives-distinct fixed.fixed_ips (allowed_ip p) fixed.claimed_ips f.ips a.given_ips
            (distinct-all_keys vms coherent),
      )

-- A plan for a coherent request has VMIDs that differ, are not protected, and are in use neither in
-- the inventory nor in another row; and pairs of a bridge and an address that differ and are in use
-- neither there nor as a gateway or a reserved address.
pub plan-distinct :
    (codec : Codec) (x : Ipv4) (payload : AllocationRequest) (host : TargetHost)
    (others : List (List Assignment)) (current : Option AllocationReservation)
    (occupancy : Occupancy) (out : List Assignment)
    → IsCoherent payload.vms
    → plan codec x payload host others current occupancy ≡ ok out
    → (ranges : List Range) × (protected_ranges codec host ≡ ok ranges)
      × (distinct (map (λ (a : Assignment). a.vm_id) out) ≡ true)
      × All
          (λ v. allowed_id (pool_of payload ranges others occupancy) v ≡ true)
          (map (λ (a : Assignment). a.vm_id) out)
      × (distinct (row_ips out) ≡ true)
      × All (λ a. allowed_ip (pool_of payload ranges others occupancy) a ≡ true) (row_ips out)
unfolding plan
plan-distinct codec x payload host others current occupancy out coherent e =
    let (ranges, e₁, e₂) = >>=-eq-ok (protected_ranges codec host) _ e in
    let p = pool_of payload ranges others occupancy in
    let previous = previous_assignments current in
    let (fixed, e₃, e₄) = >>=-eq-ok (fix_vms x p previous payload.vms nothing_fixed) _ e₂ in
    let (given, e₅, e₆) =
      >>=-eq-ok (give_vms x payload p fixed payload.vms fixed.claimed_ids fixed.claimed_ips) _ e₄ in
    let (ids, ips) = loops-distinct x payload p previous fixed given coherent e₃ e₅ in
    let same : given.0 ≡ out = ground arith in
    let (ids', ips') = subst (λ o. AllowedIds p o × AllowedIps p o) same (ids, ips) in
    (ranges, e₁, ids'.0, ids'.1, ips'.0, ips'.1)
