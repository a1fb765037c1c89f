-- ===== src/Allocations/Binding/Agreement.antt =====
-- What the comparisons of `bind` with a saved claim amount to: equal assignments, and the claim of
-- the deployment's revision and host.
use range42_backend_api.Prelude.{
  ◌&&◌, ◌==◌, ◌≡◌, refl, true, Bool, some, List, [], ◌∷◌, string_eq, nat_eq, option_eq, arith,
}
use range42_backend_api.Prelude.Result.{ok}
use range42_backend_api.Models.{Deployment}
use range42_backend_api.Allocations.{
  Nic, Assignment, DeploymentAllocation, TargetHost, validate_binding,
}
use range42_backend_api.Allocations.Documents.{same_list, same_nic, same_assignments}

same_list-eq {ℓ} :
    {A : Type ℓ} (same : A → A → Bool)
    → ((x y : A) → same x y ≡ true → x ≡ y)
    → (xs ys : List A) → same_list same xs ys ≡ true
    → xs ≡ ys
same_list-eq same e [] [] h = refl
same_list-eq same e [] (y ∷ ys) h = absurd (ground arith)
same_list-eq same e (x ∷ xs) [] h = absurd (ground arith)
same_list-eq same e (x ∷ xs) (y ∷ ys) h =
    let first = e x y (ground arith) in
    let rest = same_list-eq same e xs ys (ground arith) in ground (arith, first, rest)

same_nic-eq : (a b : Nic) → same_nic a b ≡ true → a ≡ b
same_nic-eq a b h =
    let p : a.index ≡ b.index = ground arith in
    let q : a.bridge ≡ b.bridge = ground arith in
    let r : a.ip ≡ b.ip = ground arith in
    let s : a.nic_key ≡ b.nic_key = ground arith in
    let t : a.network_id ≡ b.network_id = ground arith in
    let u : a.subnet ≡ b.subnet = ground arith in
    λ i. record {
      index = p i;
      bridge = q i;
      ip = r i;
      nic_key = s i;
      network_id = t i;
      subnet = u i;
    }

same_assignment : Assignment → Assignment → Bool
same_assignment a b = a.vm_id == b.vm_id && a.name == b.name && same_list same_nic a.nics b.nics

same_assignment-eq : (a b : Assignment) → same_assignment a b ≡ true → a ≡ b
unfolding same_assignment
same_assignment-eq a b h =
    let p : a.vm_id ≡ b.vm_id = ground arith in
    let q : a.name ≡ b.name = ground arith in
    let r = same_list-eq same_nic same_nic-eq a.nics b.nics (ground arith) in
    λ i. record { vm_id = p i; name = q i; nics = r i }

pub same_assignments-eq : (xs ys : List Assignment) → same_assignments xs ys ≡ true → xs ≡ ys
unfolding same_assignments same_assignment
same_assignments-eq xs ys h = same_list-eq same_assignment same_assignment-eq xs ys h

-- The claim is for the deployment's revision and host, at the host's address and node.
pub record IsBound (claim : DeploymentAllocation) (dep : Deployment) (host : TargetHost)
    : Type 0 where
  pub same_host : claim.host_id ≡ dep.target_host_id
  pub same_url : claim.api_url ≡ host.api_url
  pub same_node : claim.node_name ≡ host.node_name
  pub same_sha : claim.project_sha ≡ dep.project_sha

pub validate_binding-IsBound :
    (claim : DeploymentAllocation) (dep : Deployment) (host : TargetHost)
    → validate_binding claim dep (some host) ≡ ok tt
    → IsBound claim dep host
unfolding validate_binding
validate_binding-IsBound claim dep host h = record {
  same_host = ground arith;
  same_url = ground arith;
  same_node = ground arith;
  same_sha = ground arith;
}
