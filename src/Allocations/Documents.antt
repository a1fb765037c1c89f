-- ===== src/Allocations/Documents.antt =====
-- core/deployment_allocations.py: the comparisons of assignments, as documents and by `mapping`.
use range42_backend_api.Prelude.{
  Bool, true, false, ◌&&◌, Option, none, some, List, [], ◌∷◌, ◌==◌, nat_eq, string_eq, option_eq,
  if◌then◌else◌,
}
use range42_backend_api.Allocations.{Nic, Assignment}

-- Equality of two lists, and of two sorted lists, by a test of their elements. Two lists are equal
-- once sorted when they hold the same elements equally often.
abbrev pub same_list {ℓ} : {A : Type ℓ} → (A → A → Bool) → List A → List A → Bool
same_list same [] [] = true
same_list same [] (y ∷ ys) = false
same_list same (x ∷ xs) [] = false
same_list same (x ∷ xs) (y ∷ ys) = same x y && same_list same xs ys

abbrev without {ℓ} : {A : Type ℓ} → (A → Bool) → List A → Option (List A)
without p [] = none
without p (y ∷ ys) =
    let later = without p ys in
    if p y then some ys else elim later [ none ↦ none | some rest ↦ some (y ∷ rest) ]

abbrev pub same_sorted {ℓ} : {A : Type ℓ} → (A → A → Bool) → List A → List A → Bool
same_sorted same [] [] = true
same_sorted same [] (y ∷ ys) = false
same_sorted same (x ∷ xs) ys = elim (without (same x) ys) [
  | none ↦ false
  | some rest ↦ same_sorted same xs rest
]

-- `mapping`: the order of VMs and NICs does not matter, nor do names and networks.
abbrev same_address_of : Nic → Nic → Bool
same_address_of a b = a.index == b.index && a.bridge == b.bridge && a.ip == b.ip

unfoldable pub same_mapping : List Assignment → List Assignment → Bool
same_mapping = same_sorted (λ a b. a.vm_id == b.vm_id && same_sorted same_address_of a.nics b.nics)

-- `==` of two documents
abbrev pub same_nic : Nic → Nic → Bool
same_nic a b =
    same_address_of a b
    && a.nic_key == b.nic_key
    && a.network_id == b.network_id
    && a.subnet == b.subnet

unfoldable pub same_assignments : List Assignment → List Assignment → Bool
same_assignments =
    same_list (λ a b. a.vm_id == b.vm_id && a.name == b.name && same_list same_nic a.nics b.nics)
