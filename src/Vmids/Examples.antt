-- ===== src/Vmids/Examples.antt =====
-- The guard and the scan on small inputs.
use mathlib.Core.List.{Perm}
use range42_backend_api.Prelude.{
  ℕ, ◌≡◌, refl, true, false, none, some, List, [], ◌∷◌, ◌++◌, nat_eq, length, All, ltb,
  if◌then◌else◌,
}
use range42_backend_api.Vmids.{
  default_protected_ranges, effective_ranges, assert_vmid_safe, filter_safe_vmids, is_protected,
  allocate_vmids,
}
use range42_backend_api.Vmids.Guard.{refused, filter_safe_vmids-Sorts}
use range42_backend_api.Vmids.Scan.{take, candidates, allocate_vmids-eq-take}

guard : Unit {0}
unfolding filter_safe_vmids assert_vmid_safe effective_ranges default_protected_ranges is_protected
    allocate_vmids nat_eq
guard = tt

sorted_batch :
    filter_safe_vmids (99 ∷ 100 ∷ 2000 ∷ 3005 ∷ []) (some ((3000 ∷ 3010 ∷ []) ∷ (5 ∷ []) ∷ []))
    ≡ (99 ∷ 2000 ∷ [], 100 ∷ 3005 ∷ [])
unfolding guard
sorted_batch = refl

-- A reserved VMID is passed over.
scan_skips : allocate_vmids 99990 3 (99991 ∷ []) [] ≡ some (99990 ∷ 99992 ∷ 99993 ∷ [])
unfolding guard
scan_skips = refl

scan_exhausted : allocate_vmids 99998 3 [] [] ≡ none
unfolding guard
scan_exhausted = refl

abbrev found : List ℕ
found = 99990 ∷ 99992 ∷ 99993 ∷ []

allocate_vmids-eq-take_example : allocate_vmids 99990 3 (99991 ∷ []) [] ≡ (
    if ltb (length (candidates 99990 (99991 ∷ []) [])) 3
    then none
    else some (take 3 (candidates 99990 (99991 ∷ []) [])))
allocate_vmids-eq-take_example = allocate_vmids-eq-take 99990 3 (99991 ∷ []) []

filter_safe_vmids-Sorts_example :
    All (λ v. refused none v ≡ false) (filter_safe_vmids (99 ∷ 100 ∷ []) none).0
    × All (λ v. refused none v ≡ true) (filter_safe_vmids (99 ∷ 100 ∷ []) none).1
    × Perm
        ((filter_safe_vmids (99 ∷ 100 ∷ []) none).0 ++ (filter_safe_vmids (99 ∷ 100 ∷ []) none).1)
        (99 ∷ 100 ∷ [])
filter_safe_vmids-Sorts_example = filter_safe_vmids-Sorts none (99 ∷ 100 ∷ [])
