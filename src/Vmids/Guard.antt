-- ===== src/Vmids/Guard.antt =====
-- The guard in front of destructive operations: what it refuses, and how it sorts a batch.
use mathlib.Core.List.{Perm, perm_middle}
use mathlib.Core.List.Perm
use range42_backend_api.Prelude.{
  ℕ, ◌≡◌, refl, Bool, true, false, Option, List, [], ◌∷◌, ◌++◌, arith, any, All, if◌then◌else◌,
}
use range42_backend_api.Prelude.Result.{ok, raise, error}
use range42_backend_api.Vmids.{
  Range, within, effective_ranges, assert_outside, assert_vmid_safe, sort_vmid, filter_safe_vmids,
}

assert_outside_iff :
    (v : ℕ) (rs : List Range)
    → assert_outside v rs
      ≡ (if any (within v) rs then raise (error 409 "VMID_PROTECTED") else ok tt)
unfolding assert_outside
assert_outside_iff v [] = refl
assert_outside_iff v (r ∷ rs) = ground (arith, assert_outside_iff v rs)

abbrev pub refused : Option (List (List ℕ)) → ℕ → Bool
refused host_overrides v = any (within v) (effective_ranges host_overrides)

assert_vmid_safe_lem :
    (v : ℕ) (host_overrides : Option (List (List ℕ)))
    → assert_vmid_safe v host_overrides
      ≡ (if refused host_overrides v then raise (error 409 "VMID_PROTECTED") else ok tt)
unfolding assert_vmid_safe
assert_vmid_safe_lem v host_overrides = assert_outside_iff v (effective_ranges host_overrides)

module _ (host_overrides : Option (List (List ℕ))) where
  abbrev Sorts : List ℕ → List ℕ × List ℕ → Type 0
  Sorts vmids (safe, blocked) =
      All (λ v. refused host_overrides v ≡ false) safe
      × All (λ v. refused host_overrides v ≡ true) blocked
      × Perm (safe ++ blocked) vmids

  Sorts-cons :
      (v : ℕ) (vmids : List ℕ) (p : List ℕ × List ℕ) (b : Bool)
      → refused host_overrides v ≡ b
      → Sorts vmids p
      → Sorts (v ∷ vmids) (sort_vmid (if b then raise (error 409 "VMID_PROTECTED") else ok tt) v p)
  unfolding sort_vmid
  Sorts-cons v vmids (safe, blocked) true e (s, b, m) =
      (s, (e, b), Perm.trans (perm_middle safe blocked) (Perm.cons v m))
  Sorts-cons v vmids (safe, blocked) false e (s, b, m) = ((e, s), b, Perm.cons v m)

  -- A batch is sorted into the VMIDs outside every effective protected range and those inside one,
  -- and each VMID of the batch is in exactly the list that the guard decides, as often as given.
  pub filter_safe_vmids-Sorts :
      (vmids : List ℕ)
      → All (λ v. refused host_overrides v ≡ false) (filter_safe_vmids vmids host_overrides).0
        × All (λ v. refused host_overrides v ≡ true) (filter_safe_vmids vmids host_overrides).1
        × Perm
            ((filter_safe_vmids vmids host_overrides).0
              ++ (filter_safe_vmids vmids host_overrides).1)
            vmids
  unfolding filter_safe_vmids
  filter_safe_vmids-Sorts [] = (tt, tt, Perm.refl [])
  filter_safe_vmids-Sorts (v ∷ vmids) = rw (assert_vmid_safe_lem v host_overrides) (
      Sorts-cons v vmids (filter_safe_vmids vmids host_overrides) (refused host_overrides v) refl
        (filter_safe_vmids-Sorts vmids))
