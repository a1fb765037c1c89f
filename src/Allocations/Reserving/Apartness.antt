-- ===== src/Allocations/Reserving/Apartness.antt =====
-- A lease that `reserve` saves shares nothing with the other rows.
use range42_backend_api.Prelude.{
  ℕ, ◌≡◌, refl, true, false, ◌||◌, List, [], ◌∷◌, ◌++◌, map, any, contains, arith, nat_eq,
  string_eq, Eq,
}
use range42_backend_api.Allocations.{
  Nic, Assignment, same_address, same_vmid, share_address, overlaps,
}
use range42_backend_api.Allocations.Request.{Address, address_eq}
use range42_backend_api.Allocations.Planning.Assigning.{
  addresses_of, row_ips, others_ids, others_ips,
}

module _ {A : Type 0} ⦃e : Eq A⦄ where
  -- No element of the first list is in the second.
  unfoldable pub Avoids : List A → List A → Type 0
  Avoids xs ys = (a : A) → contains xs a ≡ true → contains ys a ≡ false

  pub contains-append :
      (xs ys : List A) (a : A) → contains (xs ++ ys) a ≡ (contains xs a || contains ys a)
  contains-append [] ys a = refl
  contains-append (x ∷ xs) ys a = ground (arith, contains-append xs ys a)

abbrev vmids : List Assignment → List ℕ
vmids row = map (λ (a : Assignment). a.vm_id) row

same_vmid-contains :
    (a : Assignment) (row : List Assignment) → any (same_vmid a) row ≡ contains (vmids row) a.vm_id
unfolding same_vmid
same_vmid-contains a [] = refl
same_vmid-contains a (b ∷ row) = ground (arith, same_vmid-contains a row)

vmids-apart :
    (out row : List Assignment)
    → Avoids (vmids out) (vmids row)
    → any (λ a. any (same_vmid a) row) out ≡ false
unfolding Avoids
vmids-apart [] row h = refl
vmids-apart (a ∷ out) row h = ground (
  arith,
  same_vmid-contains a row,
  h a.vm_id,
  vmids-apart out row (λ v among. h v (ground arith)),
)

abbrev address_of : Nic → Address
address_of n = record { bridge = n.bridge; ip = n.ip }

same_address-contains :
    (n : Nic) (nics : List Nic)
    → any (same_address n) nics ≡ contains (addresses_of nics) (address_of n)
unfolding same_address addresses_of
same_address-contains n [] = refl
same_address-contains n (m ∷ nics) = ground (arith, same_address-contains n nics)

nics-apart :
    (nics others : List Nic)
    → Avoids (addresses_of nics) (addresses_of others)
    → any (λ n. any (same_address n) others) nics ≡ false
unfolding Avoids addresses_of
nics-apart [] others h = refl
nics-apart (n ∷ nics) others h = ground (
  arith,
  same_address-contains n others,
  h (address_of n),
  nics-apart nics others (λ a among. h a (ground arith)),
)

assignment-apart :
    (a : Assignment) (row : List Assignment)
    → Avoids (addresses_of a.nics) (row_ips row)
    → any (share_address a) row ≡ false
unfolding Avoids share_address row_ips
assignment-apart a [] h = refl
assignment-apart a (b ∷ row) h = ground (
  arith,
  nics-apart a.nics b.nics
      (λ n among. ground (arith, h n among, contains-append (addresses_of b.nics) (row_ips row) n)),
  assignment-apart a row
      (λ n among. ground (arith, h n among, contains-append (addresses_of b.nics) (row_ips row) n)),
)

addresses-apart :
    (out row : List Assignment)
    → Avoids (row_ips out) (row_ips row)
    → any (λ a. any (share_address a) row) out ≡ false
unfolding Avoids row_ips
addresses-apart [] row h = refl
addresses-apart (a ∷ out) row h = ground (
  arith,
  assignment-apart a row
      (λ n among. h n (ground (arith, contains-append (addresses_of a.nics) (row_ips out) n))),
  addresses-apart out row
      (λ n among. h n (ground (arith, contains-append (addresses_of a.nics) (row_ips out) n))),
)

-- A row that avoids the VMIDs and the addresses of other rows overlaps none of them.
pub others-apart :
    (out : List Assignment) (others : List (List Assignment))
    → Avoids (vmids out) (others_ids others)
    → Avoids (row_ips out) (others_ips others)
    → any (overlaps out) others ≡ false
unfolding Avoids others_ids others_ips overlaps
others-apart out [] h₁ h₂ = refl
others-apart out (row ∷ rows) h₁ h₂ = ground (
  arith,
  vmids-apart out row
      (λ v among. ground (arith, h₁ v among, contains-append (vmids row) (others_ids rows) v)),
  addresses-apart out row
      (λ a among. ground (arith, h₂ a among, contains-append (row_ips row) (others_ips rows) a)),
  others-apart out rows
      (λ v among. ground (arith, h₁ v among, contains-append (vmids row) (others_ids rows) v))
      (λ a among. ground (arith, h₂ a among, contains-append (row_ips row) (others_ips rows) a)),
)
