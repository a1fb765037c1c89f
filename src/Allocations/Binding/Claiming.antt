-- ===== src/Allocations/Binding/Claiming.antt =====
-- Rows that are apart, what is left of them when a draft is used up, and a new claim.
use range42_backend_api.Prelude.{
  ℕ, String, ◌≡◌, ◌≢◌, refl, sym, ap, ◌∙◌, inl, inr, true, false, Option, none, some, List, ◌∷◌,
  any, string_eq, Bool-cases, arith,
}
use range42_backend_api.Prelude.Table.{get, get-delete}
use range42_backend_api.Prelude.Result.{ok, >>=-eq-ok}
use range42_backend_api.Models.{Deployment}
use range42_backend_api.Vmids.{Range, is_protected}
use range42_backend_api.Allocations.{
  Assignment, AllocationReservation, DeploymentAllocation, TargetHost, Ledger, Codec, reservation?,
  claim?, protected_ranges, overlaps,
}
use range42_backend_api.Allocations.Binding.{
  live, is_lease, is_occupied, new_claim, consume, settle, transfer, claim_fresh,
}

-- At time `now`, different rows of the two tables have no VMID and no address in common, expired
-- leases aside.
pub record AreApart (now : ℕ) (l : Ledger) : Type 0 where
  pub claims :
      (j k : String) (a b : DeploymentAllocation)
      → claim? l j ≡ some a
      → claim? l k ≡ some b
      → j ≢ k
      → overlaps a.assignments b.assignments ≡ false
  pub mixed :
      (j k : String) (a : DeploymentAllocation) (r : AllocationReservation)
      → claim? l j ≡ some a
      → reservation? l k ≡ some r
      → live now r ≡ true
      → overlaps a.assignments r.assignments ≡ false
  pub leases :
      (j k : String) (r s : AllocationReservation)
      → reservation? l j ≡ some r
      → reservation? l k ≡ some s
      → j ≢ k
      → live now r ≡ true
      → live now s ≡ true
      → overlaps r.assignments s.assignments ≡ false

-- A row that is left was there.
pub consume-keeps :
    (lease : Option AllocationReservation) (rows : List AllocationReservation) (k : String)
    (r : AllocationReservation)
    → get (λ x. x.id) k (consume lease rows) ≡ some r
    → get (λ x. x.id) k rows ≡ some r
unfolding consume
consume-keeps none rows k r e = e
consume-keeps (some lease) rows k r e =
    ground (arith, get-delete (λ (x : AllocationReservation). x.id) lease.id k rows)

pub consume-others :
    (lease : Option AllocationReservation) (rows : List AllocationReservation) (k : String)
    (r : AllocationReservation)
    → get (λ x. x.id) k (consume lease rows) ≡ some r
    → r.id ≡ k
    → is_lease lease r ≡ false
unfolding consume
consume-others none rows k r e same = refl
consume-others (some lease) rows k r e same =
    ground (arith, get-delete (λ (x : AllocationReservation). x.id) lease.id k rows)

-- A new claim: it is made of the arguments and of the draft that it uses up, none of its VMIDs is
-- protected, and nobody has its VMIDs or addresses.
pub record Claimed (x : Codec) (now : ℕ) (id : String) (l : Ledger) (dep : Deployment)
    (host : TargetHost) (assignments : List Assignment) (claim : DeploymentAllocation) (l' : Ledger)
    : Type 0 where
  pub lease : Option AllocationReservation
  pub ranges : List Range
  pub is_new : claim ≡ new_claim now id dep host assignments lease
  pub after : l' ≡ record { reservations = consume lease l.reservations; claims = claim ∷ l.claims }
  pub overrides : protected_ranges x host ≡ ok ranges
  pub unprotected : any (λ a. is_protected a.vm_id ranges) assignments ≡ false
  pub free : is_occupied now l assignments lease ≡ false

module _ (x : Codec) (now : ℕ) (id : String) (l : Ledger) (dep : Deployment) (host : TargetHost)
    (assignments : List Assignment) (claim : DeploymentAllocation) (l' : Ledger) where
  checked-Claimed :
      (lease : Option AllocationReservation) (ranges : List Range)
      → protected_ranges x host ≡ ok ranges
      → settle now id l dep host assignments lease ranges ≡ ok (claim, l')
      → (c : Claimed x now id l dep host assignments claim l') × (c.lease ≡ lease)
  unfolding settle
  checked-Claimed lease ranges e h =
      elim (Bool-cases (any (λ a. is_protected a.vm_id ranges) assignments)) [
        | inl p ↦ absurd (ground arith)
        | inr p ↦ elim (Bool-cases (is_occupied now l assignments lease)) [
          | inl q ↦ absurd (ground arith)
          | inr q ↦ (
            record {
              lease = lease;
              ranges = ranges;
              is_new = ground arith;
              after = ground arith;
              overrides = e;
              unprotected = p;
              free = q;
            },
            refl,
          )
        ]
      ]

  pub claim_fresh-Claimed :
      (reservation_id token : Option String)
      → claim_fresh x now id l dep host assignments reservation_id token ≡ ok (claim, l')
      → (c : Claimed x now id l dep host assignments claim l') × (transfer x now l host assignments
            reservation_id token
          ≡ ok c.lease)
  unfolding claim_fresh
  claim_fresh-Claimed reservation_id token h =
      let (lease, drawn, h₁) =
        >>=-eq-ok (transfer x now l host assignments reservation_id token) _ h in
      let (ranges, e, h₂) = >>=-eq-ok (protected_ranges x host) _ h₁ in
      let made = checked-Claimed lease ranges e h₂ in (made.0, drawn ∙ ap ok (sym made.1))
