-- ===== src/Allocations/Binding/Vacancy.antt =====
-- A new claim as the tables have it: no other row has its VMIDs or addresses, and the draft that it
-- uses up is the one asked for.
use range42_backend_api.Prelude.{
  ℕ, ◌≤◌, ◌+◌, ◌||◌, ◌≡◌, ◌≢◌, ◌⊎◌, inl, inr, refl, false, String, Option, none, some, List, [],
  ◌∷◌, any, All, leb, not, ◌!=◌, ◌==◌, ◌&&◌, Bool-cases, sym, ◌∙◌, string_eq, nat_eq, option_eq,
  arith,
}
use range42_backend_api.Prelude.Table.{key-get}
use range42_backend_api.Prelude.Result.{ok, error, raise_if, >>=-eq-ok}
use range42_backend_api.Models.{Deployment}
use range42_backend_api.Vmids.{Range, is_protected}
use range42_backend_api.Allocations.{
  Nic, Assignment, AllocationReservation, DeploymentAllocation, TargetHost, Ledger, Codec,
  reservation?, claim?, overlaps, same_vmid, share_address, same_address, protected_ranges,
  token_digest, ownership,
}
use range42_backend_api.Allocations.Overlaps.{any-get}
use range42_backend_api.Allocations.Documents.{same_mapping}
use range42_backend_api.Allocations.Binding.{
  live, is_lease, is_occupied, transfer, with_token, reviewed, given, new_claim, consume,
}
use range42_backend_api.Allocations.Binding.Claiming.{Claimed}

-- Different VMIDs, and no interface of one with bridge and address of one of the other.
abbrev pub AreDisjoint : List Assignment → List Assignment → Type 0
AreDisjoint xs ys =
    All
      (λ a.
        All
          (λ b.
            (a.vm_id ≢ b.vm_id)
            × All (λ n. All (λ m. (n.bridge ≢ m.bridge) ⊎ (n.ip ≢ m.ip)) b.nics) a.nics)
          ys)
      xs

addresses-apart :
    (n : Nic) (ms : List Nic)
    → any (same_address n) ms ≡ false
    → All (λ m. (n.bridge ≢ m.bridge) ⊎ (n.ip ≢ m.ip)) ms
unfolding same_address
addresses-apart n [] h = tt
addresses-apart n (m ∷ ms) h = (ground arith, addresses-apart n ms (ground arith))

nics-apart :
    (ns ms : List Nic)
    → any (λ n. any (same_address n) ms) ns ≡ false
    → All (λ n. All (λ m. (n.bridge ≢ m.bridge) ⊎ (n.ip ≢ m.ip)) ms) ns
nics-apart [] ms h = tt
nics-apart (n ∷ ns) ms h = (addresses-apart n ms (ground arith), nics-apart ns ms (ground arith))

one-apart :
    (a : Assignment) (ys : List Assignment)
    → any (same_vmid a) ys ≡ false
    → any (share_address a) ys ≡ false
    → All
        (λ b.
          (a.vm_id ≢ b.vm_id)
          × All (λ n. All (λ m. (n.bridge ≢ m.bridge) ⊎ (n.ip ≢ m.ip)) b.nics) a.nics)
        ys
unfolding same_vmid share_address
one-apart a [] h g = tt
one-apart a (b ∷ ys) h g = (
  (λ q. absurd (ground arith), nics-apart a.nics b.nics (ground arith)),
  one-apart a ys (ground arith) (ground arith),
)

each-apart :
    (xs ys : List Assignment)
    → any (λ a. any (same_vmid a) ys) xs ≡ false
    → any (λ a. any (share_address a) ys) xs ≡ false
    → AreDisjoint xs ys
each-apart [] ys h g = tt
each-apart (a ∷ xs) ys h g =
    (one-apart a ys (ground arith) (ground arith), each-apart xs ys (ground arith) (ground arith))

overlaps-AreDisjoint : (xs ys : List Assignment) → overlaps xs ys ≡ false → AreDisjoint xs ys
unfolding overlaps
overlaps-AreDisjoint xs ys h = each-apart xs ys (ground arith) (ground arith)

-- The draft that a binding uses up: none, or the stored one of the given number, not expired and
-- for the same host, address and node.
abbrev pub IsDrawn : ℕ → Ledger → TargetHost → Option String → Option AllocationReservation → Type 0
IsDrawn now l host reservation_id lease =
    (lease ≡ none)
    ⊎ ((k : String) × (row : AllocationReservation) × (reservation_id ≡ some k)
        × (lease ≡ some row)
        × (reservation? l k ≡ some row)
        × (now + 1 ≤ row.expires_at)
        × (row.host_id ≡ host.id)
        × (row.api_url ≡ some host.api_url)
        × (row.node_name ≡ host.node_name))

-- A new claim: made of the arguments and the draft, on VMIDs that are not protected, apart from all
-- claims and from all live drafts but the one that it uses up.
pub record IsFresh (x : Codec) (now : ℕ) (id : String) (l : Ledger) (dep : Deployment)
    (host : TargetHost) (assignments : List Assignment) (reservation_id : Option String)
    (claim : DeploymentAllocation) (l' : Ledger) : Type 0 where
  pub lease : Option AllocationReservation
  pub ranges : List Range
  pub drawn : IsDrawn now l host reservation_id lease
  pub is_new : claim ≡ new_claim now id dep host assignments lease
  pub after : l' ≡ record { reservations = consume lease l.reservations; claims = claim ∷ l.claims }
  pub overrides : protected_ranges x host ≡ ok ranges
  pub unprotected : All (λ a. is_protected a.vm_id ranges ≡ false) assignments
  pub off_claims :
      (k : String) (c : DeploymentAllocation)
      → claim? l k ≡ some c
      → AreDisjoint assignments c.assignments
  pub off_drafts :
      (k : String) (r : AllocationReservation)
      → reservation? l k ≡ some r
      → now + 1 ≤ r.expires_at
      → ((row : AllocationReservation) → lease ≡ some row → k ≢ row.id)
      → AreDisjoint assignments r.assignments

any-unprotected :
    (ranges : List Range) (xs : List Assignment)
    → any (λ a. is_protected a.vm_id ranges) xs ≡ false
    → All (λ a. is_protected a.vm_id ranges ≡ false) xs
any-unprotected ranges [] h = tt
any-unprotected ranges (a ∷ xs) h = (ground arith, any-unprotected ranges xs (ground arith))

other-is_lease :
    (lease : Option AllocationReservation) (r : AllocationReservation)
    → ((row : AllocationReservation) → lease ≡ some row → r.id ≢ row.id)
    → is_lease lease r ≡ false
other-is_lease none r h = refl
other-is_lease (some row) r h = ground (arith, h row refl)

module _ (x : Codec) (now : ℕ) (l : Ledger) (host : TargetHost)
    (assignments : List Assignment) where
  reviewed-IsDrawn :
      (k token : String) (stored lease : Option AllocationReservation)
      → reservation? l k ≡ stored
      → reviewed x now host assignments token stored ≡ ok lease
      → IsDrawn now l host (some k) lease
  unfolding reviewed ownership
  reviewed-IsDrawn k token none lease e h = absurd (ground arith)
  reviewed-IsDrawn k token (some row) lease e h =
      let (_, fresh, h₁) =
        >>=-eq-ok (raise_if (leb row.expires_at now) (error 409 "ALLOCATION_EXPIRED")) _ h in
      let (digest, _, h₂) = >>=-eq-ok (token_digest x token) _ h₁ in
      let (_, own, h₃) = >>=-eq-ok (ownership row digest host.id) _ h₂ in
      let (_, target, h₄) =
        >>=-eq-ok
          (raise_if (row.api_url != some host.api_url || row.node_name != host.node_name)
            (error 409 "ALLOCATION_TARGET_CHANGED"))
          _ h₃ in
      let (_, _, h₅) =
        >>=-eq-ok
          (raise_if (not (same_mapping row.assignments assignments))
            (error 409 "ALLOCATION_MAPPING_CHANGED"))
          _ h₄ in
      inr (k, row, refl, ground arith, e, ground arith, ground arith, ground arith, ground arith)

  with_token-IsDrawn :
      (k : String) (token : Option String) (lease : Option AllocationReservation)
      → with_token x now l host assignments k token ≡ ok lease
      → IsDrawn now l host (some k) lease
  unfolding with_token
  with_token-IsDrawn k none lease h = absurd (ground arith)
  with_token-IsDrawn k (some token) lease h =
      reviewed-IsDrawn k token (reservation? l k) lease refl h

  pub transfer-IsDrawn :
      (reservation_id token : Option String) (lease : Option AllocationReservation)
      → transfer x now l host assignments reservation_id token ≡ ok lease
      → IsDrawn now l host reservation_id lease
  unfolding transfer
  transfer-IsDrawn none token lease h = inl (ground arith)
  transfer-IsDrawn (some k) token lease h = elim (Bool-cases (k == "")) [
    | inl e ↦ inl (ground arith)
    | inr e ↦ with_token-IsDrawn k (given token) lease (ground arith)
  ]

  module _ (id : String) (dep : Deployment) (reservation_id token : Option String)
      (claim : DeploymentAllocation) (l' : Ledger) where
    pub Claimed-IsFresh :
        (c : Claimed x now id l dep host assignments claim l')
        → transfer x now l host assignments reservation_id token ≡ ok c.lease
        → IsFresh x now id l dep host assignments reservation_id claim l'
    unfolding is_occupied
    Claimed-IsFresh c e = record {
      lease = c.lease;
      ranges = c.ranges;
      drawn = transfer-IsDrawn reservation_id token c.lease e;
      is_new = c.is_new;
      after = c.after;
      overrides = c.overrides;
      unprotected = any-unprotected c.ranges assignments c.unprotected;
      off_claims = λ k b found. overlaps-AreDisjoint assignments b.assignments (
          any-get (λ y. y.id) (λ y. overlaps assignments y.assignments) k l.claims b
            (ground (arith, c.free)) found);
      off_drafts = λ k r found alive other.
          let same = key-get (λ (y : AllocationReservation). y.id) k l.reservations r found in
          let differs = other-is_lease c.lease r (λ row q w. other row q (sym same ∙ w)) in
          let quiet =
            any-get (λ y. y.id)
              (λ y. live now y && not (is_lease c.lease y) && overlaps assignments y.assignments) k
              l.reservations r (ground (arith, c.free)) found in
          overlaps-AreDisjoint assignments r.assignments (ground arith);
    }
