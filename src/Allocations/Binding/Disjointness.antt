-- ===== src/Allocations/Binding/Disjointness.antt =====
-- Claims and live leases never share a VMID or an address.
use range42_backend_api.Prelude.{
  ℕ, String, ◌≡◌, ◌≢◌, ◌⊎◌, sym, ap, ◌∙◌, inl, inr, Bool, true, false, not, ◌&&◌, Option, none,
  some, List, ◌∷◌, string_eq, Option-cases, arith,
}
use range42_backend_api.Prelude.Table.{get, get-cons, key-get}
use range42_backend_api.Prelude.Result.{
  Result, ◌>>◌, ok, error, raise_if, raise_if-eq-ok, >>=-eq-ok,
}
use mathlib.Core.Path.{subst}
use range42_backend_api.Models.{Deployment}
use range42_backend_api.Allocations.{
  Assignment, AllocationReservation, DeploymentAllocation, TargetHost, Ledger, Codec, reservation?,
  claim?, overlaps, validate_binding,
}
use range42_backend_api.Allocations.Overlaps.{overlaps_comm, any-get}
use range42_backend_api.Allocations.Documents.{same_assignments}
use range42_backend_api.Allocations.Binding.{live, is_lease, is_occupied, consume, bind}
use range42_backend_api.Allocations.Binding.Agreement.{
  IsBound, validate_binding-IsBound, same_assignments-eq,
}
use range42_backend_api.Allocations.Binding.Vacancy.{IsFresh, Claimed-IsFresh}
use range42_backend_api.Allocations.Binding.Claiming.{
  AreApart, Claimed, consume-keeps, consume-others, claim_fresh-Claimed,
}

module _ (now : ℕ) (l : Ledger) (assignments : List Assignment)
    (lease : Option AllocationReservation)
    (free : is_occupied now l assignments lease ≡ false) where
  free-claims :
      (k : String) (b : DeploymentAllocation)
      → claim? l k ≡ some b
      → overlaps assignments b.assignments ≡ false
  unfolding is_occupied
  free-claims k b e =
      any-get (λ c. c.id) (λ c. overlaps assignments c.assignments) k l.claims b (ground arith) e

  not_taken : AllocationReservation → Bool
  not_taken r = live now r && not (is_lease lease r) && overlaps assignments r.assignments

  free-leases :
      (k : String) (r : AllocationReservation)
      → get (λ x. x.id) k (consume lease l.reservations) ≡ some r
      → live now r ≡ true
      → overlaps assignments r.assignments ≡ false
  unfolding is_occupied not_taken
  free-leases k r e alive =
      let kept = consume-keeps lease l.reservations k r e in
      let other =
        consume-others lease l.reservations k r e
          (key-get (λ (x : AllocationReservation). x.id) k l.reservations r kept) in
      let quiet : not_taken r ≡ false =
        any-get (λ x. x.id) not_taken k l.reservations r (ground arith) kept in
      ground arith

  -- The tables with the new claim.
  after_claim : DeploymentAllocation → Ledger
  after_claim claim = record {
    reservations = consume lease l.reservations;
    claims = claim ∷ l.claims;
  }

  claims-after_claim :
      (claim : DeploymentAllocation)
      → claim.assignments ≡ assignments
      → AreApart now l
      → (j k : String) (a b : DeploymentAllocation) → claim? (after_claim claim) j ≡ some a
      → claim? (after_claim claim) k ≡ some b
      → j ≢ k
      → overlaps a.assignments b.assignments ≡ false
  unfolding after_claim
  claims-after_claim claim same apart j k a b ea eb differ = ground (
    arith,
    get-cons (λ (c : DeploymentAllocation). c.id) j claim l.claims,
    get-cons (λ (c : DeploymentAllocation). c.id) k claim l.claims,
    free-claims k b,
    free-claims j a,
    overlaps_comm assignments a.assignments,
    apart.claims j k a b,
  )

  mixed-after_claim :
      (claim : DeploymentAllocation)
      → claim.assignments ≡ assignments
      → AreApart now l
      → (j k : String) (a : DeploymentAllocation) (r : AllocationReservation)
      → claim? (after_claim claim) j ≡ some a
      → reservation? (after_claim claim) k ≡ some r
      → live now r ≡ true
      → overlaps a.assignments r.assignments ≡ false
  unfolding after_claim
  mixed-after_claim claim same apart j k a r ea er alive =
      let kept = consume-keeps lease l.reservations k r er in
      let others = apart.mixed j k a r in
      ground (
        arith,
        get-cons (λ (c : DeploymentAllocation). c.id) j claim l.claims,
        free-leases k r er,
        others,
      )

  AreApart-after_claim :
      (claim : DeploymentAllocation)
      → claim.assignments ≡ assignments
      → AreApart now l
      → AreApart now (after_claim claim)
  unfolding after_claim
  AreApart-after_claim claim same apart = record {
    claims = claims-after_claim claim same apart;
    mixed = mixed-after_claim claim same apart;
    leases = λ j k r s er es.
        apart.leases j k r s (consume-keeps lease l.reservations j r er)
          (consume-keeps lease l.reservations k s es);
  }

fresh-AreApart :
    (x : Codec) (now : ℕ) (id : String) (l l' : Ledger) (dep : Deployment) (host : TargetHost)
    (assignments : List Assignment) (claim : DeploymentAllocation)
    → Claimed x now id l dep host assignments claim l'
    → AreApart now l
    → AreApart now l'
unfolding after_claim
fresh-AreApart x now id l l' dep host assignments claim c apart =
    subst (AreApart now) (sym c.after) (
      AreApart-after_claim now l assignments c.lease c.free claim (ap (λ y. y.assignments) c.is_new)
        apart)

-- The answer of `bind` for a saved claim.
abbrev reuse :
    Ledger
    → Deployment
    → TargetHost
    → List Assignment
    → DeploymentAllocation
    → Result (DeploymentAllocation × Ledger)
reuse l dep host assignments existing = do
  validate_binding existing dep (some host)
  raise_if (not (same_assignments existing.assignments assignments))
      (error 409 "ALLOCATION_MAPPING_CHANGED")
  ok (existing, l)

existing-IsBound :
    (l l' : Ledger) (dep : Deployment) (host : TargetHost) (assignments : List Assignment)
    (claim existing : DeploymentAllocation)
    → get (λ c. c.deployment_id) dep.id l.claims ≡ some existing
    → reuse l dep host assignments existing ≡ ok (claim, l')
    → (get (λ c. c.deployment_id) dep.id l.claims ≡ some claim)
      × IsBound claim dep host
      × (claim.assignments ≡ assignments)
      × (l' ≡ l)
existing-IsBound l l' dep host assignments claim existing e h =
    let refusal = error 409 "ALLOCATION_MAPPING_CHANGED" in
    let differ = not (same_assignments existing.assignments assignments) in
    let (_, v, h₁) = >>=-eq-ok (validate_binding existing dep (some host)) _ h in
    let (_, s, h₂) = >>=-eq-ok (raise_if differ refusal) _ h₁ in
    let same : existing ≡ claim = ground arith in
    (
      e ∙ ap some same,
      subst (λ c. IsBound c dep host) same (validate_binding-IsBound existing dep host v),
      subst (λ c. c.assignments ≡ assignments) same
          (same_assignments-eq existing.assignments assignments
            (ground (arith, raise_if-eq-ok differ refusal s))),
      ground arith,
    )

-- If different rows have no VMID and no address in common, expired leases aside, then so it is
-- after a binding that succeeds, with or without the transfer of a draft.
pub bind-AreApart :
    (x : Codec) (now : ℕ) (id : String) (l l' : Ledger) (dep : Deployment) (host : TargetHost)
    (assignments : List Assignment) (reservation_id token : Option String)
    (claim : DeploymentAllocation)
    → bind x now id l dep host assignments reservation_id token ≡ ok (claim, l')
    → AreApart now l
    → AreApart now l'
unfolding bind
bind-AreApart x now id l l' dep host assignments reservation_id token claim h apart =
    elim (Option-cases (get (λ (c : DeploymentAllocation). c.deployment_id) dep.id l.claims)) [
      | inl e ↦
          fresh-AreApart x now id l l' dep host assignments claim
            (claim_fresh-Claimed x now id l dep host assignments claim l' reservation_id token
              (ground arith)).0
            apart
      | inr (existing, e) ↦ subst (AreApart now) (ground arith) apart
    ]

-- A binding that succeeds returns the saved claim of the deployment, for the host and revision of
-- the deployment, the address and node of the host and the very assignments asked for, and changes
-- nothing; or the deployment had no claim and has a new one now, without a protected VMID and
-- without a VMID or an address of another claim or live draft. The draft that it uses up, if any, is
-- the stored one asked for, live and for the same host.
pub bind-Claimed :
    (x : Codec) (now : ℕ) (id : String) (l l' : Ledger) (dep : Deployment) (host : TargetHost)
    (assignments : List Assignment) (reservation_id token : Option String)
    (claim : DeploymentAllocation)
    → bind x now id l dep host assignments reservation_id token ≡ ok (claim, l')
    → ((get (λ c. c.deployment_id) dep.id l.claims ≡ some claim)
        × IsBound claim dep host
        × (claim.assignments ≡ assignments)
        × (l' ≡ l))
      ⊎ ((get (λ c. c.deployment_id) dep.id l.claims ≡ none)
          × IsFresh x now id l dep host assignments reservation_id claim l')
unfolding bind
bind-Claimed x now id l l' dep host assignments reservation_id token claim h =
    elim (Option-cases (get (λ (c : DeploymentAllocation). c.deployment_id) dep.id l.claims)) [
      | inl e ↦
          let (made, drawn) =
            claim_fresh-Claimed x now id l dep host assignments claim l' reservation_id token
              (ground arith) in
          inr (
            e,
            Claimed-IsFresh x now l host assignments id dep reservation_id token claim l' made
                drawn,
          )
      | inr (existing, e) ↦
          inl (existing-IsBound l l' dep host assignments claim existing e (ground arith))
    ]
