-- ===== src/Allocations/Reserving/Disjointness.antt =====
-- A lease that `reserve` saves keeps the rows of the two tables apart.
use range42_backend_api.Prelude.{
  ℕ, ◌≡◌, refl, String, Bool, true, false, not, ◌&&◌, Option, none, some, List, [], ◌∷◌, ◌++◌, map,
  any, any-append, All, arith, nat_eq, string_eq,
}
use mathlib.Core.Path.{subst, sym}
use range42_backend_api.Prelude.Dict.{All-contains}
use range42_backend_api.Prelude.Table.{
  get, select, Unique, get-cons, get-select, any-select, key-get,
}
use range42_backend_api.Prelude.Result.{ok, >>=-eq-ok}
use range42_backend_api.Vmids.{Range}
use range42_backend_api.Allocations.{
  Assignment, AllocationReservation, DeploymentAllocation, TargetHost, Ledger, Codec, reservation?,
  overlaps,
}
use range42_backend_api.Allocations.Overlaps.{overlaps_comm, any-get}
use range42_backend_api.Allocations.Request.{AllocationRequest, address_eq, Ipv4}
use range42_backend_api.Allocations.Planning.{Occupancy}
use range42_backend_api.Allocations.Planning.Assigning.{
  pool_of, plan, row_ips, others_ids, others_ips, network_ips,
}
use range42_backend_api.Allocations.Planning.Fixing.{allowed_id, allowed_ip}
use range42_backend_api.Allocations.Planning.Keys.{IsCoherent}
use range42_backend_api.Allocations.Planning.Soundness.{plan-distinct}
use range42_backend_api.Allocations.Binding.{live, is_lease, consume}
use range42_backend_api.Allocations.Binding.Claiming.{AreApart, consume-keeps, consume-others}
use range42_backend_api.Allocations.Reserving.{
  Round, Outcome, row_of, check_current, check_host, others_of, pending, saved_row, conclude,
  transact,
}
use range42_backend_api.Allocations.Reserving.Apartness.{Avoids, contains-append, others-apart}

module _ {A B : Type 0} where
  any-map : (f : A → B) (p : B → Bool) (xs : List A) → any p (map f xs) ≡ any (λ x. p (f x)) xs
  any-map f p [] = refl
  any-map f p (x ∷ xs) = ground (arith, any-map f p xs)

module _ (payload : AllocationRequest) (ranges : List Range) (others : List (List Assignment))
    (occupancy : Occupancy) (out : List Assignment) where
  -- What is allowed in the pool of a plan overlaps no other row.
  allowed-apart :
      All
        (λ v. allowed_id (pool_of payload ranges others occupancy) v ≡ true)
        (map (λ (a : Assignment). a.vm_id) out)
      → All (λ a. allowed_ip (pool_of payload ranges others occupancy) a ≡ true) (row_ips out)
      → any (overlaps out) others ≡ false
  unfolding pool_of Avoids
  allowed-apart ids ips =
      others-apart out others
        (λ v among. ground (
          arith,
          All-contains _ _ v ids among,
          contains-append occupancy.vmids (others_ids others) v,
        ))
        (λ a among. ground (
          arith,
          All-contains _ _ a ips among,
          contains-append (occupancy.addresses ++ others_ips others) (network_ips payload.networks)
              a,
          contains-append occupancy.addresses (others_ips others) a,
        ))

assignments-saved_row :
    (payload : AllocationRequest) (host : TargetHost) (token_hash : String) (checked_at : ℕ)
    (round : Round) (current : Option AllocationReservation) (assignments : List Assignment)
    → (saved_row payload host token_hash checked_at round current assignments).assignments
      ≡ assignments
unfolding saved_row
assignments-saved_row payload host token_hash checked_at round none assignments = refl
assignments-saved_row payload host token_hash checked_at round (some row) assignments = refl

module _ (codec : Codec) (x : Ipv4) (payload : AllocationRequest) (host : TargetHost)
    (token_hash : String) (checked_at : ℕ) (occupancy : Occupancy) (checked_free : List ℕ)
    (round : Round) (row : AllocationReservation) (after : Ledger) where
  abbrev rows : List AllocationReservation
  rows = select (live round.now) round.tables.reservations

  abbrev current : Option AllocationReservation
  current = row_of payload.project_key rows

  -- What a transaction saves
  pub record Commit : Type 0 where
    pub is_planned :
        plan codec x payload host (others_of round.tables rows current) current occupancy
        ≡ ok row.assignments
    pub is_checked : pending checked_free (map (λ (a : Assignment). a.vm_id) row.assignments) ≡ []
    pub is_after : after ≡ record round.tables { reservations = row ∷ consume current rows }

  conclude-Commit :
      (assignments : List Assignment) (left : List ℕ)
      → plan codec x payload host (others_of round.tables rows current) current occupancy
        ≡ ok assignments
      → pending checked_free (map (λ (a : Assignment). a.vm_id) assignments) ≡ left
      → conclude codec x payload host token_hash checked_at round rows current assignments left
        ≡ Outcome.saved row after
      → Commit
  unfolding conclude
  conclude-Commit assignments (v ∷ vs) planned left e = absurd (ground arith)
  conclude-Commit assignments [] planned left e =
      let new = saved_row payload host token_hash checked_at round current assignments in
      let same : new ≡ row = ground arith in
      let kept : new.assignments ≡ assignments =
        assignments-saved_row payload host token_hash checked_at round current assignments in
      let named : assignments ≡ row.assignments = ground arith in
      record {
        is_planned = ground arith;
        is_checked =
            subst
              (λ (l : List Assignment).
                pending checked_free (map (λ (a : Assignment). a.vm_id) l) ≡ [])
              named left;
        is_after = ground arith;
      }

  pub transact-Commit :
      transact codec x payload host token_hash checked_at occupancy checked_free round
        ≡ ok (Outcome.saved row after)
      → Commit
  unfolding transact
  transact-Commit e =
      let (_, _, e₁) = >>=-eq-ok (check_current token_hash host rows current) _ e in
      let (_, _, e₂) = >>=-eq-ok (check_host host round.fresh_host) _ e₁ in
      let (assignments, planned, e₃) =
        >>=-eq-ok
          (plan codec x payload host (others_of round.tables rows current) current occupancy) _
          e₂ in
      conclude-Commit assignments _ planned refl (ground arith)

  module _ (c : Commit) (coherent : IsCoherent payload.vms) where
    others-Commit : any (overlaps row.assignments) (others_of round.tables rows current) ≡ false
    others-Commit =
        let (ranges, _, _, ids, _, ips) =
          plan-distinct codec x payload host (others_of round.tables rows current) current occupancy
            row.assignments coherent c.is_planned in
        allowed-apart payload ranges (others_of round.tables rows current) occupancy row.assignments
          ids ips

    -- The saved lease overlaps no claim and no row of another project.
    claims-Commit : any (λ a. overlaps row.assignments a.assignments) round.tables.claims ≡ false
    unfolding others_of
    claims-Commit =
        let kept = select (λ r. not (is_lease current r)) rows in
        ground (
          arith,
          others-Commit,
          any-append (overlaps row.assignments)
              (map (λ (r : AllocationReservation). r.assignments) kept)
              (map (λ (a : DeploymentAllocation). a.assignments) round.tables.claims),
          any-map (λ (a : DeploymentAllocation). a.assignments) (overlaps row.assignments)
              round.tables.claims,
        )

    leases-Commit :
        any (λ r. not (is_lease current r) && overlaps row.assignments r.assignments) rows ≡ false
    unfolding others_of
    leases-Commit =
        let kept = select (λ r. not (is_lease current r)) rows in
        ground (
          arith,
          others-Commit,
          any-append (overlaps row.assignments)
              (map (λ (r : AllocationReservation). r.assignments) kept)
              (map (λ (a : DeploymentAllocation). a.assignments) round.tables.claims),
          any-map (λ (r : AllocationReservation). r.assignments) (overlaps row.assignments) kept,
          any-select (λ r. overlaps row.assignments r.assignments) (λ r. not (is_lease current r))
              rows,
        )

    module _ (unique : Unique (λ (r : AllocationReservation). r.id) round.tables.reservations) where
      -- A lease of another id
      other-Commit :
          (k : String) (r : AllocationReservation)
          → get (λ y. y.id) k (consume current rows) ≡ some r
          → (reservation? round.tables k ≡ some r)
            × (overlaps row.assignments r.assignments ≡ false)
      other-Commit k r e =
          let kept = consume-keeps current rows k r e in
          let other =
            consume-others current rows k r e
              (key-get (λ (y : AllocationReservation). y.id) k rows r kept) in
          let quiet =
            any-get (λ y. y.id)
              (λ y. not (is_lease current y) && overlaps row.assignments y.assignments) k rows r
              leases-Commit kept in
          (
            get-select (λ y. y.id) (live round.now) k round.tables.reservations r unique kept,
            ground arith,
          )

      abbrev saved_tables : Ledger
      saved_tables = record round.tables { reservations = row ∷ consume current rows }

      AreApart-saved : AreApart round.now round.tables → AreApart round.now saved_tables
      AreApart-saved apart = record {
        claims = apart.claims;
        mixed = λ j k a r ea er alive. ground (
          arith,
          get-cons (λ (y : AllocationReservation). y.id) k row (consume current rows),
          other-Commit k r,
          apart.mixed j k a r ea,
          any-get (λ y. y.id) (λ y. overlaps row.assignments y.assignments) j round.tables.claims a
              claims-Commit ea,
          overlaps_comm row.assignments a.assignments,
        );
        leases = λ j k r s er es differ alive_r alive_s. ground (
          arith,
          get-cons (λ (y : AllocationReservation). y.id) j row (consume current rows),
          get-cons (λ (y : AllocationReservation). y.id) k row (consume current rows),
          other-Commit j r,
          other-Commit k s,
          apart.leases j k r s,
          overlaps_comm row.assignments r.assignments,
        );
      }

      pub AreApart-Commit : AreApart round.now round.tables → AreApart round.now after
      AreApart-Commit apart = subst (AreApart round.now) (sym c.is_after) (AreApart-saved apart)
