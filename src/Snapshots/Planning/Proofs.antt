-- ===== src/Snapshots/Planning/Proofs.antt =====
-- The review of a stored set: its state, its guests and the proofs of its members.
use mathlib.Core.Path.{subst}
use range42_backend_api.Prelude.{
  ℕ, String, ◌≡◌, ◌≢◌, refl, ◌⊎◌, inl, inr, Bool, true, Option, none, some, List, [], ◌∷◌, map,
  contains, string_eq, nat_eq, option_eq, All, Option-cases, arith,
}
use range42_backend_api.Prelude.Table.{select}
use range42_backend_api.Prelude.Result.{ok, >>=-eq-ok}
use range42_backend_api.Models.{
  Db, Member, SetMember, SnapshotKind, SnapshotOperation, SnapshotProof, SnapshotSet,
  OperationState, SetState, snapshot?,
}
use range42_backend_api.Snapshots.Recovery.{proof_eq}
use range42_backend_api.Snapshots.Planning.{Review, owned_snapshot, first_row}
use range42_backend_api.Snapshots.Planning.Plans.{
  find_stored_set, can_plan, same_guests, reviewed_proof, collect_proofs, has_proof, with_proof,
  add_operation,
}

-- The proofs of the members, in order: each is the answer about the member's snapshot on the
-- cluster, a member without a snapshot has none, and on a rollback every member has the one that its
-- set recorded.
abbrev pub ProofsOf :
    Review → SnapshotSet → SnapshotKind → List SetMember → List (ℕ × SnapshotProof) → Type 0
ProofsOf x s kind [] proofs = proofs ≡ []
ProofsOf x s kind (m ∷ members) proofs =
    (present : Option SnapshotProof) × (rest : List (ℕ × SnapshotProof)) × (owned_snapshot s
        (x.rows m.member.vm_id) (x.config m.member.vm_id)
      ≡ ok present)
    × (kind ≡ SnapshotKind.rollback → (present ≢ none) × (present ≡ m.snapshot))
    × (((present ≡ none) × (proofs ≡ rest))
        ⊎ ((p : SnapshotProof) × (present ≡ some p) × (proofs ≡ (m.member.vm_id, p) ∷ rest)))
    × ProofsOf x s kind members rest

reviewed_proof-eq-ok :
    (kind : SnapshotKind) (m : SetMember) (present proof : Option SnapshotProof)
    → reviewed_proof kind m present ≡ ok proof
    → (proof ≡ present) × (kind ≡ SnapshotKind.rollback → (present ≢ none) × (present ≡ m.snapshot))
unfolding reviewed_proof
reviewed_proof-eq-ok SnapshotKind.rollback m none proof h = absurd (ground arith)
reviewed_proof-eq-ok SnapshotKind.rollback m (some p) proof h =
    (ground arith, λ _. (λ q. absurd (ground arith), ground arith))
reviewed_proof-eq-ok SnapshotKind.create m present proof h =
    (ground arith, λ q. absurd (ground arith))
reviewed_proof-eq-ok SnapshotKind.delete m present proof h =
    (ground arith, λ q. absurd (ground arith))

with_proof-cases :
    (k : ℕ) (present : Option SnapshotProof) (rest : List (ℕ × SnapshotProof))
    → ((present ≡ none) × (with_proof k present rest ≡ rest))
      ⊎ ((p : SnapshotProof) × (present ≡ some p) × (with_proof k present rest ≡ (k, p) ∷ rest))
with_proof-cases k none rest = inl (refl, refl)
with_proof-cases k (some p) rest = inr (p, refl, refl)

pub collect_proofs-ProofsOf :
    (x : Review) (s : SnapshotSet) (kind : SnapshotKind) (members : List SetMember)
    (proofs : List (ℕ × SnapshotProof))
    → collect_proofs x s kind members ≡ ok proofs
    → ProofsOf x s kind members proofs
unfolding collect_proofs
collect_proofs-ProofsOf x s kind [] proofs h = ground arith
collect_proofs-ProofsOf x s kind (m ∷ members) proofs h =
    let (present, e₁, h₁) =
      >>=-eq-ok (owned_snapshot s (x.rows m.member.vm_id) (x.config m.member.vm_id)) _ h in
    let (proof, e₂, h₂) = >>=-eq-ok (reviewed_proof kind m present) _ h₁ in
    let (rest, e₃, h₃) = >>=-eq-ok (collect_proofs x s kind members) _ h₂ in
    let (same, recorded) = reviewed_proof-eq-ok kind m present proof e₂ in
    let whole : with_proof m.member.vm_id present rest ≡ proofs = ground arith in
    subst (ProofsOf x s kind (m ∷ members)) whole (
      present,
      rest,
      e₁,
      recorded,
      with_proof-cases m.member.vm_id present rest,
      collect_proofs-ProofsOf x s kind members rest e₃,
    )

-- On a rollback every member has the proof that its set recorded.
pub rollback-ProofsOf :
    (x : Review) (s : SnapshotSet) (members : List SetMember) (proofs : List (ℕ × SnapshotProof))
    → ProofsOf x s SnapshotKind.rollback members proofs
    → (map (λ p. p.0) proofs ≡ map (λ m. m.member.vm_id) members)
      × (map (λ p. some p.1) proofs ≡ map (λ m. m.snapshot) members)
rollback-ProofsOf x s [] proofs h = (ground arith, ground arith)
rollback-ProofsOf x s (m ∷ members) proofs (present, rest, e, recorded, inl (absent, same), more) =
    absurd ((recorded refl).0 absent)
rollback-ProofsOf x s (m ∷ members) proofs (present, rest, e, recorded, inr (p, is, same), more) =
    let (ids, proved) = rollback-ProofsOf x s members rest more in
    let (_, stored) = recorded refl in (ground arith, ground arith)

has_proof-contains :
    (proofs : List (ℕ × SnapshotProof)) (m : Member)
    → has_proof proofs m ≡ contains (map (λ p. p.0) proofs) m.vm_id
unfolding has_proof
has_proof-contains [] m = refl
has_proof-contains (p ∷ ps) m = ground (arith, has_proof-contains ps m)

pub select-has_proof :
    (proofs : List (ℕ × SnapshotProof)) (xs : List Member)
    → select (has_proof proofs) xs ≡ select (λ m. contains (map (λ p. p.0) proofs) m.vm_id) xs
unfolding select
select-has_proof proofs [] = refl
select-has_proof proofs (m ∷ ms) =
    ground (arith, has_proof-contains proofs m, select-has_proof proofs ms)

All-contains-cons :
    (k : ℕ) (ids : List ℕ) (xs : List Member)
    → All (λ m. contains ids m.vm_id ≡ true) xs
    → All (λ m. contains (k ∷ ids) m.vm_id ≡ true) xs
All-contains-cons k ids [] h = tt
All-contains-cons k ids (x ∷ xs) (e, h) = (ground arith, All-contains-cons k ids xs h)

pub All-contains-vm_id :
    (xs : List Member) → All (λ m. contains (map (λ x. x.vm_id) xs) m.vm_id ≡ true) xs
All-contains-vm_id [] = tt
All-contains-vm_id (x ∷ xs) =
    (ground arith, All-contains-cons x.vm_id (map (λ y. y.vm_id) xs) xs (All-contains-vm_id xs))

pub select-All :
    (p : Member → Bool) (xs : List Member) → All (λ m. p m ≡ true) xs → select p xs ≡ xs
unfolding select
select-All p [] h = refl
select-All p (x ∷ xs) (e, h) = ground (arith, select-All p xs h)

pub same_guests-eq-ok :
    (observed : List Member) (members : List SetMember) (u : Unit {0})
    → same_guests observed members ≡ ok u
    → map (λ m. m.uuid) observed ≡ map (λ m. m.member.uuid) members
unfolding same_guests
same_guests-eq-ok [] [] u h = refl
same_guests-eq-ok (a ∷ rest) [] u h = absurd (ground arith)
same_guests-eq-ok [] (m ∷ ms) u h = absurd (ground arith)
same_guests-eq-ok (a ∷ observed) (m ∷ members) u h =
    ground (arith, same_guests-eq-ok observed members u)

-- A set of the deployment, in a state that a review for this kind of operation admits.
pub record MayPlan (db : Db) (d set_id : String) (kind : SnapshotKind) (s : SnapshotSet)
    : Type 0 where
  pub stored : snapshot? db set_id ≡ some s
  pub of_deployment : s.deployment_id ≡ d
  pub whole : kind ≡ SnapshotKind.rollback → s.state ≡ SetState.complete
  pub ended :
      (s.state ≡ SetState.complete) ⊎ ((s.state ≡ SetState.partial) ⊎ (s.state ≡ SetState.failed))

-- A stored plan: its set may be planned for, its guests are those that the observation reported and
-- that have a proof, their UUIDs are those of the set, there is a proof, and the journal has a planned
-- row for each guest.
pub record Planned (x : Review) (db : Db) (d set_id : String) (kind : SnapshotKind)
    (o : SnapshotOperation) (db' : Db) : Type 0 where
  pub stored_set : SnapshotSet
  pub observed : List Member
  pub admitted : MayPlan db d set_id kind stored_set
  pub answered : x.observe stored_set.members ≡ ok observed
  pub same_uuids : map (λ m. m.uuid) observed ≡ map (λ m. m.member.uuid) stored_set.members
  pub proved : ProofsOf x stored_set kind stored_set.members o.plan.snapshots
  pub some_proof : o.plan.snapshots ≢ []
  pub guests :
      o.plan.members ≡ select (λ m. contains (map (λ p. p.0) o.plan.snapshots) m.vm_id) observed
  pub journal : o.members ≡ map first_row o.plan.members
  pub same_kind : (o.kind ≡ kind) × (o.set_id ≡ stored_set.id)
  pub is_planned : (o.state ≡ OperationState.planned) × (o.attempt_id ≡ none)
  pub after : db' ≡ add_operation db o

find_stored_set-eq-ok :
    (db : Db) (d set_id : String) (s : SnapshotSet)
    → find_stored_set db d set_id ≡ ok s
    → (snapshot? db set_id ≡ some s) × (s.deployment_id ≡ d)
unfolding find_stored_set
find_stored_set-eq-ok db d set_id s h = elim (Option-cases (snapshot? db set_id)) [
  | inl e ↦ absurd (ground arith)
  | inr (y, e) ↦ (ground arith, ground arith)
]

can_plan-rollback : (t : SetState) → can_plan SnapshotKind.rollback t ≡ true → t ≡ SetState.complete
unfolding can_plan
can_plan-rollback t a = ground arith

can_plan-ended :
    (kind : SnapshotKind) (t : SetState)
    → can_plan kind t ≡ true
    → (t ≡ SetState.complete) ⊎ ((t ≡ SetState.partial) ⊎ (t ≡ SetState.failed))
unfolding can_plan
can_plan-ended SnapshotKind.create t a = ground arith
can_plan-ended SnapshotKind.delete t a = ground arith
can_plan-ended SnapshotKind.rollback t a = ground arith

pub find_stored_set-MayPlan :
    (db : Db) (d set_id : String) (kind : SnapshotKind) (s : SnapshotSet)
    → find_stored_set db d set_id ≡ ok s
    → can_plan kind s.state ≡ true
    → MayPlan db d set_id kind s
find_stored_set-MayPlan db d set_id kind s h a =
    let (stored, same) = find_stored_set-eq-ok db d set_id s h in
    record {
      stored = stored;
      of_deployment = same;
      whole = λ q. can_plan-rollback s.state (subst (λ y. can_plan y s.state ≡ true) q a);
      ended = can_plan-ended kind s.state a;
    }
