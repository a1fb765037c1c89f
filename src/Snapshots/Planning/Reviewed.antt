-- ===== src/Snapshots/Planning/Reviewed.antt =====
-- What a stored plan rests on.
use mathlib.Core.Path.{subst}
use range42_backend_api.Prelude.{
  ℕ, String, ◌≡◌, refl, ap, sym, ◌∙◌, not, Option, some, List, [], ◌∷◌, map, contains, string_eq,
  nat_eq, option_eq, arith,
}
use range42_backend_api.Prelude.Table.{select}
use range42_backend_api.Prelude.Result.{ok, error, raise_if, >>=-eq-ok, raise_if-eq-ok, ◌>>=◌}
use range42_backend_api.Models.{
  Db, Deployment, Member, SetMember, RetentionPolicy, SnapshotKind, SnapshotOperation,
  SnapshotProof, SnapshotSet, snapshot?,
}
use range42_backend_api.Snapshots.Admission.{Host, hosted, binding}
use range42_backend_api.Snapshots.Recovery.{proof_eq}
use range42_backend_api.Snapshots.Planning.{Review, new_operation, first_row}
use range42_backend_api.Snapshots.Planning.Plans.{
  find_stored_set, can_plan, same_guests, collect_proofs, store_plan, still_retained, plan_existing,
  plan_of,
}
use range42_backend_api.Snapshots.Planning.Proofs.{
  ProofsOf, MayPlan, Planned, collect_proofs-ProofsOf, rollback-ProofsOf, select-has_proof,
  All-contains-vm_id, select-All, same_guests-eq-ok, find_stored_set-MayPlan,
}

module _ (x : Review) (db : Db) (d set_id : String) (kind : SnapshotKind) (o : SnapshotOperation)
    (db' : Db) where
  store_plan-Planned :
      (s : SnapshotSet) (retention : Option RetentionPolicy) (observed : List Member)
      (proofs : List (ℕ × SnapshotProof))
      → MayPlan db d set_id kind s
      → x.observe s.members ≡ ok observed
      → same_guests observed s.members ≡ ok tt
      → collect_proofs x s kind s.members ≡ ok proofs
      → store_plan x db s kind retention observed proofs ≡ ok (o, db')
      → Planned x db d set_id kind o db'
  unfolding store_plan
  store_plan-Planned s retention observed [] e seen g c h = absurd (ground arith)
  store_plan-Planned s retention observed (p ∷ ps) e seen g c h =
      let same : new_operation x s kind (plan_of observed (p ∷ ps) retention) ≡ o = ground arith in
      record {
        stored_set = s;
        observed = observed;
        admitted = e;
        answered = seen;
        same_uuids = same_guests-eq-ok observed s.members tt g;
        proved =
            subst (λ (y : SnapshotOperation). ProofsOf x s kind s.members y.plan.snapshots) same
              (collect_proofs-ProofsOf x s kind s.members (p ∷ ps) c);
        some_proof = λ q. absurd (ground arith);
        guests =
            subst
              (λ (y : SnapshotOperation).
                y.plan.members
                ≡ select (λ m. contains (map (λ p. p.0) y.plan.snapshots) m.vm_id) observed)
              same (select-has_proof (p ∷ ps) observed);
        journal = ground arith;
        same_kind = (ground arith, ground arith);
        is_planned = ground arith;
        after = ground arith;
      }

  module _ (current : RetentionPolicy) (retention : Option RetentionPolicy) where
    bound-Planned :
        (s : SnapshotSet) (dep : Deployment) (host : Host)
        → MayPlan db d set_id kind s
        → (binding s dep host >>= λ _. still_retained x db s current retention >>= λ _.
            x.observe s.members >>= λ observed. same_guests observed s.members >>= λ _.
            collect_proofs x s kind s.members >>= λ proofs.
            store_plan x db s kind retention observed proofs)
          ≡ ok (o, db')
        → Planned x db d set_id kind o db'
    bound-Planned s dep host e h =
        let (_, _, h₁) = >>=-eq-ok (binding s dep host) _ h in
        let (_, _, h₂) = >>=-eq-ok (still_retained x db s current retention) _ h₁ in
        let (observed, seen, h₃) = >>=-eq-ok (x.observe s.members) _ h₂ in
        let (_, g, h₄) = >>=-eq-ok (same_guests observed s.members) _ h₃ in
        let (proofs, c, h₅) = >>=-eq-ok (collect_proofs x s kind s.members) _ h₄ in
        store_plan-Planned s retention observed proofs e seen g c h₅

    -- A plan for a stored set that is accepted was reviewed: the set is one of the deployment and is
    -- complete, or, where the operation is no rollback, partial or failed; the guests that the
    -- observation reported have the UUIDs of its members in order; the proofs of the plan are those of
    -- its members on the cluster, with none left out that has one, on a rollback those that the set
    -- recorded, and there is at least one; the guests of the plan are all reported guests with a
    -- proof; and its operation is planned, without an attempt, with one planned journal row for each.
    pub plan_existing-Planned :
        plan_existing x db current d set_id kind retention ≡ ok (o, db')
        → Planned x db d set_id kind o db'
    unfolding plan_existing
    plan_existing-Planned h =
        let (s, e, h₁) = >>=-eq-ok (find_stored_set db d set_id) _ h in
        let (_, a, h₂) =
          >>=-eq-ok (raise_if (not (can_plan kind s.state)) (error 409 "SNAPSHOT_PLAN_STALE")) _
            h₁ in
        let ((dep, host), _, h₃) = >>=-eq-ok (hosted x.hosts db d) _ h₂ in
        let admitted =
          raise_if-eq-ok (not (can_plan kind s.state)) (error 409 "SNAPSHOT_PLAN_STALE") a in
        bound-Planned s dep host
          (find_stored_set-MayPlan db d set_id kind s e (ground (arith, admitted))) h₃

first_row-vm_id : (xs : List Member) → map (λ r. r.vm_id) (map first_row xs) ≡ map (λ m. m.vm_id) xs
first_row-vm_id [] = refl
first_row-vm_id (x ∷ xs) = ap (λ l. x.vm_id ∷ l) (first_row-vm_id xs)

-- Where an observation that succeeds reports the requested VMIDs in order, a plan to roll back that
-- is accepted covers every member of its set, in order: in the guests of the plan, in the journal of
-- its operation, and in the proofs, which are those that the set recorded.
pub plan_existing-rollback_whole :
    (x : Review) (db : Db) (current : RetentionPolicy) (d set_id : String)
    (retention : Option RetentionPolicy) (o : SnapshotOperation) (db' : Db)
    → ((members : List SetMember) (observed : List Member)
        → x.observe members ≡ ok observed
        → map (λ m. m.vm_id) observed ≡ map (λ m. m.member.vm_id) members)
    → plan_existing x db current d set_id SnapshotKind.rollback retention ≡ ok (o, db')
    → (s : SnapshotSet) × (snapshot? db set_id ≡ some s)
      × (map (λ m. m.vm_id) o.plan.members ≡ map (λ m. m.member.vm_id) s.members)
      × (map (λ r. r.vm_id) o.members ≡ map (λ m. m.member.vm_id) s.members)
      × (map (λ p. p.0) o.plan.snapshots ≡ map (λ m. m.member.vm_id) s.members)
      × (map (λ p. some p.1) o.plan.snapshots ≡ map (λ m. m.snapshot) s.members)
plan_existing-rollback_whole x db current d set_id retention o db' ordered h =
    let p = plan_existing-Planned x db d set_id SnapshotKind.rollback o db' current retention h in
    let s = p.stored_set in
    let (ids, proofs) = rollback-ProofsOf x s s.members o.plan.snapshots p.proved in
    let same = ordered s.members p.observed p.answered in
    let covering : o.plan.members ≡ p.observed =
      p.guests
      ∙ ap (λ l. select (λ m. contains l m.vm_id) p.observed) (ids ∙ sym same)
      ∙ select-All (λ m. contains (map (λ y. y.vm_id) p.observed) m.vm_id) p.observed
          (All-contains-vm_id p.observed) in
    let guests = ap (map (λ m. m.vm_id)) covering ∙ same in
    (
      s,
      p.admitted.stored,
      guests,
      ap (map (λ r. r.vm_id)) p.journal ∙ first_row-vm_id o.plan.members ∙ guests,
      ids,
      proofs,
    )
