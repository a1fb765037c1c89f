-- ===== src/Snapshots/Planning/Examples.antt =====
-- A rollback planned for a complete set, and the candidates of a policy.
use range42_backend_api.Prelude.{
  ◌≡◌, refl, ap, arith, List, ◌⊎◌, ◌≤◌, ◌+◌, false, none, some, [], ◌∷◌, map, length, All, nat_eq,
  string_eq, option_eq,
}
use range42_backend_api.Prelude.Table.{get, select}
use range42_backend_api.Prelude.Result.{ok}
use range42_backend_api.Models.{
  Db, Member, SetMember, snapshot?, RetentionPolicy, SnapshotKind, SnapshotOperation, SnapshotSet,
  OperationState, SetState,
}
use range42_backend_api.Lifecycle.Samples.{deployment}
use range42_backend_api.Snapshots.Samples.{guest, proof, stored_set, planned_row, hosts}
use range42_backend_api.Snapshots.Admission.{hosted, binding}
use range42_backend_api.Snapshots.Recovery.{proof_eq}
use range42_backend_api.Snapshots.Planning.{
  Review, owned_snapshot, complete_sets, expired, retention_candidates,
}
use range42_backend_api.Snapshots.Planning.Plans.{
  find_stored_set, can_plan, same_guests, reviewed_proof, collect_proofs, has_proof, store_plan,
  still_retained, plan_existing, add_operation,
}
use range42_backend_api.Snapshots.Planning.Candidates.{
  Eligible, complete_in, retention_candidates-Eligible,
}
use range42_backend_api.Snapshots.Planning.Proofs.{Planned}
use range42_backend_api.Snapshots.Planning.Reviewed.{
  plan_existing-Planned, plan_existing-rollback_whole,
}

abbrev complete_set : SnapshotSet
complete_set = record stored_set {
  state = SetState.complete;
  members = record { member = guest; snapshot = some proof } ∷ [];
}

abbrev old_set : SnapshotSet
old_set = record complete_set { id = "s0"; created_at = 10 }

abbrev db : Db
db = record {
  deployments = deployment ∷ [];
  attempts = [];
  locks = [];
  operations = [];
  snapshots = old_set ∷ complete_set ∷ [];
}

abbrev review : Review
review = record {
  hosts = hosts;
  now = 100;
  new_id = "o2";
  digest = λ id s kind plan. "digest";
  observe = λ members. ok (map (λ m. m.member) members);
  observe_new = λ members. ok (guest ∷ []);
  rows = λ vm_id. some (
      record { name = "r42s"; description = some "range42-snapshot-set:s1"; snaptime = some 7 }
      ∷ []);
  config = λ vm_id. some (record { is_changing = false; config_digest = "r" });
  id_before = λ a b. false;
}

abbrev policy : RetentionPolicy
policy = record { keep_count = 1; keep_days = 0 }

abbrev operation : SnapshotOperation
operation = record {
  id = "o2";
  set_id = "s1";
  kind = SnapshotKind.rollback;
  state = OperationState.planned;
  plan_digest = "digest";
  plan = record { members = guest ∷ []; snapshots = (2000, proof) ∷ []; retention = none };
  members = planned_row ∷ [];
  attempt_id = none;
  created_at = 100;
  expires_at = 400;
}

plans_rollback :
    plan_existing review db policy "d1" "s1" SnapshotKind.rollback none
    ≡ ok (operation, add_operation db operation)
unfolding plan_existing find_stored_set can_plan same_guests reviewed_proof collect_proofs has_proof
    store_plan still_retained hosted binding owned_snapshot get select proof_eq string_eq nat_eq
    option_eq
plans_rollback = refl

plan_existing-Planned_example :
    Planned review db "d1" "s1" SnapshotKind.rollback operation (add_operation db operation)
plan_existing-Planned_example =
    plan_existing-Planned review db "d1" "s1" SnapshotKind.rollback operation
      (add_operation db operation) policy none plans_rollback

map-member-vm_id :
    (members : List SetMember)
    → map (λ m. m.vm_id) (map (λ m. m.member) members) ≡ map (λ m. m.member.vm_id) members
map-member-vm_id [] = refl
map-member-vm_id (m ∷ members) = ap (λ l. m.member.vm_id ∷ l) (map-member-vm_id members)

reports_members :
    (members : List SetMember) (observed : List Member)
    → review.observe members ≡ ok observed
    → map (λ m. m.vm_id) observed ≡ map (λ m. m.member.vm_id) members
reports_members members observed h = ground (arith, map-member-vm_id members)

plan_existing-rollback_whole_example :
    (s : SnapshotSet) × (snapshot? db "s1" ≡ some s)
    × (map (λ m. m.vm_id) operation.plan.members ≡ map (λ m. m.member.vm_id) s.members)
    × (map (λ r. r.vm_id) operation.members ≡ map (λ m. m.member.vm_id) s.members)
    × (map (λ p. p.0) operation.plan.snapshots ≡ map (λ m. m.member.vm_id) s.members)
    × (map (λ p. some p.1) operation.plan.snapshots ≡ map (λ m. m.snapshot) s.members)
plan_existing-rollback_whole_example =
    plan_existing-rollback_whole review db policy "d1" "s1" none operation
      (add_operation db operation) reports_members plans_rollback

-- Of two complete sets the newest is kept.
keeps_newest : retention_candidates review db "d1" policy ≡ ok (old_set ∷ [])
unfolding retention_candidates complete_sets expired select string_eq nat_eq
keeps_newest = refl

retention_candidates-Eligible_example :
    All (Eligible 100 policy "d1") (old_set ∷ [])
    × ((length (old_set ∷ []) ≡ 0) ⊎ (length (old_set ∷ []) + 1 ≤ length (complete_in db "d1")))
retention_candidates-Eligible_example =
    retention_candidates-Eligible review db "d1" policy (old_set ∷ []) keeps_newest
