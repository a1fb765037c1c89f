-- ===== src/Snapshots/Planning/Plans.antt =====
-- core/snapshot_sets.py: `plan_create`, from the members of the checked-out scenario, and
-- `plan_existing`, within `BEGIN IMMEDIATE`.
use range42_backend_api.Prelude.{
  ℕ, String, Bool, true, false, not, ◌&&◌, Option, none, some, List, [], ◌∷◌, leb, any, map, length,
  ◌==◌, ◌!=◌, nat_eq, string_eq, option_eq, if◌then◌else◌,
}
use range42_backend_api.Prelude.Table.{select}
use range42_backend_api.Prelude.Result.{Result, ok, raise, error, raise_if, ◌>>=◌, ◌>>◌}
use range42_backend_api.Models.{
  Db, Deployment, Member, SetMember, Plan, RetentionPolicy, SnapshotKind, SnapshotOperation,
  SnapshotProof, SnapshotSet, SetState, snapshot?,
}
use range42_backend_api.Snapshots.Admission.{Host, blocked, hosted, binding}
use range42_backend_api.Snapshots.Recovery.{proof_eq}
use range42_backend_api.Snapshots.Planning.{Review, owned_snapshot, new_operation, check_retention}

-- `_stored_set`
stored_in : String → Option SnapshotSet → Result SnapshotSet
stored_in d none = raise (error 404 "NOT_FOUND")
stored_in d (some s) = if s.deployment_id != d then raise (error 404 "NOT_FOUND") else ok s

unfoldable pub find_stored_set : Db → String → String → Result SnapshotSet
unfolding stored_in
find_stored_set db d set_id = stored_in d (snapshot? db set_id)

-- The states of a set that can be reviewed for an operation of this kind.
unfoldable pub can_plan : SnapshotKind → SetState → Bool
can_plan SnapshotKind.rollback SetState.complete = true
can_plan SnapshotKind.rollback _ = false
can_plan _ SetState.complete = true
can_plan _ SetState.partial = true
can_plan _ SetState.failed = true
can_plan _ _ = false

-- `any(uuid differs ... zip(observed, members, strict=True))`: lists of different lengths fail.
unfoldable pub same_guests : List Member → List SetMember → Result (Unit {0})
same_guests [] [] = ok tt
same_guests (a ∷ rest) [] = raise (error 500 "INTERNAL")
same_guests [] (m ∷ ms) = raise (error 500 "INTERNAL")
same_guests (a ∷ observed) (m ∷ members) =
    if a.uuid != m.member.uuid
    then blocked "SNAPSHOT_OWNERSHIP_CHANGED"
    else same_guests observed members

-- What the loop adds for one member.
unfoldable pub reviewed_proof :
    SnapshotKind → SetMember → Option SnapshotProof → Result (Option SnapshotProof)
reviewed_proof SnapshotKind.rollback m none = blocked "SNAPSHOT_PLAN_STALE"
reviewed_proof SnapshotKind.rollback m (some p) =
    if some p != m.snapshot then blocked "SNAPSHOT_PLAN_STALE" else ok (some p)
reviewed_proof _ m proof = ok proof

abbrev pub with_proof :
    ℕ → Option SnapshotProof → List (ℕ × SnapshotProof) → List (ℕ × SnapshotProof)
with_proof vm_id none rest = rest
with_proof vm_id (some p) rest = (vm_id, p) ∷ rest

-- The loop over the members, with the proofs by VMID.
unfoldable pub collect_proofs :
    Review → SnapshotSet → SnapshotKind → List SetMember → Result (List (ℕ × SnapshotProof))
collect_proofs x s kind [] = ok []
collect_proofs x s kind (m ∷ members) = do
  present ← owned_snapshot s (x.rows m.member.vm_id) (x.config m.member.vm_id)
  proof ← reviewed_proof kind m present
  rest ← collect_proofs x s kind members
  ok (with_proof m.member.vm_id proof rest)

unfoldable pub has_proof : List (ℕ × SnapshotProof) → Member → Bool
has_proof proofs m = any (λ p. p.0 == m.vm_id) proofs

abbrev is_nil {ℓ} : {A : Type ℓ} → List A → Bool
is_nil [] = true
is_nil (_ ∷ _) = false

abbrev pub add_operation : Db → SnapshotOperation → Db
add_operation db o = record db { operations = o ∷ db.operations }

abbrev pub plan_of : List Member → List (ℕ × SnapshotProof) → Option RetentionPolicy → Plan
plan_of observed proofs retention = record {
  members = select (has_proof proofs) observed;
  snapshots = proofs;
  retention = retention;
}

-- The plan, once every member is reviewed.
unfoldable pub store_plan :
    Review
    → Db
    → SnapshotSet
    → SnapshotKind
    → Option RetentionPolicy
    → List Member
    → List (ℕ × SnapshotProof)
    → Result (SnapshotOperation × Db)
store_plan x db s kind retention observed proofs = do
  raise_if (is_nil proofs) (error 409 "SNAPSHOT_PLAN_STALE")
  let o = new_operation x s kind (plan_of observed proofs retention)
  ok (o, add_operation db o)

unfoldable pub still_retained :
    Review → Db → SnapshotSet → RetentionPolicy → Option RetentionPolicy → Result (Unit {0})
still_retained x db s current none = ok tt
still_retained x db s current (some reviewed) = check_retention x db s current reviewed

unfoldable pub plan_existing :
    Review
    → Db
    → RetentionPolicy
    → String
    → String
    → SnapshotKind
    → Option RetentionPolicy
    → Result (SnapshotOperation × Db)
plan_existing x db current d set_id kind retention = do
  s ← find_stored_set db d set_id
  raise_if (not (can_plan kind s.state)) (error 409 "SNAPSHOT_PLAN_STALE")
  (dep, host) ← hosted x.hosts db d
  binding s dep host
  still_retained x db s current retention
  observed ← x.observe s.members
  same_guests observed s.members
  proofs ← collect_proofs x s kind s.members
  store_plan x db s kind retention observed proofs

-- The new set, bound to the deployment and the host that were read before the checkout.
abbrev pub new_set : Review → String → String → Deployment → Host → List Member → SnapshotSet
new_set x set_id native_name dep host observed = record {
  id = set_id;
  deployment_id = dep.id;
  project_sha = dep.project_sha;
  host_id = dep.target_host_id;
  target_digest = host.target_digest;
  native_name = native_name;
  state = SetState.planned;
  members = map (λ m. record { member = m; snapshot = none }) observed;
  created_at = x.now;
}

add_set : Db → SnapshotSet → SnapshotOperation → Db
add_set db s o = record db { snapshots = s ∷ db.snapshots; operations = o ∷ db.operations }

-- `members` are the VMIDs and names of the scenario. `before` are the tables as they were before the checkout, `db` those of the second transaction.
pub plan_create :
    Review
    → Db
    → Db
    → String
    → String
    → String
    → List (ℕ × String)
    → Result (SnapshotSet × (SnapshotOperation × Db))
plan_create x before db d set_id native_name members = do
  (dep, host) ← hosted x.hosts before d
  raise_if (not (leb 1 (length members) && leb (length members) 64))
      (error 409 "SNAPSHOT_MEMBERS_UNSUPPORTED")
  observed ← x.observe_new members
  let s = new_set x set_id native_name dep host observed
  let o =
      new_operation x s SnapshotKind.create
        (record { members = observed; snapshots = []; retention = none })
  (fresh, fresh_host) ← hosted x.hosts db d
  binding s fresh fresh_host
  ok (s, (o, add_set db s o))
