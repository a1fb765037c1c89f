-- ===== src/Snapshots/Closing.antt =====
-- core/snapshot_sets.py, `reconcile_operation`: the end of the operation in the tables. A host that
-- changed, or an operation that is not active, leaves everything as it is.
pub mod Outcome
mod Reading
mod Examples
use range42_backend_api.Prelude.{
  ℕ, String, Bool, true, false, not, ◌&&◌, ◌||◌, Option, none, some, List, [], ◌∷◌, map, any, all,
  ◌==◌, ◌!=◌, if◌then◌else◌, nat_eq, string_eq, option_eq,
}
use range42_backend_api.Prelude.Table.{update}
use range42_backend_api.Prelude.Result.{Result, ok, raise, error, ◌>>=◌, ◌>>◌}
use range42_backend_api.Models.{
  Db, Attempt, AttemptState, Deployment, Owner, ℤ, JournalRow, MemberState, SetMember, SnapshotKind,
  SnapshotOperation, SnapshotSet, OperationState, SetState, deployment?, attempt?, operation?,
  snapshot?,
}
use range42_backend_api.Locks.{release_lock}
use range42_backend_api.Scenario.{or_empty}
use range42_backend_api.Snapshots.Admission.{Host, hosted, binding, operation_state_eq}
use range42_backend_api.Snapshots.Recovery.{Cluster, reconcile_rows}

-- `ACTIVE`
unfoldable pub active : OperationState → Bool
active OperationState.running = true
active OperationState.needs_review = true
active _ = false

-- `{"succeeded", "failed", "not_started"}`
unfoldable pub is_settled : MemberState → Bool
is_settled MemberState.succeeded = true
is_settled MemberState.failed = true
is_settled MemberState.not_started = true
is_settled _ = false

abbrev pub has_succeeded : MemberState → Bool
has_succeeded MemberState.succeeded = true
has_succeeded _ = false

abbrev pub is_doubtful : MemberState → Bool
is_doubtful MemberState.unconfirmed = true
is_doubtful MemberState.dispatching = true
is_doubtful _ = false

abbrev pub is_empty {ℓ} : {A : Type ℓ} → List A → Bool
is_empty [] = true
is_empty (_ ∷ _) = false

-- The state at the end: `states == {"succeeded"}`, `"succeeded" in states`, or neither.
unfoldable pub final_state : List JournalRow → OperationState
final_state rows =
    if all (λ r. has_succeeded r.state) rows && not (is_empty rows)
    then OperationState.succeeded
    else if any (λ r. has_succeeded r.state) rows
    then OperationState.partial
    else OperationState.failed

-- The same text as the state of the attempt. An end is one of the first three.
unfoldable pub as_attempt : OperationState → AttemptState
as_attempt OperationState.succeeded = AttemptState.succeeded
as_attempt OperationState.partial = AttemptState.partial
as_attempt _ = AttemptState.failed

-- `snapshot.state` at the end
unfoldable pub set_state : SnapshotKind → OperationState → SetState
set_state SnapshotKind.create OperationState.succeeded = SetState.complete
set_state SnapshotKind.create OperationState.partial = SetState.partial
set_state SnapshotKind.create _ = SetState.failed
set_state SnapshotKind.delete OperationState.succeeded = SetState.deleted
set_state SnapshotKind.delete _ = SetState.partial
set_state SnapshotKind.rollback _ = SetState.complete

-- `{**member, **row}`: a snapshot that the row carries becomes the member's
merge_rows : List JournalRow → SetMember → SetMember
merge_rows [] m = m
merge_rows (row ∷ rows) m =
    let rest = merge_rows rows m in
    if row.vm_id == m.member.vm_id
    then elim row.snapshot [ none ↦ m | some p ↦ record m { snapshot = some p } ]
    else rest

unfoldable pub set_members : SnapshotKind → List JournalRow → List SetMember → List SetMember
unfolding merge_rows
set_members SnapshotKind.create rows members = map (merge_rows rows) members
set_members _ rows members = members

abbrev pub put_operation : Db → String → (SnapshotOperation → SnapshotOperation) → Db
put_operation db k f = record db { operations = update (λ o. o.id == k) f db.operations }

abbrev pub put_set : Db → String → (SnapshotSet → SnapshotSet) → Db
put_set db k f = record db { snapshots = update (λ s. s.id == k) f db.snapshots }

abbrev pub ended_attempt : ℕ → OperationState → Attempt → Attempt
ended_attempt now state a = record a {
  state = as_attempt state;
  rc = some (if state == OperationState.succeeded then ℤ.pos 0 else ℤ.pos 1);
  ended_at = some now;
}

abbrev pub put_attempt : Db → String → (Attempt → Attempt) → Db
put_attempt db k f = record db { attempts = update (λ a. a.id == k) f db.attempts }

abbrev pub put_current_state : Db → String → String → AttemptState → Db
put_current_state db d k state = record db {
  deployments =
      update (λ x. x.id == d && x.current_attempt_id == some k) (λ x. record x { state = state })
        db.deployments;
}

-- The attempt of the operation ends, the deployment follows if it is its current one, and the lock
-- that it held is released.
unfoldable pub end_attempt : ℕ → Db → String → OperationState → String → Db
end_attempt now db d state k =
    (release_lock
      (put_current_state (put_attempt db k (ended_attempt now state)) d k (as_attempt state)) d
      (Owner.attempt k)).1

-- All members are settled: the operation, the set, the attempt and the lock end together.
unfoldable pub close_operation :
    ℕ → Db → SnapshotOperation → SnapshotSet → String → List JournalRow → String → Db
unfolding end_attempt
close_operation now db o s d rows attempt_id =
    let state = final_state rows in
    end_attempt now
      (put_set (put_operation db o.id (λ x. record x { members = rows; state = state })) s.id (λ x.
        record x { state = set_state o.kind state; members = set_members o.kind rows x.members }))
      d state attempt_id

-- Some member may still be running, or nobody knows.
unfoldable pub keep_operation : Db → SnapshotOperation → SnapshotSet → List JournalRow → Db
keep_operation db o s rows =
    if any (λ r. is_doubtful r.state) rows
    then put_set
        (put_operation db o.id
          (λ x. record x { members = rows; state = OperationState.needs_review }))
        s.id (λ x. record x { state = SetState.needs_review })
    else put_operation db o.id (λ x. record x { members = rows })

-- Every member of the set has a row, which `next(row for row in rows if ...)` requires at the end
-- of a creation.
unfoldable pub covered : SnapshotKind → List JournalRow → List SetMember → Bool
covered SnapshotKind.create rows members =
    all (λ m. any (λ r. r.vm_id == m.member.vm_id) rows) members
covered _ rows members = true

-- The attempt that the operation runs as. Without one the end fails.
unfoldable pub close_as :
    ℕ → Db → SnapshotOperation → SnapshotSet → String → List JournalRow → Option Attempt → Result Db
close_as now db o s d rows none = raise (error 500 "INTERNAL")
close_as now db o s d rows (some a) =
    if covered o.kind rows s.members
    then ok (close_operation now db o s d rows a.id)
    else raise (error 500 "INTERNAL")

unfoldable pub store_rows :
    ℕ → Db → SnapshotOperation → SnapshotSet → String → Option (List JournalRow) → Result Db
store_rows now db o s d none = raise (error 500 "INTERNAL")
store_rows now db o s d (some rows) =
    if all (λ r. is_settled r.state) rows
    then close_as now db o s d rows (attempt? db (or_empty o.attempt_id))
    else ok (keep_operation db o s rows)

abbrev pub of_set : (SnapshotSet → Result Db) → Option SnapshotSet → Result Db
of_set f none = raise (error 500 "INTERNAL")
of_set f (some s) = f s

unfoldable pub reconcile_found :
    Cluster → (String → Option Host) → ℕ → Db → SnapshotOperation → Result Db
reconcile_found c hosts now db o =
    of_set
      (λ s. do
        (dep, host) ← hosted hosts db s.deployment_id
        binding s dep host
        store_rows now db o s dep.id (reconcile_rows c o.kind o.plan s.members o.members))
      (snapshot? db o.set_id)

-- Within `BEGIN IMMEDIATE`: a raise leaves the tables unchanged.
unfoldable pub reconcile_operation : Cluster → (String → Option Host) → ℕ → Db → String → Result Db
reconcile_operation c hosts now db operation_id = elim (operation? db operation_id) [
  | none ↦ ok db
  | some o ↦ if active o.state then reconcile_found c hosts now db o else ok db
]
