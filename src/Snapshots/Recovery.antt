-- ===== src/Snapshots/Recovery.antt =====
-- core/snapshot_sets.py, `reconcile_operation`: what the saved tasks have become, read back from the
-- cluster, and the end of the operation once every member is settled.
pub mod Settlement
mod Examples
use range42_backend_api.Prelude.{
  ℕ, String, Bool, true, false, not, ◌&&◌, ◌||◌, Option, none, some, List, [], ◌∷◌, leb, map, any,
  all, ◌==◌, ◌!=◌, if◌then◌else◌, nat_eq, string_eq, option_eq, Eq,
}
use range42_backend_api.Prelude.Table.{update, select}
use range42_backend_api.Prelude.Result.{Result, ok, raise, error, raise_if, ◌>>=◌, ◌>>◌}
use range42_backend_api.Models.{
  Db, Attempt, AttemptState, Deployment, Owner, ℤ, JournalRow, MemberState, Member, SetMember, Plan,
  SnapshotKind, SnapshotOperation, SnapshotProof, SnapshotSet, OperationState, SetState,
  deployment?, attempt?, operation?, snapshot?,
}
use range42_backend_api.Locks.{release_lock}

SnapshotProof-discrete : Discrete SnapshotProof
SnapshotProof-discrete = hlevel (string_eq.dec, nat_eq.dec)

instance unfoldable pub proof_eq : Eq SnapshotProof
unfolding SnapshotProof-discrete string_eq nat_eq
proof_eq = record { dec = SnapshotProof-discrete }

-- The fields of a task's status document; a text that is absent is `none`.
pub record TaskStatus : Type 0 where
  pub upid : Option String
  pub status : Option String
  pub exitstatus : Option String

-- What is read of the cluster: a task's status (`none` if it cannot be read), a guest (`observe`),
-- and its snapshot of this set (`_snapshot`). With `len` of a text, and the regular expression of
-- `_validate_task`: whether a worker's task on a guest of the host's node has this UPID.
pub record Cluster : Type 0 where
  pub text_length : String → ℕ
  pub has_task_form : String → ℕ → String → Bool
  pub task : Option String → Option TaskStatus
  pub observe : SetMember → Result Member
  pub snapshot : ℕ → Result (Option SnapshotProof)

abbrev pub worker_of : SnapshotKind → String
worker_of SnapshotKind.create = "qmsnapshot"
worker_of SnapshotKind.rollback = "qmrollback"
worker_of SnapshotKind.delete = "qmdelsnapshot"

-- `_validate_task`
unfoldable pub validate_task : Cluster → Option String → ℕ → SnapshotKind → Bool
validate_task c none vmid kind = false
validate_task c (some upid) vmid kind =
    leb (c.text_length upid) 512 && c.has_task_form (worker_of kind) vmid upid

-- What a member's task has come to. `unreadable` is a `Range42Error`, which the loop catches;
-- `uncaught` is another exception.
pub data Reading : Type 0 where
  settled : JournalRow → Reading
  unreadable uncaught : Reading

pub lookup_proof : ℕ → List (ℕ × SnapshotProof) → Option SnapshotProof
lookup_proof k [] = none
lookup_proof k ((j, p) ∷ rest) = if j == k then some p else lookup_proof k rest

pub find_member : ℕ → List SetMember → Option SetMember
find_member k [] = none
find_member k (m ∷ rest) = if m.member.vm_id == k then some m else find_member k rest

-- `row.update(state="succeeded")` and `row.pop("code", None)`
abbrev pub succeeded : JournalRow → JournalRow
succeeded row = record row { state = MemberState.succeeded; code = none }

verify_rollback : Option SnapshotProof → Member → SnapshotProof → JournalRow → Reading
verify_rollback none actual present row = uncaught
verify_rollback (some reviewed) actual present row =
    if present != reviewed || actual.restore_digest != present.config_digest || actual.running
    then unreadable
    else settled (succeeded row)

-- The read-back of a task that ended with OK.
verify : SnapshotKind → Plan → SetMember → Member → Option SnapshotProof → JournalRow → Reading
unfolding verify_rollback lookup_proof
verify SnapshotKind.create plan expected actual none row = unreadable
verify SnapshotKind.create plan expected actual (some present) row =
    if present.config_digest != expected.member.restore_digest
    then unreadable
    else settled (succeeded (record row { snapshot = some present }))
verify SnapshotKind.delete plan expected actual none row = settled (succeeded row)
verify SnapshotKind.delete plan expected actual (some present) row = unreadable
verify SnapshotKind.rollback plan expected actual none row = unreadable
verify SnapshotKind.rollback plan expected actual (some present) row =
    verify_rollback (lookup_proof row.vm_id plan.snapshots) actual present row

caught : Result (Option SnapshotProof) → (Option SnapshotProof → Reading) → Reading
caught (ok present) f = f present
caught (raise e) f = unreadable

verify_guest : Cluster → SnapshotKind → Plan → SetMember → JournalRow → Result Member → Reading
unfolding verify caught
verify_guest c kind plan expected row (raise e) = unreadable
verify_guest c kind plan expected row (ok actual) =
    if actual.uuid != expected.member.uuid
    then unreadable
    else caught (c.snapshot row.vm_id) (λ present. verify kind plan expected actual present row)

read_guest : Cluster → SnapshotKind → Plan → JournalRow → Option SetMember → Reading
unfolding verify_guest
read_guest c kind plan row none = uncaught
read_guest c kind plan row (some expected) =
    verify_guest c kind plan expected row (c.observe expected)

abbrev task_failed : JournalRow → JournalRow
task_failed row = record row {
  state = MemberState.failed;
  code = some "SNAPSHOT_NATIVE_TASK_FAILED";
}

read_task :
    Cluster → SnapshotKind → Plan → List SetMember → JournalRow → Option TaskStatus → Reading
unfolding read_guest find_member
read_task c kind plan members row none = unreadable
read_task c kind plan members row (some task) =
    if task.upid != row.upid
    then unreadable
    else if task.status == some "running"
    then settled row
    else if task.status != some "stopped" || task.exitstatus == none
    then unreadable
    else if task.exitstatus != some "OK"
    then settled (task_failed row)
    else read_guest c kind plan row (find_member row.vm_id members)

-- The handler in the loop: a read that fails is noted in the row's code.
noted : JournalRow → Reading → Option JournalRow
noted row (settled row') = some row'
noted row unreadable = some (record row { code = some "SNAPSHOT_READBACK_UNCONFIRMED" })
noted row uncaught = none

-- A row whose write was issued, or may have been.
poll : Cluster → SnapshotKind → Plan → List SetMember → JournalRow → Option JournalRow
unfolding noted read_task
poll c kind plan members row =
    if not (validate_task c row.upid row.vm_id kind)
    then some (record row {
      state = MemberState.unconfirmed;
      code = some "SNAPSHOT_DISPATCH_UNCONFIRMED";
    })
    else noted row (read_task c kind plan members row (c.task row.upid))

abbrev pub interrupted : JournalRow → JournalRow
interrupted row = record row {
  state = MemberState.not_started;
  code = some "SNAPSHOT_DISPATCH_INTERRUPTED";
}

-- One round of the loop. `none` is an exception that is not caught.
by_state : MemberState → Option JournalRow → JournalRow → Option JournalRow
by_state MemberState.planned polled row = some (interrupted row)
by_state MemberState.accepted polled row = polled
by_state MemberState.dispatching polled row = polled
by_state _ polled row = some row

unfoldable pub reconcile_row :
    Cluster → SnapshotKind → Plan → List SetMember → JournalRow → Option JournalRow
unfolding by_state poll
reconcile_row c kind plan members row = by_state row.state (poll c kind plan members row) row

cons_row : Option JournalRow → Option (List JournalRow) → Option (List JournalRow)
cons_row (some r) (some rs) = some (r ∷ rs)
cons_row (some r) none = none
cons_row none rs = none

unfoldable pub reconcile_rows :
    Cluster → SnapshotKind → Plan → List SetMember → List JournalRow → Option (List JournalRow)
unfolding cons_row
reconcile_rows c kind plan members [] = some []
reconcile_rows c kind plan members (row ∷ rows) =
    cons_row (reconcile_row c kind plan members row) (reconcile_rows c kind plan members rows)
