-- ===== src/Snapshots/Recovery/Settlement.antt =====
-- What recovery believes: a settled member stays, and a member counts as succeeded only on the full
-- evidence of its task, its guest and its snapshot.
use range42_backend_api.Prelude.{
  ℕ, ◌≤◌, String, ◌≡◌, ◌≢◌, refl, Bool, true, false, Option, none, some, List, arith, if◌then◌else◌,
  inl, inr, nat_eq, string_eq, option_eq, Option-cases, ◌∙◌,
}
use range42_backend_api.Prelude.Result.{Result, ok, raise}
use range42_backend_api.Models.{
  JournalRow, MemberState, Member, SetMember, Plan, SnapshotKind, SnapshotProof,
}
use range42_backend_api.Snapshots.Recovery.{
  TaskStatus, Cluster, worker_of, validate_task, settled, unreadable, lookup_proof, find_member,
  verify_rollback, verify, caught, verify_guest, read_guest, read_task, noted, poll, by_state,
  reconcile_row, interrupted, proof_eq,
}

-- The snapshot on the guest after the task, by the kind of the operation.
abbrev pub ReadBack :
    SnapshotKind
    → Plan
    → SetMember
    → Member
    → Option SnapshotProof
    → JournalRow
    → JournalRow
    → Type 0
ReadBack SnapshotKind.create plan expected actual present row row' =
    (p : SnapshotProof) × (present ≡ some p)
    × (p.config_digest ≡ expected.member.restore_digest)
    × (row'.snapshot ≡ some p)
ReadBack SnapshotKind.delete plan expected actual present row row' = present ≡ none
ReadBack SnapshotKind.rollback plan expected actual present row row' =
    (p : SnapshotProof) × (present ≡ some p)
    × (lookup_proof row.vm_id plan.snapshots ≡ some p)
    × (actual.restore_digest ≡ p.config_digest)
    × (actual.running ≡ false)

verify-ReadBack :
    (kind : SnapshotKind) (plan : Plan) (expected : SetMember) (actual : Member)
    (present : Option SnapshotProof) (row row' : JournalRow)
    → verify kind plan expected actual present row ≡ settled row'
    → ReadBack kind plan expected actual present row row'
unfolding verify verify_rollback
verify-ReadBack SnapshotKind.create plan expected actual none row row' h = absurd (ground arith)
verify-ReadBack SnapshotKind.create plan expected actual (some p) row row' h =
    (p, refl, ground arith, ground arith)
verify-ReadBack SnapshotKind.delete plan expected actual none row row' h = refl
verify-ReadBack SnapshotKind.delete plan expected actual (some p) row row' h = absurd (ground arith)
verify-ReadBack SnapshotKind.rollback plan expected actual none row row' h = absurd (ground arith)
verify-ReadBack SnapshotKind.rollback plan expected actual (some p) row row' h =
    (p, refl, ground arith, ground arith, ground arith)

abbrev pub is_polled : MemberState → Bool
is_polled MemberState.accepted = true
is_polled MemberState.dispatching = true
is_polled _ = false

abbrev pub is_planned : MemberState → Bool
is_planned MemberState.planned = true
is_planned _ = false

by_state-stays :
    (row : JournalRow) (s : MemberState) (polled : Option JournalRow)
    → is_polled s ≡ false
    → by_state s polled row ≡ some (if is_planned s then interrupted row else row)
unfolding by_state
by_state-stays row MemberState.planned polled h = refl
by_state-stays row MemberState.accepted polled h = absurd (ground arith)
by_state-stays row MemberState.dispatching polled h = absurd (ground arith)
by_state-stays row _ polled h = refl

validate_task-form :
    (c : Cluster) (o : Option String) (vmid : ℕ) (kind : SnapshotKind)
    → validate_task c o vmid kind ≡ true
    → (upid : String) × (o ≡ some upid)
      × (c.text_length upid ≤ 512)
      × (c.has_task_form (worker_of kind) vmid upid ≡ true)
unfolding validate_task
validate_task-form c none vmid kind h = absurd (ground arith)
validate_task-form c (some upid) vmid kind h = (upid, refl, ground arith, ground arith)

module _ (c : Cluster) (kind : SnapshotKind) (plan : Plan) (members : List SetMember) where
  -- The evidence on which a member's row becomes `row'`.
  pub record Evidence (row row' : JournalRow) : Type 0 where
    pub task : TaskStatus
    pub expected : SetMember
    pub actual : Member
    pub present : Option SnapshotProof
    pub upid : String
    pub has_upid : row.upid ≡ some upid
    pub is_short : c.text_length upid ≤ 512
    pub is_task : c.has_task_form (worker_of kind) row.vm_id upid ≡ true
    pub task_read : c.task row.upid ≡ some task
    pub same_task : task.upid ≡ row.upid
    pub stopped : task.status ≡ some "stopped"
    pub exited : task.exitstatus ≡ some "OK"
    pub found : find_member row.vm_id members ≡ some expected
    pub observed : c.observe expected ≡ ok actual
    pub same_guest : actual.uuid ≡ expected.member.uuid
    pub snapshot_read : c.snapshot row.vm_id ≡ ok present
    pub read_back : ReadBack kind plan expected actual present row row'

  -- The part of the evidence that lies on the guest.
  pub record GuestEvidence (row row' : JournalRow) : Type 0 where
    pub expected : SetMember
    pub actual : Member
    pub present : Option SnapshotProof
    pub found : find_member row.vm_id members ≡ some expected
    pub observed : c.observe expected ≡ ok actual
    pub same_guest : actual.uuid ≡ expected.member.uuid
    pub snapshot_read : c.snapshot row.vm_id ≡ ok present
    pub read_back : ReadBack kind plan expected actual present row row'

  module _ (row row' : JournalRow) where
    caught-evidence :
        (expected : SetMember) (actual : Member) (r : Result (Option SnapshotProof))
        → caught r (λ present. verify kind plan expected actual present row) ≡ settled row'
        → (present : Option SnapshotProof) × (r ≡ ok present)
          × ReadBack kind plan expected actual present row row'
    unfolding caught
    caught-evidence expected actual (ok present) h =
        (present, refl, verify-ReadBack kind plan expected actual present row row' h)
    caught-evidence expected actual (raise e) h = absurd (ground arith)

    guest-evidence :
        (expected : SetMember) (r : Result Member)
        → find_member row.vm_id members ≡ some expected
        → c.observe expected ≡ r
        → verify_guest c kind plan expected row r ≡ settled row'
        → GuestEvidence row row'
    unfolding verify_guest
    guest-evidence expected (raise e) f o h = absurd (ground arith)
    guest-evidence expected (ok actual) f o h =
        elim (string_eq.dec actual.uuid expected.member.uuid) [
          | no n ↦ absurd (ground arith)
          | yes p ↦
              let (present, q, back) =
                caught-evidence expected actual (c.snapshot row.vm_id) (ground arith) in
              record {
                expected = expected;
                actual = actual;
                present = present;
                found = f;
                observed = o;
                same_guest = p;
                snapshot_read = q;
                read_back = back;
              }
        ]

    read_guest-evidence :
        (e : Option SetMember)
        → find_member row.vm_id members ≡ e
        → read_guest c kind plan row e ≡ settled row'
        → GuestEvidence row row'
    unfolding read_guest
    read_guest-evidence none f h = absurd (ground arith)
    read_guest-evidence (some expected) f h = guest-evidence expected (c.observe expected) f refl h

    abbrev TaskEvidence : TaskStatus → Type 0
    TaskEvidence t =
        (t.upid ≡ row.upid)
        × (t.status ≡ some "stopped")
        × (t.exitstatus ≡ some "OK")
        × GuestEvidence row row'

    read_task-evidence :
        (t : TaskStatus)
        → read_task c kind plan members row (some t) ≡ settled row'
        → row.state ≢ MemberState.succeeded
        → row'.state ≡ MemberState.succeeded
        → TaskEvidence t
    unfolding read_task
    read_task-evidence t h before after =
        let u : t.upid ≡ row.upid = ground arith in
        let s : t.status ≡ some "stopped" = ground arith in
        let x : t.exitstatus ≡ some "OK" = ground arith in
        (u, s, x, read_guest-evidence (find_member row.vm_id members) refl (ground arith))

    read_task-none : read_task c kind plan members row none ≡ unreadable
    unfolding read_task
    read_task-none = refl

    poll-Evidence :
        poll c kind plan members row ≡ some row'
        → row.state ≢ MemberState.succeeded
        → row'.state ≡ MemberState.succeeded
        → Evidence row row'
    unfolding poll noted
    poll-Evidence h before after =
        let valid : validate_task c row.upid row.vm_id kind ≡ true = ground arith in
        let (upid, has_upid, is_short, is_task) =
          validate_task-form c row.upid row.vm_id kind valid in
        let read : read_task c kind plan members row (c.task row.upid) ≡ settled row' =
          ground arith in
        elim (Option-cases (c.task row.upid)) [
          | inl e ↦ absurd (ground (arith, read_task-none))
          | inr (t, e) ↦
              let (u, s, x, g) = read_task-evidence t (rw e at read) before after in
              record {
                task = t;
                expected = g.expected;
                actual = g.actual;
                present = g.present;
                upid = upid;
                has_upid = has_upid;
                is_short = is_short;
                is_task = is_task;
                task_read = e;
                same_task = u;
                stopped = s;
                exited = x;
                found = g.found;
                observed = g.observed;
                same_guest = g.same_guest;
                snapshot_read = g.snapshot_read;
                read_back = g.read_back;
              }
        ]

    by_state-Evidence :
        (s : MemberState) (o : Option JournalRow)
        → row.state ≡ s
        → poll c kind plan members row ≡ o
        → by_state s o row ≡ some row'
        → row.state ≢ MemberState.succeeded
        → row'.state ≡ MemberState.succeeded
        → Evidence row row'
    unfolding by_state
    by_state-Evidence MemberState.accepted o e p h before after = poll-Evidence (p ∙ h) before after
    by_state-Evidence MemberState.dispatching o e p h before after =
        poll-Evidence (p ∙ h) before after
    by_state-Evidence MemberState.succeeded o e p h before after = absurd (before e)
    by_state-Evidence MemberState.planned o e p h before after = absurd (ground arith)
    by_state-Evidence MemberState.unconfirmed o e p h before after = absurd (ground arith)
    by_state-Evidence MemberState.not_started o e p h before after = absurd (ground arith)
    by_state-Evidence MemberState.failed o e p h before after = absurd (ground arith)

    -- Recovery turns a member into a succeeded one only on full evidence: the saved task is of this
    -- kind and guest, it stopped with OK, the guest is the reviewed one, and the snapshot that is
    -- read back is the one that the operation was to create, to restore or to delete.
    pub reconcile_row-Evidence :
        reconcile_row c kind plan members row ≡ some row'
        → row.state ≢ MemberState.succeeded
        → row'.state ≡ MemberState.succeeded
        → Evidence row row'
    unfolding reconcile_row
    reconcile_row-Evidence h before after =
        by_state-Evidence row.state (poll c kind plan members row) refl refl h before after

  -- A settled or doubtful member keeps its row, and a member on which nothing was started becomes
  -- one that was not started, without a look at the cluster.
  pub reconcile_row-stays :
      (row : JournalRow)
      → is_polled row.state ≡ false
      → reconcile_row c kind plan members row
        ≡ some (if is_planned row.state then interrupted row else row)
  unfolding reconcile_row
  reconcile_row-stays row h = by_state-stays row row.state (poll c kind plan members row) h
