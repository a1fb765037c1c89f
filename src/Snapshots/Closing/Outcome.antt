-- ===== src/Snapshots/Closing/Outcome.antt =====
-- How a recovery ends: with the operation, its attempt and its lock ended together, or with all
-- three kept.
use mathlib.Core.Option
use mathlib.Core.Path.{subst}
use range42_backend_api.Prelude.{
  ℕ, String, ◌≡◌, All, refl, ap, ◌∙◌, ◌⊎◌, inl, inr, true, false, Option, none, some, List, arith,
  any, all, string_eq, option_eq, Bool-cases, Option-cases,
}
use range42_backend_api.Prelude.Table.{get-update-key, key-get}
use range42_backend_api.Prelude.Result.{ok, >>=-eq-ok, ◌>>=◌}
use range42_backend_api.Models.{
  Db, Attempt, Deployment, Owner, JournalRow, SnapshotOperation, SnapshotSet, OperationState,
  attempt?, operation?, snapshot?,
}
use range42_backend_api.Locks.Exclusion.{Holds}
use range42_backend_api.Lifecycle.{terminal}
use range42_backend_api.Lifecycle.Rows.{attempts-release_lock, operations-release_lock}
use range42_backend_api.Lifecycle.Completion.{not-Holds-release_lock}
use range42_backend_api.Scenario.{or_empty}
use range42_backend_api.Snapshots.Admission.{Host, hosted, binding}
use range42_backend_api.Snapshots.Recovery.{Cluster, reconcile_rows}
use range42_backend_api.Snapshots.Closing.Reading.{
  HasSettled, ReadsAs, all-HasSettled, HasSettled-all, final_state-ReadsAs,
}
use range42_backend_api.Snapshots.Closing.{
  active, is_settled, is_doubtful, final_state, as_attempt, ended_attempt, end_attempt,
  close_operation, close_as, keep_operation, store_rows, reconcile_found, reconcile_operation,
}

pub terminal-as_attempt : (s : OperationState) → terminal (as_attempt s) ≡ true
unfolding terminal as_attempt
terminal-as_attempt OperationState.succeeded = refl
terminal-as_attempt OperationState.partial = refl
terminal-as_attempt _ = refl

-- The operation has ended as `state` with this journal, and so has its attempt `k`, which holds no
-- lock on `d`.
pub record Ended (db : Db) (operation_id k d : String) (state : OperationState)
    (rows : List JournalRow) : Type 0 where
  pub operation_ended : Option.map (λ o. o.state) (operation? db operation_id) ≡ some state
  pub journal : Option.map (λ o. o.members) (operation? db operation_id) ≡ some rows
  pub attempt_ended : Option.map (λ a. a.state) (attempt? db k) ≡ some (as_attempt state)
  pub attempt_terminal : terminal (as_attempt state) ≡ true
  pub unlocked : ¬ Holds db d (Owner.attempt k)

-- The operation goes on with this journal, and the attempt, its lock and its deployment are
-- untouched.
pub record GoesOn (db db' : Db) (operation_id : String) (rows : List JournalRow) : Type 0 where
  pub state : OperationState
  pub operation_state : Option.map (λ o. o.state) (operation? db' operation_id) ≡ some state
  pub journal : Option.map (λ o. o.members) (operation? db' operation_id) ≡ some rows
  pub still_active : active state ≡ true
  pub same_attempts : db'.attempts ≡ db.attempts
  pub same_locks : db'.locks ≡ db.locks
  pub same_deployments : db'.deployments ≡ db.deployments

module _ (now : ℕ) (db : Db) (o : SnapshotOperation) (s : SnapshotSet) (d : String)
    (rows : List JournalRow) where
  keep_operation-GoesOn :
      operation? db o.id ≡ some o
      → active o.state ≡ true
      → GoesOn db (keep_operation db o s rows) o.id rows
  unfolding keep_operation active
  keep_operation-GoesOn e live =
      let doubtful_row =
        get-update-key (λ (x : SnapshotOperation). x.id) o.id
          (λ x. record x { members = rows; state = OperationState.needs_review }) o.id db.operations
          (λ x. refl) in
      let settled_row =
        get-update-key (λ (x : SnapshotOperation). x.id) o.id (λ x. record x { members = rows })
          o.id db.operations (λ x. refl) in
      elim (Bool-cases (any (λ r. is_doubtful r.state) rows)) [
        | inl p ↦ record {
          state = OperationState.needs_review;
          operation_state = ground (arith, doubtful_row);
          journal = ground (arith, doubtful_row);
          still_active = refl;
          same_attempts = ground arith;
          same_locks = ground arith;
          same_deployments = ground arith;
        }
        | inr p ↦ record {
          state = o.state;
          operation_state = ground (arith, settled_row);
          journal = ground (arith, settled_row);
          still_active = live;
          same_attempts = ground arith;
          same_locks = ground arith;
          same_deployments = ground arith;
        }
      ]

  close_operation-Ended :
      (a : Attempt) (k : String)
      → operation? db o.id ≡ some o
      → attempt? db k ≡ some a
      → Ended (close_operation now db o s d rows k) o.id k d (final_state rows) rows
  unfolding close_operation end_attempt
  close_operation-Ended a k e ea =
      let state = final_state rows in
      record {
        operation_ended = rw operations-release_lock (
            ground (
              arith,
              get-update-key (λ (x : SnapshotOperation). x.id) o.id
                  (λ x. record x { members = rows; state = state }) o.id db.operations (λ x. refl),
            ));
        journal = rw operations-release_lock (
            ground (
              arith,
              get-update-key (λ (x : SnapshotOperation). x.id) o.id
                  (λ x. record x { members = rows; state = state }) o.id db.operations (λ x. refl),
            ));
        attempt_ended = rw attempts-release_lock (
            ground (
              arith,
              get-update-key (λ (x : Attempt). x.id) k (ended_attempt now state) k db.attempts
                  (λ x. refl),
            ));
        attempt_terminal = terminal-as_attempt state;
        unlocked = not-Holds-release_lock _ d (Owner.attempt k);
      }

  close_as-Ended :
      (r : Option Attempt) (db' : Db)
      → operation? db o.id ≡ some o
      → attempt? db (or_empty o.attempt_id) ≡ r
      → close_as now db o s d rows r ≡ ok db'
      → Ended db' o.id (or_empty o.attempt_id) d (final_state rows) rows
  unfolding close_as
  close_as-Ended none db' e ea h = absurd (ground arith)
  close_as-Ended (some a) db' e ea h =
      let k = or_empty o.attempt_id in
      let same : a.id ≡ k = key-get (λ (x : Attempt). x.id) k db.attempts a ea in
      subst (λ x. Ended x o.id k d (final_state rows) rows) (ground arith)
        (close_operation-Ended a k e ea)

-- What a recovery that does not fail leaves of an active operation. The journal is the one that
-- the cluster's answers give.
abbrev pub Recovered : Cluster → Db → Db → SnapshotOperation → SnapshotSet → Type 0
Recovered c db db' o s =
    (rows : List JournalRow) × (reconcile_rows c o.kind o.plan s.members o.members ≡ some rows)
    × ((All HasSettled rows
          × ReadsAs rows (final_state rows)
          × Ended db' o.id (or_empty o.attempt_id) s.deployment_id (final_state rows) rows)
        ⊎ ((¬ All HasSettled rows) × GoesOn db db' o.id rows))

module _ (c : Cluster) (now : ℕ) (db db' : Db) (o : SnapshotOperation) (s : SnapshotSet)
    (r : Option (List JournalRow)) where
  stored_rows :
      (rows : List JournalRow)
      → operation? db o.id ≡ some o
      → active o.state ≡ true
      → store_rows now db o s s.deployment_id (some rows) ≡ ok db'
      → (All HasSettled rows
          × ReadsAs rows (final_state rows)
          × Ended db' o.id (or_empty o.attempt_id) s.deployment_id (final_state rows) rows)
        ⊎ ((¬ All HasSettled rows) × GoesOn db db' o.id rows)
  unfolding store_rows
  stored_rows rows e live h = elim (Bool-cases (all (λ r. is_settled r.state) rows)) [
    | inl p ↦ inl (
      all-HasSettled rows p,
      final_state-ReadsAs rows,
      close_as-Ended now db o s s.deployment_id rows (attempt? db (or_empty o.attempt_id)) db' e
          refl (ground arith),
    )
    | inr p ↦ inr (
      λ q. absurd (ground (arith, HasSettled-all rows q)),
      subst (λ x. GoesOn db x o.id rows) (ground arith)
          (keep_operation-GoesOn now db o s s.deployment_id rows e live),
    )
  ]

  store_rows-Recovered :
      reconcile_rows c o.kind o.plan s.members o.members ≡ r
      → operation? db o.id ≡ some o
      → active o.state ≡ true
      → store_rows now db o s s.deployment_id r ≡ ok db'
      → Recovered c db db' o s
  store_rows-Recovered er e live h = elim (Option-cases r) [
    | inl n ↦ absurd (unfold store_rows in ground arith)
    | inr (rows, n) ↦ (
      rows,
      er ∙ n,
      stored_rows rows e live (subst (λ y. store_rows now db o s s.deployment_id y ≡ ok db') n h),
    )
  ]

id-hosted :
    (hosts : String → Option Host) (db : Db) (k : String) (dep : Deployment) (host : Host)
    → hosted hosts db k ≡ ok (dep, host)
    → dep.id ≡ k
unfolding hosted
id-hosted hosts db k dep host h =
    ground (arith, key-get (λ (d : Deployment). d.id) k db.deployments dep)

found-Recovered :
    (c : Cluster) (hosts : String → Option Host) (now : ℕ) (db db' : Db) (o : SnapshotOperation)
    (s : SnapshotSet)
    → operation? db o.id ≡ some o
    → active o.state ≡ true
    → snapshot? db o.set_id ≡ some s
    → reconcile_found c hosts now db o ≡ ok db'
    → Recovered c db db' o s
unfolding reconcile_found
found-Recovered c hosts now db db' o s e live es h =
    let rows = reconcile_rows c o.kind o.plan s.members o.members in
    let ((dep, host), target, h₁) =
      >>=-eq-ok (hosted hosts db s.deployment_id)
        (λ (dep, host). binding s dep host >>= λ _. store_rows now db o s dep.id rows)
        (rw es at h) in
    let (_, bound, h₂) =
      >>=-eq-ok (binding s dep host) (λ _. store_rows now db o s dep.id rows) h₁ in
    let same = id-hosted hosts db s.deployment_id dep host target in
    store_rows-Recovered c now db db' o s rows refl e live
      (subst (λ k. store_rows now db o s k rows ≡ ok db') same h₂)

-- A recovery of an active operation that does not fail stores the journal that the cluster's answers
-- give. If all its rows have settled, it ends the operation, its attempt and the hold of that
-- attempt on the deployment's lock together, as succeeded only when all rows succeeded, as failed
-- only when none did, and as partial only when not all did. If not, the operation stays active,
-- with attempts, locks and deployments untouched.
pub reconcile_operation-Recovered :
    (c : Cluster) (hosts : String → Option Host) (now : ℕ) (db db' : Db) (k : String)
    (o : SnapshotOperation) (s : SnapshotSet)
    → operation? db k ≡ some o
    → snapshot? db o.set_id ≡ some s
    → active o.state ≡ true
    → reconcile_operation c hosts now db k ≡ ok db'
    → Recovered c db db' o s
unfolding reconcile_operation
reconcile_operation-Recovered c hosts now db db' k o s e es live h =
    let same = key-get (λ (x : SnapshotOperation). x.id) k db.operations o e in
    found-Recovered c hosts now db db' o s (ap (λ j. operation? db j) same ∙ e) live es
      (ground arith)

-- Recovery of an operation that is unknown or has ended changes nothing, whatever the cluster says.
pub reconcile_operation-settled :
    (c : Cluster) (hosts : String → Option Host) (now : ℕ) (db : Db) (k : String)
    → ((o : SnapshotOperation) → operation? db k ≡ some o → active o.state ≡ false)
    → reconcile_operation c hosts now db k ≡ ok db
unfolding reconcile_operation
reconcile_operation-settled c hosts now db k ended = elim (Option-cases (operation? db k)) [
  | inl e ↦ ground arith
  | inr (o, e) ↦ ground (arith, ended o e)
]
