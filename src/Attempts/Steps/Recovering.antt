-- ===== src/Attempts/Steps/Recovering.antt =====
-- What the recovery of a snapshot operation leaves of the attempts.
use mathlib.Core.Option
use mathlib.Core.Path.{subst}
use range42_backend_api.Prelude.{
  ℕ, String, ◌≡◌, ◌⊎◌, inl, inr, refl, Option, none, some, List, arith, ◌==◌, string_eq, option_eq,
  if◌then◌else◌, Bool-cases, Option-cases, all, any,
}
use range42_backend_api.Prelude.Table.{get-update-key, get-update_if, key-get}
use range42_backend_api.Prelude.Result.{ok, ◌>>=◌, >>=-eq-ok}
use range42_backend_api.Models.{
  Db, Attempt, Deployment, JournalRow, SnapshotOperation, SnapshotSet, OperationState, attempt?,
  operation?, snapshot?,
}
use range42_backend_api.Scenario.{or_empty}
use range42_backend_api.Lifecycle.Rows.{current?, attempts-release_lock, deployments-release_lock}
use range42_backend_api.Snapshots.Admission.{Host, hosted, binding}
use range42_backend_api.Snapshots.Recovery.{Cluster, reconcile_rows}
use range42_backend_api.Snapshots.Closing.{
  active, is_settled, is_doubtful, final_state, as_attempt, ended_attempt, end_attempt,
  close_operation, close_as, keep_operation, store_rows, reconcile_found, reconcile_operation,
}

-- The attempt `k` has ended, and no deployment points elsewhere than before.
pub record Closed (now : ℕ) (db db' : Db) (k : String) : Type 0 where
  pub state : OperationState
  pub rows :
      (j : String)
      → attempt? db' j
        ≡ (if k == j then Option.map (ended_attempt now state) (attempt? db j) else attempt? db j)
  pub current : (j : String) → current? db' j ≡ current? db j

pub record Untouched (db db' : Db) : Type 0 where
  pub attempts : db'.attempts ≡ db.attempts
  pub deployments : db'.deployments ≡ db.deployments

module _ (now : ℕ) (db : Db) (o : SnapshotOperation) (s : SnapshotSet) (d : String)
    (rows : List JournalRow) where
  close_operation-Closed : (k : String) → Closed now db (close_operation now db o s d rows k) k
  unfolding close_operation end_attempt
  close_operation-Closed k =
      let state = final_state rows in
      record {
        state = state;
        rows = λ j. rw attempts-release_lock (
            get-update-key (λ (x : Attempt). x.id) k (ended_attempt now state) j db.attempts
              (λ x. refl));
        current = λ j. rw deployments-release_lock (
            ground (
              arith,
              get-update_if (λ (x : Deployment). x.id) d
                  (λ x. record x { state = as_attempt state }) (λ x. x.current_attempt_id == some k)
                  j db.deployments (λ x. refl),
            ));
      }

  keep_operation-Untouched : Untouched db (keep_operation db o s rows)
  unfolding keep_operation
  keep_operation-Untouched = elim (Bool-cases (any (λ r. is_doubtful r.state) rows)) [
    | inl p ↦ record { attempts = ground arith; deployments = ground arith }
    | inr p ↦ record { attempts = ground arith; deployments = ground arith }
  ]

  close_as-Closed :
      (r : Option Attempt) (db' : Db)
      → attempt? db (or_empty o.attempt_id) ≡ r
      → close_as now db o s d rows r ≡ ok db'
      → Closed now db db' (or_empty o.attempt_id)
  unfolding close_as
  close_as-Closed none db' e h = absurd (ground arith)
  close_as-Closed (some a) db' e h =
      let same : a.id ≡ or_empty o.attempt_id =
        key-get (λ (x : Attempt). x.id) (or_empty o.attempt_id) db.attempts a e in
      let closed : close_operation now db o s d rows a.id ≡ db' = ground arith in
      subst (λ k. Closed now db db' k) same
        (subst (λ x. Closed now db x a.id) closed (close_operation-Closed a.id))

store_rows-cases :
    (now : ℕ) (db : Db) (o : SnapshotOperation) (s : SnapshotSet) (d : String)
    (r : Option (List JournalRow)) (db' : Db)
    → store_rows now db o s d r ≡ ok db'
    → Untouched db db' ⊎ Closed now db db' (or_empty o.attempt_id)
unfolding store_rows
store_rows-cases now db o s d none db' h = absurd (ground arith)
store_rows-cases now db o s d (some rows) db' h =
    elim (Bool-cases (all (λ r. is_settled r.state) rows)) [
      | inl p ↦ inr (
          close_as-Closed now db o s d rows (attempt? db (or_empty o.attempt_id)) db' refl
            (ground arith))
      | inr p ↦
          inl (
            subst (λ x. Untouched db x) (ground arith) (keep_operation-Untouched now db o s d rows))
    ]

found-cases :
    (c : Cluster) (hosts : String → Option Host) (now : ℕ) (db db' : Db) (o : SnapshotOperation)
    (s : Option SnapshotSet)
    → snapshot? db o.set_id ≡ s
    → reconcile_found c hosts now db o ≡ ok db'
    → Untouched db db' ⊎ Closed now db db' (or_empty o.attempt_id)
unfolding reconcile_found
found-cases c hosts now db db' o none es h = absurd (ground arith)
found-cases c hosts now db db' o (some s) es h =
    let rows = reconcile_rows c o.kind o.plan s.members o.members in
    let ((dep, host), _, h₁) =
      >>=-eq-ok (hosted hosts db s.deployment_id)
        (λ (dep, host). binding s dep host >>= λ _. store_rows now db o s dep.id rows)
        (rw es at h) in
    let (_, _, h₂) = >>=-eq-ok (binding s dep host) (λ _. store_rows now db o s dep.id rows) h₁ in
    store_rows-cases now db o s dep.id rows db' h₂

-- A recovery leaves attempts and deployments alone, or ends the attempt of its operation.
pub reconcile_operation-cases :
    (c : Cluster) (hosts : String → Option Host) (now : ℕ) (db db' : Db) (k : String)
    → reconcile_operation c hosts now db k ≡ ok db'
    → Untouched db db'
      ⊎ ((o : SnapshotOperation) × (operation? db k ≡ some o)
          × Closed now db db' (or_empty o.attempt_id))
unfolding reconcile_operation
reconcile_operation-cases c hosts now db db' k h = elim (Option-cases (operation? db k)) [
  | inl e ↦ inl (record { attempts = ground arith; deployments = ground arith })
  | inr (o, e) ↦ elim (Bool-cases (active o.state)) [
    | inl live ↦
        elim (found-cases c hosts now db db' o (snapshot? db o.set_id) refl (ground arith)) [
          | inl same ↦ inl same
          | inr closed ↦ inr (o, e, closed)
        ]
    | inr ended ↦ inl (record { attempts = ground arith; deployments = ground arith })
  ]
]
