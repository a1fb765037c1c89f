-- ===== src/Orphans/Advancing.antt =====
-- Whatever becomes of the attempts of a pass, each is still there and none is reopened.
use mathlib.Core.Option
use mathlib.Core.Path.{subst}
use range42_backend_api.Prelude.{
  ℕ, String, ◌≡◌, refl, inl, inr, true, Option, none, some, List, [], ◌∷◌, arith, ◌==◌, string_eq,
  option_eq, if◌then◌else◌, Bool-cases, Option-cases,
}
use range42_backend_api.Prelude.Result.{ok, Result-cases}
use range42_backend_api.Models.{Db, Attempt, Deployment, ℤ, attempt?}
use range42_backend_api.Scenario.{or_empty}
use range42_backend_api.Lifecycle.{
  Outcome, terminal, advance_attempt_cursor, finish_attempt, finish_row,
}
use range42_backend_api.Lifecycle.Rows.{
  attempt-finish_attempt, advance, attempt-advance_attempt_cursor,
}
use range42_backend_api.Lifecycle.Completion.{terminal-finish_row}
use range42_backend_api.Snapshots.Closing.{ended_attempt, reconcile_operation}
use range42_backend_api.Snapshots.Closing.Outcome.{terminal-as_attempt}
use range42_backend_api.Attempts.Steps.Recovering.{reconcile_operation-cases}
use range42_backend_api.Orphans.{
  Restart, Fate, adopt, drain, finish_recovered, recovered_outcome, with_cursor, unless_verified,
  recover_snapshot, meet,
}

-- Each attempt is still there, and one that has ended has still ended.
pub record Advances (db db' : Db) : Type 0 where
  pub rows :
      (j : String)
      → (f : Attempt → Attempt) × ((a : Attempt)
          → terminal a.state ≡ true
          → terminal (f a).state ≡ true)
        × (attempt? db' j ≡ Option.map f (attempt? db j))

pub Advances-same : (db db' : Db) → db'.attempts ≡ db.attempts → Advances db db'
Advances-same db db' same = record {
  rows = λ j. (
    (λ a. a),
    (λ a h. h),
    elim (Option-cases (attempt? db j)) [ inl n ↦ ground arith | inr (a, h) ↦ ground arith ],
  );
}

-- A change of one row.
Advances-row :
    (db db' : Db) (k : String) (f : Attempt → Attempt)
    → ((a : Attempt) → terminal a.state ≡ true → terminal (f a).state ≡ true)
    → ((j : String)
        → attempt? db' j ≡ (if k == j then Option.map f (attempt? db j) else attempt? db j))
    → Advances db db'
Advances-row db db' k f keeps rows = record {
  rows = λ j. elim (Bool-cases (k == j)) [
    | inl e ↦ (f, keeps, ground (arith, rows j))
    | inr e ↦ (
      (λ a. a),
      (λ a h. h),
      elim (Option-cases (attempt? db j)) [
        | inl n ↦ ground (arith, rows j)
        | inr (a, h) ↦ ground (arith, rows j)
      ],
    )
  ];
}

pub Advances-trans : (a b c : Db) → Advances a b → Advances b c → Advances a c
Advances-trans a b c h g = record {
  rows = λ j.
      let (f, keeps, first) = h.rows j in
      let (f', keeps', second) = g.rows j in
      (
        (λ x. f' (f x)),
        (λ x t. keeps' (f x) (keeps x t)),
        elim (Option-cases (attempt? a j)) [ inl n ↦ ground arith | inr (x, e) ↦ ground arith ],
      );
}

pub Advances-finish_attempt :
    (now : ℕ) (db : Db) (k : String) (o : Outcome) → Advances db (finish_attempt now db k o).1
Advances-finish_attempt now db k o =
    Advances-row db (finish_attempt now db k o).1 k (finish_row now o)
      (λ a h. terminal-finish_row now o a) (attempt-finish_attempt now db k o)

pub Advances-drain : (db : Db) (k : String) (cursors : List ℕ) → Advances db (drain db k cursors)
unfolding drain
Advances-drain db k [] = Advances-same db db refl
Advances-drain db k (cursor ∷ cursors) =
    Advances-trans db (advance_attempt_cursor db k cursor)
      (drain (advance_attempt_cursor db k cursor) k cursors)
      (Advances-row db (advance_attempt_cursor db k cursor) k (advance db k cursor k)
        (λ a h. ground arith) (attempt-advance_attempt_cursor db k cursor))
      (Advances-drain (advance_attempt_cursor db k cursor) k cursors)

module _ (x : Restart) (db : Db) (a : Attempt) where
  Advances-finish_recovered : (rc : Option ℤ) → Advances db (finish_recovered x db a rc)
  unfolding finish_recovered
  Advances-finish_recovered rc =
      let drained = drain db a.id (x.drained a.id) in
      let ended = (finish_attempt x.now drained a.id (recovered_outcome x a rc)).1 in
      Advances-trans db drained (finish_attempt x.now ended a.id (with_cursor rc (x.append a.id))).1
        (Advances-drain db a.id (x.drained a.id))
        (Advances-trans drained ended _ (Advances-finish_attempt x.now drained a.id _)
          (Advances-finish_attempt x.now ended a.id _))

  Advances-adopt : (dep : Deployment) → Advances db (adopt x.now db a dep)
  unfolding adopt
  Advances-adopt dep = Advances-same db (adopt x.now db a dep) (ground arith)

  Advances-recover_snapshot :
      (k : Option String) (db' : Db) → recover_snapshot x db k ≡ ok db' → Advances db db'
  unfolding recover_snapshot unless_verified
  Advances-recover_snapshot none db' h = Advances-same db db' (ground arith)
  Advances-recover_snapshot (some k) db' h =
      elim (Result-cases (reconcile_operation x.cluster x.hosts x.now db k)) [
        | inl (e, r) ↦ Advances-same db db' (ground arith)
        | inr (after, r) ↦
            let same : after ≡ db' = ground arith in subst (Advances db) same (recovery after r)
      ]
    where
      recovery :
          (after : Db)
          → reconcile_operation x.cluster x.hosts x.now db k ≡ ok after
          → Advances db after
      recovery after r = elim (reconcile_operation-cases x.cluster x.hosts x.now db after k r) [
        | inl same ↦ Advances-same db after same.attempts
        | inr (o, _, c) ↦
            Advances-row db after (or_empty o.attempt_id) (ended_attempt x.now c.state)
              (λ b h. terminal-as_attempt c.state) c.rows
      ]

  pub Advances-meet :
      (dep : Deployment) (fate : Fate) (db' : Db) → meet x db a dep fate ≡ ok db' → Advances db db'
  unfolding meet
  Advances-meet dep Fate.snapshot db' h = Advances-recover_snapshot (x.operation_of a.id) db' h
  Advances-meet dep Fate.passed_over db' h = Advances-same db db' (ground arith)
  Advances-meet dep Fate.alive db' h = subst (Advances db) (ground arith) (Advances-adopt dep)
  Advances-meet dep (Fate.gone rc) db' h =
      subst (Advances db) (ground arith) (Advances-finish_recovered rc)
