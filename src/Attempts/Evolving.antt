-- ===== src/Attempts/Evolving.antt =====
-- What a transaction may make of the attempts: each goes on, and none is reopened.
use mathlib.Core.Option
use range42_backend_api.Prelude.{
  ℕ, String, ◌≡◌, refl, ◌≤◌, true, Option, arith, ◌==◌, string_eq, if◌then◌else◌, Option-cases,
  Bool-cases, inl, inr,
}
use range42_backend_api.Models.{Db, Attempt, attempt?}
use range42_backend_api.Lifecycle.{terminal, cancel_requested, Outcome, finish_row, finished}
use range42_backend_api.Lifecycle.Rows.{current?, mark, advance}
use range42_backend_api.Models.{OperationState}
use range42_backend_api.Snapshots.Closing.{ended_attempt}
use range42_backend_api.Snapshots.Closing.Outcome.{terminal-as_attempt}
use range42_backend_api.Attempts.Steps.Cancel.{cancel_row}

-- What an attempt keeps through any transaction.
pub record Evolves (a b : Attempt) : Type 0 where
  pub same_deployment : b.deployment_id ≡ a.deployment_id
  pub same_scope : b.scope ≡ a.scope
  pub settled : terminal a.state ≡ true → terminal b.state ≡ true
  pub tip : a.event_cursor_tip ≤ b.event_cursor_tip
  pub asked : cancel_requested a ≡ true → cancel_requested b ≡ true

pub Evolves-refl : (a : Attempt) → Evolves a a
Evolves-refl a = record {
  same_deployment = refl;
  same_scope = refl;
  settled = λ e. e;
  tip = omega arith;
  asked = λ h. h;
}

pub Evolves-trans : (a b c : Attempt) → Evolves a b → Evolves b c → Evolves a c
unfolding terminal
Evolves-trans a b c h g = record {
  same_deployment = cc;
  same_scope = cc;
  settled = λ e. g.settled (h.settled e);
  tip = omega arith;
  asked = λ e. g.asked (h.asked e);
}

pub Evolves-finish_row : (now : ℕ) (o : Outcome) (a : Attempt) → Evolves a (finish_row now o a)
unfolding finish_row finished
Evolves-finish_row now o a = ground arith

pub Evolves-mark :
    (now : ℕ) (db : Db) (k : String) (pid : Option ℕ) (dir : String) (a : Attempt)
    → Evolves a (mark now db k pid dir a)
Evolves-mark now db k pid dir a = ground arith

pub Evolves-cancel_row : (a : Attempt) → Evolves a (cancel_row a)
Evolves-cancel_row a = ground arith

pub Evolves-advance :
    (db : Db) (k : String) (tip : ℕ) (j : String) (a : Attempt) → Evolves a (advance db k tip j a)
Evolves-advance db k tip j a = ground arith

-- The end of a snapshot operation's attempt, which the code writes whatever its state is.
pub Evolves-ended :
    (now : ℕ) (state : OperationState) (a : Attempt) → Evolves a (ended_attempt now state a)
Evolves-ended now state a = record {
  same_deployment = refl;
  same_scope = refl;
  settled = λ _. terminal-as_attempt state;
  tip = omega arith;
  asked = λ h. h;
}

-- Each attempt goes on to one that it evolves into, and the current attempts stay.
pub record Maps (db db' : Db) : Type 0 where
  pub rows :
      (j : String)
      → (f : Attempt → Attempt) × ((a : Attempt) → Evolves a (f a))
        × (attempt? db' j ≡ Option.map f (attempt? db j))
  pub current : (j : String) → current? db' j ≡ current? db j

-- A change of one row.
pub Maps-row :
    (db db' : Db) (k : String) (f : Attempt → Attempt)
    → ((a : Attempt) → Evolves a (f a))
    → ((j : String)
        → attempt? db' j ≡ (if k == j then Option.map f (attempt? db j) else attempt? db j))
    → ((j : String) → current? db' j ≡ current? db j)
    → Maps db db'
Maps-row db db' k f evolves rows current = record {
  rows = λ j. elim (Bool-cases (k == j)) [
    | inl e ↦ (f, evolves, ground (arith, rows j))
    | inr e ↦ (
      (λ a. a),
      Evolves-refl,
      elim (Option-cases (attempt? db j)) [
        | inl n ↦ ground (arith, rows j)
        | inr (a, h) ↦ ground (arith, rows j)
      ],
    )
  ];
  current = current;
}

-- A change of the locks alone.
pub Maps-locks :
    (db db' : Db) → db'.attempts ≡ db.attempts → db'.deployments ≡ db.deployments → Maps db db'
Maps-locks db db' a d =
    Maps-row db db' "" (λ x. x) Evolves-refl
      (λ j. elim (Option-cases (attempt? db j)) [
        | inl n ↦ ground arith
        | inr (x, h) ↦ ground arith
      ])
      (λ j. rw d)
