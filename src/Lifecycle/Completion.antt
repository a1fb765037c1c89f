-- ===== src/Lifecycle/Completion.antt =====
-- Completion of an attempt: it ends in a terminal state, the first recorded end stands, and a
-- request to cancel decides it.
use mathlib.Core.Option
use range42_backend_api.Prelude.{
  ℕ, String, ◌≡◌, ap, true, false, none, some, arith, string_eq, option_eq, Option-cases,
  Bool-cases, ◌≢◌, inl, inr, ◌⊎◌, ◌↔◌, ◌≤◌,
}
use range42_backend_api.Models.{Db, Attempt, AttemptState, Owner, attempt?, ℤ}
use range42_backend_api.Prelude.Table.{get-update-key}
use range42_backend_api.Locks.{release_lock}
use range42_backend_api.Locks.Exclusion.{Holds, release_lock_lem}
use range42_backend_api.Lifecycle.{
  finish_attempt, finish_found, finish_row, finished, terminal_state, terminal, cancel_requested,
  Outcome,
}
use range42_backend_api.Lifecycle.Rows.{attempt-finish_attempt, recorded, id-finish_row}

abbrev key : Attempt → String
key a = a.id

terminal-terminal_state : (o : Outcome) → terminal (terminal_state o) ≡ true
unfolding terminal terminal_state
terminal-terminal_state o = ground arith

pub terminal-finish_row :
    (now : ℕ) (o : Outcome) (a : Attempt) → terminal (finish_row now o a).state ≡ true
unfolding finish_row finished
terminal-finish_row now o a = ground (arith, terminal-terminal_state o)

pub not-Holds-release_lock :
    (db : Db) (k : String) (owner : Owner) → ¬ Holds (release_lock db k owner).1 k owner
not-Holds-release_lock db k owner = elim (release_lock_lem db k owner) [
  | inl (_, _, rows) ↦ λ (l, e, _). ground (arith, rows k)
  | inr (same, free) ↦ rw same free
]

module _ (now : ℕ) (db : Db) (k : String) (o : Outcome) (a : Attempt) where
  -- The reported state is terminal, it is that of the row, and the attempt holds no lock.
  abbrev pub Ends : Type 0
  Ends =
      (s : AttemptState) × ((finish_attempt now db k o).0 ≡ some s)
      × (terminal s ≡ true)
      × (Option.map (λ x. x.state) (attempt? (finish_attempt now db k o).1 k) ≡ some s)
      × ¬ Holds (finish_attempt now db k o).1 a.deployment_id (Owner.attempt k)

  -- The reported state is that of `a`, and the row is `a` but for the return code and the cursor.
  abbrev pub Stands : Type 0
  Stands =
      ((finish_attempt now db k o).0 ≡ some a.state)
      × ((x : Attempt) × (attempt? (finish_attempt now db k o).1 k ≡ some x)
          × (record x { rc = a.rc; event_cursor_tip = a.event_cursor_tip } ≡ a)
          × ((x.rc ≡ a.rc) ⊎ (a.rc ≡ none))
          × (a.event_cursor_tip ≤ x.event_cursor_tip))

-- The row `a` succeeds with this outcome.
abbrev pub Succeeds : Outcome → Attempt → Type 0
Succeeds o a =
    (a.state ≡ AttemptState.succeeded)
    ⊎ ((terminal a.state ≡ false)
        × (a.sub_reason ≢ some "cancel_requested")
        × (o.rc ≡ some (ℤ.pos 0))
        × (o.error_code ≡ none)
        × (o.cancelled ≡ false)
        × (o.unknown ≡ false)
        × (o.partial ≡ false))

module _ (now : ℕ) (o : Outcome) (a : Attempt) where
  row-Succeeds : (finish_row now o a).state ≡ AttemptState.succeeded → Succeeds o a
  unfolding finish_row finished terminal_state terminal
  row-Succeeds h = elim (Bool-cases (terminal a.state)) [
    | inl e ↦ inl (ground arith)
    | inr e ↦
        inr (e, ground arith, ground arith, ground arith, ground arith, ground arith, ground arith)
  ]

  Succeeds-row : Succeeds o a → (finish_row now o a).state ≡ AttemptState.succeeded
  unfolding finish_row finished terminal_state terminal
  Succeeds-row (inl e) = ground arith
  Succeeds-row (inr (live, free, rc, code, c, u, p)) = ground arith

module _ (now : ℕ) (db : Db) (k : String) (o : Outcome) (a : Attempt)
    (e : attempt? db k ≡ some a) where
  result-finish_attempt : (finish_attempt now db k o).0 ≡ some (finish_row now o a).state
  unfolding finish_attempt finish_found
  result-finish_attempt =
      rw (get-update-key key k (finish_row now o) k db.attempts (id-finish_row now o))
        (ground arith)

  row-finish_attempt : attempt? (finish_attempt now db k o).1 k ≡ some (finish_row now o a)
  row-finish_attempt = ground (arith, attempt-finish_attempt now db k o k)

  recorded_row : attempt? (recorded now db k o) k ≡ some (finish_row now o a)
  recorded_row =
      ground (arith, get-update-key key k (finish_row now o) k db.attempts (id-finish_row now o))

  unlocked-finish_attempt :
      ¬ Holds (finish_attempt now db k o).1 (finish_row now o a).deployment_id (Owner.attempt k)
  unfolding finish_attempt finish_found
  unlocked-finish_attempt =
      rw recorded_row
        (not-Holds-release_lock _ (finish_row now o a).deployment_id (Owner.attempt k))

  same_deployment : (finish_row now o a).deployment_id ≡ a.deployment_id
  unfolding finish_row
  same_deployment = ground arith

  -- Whatever the outcome, `finish_attempt` on a stored attempt reports a terminal state, that is the
  -- state of the row, and the attempt no longer holds the lock of its deployment.
  pub finish_attempt-ends : Ends now db k o a
  finish_attempt-ends = (
    (finish_row now o a).state,
    result-finish_attempt,
    terminal-finish_row now o a,
    rw row-finish_attempt,
    rw same_deployment at unlocked-finish_attempt,
  )

  -- A request to cancel decides an attempt that has not ended, whatever the process returned: it
  -- ends as cancelled, for that reason.
  pub finish_attempt-cancelled :
      terminal a.state ≡ false
      → cancel_requested a ≡ true
      → ((finish_attempt now db k o).0 ≡ some AttemptState.cancelled)
        × (Option.map (λ x. x.sub_reason) (attempt? (finish_attempt now db k o).1 k)
            ≡ some (some "cancel_requested"))
  unfolding finish_row finished
  finish_attempt-cancelled live asked =
      (rw result-finish_attempt (ground arith), rw row-finish_attempt (ground arith))

  -- The first recorded end stands: a later call reports that state, and changes of the row no more
  -- than a missing return code and a lower cursor.
  pub finish_attempt-stands : terminal a.state ≡ true → Stands now db k o a
  unfolding finish_row finished
  finish_attempt-stands ended = (
    rw result-finish_attempt (ground arith),
    (finish_row now o a, row-finish_attempt, ground arith, ground arith, ground arith),
  )

  -- Whatever the stored attempt and the outcome, `finish_attempt` reports success exactly when the
  -- row had succeeded before, or it had not ended, its cancellation was not asked for, the process
  -- returned zero, no error code was given, and the outcome is neither cancelled, unknown nor
  -- partial.
  pub finish_attempt-success_iff :
      ((finish_attempt now db k o).0 ≡ some AttemptState.succeeded) ↔ Succeeds o a
  finish_attempt-success_iff =
      rw result-finish_attempt
        (λ h. row-Succeeds now o a (ground arith), λ s. ap some (Succeeds-row now o a s))

finish_row_idem :
    (now later : ℕ) (o : Outcome) (a : Attempt)
    → finish_row later o (finish_row now o a) ≡ finish_row now o a
unfolding finish_row
finish_row_idem now later o a =
    ground (arith, terminal-finish_row now o a, terminal-terminal_state o)

-- A repeated completion with the same outcome, however much later, changes no attempt.
pub finish_attempt_idem :
    (now later : ℕ) (db : Db) (k : String) (o : Outcome) (j : String)
    → attempt? (finish_attempt later (finish_attempt now db k o).1 k o).1 j
      ≡ attempt? (finish_attempt now db k o).1 j
finish_attempt_idem now later db k o j =
    let once = (finish_attempt now db k o).1 in
    let first = attempt-finish_attempt now db k o j in
    let second = attempt-finish_attempt later once k o j in
    elim (Option-cases (attempt? db j)) [
      | inl e ↦ ground (arith, first, second)
      | inr (a, e) ↦ ground (arith, first, second, finish_row_idem now later o a)
    ]
