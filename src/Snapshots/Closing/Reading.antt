-- ===== src/Snapshots/Closing/Reading.antt =====
-- What a settled journal says of the end of its operation.
use range42_backend_api.Prelude.{
  ◌≡◌, ◌≢◌, All, refl, ◌⊎◌, inl, inr, true, false, List, [], ◌∷◌, all, any, arith,
}
use range42_backend_api.Models.{JournalRow, MemberState, OperationState}
use range42_backend_api.Snapshots.Closing.{is_settled, has_succeeded, final_state}

-- `succeeded`, `failed` or `not_started`
abbrev pub HasSettled : JournalRow → Type 0
HasSettled row =
    (row.state ≡ MemberState.succeeded)
    ⊎ ((row.state ≡ MemberState.failed) ⊎ (row.state ≡ MemberState.not_started))

-- How a settled journal reads: success is that of all rows, failure is that no row succeeded.
pub record ReadsAs (rows : List JournalRow) (state : OperationState) : Type 0 where
  pub whole : state ≡ OperationState.succeeded → All (λ r. r.state ≡ MemberState.succeeded) rows
  pub none_succeeded :
      state ≡ OperationState.failed → All (λ r. r.state ≢ MemberState.succeeded) rows
  pub some_other :
      state ≡ OperationState.partial → ¬ All (λ r. r.state ≡ MemberState.succeeded) rows
  pub one_of_three :
      (state ≡ OperationState.succeeded)
      ⊎ ((state ≡ OperationState.partial) ⊎ (state ≡ OperationState.failed))

settled-HasSettled : (row : JournalRow) → is_settled row.state ≡ true → HasSettled row
unfolding is_settled
settled-HasSettled row e = ground arith

HasSettled-settled : (row : JournalRow) → HasSettled row → is_settled row.state ≡ true
unfolding is_settled
HasSettled-settled row (inl e) = ground arith
HasSettled-settled row (inr (inl e)) = ground arith
HasSettled-settled row (inr (inr e)) = ground arith

pub all-HasSettled :
    (rows : List JournalRow) → all (λ r. is_settled r.state) rows ≡ true → All HasSettled rows
all-HasSettled [] e = tt
all-HasSettled (r ∷ rows) e =
    (settled-HasSettled r (ground arith), all-HasSettled rows (ground arith))

pub HasSettled-all :
    (rows : List JournalRow) → All HasSettled rows → all (λ r. is_settled r.state) rows ≡ true
HasSettled-all [] e = refl
HasSettled-all (r ∷ rows) (p, ps) = ground (arith, HasSettled-settled r p, HasSettled-all rows ps)

all-succeeded :
    (rows : List JournalRow)
    → all (λ r. has_succeeded r.state) rows ≡ true
    → All (λ r. r.state ≡ MemberState.succeeded) rows
all-succeeded [] e = tt
all-succeeded (r ∷ rows) e = (ground arith, all-succeeded rows (ground arith))

succeeded-all :
    (rows : List JournalRow)
    → All (λ r. r.state ≡ MemberState.succeeded) rows
    → all (λ r. has_succeeded r.state) rows ≡ true
succeeded-all [] e = refl
succeeded-all (r ∷ rows) (p, ps) = ground (arith, succeeded-all rows ps)

none-succeeded :
    (rows : List JournalRow)
    → any (λ r. has_succeeded r.state) rows ≡ false
    → All (λ r. r.state ≢ MemberState.succeeded) rows
none-succeeded [] e = tt
none-succeeded (r ∷ rows) e = (λ p. absurd (ground arith), none-succeeded rows (ground arith))

no_partial :
    (rows : List JournalRow)
    → All (λ r. r.state ≡ MemberState.succeeded) rows
    → final_state rows ≢ OperationState.partial
unfolding final_state
no_partial [] p e = absurd (ground arith)
no_partial (r ∷ rows) p e = absurd (ground (arith, succeeded-all (r ∷ rows) p))

pub final_state-ReadsAs : (rows : List JournalRow) → ReadsAs rows (final_state rows)
unfolding final_state
final_state-ReadsAs rows = record {
  whole = λ e. all-succeeded rows (ground arith);
  none_succeeded = λ e. none-succeeded rows (ground arith);
  some_other = λ e p. no_partial rows p e;
  one_of_three = ground arith;
}
