-- ===== src/Snapshots/Journal.antt =====
-- core/snapshot_sets.py, `execute`: the loop over the members. What matters is the order of what
-- becomes durable and what leaves the process, so the loop is the list of its effects: each
-- `session.commit()` with the journal that it stores, and each native write.
pub mod Intent
mod Examples
use range42_backend_api.Prelude.{
  ℕ, suc, ◌+◌, String, Bool, true, false, not, Option, none, some, List, [], ◌∷◌, ◌++◌, map,
  if◌then◌else◌,
}
use range42_backend_api.Models.{JournalRow, MemberState}

pub data Effect : Type 0 where
  -- the stored journal, and whether the operation is stored as `needs_review`
  commit : List JournalRow → Bool → Effect
  -- a snapshot is created, rolled back or deleted on the guest
  native_write : ℕ → Effect

-- `SNAPSHOT_PLAN_STALE`: the guard of a member failed before its write.
abbrev pub stale : JournalRow → JournalRow
stale row = record row { state = MemberState.not_started; code = some "SNAPSHOT_PLAN_STALE" }

abbrev pub dispatching : JournalRow → JournalRow
dispatching row = record row { state = MemberState.dispatching }

abbrev pub accepted : String → JournalRow → JournalRow
accepted upid row = record row { state = MemberState.accepted; upid = some upid }

abbrev pub unconfirmed : JournalRow → JournalRow
unconfirmed row = record row {
  state = MemberState.unconfirmed;
  code = some "SNAPSHOT_DISPATCH_UNCONFIRMED";
}

abbrev pub not_started : JournalRow → JournalRow
not_started row = record row { state = MemberState.not_started }

-- What the loop meets at the member of an index: whether the binding, the retention policy and the
-- guest are as reviewed, and the task that the native write answered with, if it names this member.
pub record Native : Type 0 where
  pub unchanged : ℕ → Bool
  pub task : ℕ → Option String

-- The loop from the member of index `i` on. `before` are the rows that are done.
unfoldable pub dispatch_members : Native → ℕ → List JournalRow → List JournalRow → List Effect
dispatch_members n i before [] = []
dispatch_members n i before (row ∷ rest) =
    let later =
      λ (upid : String). dispatch_members n (i + 1) (before ++ accepted upid row ∷ []) rest in
    if not (n.unchanged i)
    then commit (before ++ map stale (row ∷ rest)) false ∷ []
    else commit (before ++ dispatching row ∷ rest) false
      ∷ native_write row.vm_id
      ∷ elim (n.task i) [
        | none ↦ commit (before ++ unconfirmed row ∷ map not_started rest) true ∷ []
        | some upid ↦ commit (before ++ accepted upid row ∷ rest) false ∷ later upid
      ]
