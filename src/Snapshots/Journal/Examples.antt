-- ===== src/Snapshots/Journal/Examples.antt =====
-- Runs of the loop over the members.
use range42_backend_api.Prelude.{
  ◌≡◌, refl, false, true, none, some, [], ◌∷◌, nat_eq, if◌then◌else◌, ◌==◌,
}
use range42_backend_api.Models.{JournalRow}
use range42_backend_api.Snapshots.Journal.{commit, Native, dispatch_members, stale}
use range42_backend_api.Snapshots.Journal.Intent.{HonestThroughout, writes, dispatch_members-honest}
use range42_backend_api.Snapshots.Samples.{planned_row}

abbrev second_row : JournalRow
second_row = record planned_row { vm_id = 2001 }

-- The second guest's write is not confirmed.
abbrev native : Native
native = record { unchanged = λ _. true; task = λ i. if i == 0 then some "UPID" else none }

two_writes :
    writes (dispatch_members native 0 [] (planned_row ∷ second_row ∷ [])) ≡ 2000 ∷ 2001 ∷ []
unfolding dispatch_members nat_eq
two_writes = refl

-- The first guest changed after the review.
changed :
    dispatch_members (record native { unchanged = λ _. false }) 0 [] (planned_row ∷ second_row ∷ [])
    ≡ commit (stale planned_row ∷ stale second_row ∷ []) false ∷ []
unfolding dispatch_members nat_eq
changed = refl

dispatch_members-honest_example :
    HonestThroughout []
      (planned_row ∷ second_row ∷ [])
      (dispatch_members native 0 [] (planned_row ∷ second_row ∷ []))
unfolding nat_eq
dispatch_members-honest_example =
    dispatch_members-honest native (planned_row ∷ second_row ∷ []) ((refl, tt), (tt, tt))
