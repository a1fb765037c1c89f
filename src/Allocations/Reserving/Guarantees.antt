-- ===== src/Allocations/Reserving/Guarantees.antt =====
-- What the caller of `reserve` may rely on.
use range42_backend_api.Prelude.{
  ℕ, ◌≡◌, String, true, Option, some, List, [], ◌∷◌, map, All, arith, nat_eq, string_eq,
}
use range42_backend_api.Prelude.Dict.{All-contains}
use range42_backend_api.Prelude.Table.{Unique}
use range42_backend_api.Prelude.Result.{Result, ok}
use range42_backend_api.Allocations.{Assignment, AllocationReservation, TargetHost, Ledger, Codec}
use range42_backend_api.Allocations.Request.{AllocationRequest, Ipv4}
use range42_backend_api.Allocations.Planning.{Occupancy}
use range42_backend_api.Allocations.Planning.Keys.{IsCoherent}
use range42_backend_api.Allocations.Binding.Claiming.{AreApart}
use range42_backend_api.Allocations.Reserving.{Round, pending, reserve}
use range42_backend_api.Allocations.Reserving.Rounds.{reserve-Saved}
use range42_backend_api.Allocations.Reserving.Disjointness.{transact-Commit, AreApart-Commit}

abbrev vmids : List Assignment → List ℕ
vmids row = map (λ (a : Assignment). a.vm_id) row

-- Where nothing is left to probe, all is checked.
pending-nothing :
    (P : ℕ → Type 0) (checked_free vs : List ℕ)
    → pending checked_free vs ≡ []
    → All P checked_free
    → All P vs
unfolding pending
pending-nothing P checked_free [] h all = tt
pending-nothing P checked_free (v ∷ vs) h all = (
  All-contains P checked_free v all (ground arith),
  pending-nothing P checked_free vs (ground arith) all,
)

-- Suppose that in every round the reservations have different ids and the rows of the two tables,
-- expired leases aside, share no VMID and no address. If a reservation for a coherent request
-- succeeds, then it has saved in a round after which that is still so, and in some round a
-- probe has reported every VMID of the lease as free.
pub reserve-AreApart :
    (codec : Codec) (x : Ipv4) (host : TargetHost) (payload : AllocationRequest) (token : String)
    (reserved : Option Occupancy) (tables : Ledger) (now : ℕ) (inventory : Result Occupancy)
    (checked_at : ℕ) (env : ℕ → Round) (row : AllocationReservation) (after : Ledger)
    → IsCoherent payload.vms
    → ((i : ℕ) → Unique (λ (r : AllocationReservation). r.id) (env i).tables.reservations)
    → ((i : ℕ) → AreApart (env i).now (env i).tables)
    → reserve codec x host payload token reserved tables now inventory checked_at env
      ≡ some (ok (row, after))
    → (i : ℕ) × AreApart (env i).now after
      × All
          (λ v. (k : ℕ) × ((env k).vmid_is_free v ≡ true))
          (map (λ (a : Assignment). a.vm_id) row.assignments)
reserve-AreApart codec x host payload token reserved tables now inventory checked_at env row after
      coherent unique apart e =
    let (digest, occupancy, _, _, s) =
      reserve-Saved codec x host payload token reserved tables now inventory checked_at env row
        after e in
    let c =
      transact-Commit codec x payload host digest checked_at s.occupancy s.checked_free (env s.i)
        row after s.committed in
    (
      s.i,
      AreApart-Commit codec x payload host digest checked_at s.occupancy s.checked_free (env s.i)
          row after c coherent (unique s.i) (apart s.i),
      pending-nothing _ s.checked_free _ c.is_checked s.probed,
    )
