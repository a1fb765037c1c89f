-- ===== src/Snapshots/Recovery/Examples.antt =====
-- Members read back from the cluster.
use range42_backend_api.Prelude.{◌≡◌, refl, some, nat_eq, string_eq, option_eq, arith}
use range42_backend_api.Models.{SnapshotKind}
use range42_backend_api.Snapshots.Recovery.{validate_task, reconcile_row, proof_eq}
use range42_backend_api.Snapshots.Recovery.Settlement.{Evidence, reconcile_row-Evidence}
use range42_backend_api.Snapshots.Samples.{
  cluster, plan, stored_set, accepted_row, succeeded_row, finished_task,
}

read_back :
    reconcile_row cluster SnapshotKind.create plan stored_set.members accepted_row
    ≡ some succeeded_row
unfolding reconcile_row validate_task string_eq option_eq nat_eq
read_back = refl

-- A task that still runs leaves its row.
still_running :
    reconcile_row
      (record cluster { task = λ _. some (record finished_task { status = some "running" }) })
      SnapshotKind.create
      plan
      stored_set.members
      accepted_row
    ≡ some accepted_row
unfolding reconcile_row validate_task string_eq option_eq nat_eq
still_running = refl

reconcile_row-Evidence_example :
    Evidence cluster SnapshotKind.create plan stored_set.members accepted_row succeeded_row
reconcile_row-Evidence_example =
    reconcile_row-Evidence cluster SnapshotKind.create plan stored_set.members accepted_row
      succeeded_row read_back (ground arith) refl
