-- ===== src/Allocations/Leases.antt =====
-- core/allocation_reservations.py, `get_or_release`: a draft read or given back by its owner.
mod Release
mod Examples
use range42_backend_api.Prelude.{
  ℕ, String, Bool, true, false, Option, none, some, List, leb, if◌then◌else◌, string_eq,
}
use range42_backend_api.Prelude.Table.{delete}
use range42_backend_api.Prelude.Result.{Result, ok, raise, error, raise_if, ◌>>=◌, ◌>>◌}
use range42_backend_api.Allocations.{
  AllocationReservation, Ledger, Codec, reservation?, refuse, token_digest, ownership,
}

-- The row of the reservation: `none` of a lease is the answer to a release.
released :
    ℕ → Ledger → Bool → AllocationReservation → Result (Option AllocationReservation × Ledger)
released now l true row =
    ok (none, record l { reservations = delete (λ r. r.id) row.id l.reservations })
released now l false row =
    if leb row.expires_at now then refuse "ALLOCATION_EXPIRED" else ok (some row, l)

owned :
    ℕ
    → Ledger
    → String
    → String
    → Bool
    → Option AllocationReservation
    → Result (Option AllocationReservation × Ledger)
owned now l token_hash host_id release none = refuse "ALLOCATION_EXPIRED"
owned now l token_hash host_id release (some row) = do
  ownership row token_hash host_id
  released now l release row

pub get_or_release :
    Codec
    → ℕ
    → Ledger
    → String
    → String
    → String
    → Bool
    → Result (Option AllocationReservation × Ledger)
get_or_release x now l host_id reservation_id token release = do
  token_hash ← token_digest x token
  owned now l token_hash host_id release (reservation? l reservation_id)
