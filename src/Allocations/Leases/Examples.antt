-- ===== src/Allocations/Leases/Examples.antt =====
-- The owner gives a draft back; a stranger does not.
use range42_backend_api.Prelude.{◌≡◌, refl, none, [], ◌∷◌, true, string_eq}
use range42_backend_api.Prelude.Table.{get, delete}
use range42_backend_api.Prelude.Result.{ok, raise, error}
use range42_backend_api.Allocations.{token_digest, ownership}
use range42_backend_api.Allocations.Samples.{neighbour, ledger, codec}
use range42_backend_api.Allocations.Leases.{get_or_release, owned, released}
use range42_backend_api.Allocations.Leases.Release.{Answered, get_or_release-Answered}

gives_back :
    get_or_release codec 100 ledger "h1" "r1" "token" true
    ≡ ok (none, record { reservations = []; claims = neighbour ∷ [] })
unfolding get_or_release owned released token_digest ownership get delete string_eq
gives_back = refl

wrong_host :
    get_or_release codec 100 ledger "h2" "r1" "token" true
    ≡ raise (error 403 "ALLOCATION_OWNERSHIP")
unfolding get_or_release owned token_digest ownership get string_eq
wrong_host = refl

get_or_release-Answered_example :
    Answered codec 100 ledger "h1" "r1" "token" true none
      (record { reservations = []; claims = neighbour ∷ [] })
get_or_release-Answered_example =
    get_or_release-Answered codec 100 ledger "h1" "r1" "token" true none
      (record { reservations = []; claims = neighbour ∷ [] }) gives_back
