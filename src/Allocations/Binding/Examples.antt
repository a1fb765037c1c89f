-- ===== src/Allocations/Binding/Examples.antt =====
-- A deployment that takes over a draft, beside another deployment.
use range42_backend_api.Prelude.{
  ◌≡◌, ◌⊎◌, refl, none, some, [], ◌∷◌, string_eq, nat_eq, option_eq, arith, false,
}
use range42_backend_api.Prelude.Table.{get, delete}
use range42_backend_api.Prelude.Result.{ok, raise, error}
use range42_backend_api.Lifecycle.Samples.{deployment}
use range42_backend_api.Vmids.{is_protected, default_protected_ranges}
use range42_backend_api.Allocations.{
  DeploymentAllocation, token_digest, ownership, protected_ranges, overlaps, same_vmid,
  share_address, same_address,
}
use range42_backend_api.Allocations.Documents.{same_mapping}
use range42_backend_api.Allocations.Binding.{
  bind, transfer, reviewed, with_token, settle, claim_fresh, is_occupied, consume,
}
use range42_backend_api.Allocations.Binding.Disjointness.{bind-AreApart, bind-Claimed}
use range42_backend_api.Allocations.Binding.Agreement.{IsBound}
use range42_backend_api.Allocations.Binding.Vacancy.{IsFresh}
use range42_backend_api.Allocations.Binding.Claiming.{AreApart}
use range42_backend_api.Allocations.Samples.{assignment, host, draft, neighbour, ledger, codec}

abbrev claimed : DeploymentAllocation
claimed = record {
  id = "c2";
  deployment_id = deployment.id;
  project_sha = deployment.project_sha;
  host_id = "h1";
  api_url = "https://pve";
  node_name = "pve";
  assignments = assignment ∷ [];
  source_assignments = some (assignment ∷ []);
  created_at = 100;
}

takes_over :
    bind codec 100 "c2" ledger deployment host (assignment ∷ []) (some "r1") (some "token")
    ≡ ok (claimed, record { reservations = []; claims = claimed ∷ neighbour ∷ [] })
unfolding bind claim_fresh transfer with_token reviewed settle token_digest ownership
    protected_ranges is_occupied consume same_mapping overlaps same_vmid share_address same_address
    is_protected default_protected_ranges get delete string_eq nat_eq option_eq
takes_over = refl

-- Without the draft, its lease is somebody else's.
occupied_by_draft :
    bind codec 100 "c2" ledger deployment host (assignment ∷ []) none none
    ≡ raise (error 409 "ALLOCATION_OCCUPIED")
unfolding bind claim_fresh transfer settle protected_ranges is_occupied overlaps same_vmid
    share_address same_address is_protected default_protected_ranges get string_eq nat_eq option_eq
occupied_by_draft = refl

draft_apart : overlaps neighbour.assignments draft.assignments ≡ false
unfolding overlaps same_vmid share_address same_address nat_eq string_eq
draft_apart = refl

pub ledger-AreApart : AreApart 100 ledger
unfolding get
ledger-AreApart = record {
  claims = λ j k a b ea eb differ. absurd (ground arith);
  mixed = λ j k a r ea er alive. ground (arith, draft_apart);
  leases = λ j k r s er es differ _ _. absurd (ground arith);
}

bind-AreApart_example :
    AreApart 100 (record { reservations = []; claims = claimed ∷ neighbour ∷ [] })
bind-AreApart_example =
    bind-AreApart codec 100 "c2" ledger
      (record { reservations = []; claims = claimed ∷ neighbour ∷ [] }) deployment host
      (assignment ∷ []) (some "r1") (some "token") claimed takes_over ledger-AreApart

bind-Claimed_example :
    ((get (λ c. c.deployment_id) deployment.id ledger.claims ≡ some claimed)
      × IsBound claimed deployment host
      × (claimed.assignments ≡ assignment ∷ [])
      × (record { reservations = []; claims = claimed ∷ neighbour ∷ [] } ≡ ledger))
    ⊎ ((get (λ c. c.deployment_id) deployment.id ledger.claims ≡ none)
        × IsFresh codec 100 "c2" ledger deployment host
            (assignment ∷ [])
            (some "r1")
            claimed
            (record { reservations = []; claims = claimed ∷ neighbour ∷ [] }))
bind-Claimed_example =
    bind-Claimed codec 100 "c2" ledger
      (record { reservations = []; claims = claimed ∷ neighbour ∷ [] }) deployment host
      (assignment ∷ []) (some "r1") (some "token") claimed takes_over
