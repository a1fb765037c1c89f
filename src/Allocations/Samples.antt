-- ===== src/Allocations/Samples.antt =====
-- A draft beside a deployment, for the examples.
use range42_backend_api.Prelude.{none, some, [], ◌∷◌, true}
use range42_backend_api.Json.{Json, Items}
use range42_backend_api.Allocations.{
  Assignment, AllocationReservation, DeploymentAllocation, TargetHost, Ledger, Codec,
}

abbrev pub assignment : Assignment
assignment = record {
  vm_id = 2000;
  name = some "web";
  nics =
      record {
        index = 0;
        bridge = "vmbr1";
        ip = "10.0.0.5";
        nic_key = none;
        network_id = none;
        subnet = none;
      }
      ∷ [];
}

abbrev pub host : TargetHost
host = record {
  id = "h1";
  api_url = "https://pve";
  node_name = "pve";
  protected_vmids_override_json = none;
}

abbrev pub draft : AllocationReservation
draft = record {
  id = "r1";
  project_key = "p";
  host_id = "h1";
  node_name = "pve";
  api_url = some "https://pve";
  token_hash = "hash";
  assignments = assignment ∷ [];
  expires_at = 500;
  checked_at = 90;
}

abbrev pub neighbour : DeploymentAllocation
neighbour = record {
  id = "c1";
  deployment_id = "d9";
  project_sha = none;
  host_id = "h1";
  api_url = "https://pve";
  node_name = "pve";
  assignments = record assignment { vm_id = 2001; nics = [] } ∷ [];
  source_assignments = none;
  created_at = 10;
}

abbrev pub ledger : Ledger
ledger = record { reservations = draft ∷ []; claims = neighbour ∷ [] }

abbrev pub codec : Codec
codec = record {
  is_token = λ _. true;
  sha256 = λ _. "hash";
  loads = λ _. some (Json.array Items.nil);
}
