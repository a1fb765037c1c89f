-- ===== src/Allocations/Reserving/Examples.antt =====
-- A second project beside a draft and a deployment: the first free VMID and address are leased.
use range42_backend_api.Prelude.{
  ℕ, ◌≡◌, refl, none, some, [], ◌∷◌, string_eq, nat_eq, option_eq, true, All, List, if◌then◌else◌,
  ◌==◌,
}
use range42_backend_api.Prelude.Dict.{find_key, distinct}
use range42_backend_api.Prelude.Table.{get, select}
use range42_backend_api.Prelude.Result.{Result, ok}
use range42_backend_api.Vmids.{Range, is_protected, default_protected_ranges}
use range42_backend_api.Allocations.{
  Assignment, AllocationReservation, Ledger, token_digest, ownership, protected_ranges,
}
use range42_backend_api.Allocations.Samples.{host, draft, neighbour, ledger, codec}
use range42_backend_api.Allocations.Request.{
  AllocationNetwork, AllocationNic, AllocationVm, AllocationRequest, address_eq, Ipv4,
}
use range42_backend_api.Allocations.Retained.{
  retained_nics, find_network, last_with, retained_at, stored_keys,
}
use range42_backend_api.Allocations.Planning.{
  nic_key_eq, Occupancy, fix_optional_id, fix_optional_ip, wanted_ip, wanted_id, previous_of,
  nics_of, fix_nic, fix_nics, fix_vm, fix_vms,
}
use range42_backend_api.Allocations.Planning.Assigning.{
  first_free, exhausted, choose_id, choose_ip, give_id, give_ip, give_nic, give_nics, give_vms,
  insert, sorted, addresses_of, others_ids, others_ips, row_ips, network_ips, pool_of, plan,
}
use range42_backend_api.Allocations.Planning.Fixing.{allowed_id, allowed_ip}
use range42_backend_api.Allocations.Planning.Keys.{IsCoherent}
use range42_backend_api.Allocations.Planning.Soundness.{plan-distinct}
use range42_backend_api.Allocations.Binding.{consume}
use range42_backend_api.Allocations.Binding.Claiming.{AreApart}
use range42_backend_api.Allocations.Binding.Examples.{ledger-AreApart}
use range42_backend_api.Allocations.Reserving.{
  Round, row_of, check_current, check_host, others_of, pending, saved_row, conclude, transact,
  probe, rounds, merged, reserve,
}
use range42_backend_api.Allocations.Reserving.Rounds.{reserve-answers}
use range42_backend_api.Allocations.Reserving.Guarantees.{reserve-AreApart}

abbrev network : AllocationNetwork
network = record {
  network_id = "lan";
  bridge = "vmbr1";
  subnet = "10.0.0.0/29";
  gateway = some "10.0.0.1";
  reserved_ips = [];
}

abbrev nic : AllocationNic
nic = record { index = 0; nic_key = some "eth0"; network_id = "lan"; ip = none }

abbrev web : AllocationVm
web = record { node_id = "db"; vm_id = none; nics = nic ∷ [] }

abbrev payload : AllocationRequest
payload = record {
  project_key = "q";
  lease_seconds = 3600;
  vmid_start = 2000;
  vmid_end = 8999;
  networks = network ∷ [];
  vms = web ∷ [];
}

-- One subnet, from 10.0.0.0 on
abbrev ipv4 : Ipv4
ipv4 = record {
  network = λ _. some (record { first = 0; prefix = 29 });
  address = λ _. none;
  text = λ v. if v == 1 then "10.0.0.1" else "10.0.0.2";
}

abbrev empty : Occupancy
empty = record { vmids = []; addresses = [] }

abbrev env : ℕ → Round
env _ = record {
  tables = ledger;
  now = 100;
  fresh_host = some host;
  uuid = "r2";
  vmid_is_free = λ _. true;
}

abbrev leased : Assignment
leased = record {
  vm_id = 2002;
  name = some "db";
  nics =
      record {
        index = 0;
        bridge = "vmbr1";
        ip = "10.0.0.2";
        nic_key = some "eth0";
        network_id = some "lan";
        subnet = some "10.0.0.0/29";
      }
      ∷ [];
}

abbrev row : AllocationReservation
row = record {
  id = "r2";
  project_key = "q";
  host_id = "h1";
  node_name = "pve";
  api_url = some "https://pve";
  token_hash = "hash";
  assignments = leased ∷ [];
  expires_at = 3700;
  checked_at = 90;
}

abbrev others : List (List Assignment)
others = draft.assignments ∷ neighbour.assignments ∷ []

plans : plan codec ipv4 payload host others none empty ≡ ok (leased ∷ [])
unfolding plan protected_ranges fix_vms fix_vm fix_nics fix_nic fix_optional_id fix_optional_ip
    wanted_ip wanted_id previous_of nics_of last_with retained_at retained_nics find_network
    stored_keys pool_of others_ids others_ips row_ips addresses_of network_ips give_vms give_id
    give_nics give_nic give_ip choose_id choose_ip first_free exhausted sorted insert find_key
    is_protected default_protected_ranges string_eq nat_eq option_eq nic_key_eq address_eq
plans = refl

payload-IsCoherent : IsCoherent payload.vms
unfolding IsCoherent distinct
payload-IsCoherent = (refl, (refl, tt))

plan-distinct_example :
    (ranges : List Range) × (protected_ranges codec host ≡ ok ranges)
    × (distinct {A = ℕ} (2002 ∷ []) ≡ true)
    × All (λ v. allowed_id (pool_of payload ranges others empty) v ≡ true) (2002 ∷ [])
    × (distinct (row_ips (leased ∷ [])) ≡ true)
    × All (λ a. allowed_ip (pool_of payload ranges others empty) a ≡ true) (row_ips (leased ∷ []))
plan-distinct_example =
    plan-distinct codec ipv4 payload host others none empty (leased ∷ []) payload-IsCoherent plans

reserves :
    reserve codec ipv4 host payload "token" none ledger 90 (ok empty) 90 env
    ≡ some (ok (row, record ledger { reservations = row ∷ ledger.reservations }))
unfolding reserve rounds transact probe conclude saved_row pending others_of check_host
    check_current row_of merged token_digest ownership plan protected_ranges fix_vms fix_vm fix_nics
    fix_nic fix_optional_id fix_optional_ip wanted_ip wanted_id previous_of nics_of last_with
    retained_at retained_nics find_network stored_keys pool_of others_ids others_ips row_ips
    addresses_of network_ips give_vms give_id give_nics give_nic give_ip choose_id choose_ip
    first_free exhausted sorted insert find_key is_protected default_protected_ranges string_eq
    nat_eq option_eq nic_key_eq address_eq select consume
reserves = refl

reserve-answers_example :
    (r : Result (AllocationReservation × Ledger)) × (reserve codec ipv4 host payload "token" none
        ledger 90
        (ok empty)
        90
        env
      ≡ some r)
reserve-answers_example =
    reserve-answers codec ipv4 host payload "token" none ledger 90 (ok empty) 90 env

reserve-AreApart_example :
    (i : ℕ) × AreApart (env i).now (record ledger { reservations = row ∷ ledger.reservations })
    × All (λ v. (k : ℕ) × ((env k).vmid_is_free v ≡ true)) (2002 ∷ [])
unfolding get
reserve-AreApart_example =
    reserve-AreApart codec ipv4 host payload "token" none ledger 90 (ok empty) 90 env row
      (record ledger { reservations = row ∷ ledger.reservations }) payload-IsCoherent
      (λ i. (refl, tt)) (λ i. ledger-AreApart) reserves
