-- ===== src/Allocations/Reserving.antt =====
-- core/allocation_reservations.py, `reserve`: rounds of a transaction that plans and of probes of
-- the VMIDs that were planned. What changes between the rounds is an argument per round.
pub mod Rounds
pub mod Apartness
pub mod Disjointness
pub mod Guarantees
mod Examples
use range42_backend_api.Prelude.{
  ℕ, zero, suc, ◌+◌, ◌-◌, String, Bool, true, false, not, ◌&&◌, ◌||◌, Option, none, some, List, [],
  ◌∷◌, ◌++◌, map, length, leb, ltb, contains, ◌==◌, ◌!=◌, nat_eq, string_eq, option_eq,
  if◌then◌else◌,
}
use range42_backend_api.Prelude.Table.{select}
use range42_backend_api.Prelude.Result.{Result, ok, raise, error, raise_if, ◌>>=◌, ◌>>◌}
use range42_backend_api.Allocations.{
  Assignment, AllocationReservation, DeploymentAllocation, TargetHost, Ledger, Codec, refuse,
  token_digest, ownership,
}
use range42_backend_api.Allocations.Request.{AllocationRequest, Ipv4}
use range42_backend_api.Allocations.Planning.{Occupancy}
use range42_backend_api.Allocations.Planning.Assigning.{plan}
use range42_backend_api.Allocations.Binding.{live, is_lease, consume}

abbrev pub max_probes : ℕ
max_probes = 4096

abbrev pub max_active_leases : ℕ
max_active_leases = 1000

-- What a round meets: the tables and the clock at `BEGIN IMMEDIATE`, the registration of the host,
-- the next `uuid4`, and the answers of `vmid_is_free`.
pub record Round : Type 0 where
  pub tables : Ledger
  pub now : ℕ
  pub fresh_host : Option TargetHost
  pub uuid : String
  pub vmid_is_free : ℕ → Bool

-- The row of a project
unfoldable pub row_of : String → List AllocationReservation → Option AllocationReservation
row_of project_key [] = none
row_of project_key (r ∷ rows) =
    let later = row_of project_key rows in if r.project_key == project_key then some r else later

-- The checks of the project's row, or of the number of rows.
unfoldable pub check_current :
    String
    → TargetHost
    → List AllocationReservation
    → Option AllocationReservation
    → Result (Unit {0})
check_current token_hash host rows none =
    raise_if (leb max_active_leases (length rows)) (error 409 "ALLOCATION_POOL_EXHAUSTED")
check_current token_hash host rows (some row) = do
  ownership row token_hash host.id
  raise_if (row.node_name != host.node_name) (error 409 "ALLOCATION_INVALID")

unfoldable pub check_host : TargetHost → Option TargetHost → Result (Unit {0})
check_host host none = refuse "ALLOCATION_INVALID"
check_host host (some now) =
    raise_if
      (now.api_url != host.api_url
        || now.node_name != host.node_name
        || now.protected_vmids_override_json != host.protected_vmids_override_json)
      (error 409 "ALLOCATION_INVALID")

-- The assignments of the rows other than `current`. A claim has never the id of a lease: both are
-- drawn by `uuid4`.
unfoldable pub others_of :
    Ledger → List AllocationReservation → Option AllocationReservation → List (List Assignment)
others_of tables rows current =
    map (λ (r : AllocationReservation). r.assignments) (select (λ r. not (is_lease current r)) rows)
    ++ map (λ (c : DeploymentAllocation). c.assignments) tables.claims

-- `sorted({...} - checked_free)`, of which only the members and their number matter.
unfoldable pub pending : List ℕ → List ℕ → List ℕ
pending checked_free [] = []
pending checked_free (v ∷ vs) =
    let rest = pending checked_free vs in
    if contains checked_free v || contains rest v then rest else v ∷ rest

-- `row`, new or with the values of this round.
unfoldable pub saved_row :
    AllocationRequest
    → TargetHost
    → String
    → ℕ
    → Round
    → Option AllocationReservation
    → List Assignment
    → AllocationReservation
saved_row payload host token_hash checked_at round none assignments = record {
  id = round.uuid;
  project_key = payload.project_key;
  host_id = host.id;
  node_name = host.node_name;
  api_url = some host.api_url;
  token_hash = token_hash;
  assignments = assignments;
  expires_at = round.now + payload.lease_seconds;
  checked_at = checked_at;
}
saved_row payload host token_hash checked_at round (some current) assignments = record current {
  api_url = some host.api_url;
  assignments = assignments;
  expires_at = round.now + payload.lease_seconds;
  checked_at = checked_at;
}

-- What a transaction ends with: `commit`, or `rollback` with the VMIDs to probe.
pub data Outcome : Type 0 where
  saved : (row : AllocationReservation) (after : Ledger) → Outcome
  probing : (v : ℕ) (vs : List ℕ) → Outcome

module _ (codec : Codec) (x : Ipv4) (payload : AllocationRequest) (host : TargetHost)
    (token_hash : String) (checked_at : ℕ) where
  unfoldable pub conclude :
      Round
      → List AllocationReservation
      → Option AllocationReservation
      → List Assignment
      → List ℕ
      → Outcome
  conclude round rows current assignments [] =
      let row = saved_row payload host token_hash checked_at round current assignments in
      Outcome.saved row (record round.tables { reservations = row ∷ consume current rows })
  conclude round rows current assignments (v ∷ vs) = Outcome.probing v vs

  -- The transaction of a round
  unfoldable pub transact : Occupancy → List ℕ → Round → Result Outcome
  transact occupancy checked_free round = do
    let rows = select (live round.now) round.tables.reservations
    let current = row_of payload.project_key rows
    check_current token_hash host rows current
    check_host host round.fresh_host
    assignments ← plan codec x payload host (others_of round.tables rows current) current occupancy
    ok (
        conclude round rows current assignments
          (pending checked_free (map (λ (a : Assignment). a.vm_id) assignments)))

  -- The probes: what is free and what is not joins one of the two sets.
  unfoldable pub probe : (ℕ → Bool) → List ℕ → List ℕ → Occupancy → List ℕ × Occupancy
  probe is_free [] checked_free occupancy = (checked_free, occupancy)
  probe is_free (v ∷ vs) checked_free occupancy =
      let later = probe is_free vs checked_free occupancy in
      if is_free v
      then (v ∷ later.0, later.1)
      else (later.0, record later.1 { vmids = v ∷ later.1.vmids })

  abbrev pub exhausted_scan {ℓ} : {A : Type ℓ} → Result A
  exhausted_scan = refuse "ALLOCATION_POOL_EXHAUSTED"

  -- The `while` loop on fuel; round `i` is the next one.
  unfoldable pub rounds :
      ℕ
      → (ℕ → Round)
      → ℕ
      → ℕ
      → List ℕ
      → Occupancy
      → Option (Result (AllocationReservation × Ledger))
  rounds zero env i probes checked_free occupancy = none
  rounds (suc fuel) env i probes checked_free occupancy = elim (leb probes max_probes) [
    | false ↦ some exhausted_scan
    | true ↦ elim (transact occupancy checked_free (env i)) [
      | raise e ↦ some (raise e)
      | ok (Outcome.saved row after) ↦ some (ok (row, after))
      | ok (Outcome.probing v vs) ↦ elim (ltb max_probes (probes + length (v ∷ vs))) [
        | true ↦ some exhausted_scan
        | false ↦
            let probed = probe (env i).vmid_is_free (v ∷ vs) checked_free occupancy in
            rounds fuel env (i + 1) (probes + length (v ∷ vs)) probed.0 probed.1
      ]
    ]
  ]

abbrev pub first_owner :
    Codec → AllocationRequest → TargetHost → Ledger → ℕ → String → Result (Unit {0})
first_owner codec payload host tables now token_hash =
    elim (row_of payload.project_key tables.reservations) [
      | none ↦ ok tt
      | some row ↦ if ltb now row.expires_at then ownership row token_hash host.id else ok tt
    ]

-- `occupancy.vmids.update(reserved.vmids)`, and the addresses
unfoldable pub merged : Option Occupancy → Occupancy → Occupancy
merged none occupancy = occupancy
merged (some reserved) occupancy = record {
  vmids = reserved.vmids ++ occupancy.vmids;
  addresses = reserved.addresses ++ occupancy.addresses;
}

-- `reserve`, with the answer of `read_occupancy`. A result of `none` is a lack of fuel.
unfoldable pub reserve :
    Codec
    → Ipv4
    → TargetHost
    → AllocationRequest
    → String
    → Option Occupancy
    → Ledger
    → ℕ
    → Result Occupancy
    → ℕ
    → (ℕ → Round)
    → Option (Result (AllocationReservation × Ledger))
reserve codec x host payload token reserved tables now inventory checked_at env =
    elim (token_digest codec token) [
      | raise e ↦ some (raise e)
      | ok token_hash ↦ elim (first_owner codec payload host tables now token_hash) [
        | raise e ↦ some (raise e)
        | ok _ ↦ elim inventory [
          | raise e ↦ some (raise e)
          | ok occupancy ↦
              rounds codec x payload host token_hash checked_at (max_probes + 2) env 0 0 []
                (merged reserved occupancy)
        ]
      ]
    ]
