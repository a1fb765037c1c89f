-- ===== src/Capacity/Examples.antt =====
-- A node with one pool, and a plan of one VM whose disk grows on it.
use range42_backend_api.Prelude.{
  String, Bool, ap, ◌==◌, ℕ, ◌≡◌, ◌≢◌, refl, none, some, true, false, [], ◌∷◌, All, contains, ◌≤◌,
  ◌*◌, arith, string_eq, nat_eq, option_eq, ◌==◌,
}
use range42_backend_api.Prelude.Dict.{distinct}
use range42_backend_api.Models.{ℤ}
use range42_backend_api.Json.{Json, Fields, get_field}
use range42_backend_api.Capacity.{
  Samples, CapacityStatus, HostCapacity, integer, flag, share_of, exceeds, normalize_node_capacity,
  pool_name, reported, checked, normalize_pool, now_seen, add_pool, normalize_rows,
  normalize_storage, node_answer, storage_answer, status_of, read_host_capacity,
}
use range42_backend_api.Capacity.Bounds.{IsBounded, names, read_host_capacity-IsBounded}
use range42_backend_api.Capacity.Plans.{
  Texts, PlannedVm, gib, whole_size, size_bytes, option_of, declared_size, is_cdrom, size_at,
  add_size, grown, add_volume, add_device, add_devices, positive, cpu_count, template_requirements,
}
use range42_backend_api.Capacity.Admission.{
  Answers, growth_of, growth_checks, add_sizes, add_vm, add_vms, cpu_check, is_loaded, load_checks,
  selected_pools, union, pool_of, usable_space, may_allocate, space_check, pool_checks,
  all_pool_checks, further_checks, check_plan_capacity,
}
use range42_backend_api.Capacity.Checks.{Verdict, report_result, memory_check}
use range42_backend_api.Capacity.Needs.{IsKnown, demand}
use range42_backend_api.Capacity.Space.{Fits}
use range42_backend_api.Capacity.Enough.{check_plan_capacity-Fits}

abbrev samples : Samples
samples = record { split = λ _. "images" ∷ []; is_share = λ _. true; is_pressing = λ _. false }

abbrev number : ℕ → Json
number n = Json.number (ℤ.pos n)

abbrev memory : Fields
memory =
    Fields.field "total" (number 100)
      (Fields.field "used" (number 30) (Fields.field "free" (number 70) Fields.end))

abbrev node : Json
node = Json.object (
    Fields.field "cpuinfo" (Json.object (Fields.field "cpus" (number 8) Fields.end)) (
      Fields.field "cpu" (Json.float "0.25")
        (Fields.field "memory" (Json.object memory) Fields.end)))

-- A pool with four free gibibytes of eight
abbrev pool : Fields
pool = Fields.field "storage" (Json.string "local") (
    Fields.field "content" (Json.string "images,iso") (
      Fields.field "active" (number 1) (
        Fields.field "enabled" (number 1) (
          Fields.field "total" (number (8 * gib)) (
            Fields.field "used" (number (4 * gib))
              (Fields.field "avail" (number (4 * gib)) Fields.end))))))

abbrev capacity : HostCapacity
capacity = read_host_capacity samples (some node) (some (pool ∷ []))

reading : Unit {0}
unfolding read_host_capacity node_answer storage_answer status_of normalize_node_capacity
    normalize_storage normalize_rows add_pool now_seen normalize_pool pool_name reported checked
    integer flag share_of exceeds get_field string_eq nat_eq
reading = tt

is_available : capacity.status ≡ CapacityStatus.available
unfolding reading
is_available = refl

read_host_capacity-IsBounded_example :
    IsBounded capacity.memory
    × (distinct (names capacity.storage) ≡ true)
    × All (λ p. IsBounded p.memory) capacity.storage
read_host_capacity-IsBounded_example =
    read_host_capacity-IsBounded samples (some node) (some (pool ∷ []))

abbrev texts : Texts
texts = record {
  is_disk = λ s. s == "scsi0";
  scan = λ _. some (record { digits = 2; places = 0; power = 3 });
  split = λ s. s ∷ "size=2G" ∷ [];
  pair = λ _. some ("size", "2G");
  pool = λ _. some "local";
  sorted = λ names. names;
  reaches = λ _ _. false;
}

abbrev vm : PlannedVm
vm = record {
  template_vm_id = 900;
  cores = none;
  disk_gb = some 3;
  disk_device = none;
  storage = some "local";
}

abbrev answers : Answers
answers = record {
  config = λ _. some (Fields.field "scsi0" (Json.string "local:base-900-disk-0") Fields.end);
  permissions = λ path. some (
      Json.object (
        Fields.field path
          (Json.object (Fields.field "Datastore.AllocateSpace" (number 0) Fields.end)) Fields.end));
}

planning : Unit {0}
unfolding check_plan_capacity further_checks memory_check add_vms add_vm growth_checks growth_of
    template_requirements add_devices add_device add_volume grown declared_size size_bytes
    whole_size option_of is_cdrom add_sizes add_size size_at cpu_count positive cpu_check
    load_checks is_loaded selected_pools union all_pool_checks pool_checks pool_of usable_space
    may_allocate space_check report_result reading option_eq
planning = tt

plan_passes :
    report_result (check_plan_capacity samples texts answers capacity (vm ∷ []) 60) ≡ Verdict.passes
unfolding planning
plan_passes = refl

-- Two such VMs do not fit.
two_blocked :
    report_result (check_plan_capacity samples texts answers capacity (vm ∷ vm ∷ []) 60)
    ≡ Verdict.blocks
unfolding planning
two_blocked = refl

not_blocked :
    report_result (check_plan_capacity samples texts answers capacity (vm ∷ []) 60) ≢ Verdict.blocks
not_blocked h = ground (arith, plan_passes)

selects_local : contains (selected_pools (vm ∷ [])) "local" ≡ true
unfolding selected_pools string_eq
selects_local = refl

abbrev local_pool : String
local_pool = "local"

abbrev is_blank : String → Bool
is_blank s = s == ""

local-named : local_pool ≢ ""
unfolding string_eq
local-named e = absurd (ground (arith, ap is_blank e))

check_plan_capacity-Fits_example :
    ((free : ℕ) × (capacity.memory.free_bytes ≡ some free) × (60 ≤ free))
    × All (IsKnown texts answers) (vm ∷ [])
    × Fits answers capacity "local" (demand texts answers "local" (vm ∷ []))
check_plan_capacity-Fits_example =
    check_plan_capacity-Fits samples texts answers capacity [] [] vm 60 "local" (λ names. refl)
      not_blocked refl local-named
