-- ===== src/Capacity/Admission.antt =====
-- core/scenario_capacity.py, `check_plan_capacity`, with core/preflight.py's aggregate of checks.
use range42_backend_api.Prelude.{
  ℕ, ◌+◌, ◌-◌, ◌*◌, String, Bool, true, false, not, ◌&&◌, ◌||◌, Option, none, some, List, [], ◌∷◌,
  ◌++◌, ◌<>◌, leb, ltb, contains, ◌==◌, nat_eq, string_eq, option_eq, if◌then◌else◌,
}
use range42_backend_api.Models.{ℤ}
use range42_backend_api.Json.{Json, Fields, get_field}
use range42_backend_api.Capacity.{
  Samples, CpuCapacity, StorageCapacity, HostCapacity, is_none, is_empty, is_on, flag, fields_of,
}
use range42_backend_api.Capacity.Plans.{
  Texts, PlannedVm, Sizes, gib, size_at, add_size, or_default, declared_size, is_cdrom, cpu_count,
  template_requirements,
}
use range42_backend_api.Capacity.Checks.{Verdict, PreflightCheck, check, warn, block, memory_check}

-- What the cluster answers: the configuration of a template and the permissions on the path of a
-- pool, if they are readable.
pub record Answers : Type 0 where
  pub config : ℕ → Option Fields
  pub permissions : String → Option Json

-- A present privilege grants the pool itself, whatever its propagation flag.
unfoldable pub may_allocate : Answers → String → Bool
may_allocate a name =
    let path = "/storage/" <> name in
    let rights = fields_of (get_field path (fields_of (a.permissions path))) in
    not (is_none (flag (get_field "Datastore.AllocateSpace" rights)))

pub record Totals : Type 0 where
  pub checks : List PreflightCheck
  pub cpus : ℕ
  pub unknown_cpu : Bool
  pub unknown_disk : Bool
  pub disks : Sizes

unfoldable pub growth_of : Texts → Json → ℕ → List PreflightCheck
growth_of t (Json.string specification) wanted =
    let parts = t.split specification in
    elim (if is_cdrom t parts then none else declared_size t parts) [
      | none ↦ block "storage" "DISK_GROWTH_UNAVAILABLE" ∷ []
      | some current ↦
          if ltb (wanted * gib) current then block "storage" "DISK_SHRINK_UNSUPPORTED" ∷ [] else []
    ]
growth_of t _ wanted = block "storage" "DISK_GROWTH_UNAVAILABLE" ∷ []

-- The check of a requested growth
unfoldable pub growth_checks : Texts → PlannedVm → Fields → List PreflightCheck
growth_checks t vm config = elim vm.disk_gb [
  | none ↦ []
  | some wanted ↦ elim (get_field (or_default "scsi0" vm.disk_device) config) [
    | none ↦ block "storage" "DISK_GROWTH_UNAVAILABLE" ∷ []
    | some v ↦ growth_of t v wanted
  ]
]

unfoldable pub add_sizes : Sizes → Sizes → Sizes
add_sizes [] totals = totals
add_sizes ((pool, size) ∷ rest) totals = add_sizes rest (add_size pool size totals)

-- One VM of the plan, given its template's configuration
unfoldable pub add_vm : Texts → PlannedVm → Option Fields → Totals → Totals
add_vm t vm none s = record s {
  checks =
      s.checks
      ++ (if is_none vm.disk_gb then [] else block "storage" "DISK_GROWTH_UNAVAILABLE" ∷ []);
  unknown_cpu = true;
  unknown_disk = true;
}
add_vm t vm (some config) s =
    let needs = template_requirements t vm config in
    let cpu = cpu_count vm config in
    record s {
      checks = s.checks ++ growth_checks t vm config;
      cpus = elim cpu [ none ↦ s.cpus | some n ↦ s.cpus + n ];
      unknown_cpu = s.unknown_cpu || is_none cpu;
      unknown_disk = s.unknown_disk || needs.1;
      disks = add_sizes needs.0 s.disks;
    }

unfoldable pub add_vms : Texts → Answers → List PlannedVm → Totals → Totals
add_vms t a [] s = s
add_vms t a (vm ∷ vms) s = add_vms t a vms (add_vm t vm (a.config vm.template_vm_id) s)

unfoldable pub cpu_check : Totals → CpuCapacity → PreflightCheck
cpu_check s cpu =
    if s.unknown_cpu then warn "cpu" "CPU_REQUIREMENTS_UNKNOWN" else elim cpu.logical_cpus [
      | none ↦ warn "cpu" "CPU_CAPACITY_UNKNOWN"
      | some n ↦
          if ltb n s.cpus then warn "cpu" "CPU_OVERCOMMIT" else check "cpu" Verdict.passes none none
    ]

-- `utilization >= 0.90`
unfoldable pub is_loaded : Samples → Json → Bool
is_loaded x (Json.number (ℤ.pos n)) = leb 1 n
is_loaded x (Json.float s) = x.is_pressing s
is_loaded x _ = false

unfoldable pub load_checks : Samples → CpuCapacity → List PreflightCheck
load_checks x cpu = elim cpu.utilization [
  | none ↦ warn "cpu" "CPU_LOAD_UNKNOWN" ∷ []
  | some v ↦ if is_loaded x v then warn "cpu" "CPU_PRESSURE" ∷ [] else []
]

-- `{vm["storage"] for vm in vms if vm.get("storage")}`, as a list
unfoldable pub selected_pools : List PlannedVm → List String
selected_pools [] = []
selected_pools (vm ∷ vms) =
    let later = selected_pools vms in
    elim vm.storage [
      | none ↦ later
      | some name ↦ if name == "" || contains later name then later else name ∷ later
    ]

-- `disks.keys() | selected_pools`, as a list
unfoldable pub union : Sizes → List String → List String
union [] selected = selected
union ((name, _) ∷ rest) selected =
    let later = union rest selected in if contains later name then later else name ∷ later

-- `by_pool.get(name)`
unfoldable pub pool_of : String → List StorageCapacity → Option StorageCapacity
pool_of name [] = none
pool_of name (p ∷ pools) = elim (pool_of name pools) [
  | some q ↦ some q
  | none ↦ if p.storage == name then some p else none
]

-- The free bytes of a pool that can hold images.
unfoldable pub usable_space : Option StorageCapacity → Option (ℕ × Option ℕ)
usable_space none = none
usable_space (some p) =
    if not (is_on p.active) || not (is_on p.enabled) || not (contains p.content "images")
    then none
    else elim p.memory.free_bytes [ none ↦ none | some free ↦ some (free, p.memory.total_bytes) ]

abbrev pub severity : Bool → Verdict
severity selected = if selected then Verdict.blocks else Verdict.warns

-- The comparison of what is required with what is free
unfoldable pub space_check : Texts → Bool → String → ℕ → ℕ → Option ℕ → PreflightCheck
space_check t selected name required free total =
    if ltb free required
    then check "storage" (severity selected)
        (some (if selected then "INSUFFICIENT_STORAGE" else "STORAGE_ESTIMATE_EXCEEDS_FREE"))
        (some name)
    else elim total [
      | none ↦ check "storage" Verdict.warns (some "STORAGE_CAPACITY_UNKNOWN") (some name)
      | some bytes ↦
          if t.reaches (bytes - free + required) bytes
          then check "storage" Verdict.warns (some "STORAGE_PRESSURE") (some name)
          else check "storage" Verdict.passes none (some name)
    ]

unfoldable pub pool_checks :
    Texts → Answers → HostCapacity → List String → Totals → String → List PreflightCheck
pool_checks t a capacity selected s name =
    let chosen = contains selected name in
    elim (usable_space (pool_of name capacity.storage)) [
      | none ↦
          check "storage" (severity chosen)
            (some (if chosen then "STORAGE_POOL_UNAVAILABLE" else "STORAGE_POOL_UNKNOWN"))
            (some name)
          ∷ []
      | some (free, total) ↦
          if chosen && not (may_allocate a name)
          then check "storage" Verdict.blocks (some "STORAGE_PERMISSION_UNAVAILABLE") (some name)
            ∷ []
          else if chosen && s.unknown_disk
          then []
          else space_check t chosen name (size_at name s.disks) free total ∷ []
    ]

unfoldable pub all_pool_checks :
    Texts → Answers → HostCapacity → List String → Totals → List String → List PreflightCheck
all_pool_checks t a capacity selected s [] = []
all_pool_checks t a capacity selected s (name ∷ names) =
    pool_checks t a capacity selected s name ++ all_pool_checks t a capacity selected s names

abbrev pub nothing_needed : Totals
nothing_needed = record {
  checks = [];
  cpus = 0;
  unknown_cpu = false;
  unknown_disk = false;
  disks = [];
}

abbrev pub estimate_checks : Bool → Bool → List PreflightCheck
estimate_checks unknown_disk has_selected =
    if unknown_disk
    then check "storage" (severity has_selected) (some "STORAGE_REQUIREMENTS_UNKNOWN") none ∷ []
    else []

-- What follows the check of the memory
unfoldable pub further_checks :
    Samples → Texts → Answers → HostCapacity → List PlannedVm → List PreflightCheck
further_checks x t a capacity vms =
    let s = add_vms t a vms nothing_needed in
    let selected = selected_pools vms in
    s.checks
    ++ (cpu_check s capacity.cpu ∷ load_checks x capacity.cpu)
    ++ estimate_checks s.unknown_disk (not (is_empty selected))
    ++ all_pool_checks t a capacity selected s (t.sorted (union s.disks selected))

-- `check_plan_capacity`, given the report that `read_host_capacity` returns
unfoldable pub check_plan_capacity :
    Samples → Texts → Answers → HostCapacity → List PlannedVm → ℕ → List PreflightCheck
check_plan_capacity x t a capacity vms required_memory = elim capacity.memory.free_bytes [
  | none ↦ block "memory" "SCENARIO_RESOURCES_UNREADABLE" ∷ []
  | some free ↦
      if ltb free required_memory
      then block "memory" "INSUFFICIENT_MEMORY" ∷ []
      else memory_check t capacity.memory.total_bytes free required_memory
        ∷ further_checks x t a capacity vms
]
