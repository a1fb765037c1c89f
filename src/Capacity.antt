-- ===== src/Capacity.antt =====
-- core/host_capacity.py: what a node and its storage pools report, where unreadable data is `none`
-- and never zero. An answer of the API that could not be read is `none` too.
pub mod Bounds
pub mod Complete
pub mod Plans
mod Checks
pub mod Admission
pub mod Needs
pub mod Space
pub mod Enough
mod Examples
use range42_backend_api.Prelude.{
  ℕ, String, Bool, true, false, not, ◌&&◌, ◌||◌, Option, none, some, List, [], ◌∷◌, ◌++◌, ◌<>◌, leb,
  ltb, contains, ◌==◌, ◌!=◌, nat_eq, string_eq, option_eq, if◌then◌else◌, Eq,
}
use range42_backend_api.Models.{ℤ}
use range42_backend_api.Json.{Json, Fields, get_field}

-- What is called on texts and floats: `split(",")`, and whether a float is a number from 0 to 1, and
-- whether it is at least 0.90
pub record Samples : Type 0 where
  pub split : String → List String
  pub is_share : String → Bool
  pub is_pressing : String → Bool

pub record CapacityIssue : Type 0 where
  pub code : String
  pub resource : String

pub record CpuCapacity : Type 0 where
  pub logical_cpus : Option ℕ
  pub utilization : Option Json

pub record MemoryCapacity : Type 0 where
  pub total_bytes : Option ℕ
  pub used_bytes : Option ℕ
  pub free_bytes : Option ℕ

pub record StorageCapacity : Type 0 where
  pub storage : String
  pub content : List String
  pub enabled : Option Bool
  pub active : Option Bool
  pub memory : MemoryCapacity

-- `status`
pub data CapacityStatus : Type 0 where
  available : CapacityStatus
  partly_read : CapacityStatus
  unavailable : CapacityStatus

pub record HostCapacity : Type 0 where
  pub status : CapacityStatus
  pub cpu : CpuCapacity
  pub memory : MemoryCapacity
  pub storage : List StorageCapacity
  pub issues : List CapacityIssue

-- `_integer`
unfoldable pub integer : Bool → Option Json → Option ℕ
integer positive (some (Json.number (ℤ.pos n))) = if positive && n == 0 then none else some n
integer positive _ = none

-- `_flag`
unfoldable pub flag : Option Json → Option Bool
flag (some (Json.boolean b)) = some b
flag (some (Json.number (ℤ.pos n))) =
    if n == 0 then some false else if n == 1 then some true else none
flag _ = none

abbrev pub fields_of : Option Json → Fields
fields_of (some (Json.object fields)) = fields
fields_of _ = Fields.end

-- An `int` or a `float` from 0 to 1
unfoldable pub share_of : Samples → Option Json → Option Json
share_of x (some (Json.number (ℤ.pos n))) = if leb n 1 then some (Json.number (ℤ.pos n)) else none
share_of x (some (Json.float s)) = if x.is_share s then some (Json.float s) else none
share_of x _ = none

-- `value is not None and total is not None and value > total`
unfoldable pub exceeds : Option ℕ → Option ℕ → Bool
exceeds (some value) (some total) = ltb total value
exceeds _ _ = false

abbrev pub capped : Option ℕ → Option ℕ → Option ℕ
capped value total = if exceeds value total then none else value

abbrev pub is_none {ℓ} : {A : Type ℓ} → Option A → Bool
is_none none = true
is_none (some _) = false

abbrev pub is_incomplete : MemoryCapacity → Bool
is_incomplete m = is_none m.total_bytes || is_none m.used_bytes || is_none m.free_bytes

abbrev pub issue_if : Bool → String → String → List CapacityIssue
issue_if b code resource = if b then record { code = code; resource = resource } ∷ [] else []

cpu_of : Samples → Fields → CpuCapacity
cpu_of x data_ = record {
  logical_cpus = integer true (get_field "cpus" (fields_of (get_field "cpuinfo" data_)));
  utilization = share_of x (get_field "cpu" data_);
}

memory_of : Fields → MemoryCapacity
memory_of memory =
    let total = integer true (get_field "total" memory) in
    record {
      total_bytes = total;
      used_bytes = capped (integer false (get_field "used" memory)) total;
      free_bytes = capped (integer false (get_field "free" memory)) total;
    }

unfoldable pub normalize_node_capacity :
    Samples → Json → CpuCapacity × (MemoryCapacity × List CapacityIssue)
unfolding cpu_of memory_of
normalize_node_capacity x data_ =
    let fields = fields_of (some data_) in
    let cpu = cpu_of x fields in
    let ram = memory_of (fields_of (get_field "memory" fields)) in
    (
      cpu,
      (
        ram,
        issue_if (is_none cpu.logical_cpus || is_none cpu.utilization) "CPU_CAPACITY_UNKNOWN" "cpu"
            ++ issue_if (is_incomplete ram) "MEMORY_CAPACITY_UNKNOWN" "memory",
      ),
    )

-- The name of a pool, if it is a text, not empty and new.
unfoldable pub pool_name : List String → Fields → Option String
pool_name seen row = elim (get_field "storage" row) [
  | some (Json.string name) ↦ if name == "" || contains seen name then none else some name
  | _ ↦ none
]

content_of : Samples → Option Json → List String
content_of x (some (Json.string s)) = x.split s
content_of x _ = []

abbrev pub is_on : Option Bool → Bool
is_on (some true) = true
is_on _ = false

abbrev pub is_off : Option Bool → Bool
is_off (some false) = true
is_off _ = false

-- The measurements as reported, but no free space on a pool that is off.
unfoldable pub reported : Fields → Bool → MemoryCapacity
reported row off = record {
  total_bytes = integer true (get_field "total" row);
  used_bytes = integer false (get_field "used" row);
  free_bytes = if off then none else integer false (get_field "avail" row);
}

-- The loop over `used_bytes` and `free_bytes`
unfoldable pub checked : MemoryCapacity → MemoryCapacity
checked m = record m {
  used_bytes = capped m.used_bytes m.total_bytes;
  free_bytes = capped m.free_bytes m.total_bytes;
}

unfoldable pub normalize_pool : Samples → String → Fields → StorageCapacity × List CapacityIssue
unfolding content_of
normalize_pool x name row =
    let active = flag (get_field "active" row) in
    let enabled = flag (get_field "enabled" row) in
    let off = is_off active || is_off enabled in
    let m = reported row off in
    (
      record {
        storage = name;
        content = content_of x (get_field "content" row);
        enabled = enabled;
        active = active;
        memory = checked m;
      },
      issue_if off "STORAGE_INACTIVE" ("storage:" <> name)
          ++ issue_if (not off && (is_none active || is_none enabled || is_incomplete m))
              "STORAGE_CAPACITY_UNKNOWN" ("storage:" <> name)
          ++ issue_if (exceeds m.used_bytes m.total_bytes) "STORAGE_DATA_INVALID"
              ("storage:" <> name)
          ++ issue_if (exceeds m.free_bytes m.total_bytes) "STORAGE_DATA_INVALID"
              ("storage:" <> name),
    )

-- `seen.add(name)`
unfoldable pub now_seen : Option String → List String → List String
now_seen none seen = seen
now_seen (some name) seen = name ∷ seen

unfoldable pub add_pool :
    Samples
    → Option String
    → Fields
    → List StorageCapacity × List CapacityIssue
    → List StorageCapacity × List CapacityIssue
add_pool x none row later =
    (later.0, record { code = "STORAGE_DATA_INVALID"; resource = "storage" } ∷ later.1)
add_pool x (some name) row later =
    let first = normalize_pool x name row in (first.0 ∷ later.0, first.1 ++ later.1)

unfoldable pub normalize_rows :
    Samples → List String → List Fields → List StorageCapacity × List CapacityIssue
normalize_rows x seen [] = ([], [])
normalize_rows x seen (row ∷ rows) =
    let name = pool_name seen row in
    add_pool x name row (normalize_rows x (now_seen name seen) rows)

abbrev pub is_empty {ℓ} : {A : Type ℓ} → List A → Bool
is_empty [] = true
is_empty (_ ∷ _) = false

-- `_normalize_storage`
unfoldable pub normalize_storage : Samples → List Fields → List StorageCapacity × List CapacityIssue
normalize_storage x rows =
    let (pools, issues) = normalize_rows x [] rows in
    (pools, issue_if (is_empty rows) "STORAGE_VISIBILITY_UNKNOWN" "storage" ++ issues)

abbrev pub unread : MemoryCapacity
unread = record { total_bytes = none; used_bytes = none; free_bytes = none }

unfoldable pub node_answer :
    Samples → Option Json → CpuCapacity × (MemoryCapacity × List CapacityIssue)
node_answer x none = (
  record { logical_cpus = none; utilization = none },
  (unread, record { code = "NODE_CAPACITY_UNAVAILABLE"; resource = "node" } ∷ []),
)
node_answer x (some data_) = normalize_node_capacity x data_

unfoldable pub storage_answer :
    Samples → Option (List Fields) → List StorageCapacity × List CapacityIssue
storage_answer x none =
    ([], record { code = "STORAGE_CAPACITY_UNAVAILABLE"; resource = "storage" } ∷ [])
storage_answer x (some rows) = normalize_storage x rows

unfoldable pub status_of :
    CpuCapacity → MemoryCapacity → List StorageCapacity → List CapacityIssue → CapacityStatus
status_of cpu memory pools issues =
    if is_none cpu.logical_cpus && (is_none memory.free_bytes && is_empty pools)
    then CapacityStatus.unavailable
    else if is_empty issues
    then CapacityStatus.available
    else CapacityStatus.partly_read

-- `read_host_capacity`, with the answers on the node and on its storage
unfoldable pub read_host_capacity : Samples → Option Json → Option (List Fields) → HostCapacity
read_host_capacity x status storage =
    let (cpu, (memory, node_issues)) = node_answer x status in
    let (pools, pool_issues) = storage_answer x storage in
    let issues = node_issues ++ pool_issues in
    record {
      status = status_of cpu memory pools issues;
      cpu = cpu;
      memory = memory;
      storage = pools;
      issues = issues;
    }
