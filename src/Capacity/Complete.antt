-- ===== src/Capacity/Complete.antt =====
-- A report that is called available has no gap.
use range42_backend_api.Prelude.{
  ℕ, String, ◌≡◌, refl, Bool, true, false, not, ◌&&◌, ◌||◌, Option, none, some, List, [], ◌∷◌, ◌++◌,
  ◌<>◌, All, arith, string_eq, nat_eq,
}
use range42_backend_api.Json.{Json, Fields, get_field}
use range42_backend_api.Capacity.{
  Samples, CapacityIssue, CpuCapacity, MemoryCapacity, StorageCapacity, CapacityStatus, flag,
  exceeds, capped, is_none, is_incomplete, is_off, is_empty, issue_if, checked, reported,
  normalize_node_capacity, normalize_pool, pool_name, now_seen, add_pool, normalize_rows,
  normalize_storage, node_answer, storage_answer, status_of, read_host_capacity,
}

module _ {A : Type 0} where
  append-nil : (xs ys : List A) → (xs ++ ys) ≡ [] → (xs ≡ []) × (ys ≡ [])
  append-nil [] ys h = (refl, h)
  append-nil (x ∷ xs) ys h = absurd (ground arith)

issues-empty : (xs : List CapacityIssue) → is_empty xs ≡ true → xs ≡ []
issues-empty [] h = refl
issues-empty (x ∷ xs) h = absurd (ground arith)

issue_if-nil : (b : Bool) (code resource : String) → issue_if b code resource ≡ [] → b ≡ false
issue_if-nil true code resource h = absurd (ground arith)
issue_if-nil false code resource h = refl

two-nil :
    (a b : Bool) (k l r q : String)
    → (issue_if a k r ++ issue_if b l q) ≡ []
    → (a ≡ false) × (b ≡ false)
two-nil a b k l r q h =
    let (first, second) = append-nil (issue_if a k r) (issue_if b l q) h in
    (issue_if-nil a k r first, issue_if-nil b l q second)

four-nil :
    (a b c d : Bool) (k l m n r : String)
    → (issue_if a k r ++ issue_if b l r ++ issue_if c m r ++ issue_if d n r) ≡ []
    → (a ≡ false) × (b ≡ false) × (c ≡ false) × (d ≡ false)
four-nil a b c d k l m n r h =
    let (h₁, last) =
      append-nil (issue_if a k r ++ issue_if b l r ++ issue_if c m r) (issue_if d n r) h in
    let (h₂, third) = append-nil (issue_if a k r ++ issue_if b l r) (issue_if c m r) h₁ in
    let (first, second) = two-nil a b k l r r h₂ in
    (first, second, issue_if-nil c m r third, issue_if-nil d n r last)

-- A pool that is on, with all its measurements
abbrev pub IsUsable : StorageCapacity → Type 0
IsUsable p = (p.active ≡ some true) × (p.enabled ≡ some true) × (is_incomplete p.memory ≡ false)

capped-keeps : (v t : Option ℕ) → exceeds v t ≡ false → capped v t ≡ v
capped-keeps v t h = ground arith

known-checked :
    (m : MemoryCapacity)
    → is_incomplete m ≡ false
    → exceeds m.used_bytes m.total_bytes ≡ false
    → exceeds m.free_bytes m.total_bytes ≡ false
    → is_incomplete (checked m) ≡ false
unfolding checked
known-checked m h u f =
    ground
      (arith, capped-keeps m.used_bytes m.total_bytes u, capped-keeps m.free_bytes m.total_bytes f)

on : (b : Option Bool) → is_off b ≡ false → is_none b ≡ false → b ≡ some true
on none off known = absurd (ground arith)
on (some true) off known = refl
on (some false) off known = absurd (ground arith)

pool-IsUsable :
    (x : Samples) (name : String) (row : Fields)
    → (normalize_pool x name row).1 ≡ []
    → IsUsable (normalize_pool x name row).0
unfolding normalize_pool
pool-IsUsable x name row h =
    let active = flag (get_field "active" row) in
    let enabled = flag (get_field "enabled" row) in
    let off = is_off active || is_off enabled in
    let m = reported row off in
    let known = not off && (is_none active || is_none enabled || is_incomplete m) in
    let (o, k, over_used, over_free) =
      four-nil off known (exceeds m.used_bytes m.total_bytes) (exceeds m.free_bytes m.total_bytes) _
        _ _ _ ("storage:" <> name) h in
    (
      on active (ground arith) (ground arith),
      on enabled (ground arith) (ground arith),
      known-checked m (ground arith) over_used over_free,
    )

add_pool-IsUsable :
    (x : Samples) (o : Option String) (row : Fields)
    (later : List StorageCapacity × List CapacityIssue)
    → (later.1 ≡ [] → All IsUsable later.0)
    → (add_pool x o row later).1 ≡ []
    → All IsUsable (add_pool x o row later).0
unfolding add_pool
add_pool-IsUsable x none row later rest h = absurd (ground arith)
add_pool-IsUsable x (some name) row later rest h =
    let (first, others) = append-nil _ _ h in (pool-IsUsable x name row first, rest others)

rows-IsUsable :
    (x : Samples) (rows : List Fields) (seen : List String)
    → (normalize_rows x seen rows).1 ≡ []
    → All IsUsable (normalize_rows x seen rows).0
unfolding normalize_rows
rows-IsUsable x [] seen h = tt
rows-IsUsable x (row ∷ rows) seen h =
    let o = pool_name seen row in
    add_pool-IsUsable x o row (normalize_rows x (now_seen o seen) rows)
      (rows-IsUsable x rows (now_seen o seen)) h

storage-IsUsable :
    (x : Samples) (answer : Option (List Fields))
    → (storage_answer x answer).1 ≡ []
    → All IsUsable (storage_answer x answer).0
unfolding storage_answer normalize_storage
storage-IsUsable x none h = absurd (ground arith)
storage-IsUsable x (some rows) h =
    let (_, issues) = append-nil _ _ h in rows-IsUsable x rows [] issues

-- The processors and the memory are known.
abbrev pub IsMeasured : CpuCapacity → MemoryCapacity → Type 0
IsMeasured cpu memory =
    (is_none cpu.logical_cpus ≡ false)
    × (is_none cpu.utilization ≡ false)
    × (is_incomplete memory ≡ false)

answer-IsMeasured :
    (x : Samples) (answer : Option Json)
    → (node_answer x answer).1.1 ≡ []
    → IsMeasured (node_answer x answer).0 (node_answer x answer).1.0
unfolding node_answer normalize_node_capacity
answer-IsMeasured x none h = absurd (ground arith)
answer-IsMeasured x (some data_) h =
    let (cpu, (memory, _)) = normalize_node_capacity x data_ in
    let (c, m) =
      two-nil (is_none cpu.logical_cpus || is_none cpu.utilization) (is_incomplete memory) _ _ _ _
        h in
    (ground arith, ground arith, m)

-- A report with the status `available` has the number of processors, their utilization and all
-- measurements of the memory, and each of its pools is active and enabled with all measurements.
pub available_complete :
    (x : Samples) (status : Option Json) (storage : Option (List Fields))
    → (read_host_capacity x status storage).status ≡ CapacityStatus.available
    → IsMeasured
        (read_host_capacity x status storage).cpu
        (read_host_capacity x status storage).memory
      × All IsUsable (read_host_capacity x status storage).storage
unfolding read_host_capacity status_of
available_complete x status storage h =
    let nothing : ((node_answer x status).1.1 ++ (storage_answer x storage).1) ≡ [] =
      issues-empty _ (ground arith) in
    let (node, pools) = append-nil _ _ nothing in
    (answer-IsMeasured x status node, storage-IsUsable x storage pools)
