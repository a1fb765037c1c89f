-- ===== src/Capacity/Bounds.antt =====
-- What a capacity report never contains, and what a complete one contains.
use range42_backend_api.Prelude.{
  ℕ, String, ◌≡◌, refl, true, false, Option, none, some, List, [], ◌∷◌, All, contains, map, arith,
  string_eq, nat_eq,
}
use range42_backend_api.Prelude.Dict.{distinct}
use range42_backend_api.Json.{Json, Fields}
use range42_backend_api.Capacity.{
  Samples, CapacityIssue, MemoryCapacity, StorageCapacity, exceeds, capped, checked,
  normalize_node_capacity, normalize_pool, pool_name, now_seen, add_pool, normalize_rows,
  normalize_storage, node_answer, storage_answer, read_host_capacity,
}

-- Neither the used nor the free bytes exceed the total, where both are known.
abbrev pub IsBounded : MemoryCapacity → Type 0
IsBounded m =
    (exceeds m.used_bytes m.total_bytes ≡ false) × (exceeds m.free_bytes m.total_bytes ≡ false)

capped-bounded : (value total : Option ℕ) → exceeds (capped value total) total ≡ false
unfolding exceeds
capped-bounded none total = refl
capped-bounded (some v) none = refl
capped-bounded (some v) (some t) = ground arith

node-IsBounded : (x : Samples) (data_ : Json) → IsBounded (normalize_node_capacity x data_).1.0
unfolding normalize_node_capacity
node-IsBounded x data_ = (capped-bounded _ _, capped-bounded _ _)

checked-IsBounded : (m : MemoryCapacity) → IsBounded (checked m)
unfolding checked
checked-IsBounded m =
    (capped-bounded m.used_bytes m.total_bytes, capped-bounded m.free_bytes m.total_bytes)

pool-IsBounded :
    (x : Samples) (name : String) (row : Fields) → IsBounded (normalize_pool x name row).0.memory
unfolding normalize_pool
pool-IsBounded x name row = checked-IsBounded _

name-normalize_pool :
    (x : Samples) (name : String) (row : Fields) → (normalize_pool x name row).0.storage ≡ name
unfolding normalize_pool
name-normalize_pool x name row = refl

abbrev pub names : List StorageCapacity → List String
names pools = map (λ (p : StorageCapacity). p.storage) pools

pool_name-new :
    (seen : List String) (row : Fields) (name : String)
    → pool_name seen row ≡ some name
    → contains seen name ≡ false
unfolding pool_name
pool_name-new seen row name h = ground arith

now_seen-keeps :
    (o : Option String) (seen : List String) (name : String)
    → contains seen name ≡ true
    → contains (now_seen o seen) name ≡ true
unfolding now_seen
now_seen-keeps none seen name h = h
now_seen-keeps (some found) seen name h = ground arith

abbrev Sound : List StorageCapacity → Type 0
Sound pools = (distinct (names pools) ≡ true) × All (λ p. IsBounded p.memory) pools

module _ (x : Samples) where
  module _ (row : Fields) (later : List StorageCapacity × List CapacityIssue) where
    add_pool-unseen :
        (o : Option String) (seen : List String) (name : String)
        → pool_name seen row ≡ o
        → contains seen name ≡ true
        → contains (names later.0) name ≡ false
        → contains (names (add_pool x o row later).0) name ≡ false
    unfolding add_pool
    add_pool-unseen none seen name e h rest = rest
    add_pool-unseen (some found) seen name e h rest =
        ground (arith, name-normalize_pool x found row, pool_name-new seen row found e)

    add_pool-Sound :
        (o : Option String)
        → ((found : String) → o ≡ some found → contains (names later.0) found ≡ false)
        → Sound later.0
        → Sound (add_pool x o row later).0
    unfolding add_pool distinct
    add_pool-Sound none new rest = rest
    add_pool-Sound (some found) new (differ, bounded) = (
      ground (arith, name-normalize_pool x found row, new found refl),
      (pool-IsBounded x found row, bounded),
    )

  -- A name that was seen does not come again.
  rows-unseen :
      (rows : List Fields) (seen : List String) (name : String)
      → contains seen name ≡ true
      → contains (names (normalize_rows x seen rows).0) name ≡ false
  unfolding normalize_rows
  rows-unseen [] seen name h = refl
  rows-unseen (row ∷ rows) seen name h =
      let o = pool_name seen row in
      add_pool-unseen row (normalize_rows x (now_seen o seen) rows) o seen name refl h
        (rows-unseen rows (now_seen o seen) name (now_seen-keeps o seen name h))

  rows-Sound : (rows : List Fields) (seen : List String) → Sound (normalize_rows x seen rows).0
  unfolding normalize_rows now_seen distinct
  rows-Sound [] seen = (refl, tt)
  rows-Sound (row ∷ rows) seen =
      let o = pool_name seen row in
      add_pool-Sound row (normalize_rows x (now_seen o seen) rows) o
        (λ found e. rows-unseen rows (now_seen o seen) found (ground arith))
        (rows-Sound rows (now_seen o seen))

storage-Sound : (x : Samples) (answer : Option (List Fields)) → Sound (storage_answer x answer).0
unfolding storage_answer normalize_storage distinct
storage-Sound x none = (refl, tt)
storage-Sound x (some rows) = rows-Sound x rows []

answer-IsBounded : (x : Samples) (answer : Option Json) → IsBounded (node_answer x answer).1.0
unfolding node_answer exceeds
answer-IsBounded x none = (refl, refl)
answer-IsBounded x (some data_) = node-IsBounded x data_

-- In every report neither the used nor the free bytes exceed a known total, neither for the memory
-- nor for a pool, and no two pools have the same name, whatever the node has answered.
pub read_host_capacity-IsBounded :
    (x : Samples) (status : Option Json) (storage : Option (List Fields))
    → IsBounded (read_host_capacity x status storage).memory
      × (distinct (names (read_host_capacity x status storage).storage) ≡ true)
      × All (λ p. IsBounded p.memory) (read_host_capacity x status storage).storage
unfolding read_host_capacity
read_host_capacity-IsBounded x status storage =
    let (differ, bounded) = storage-Sound x storage in (answer-IsBounded x status, differ, bounded)
