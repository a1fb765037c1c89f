-- ===== src/Capacity/Space.antt =====
-- A pool of a capacity report on which a plan fits.
use range42_backend_api.Prelude.{
  ℕ, ◌<>◌, ap, ◌≤◌, ◌≡◌, ◌≢◌, refl, inl, inr, String, Bool, true, false, Option, none, some, List,
  [], ◌∷◌, ◌++◌, contains, arith, nat_eq, string_eq, option_eq, Bool-cases, Option-cases, ◌==◌,
}
use range42_backend_api.Json.{get_field}
use range42_backend_api.Capacity.{HostCapacity, StorageCapacity, is_on, flag, fields_of}
use range42_backend_api.Capacity.Admission.{Answers, may_allocate, pool_of, usable_space}

-- A pool of the report has this name, is active and enabled and holds images; the token has a
-- privilege to allocate on it; and the bytes fit into what is free.
pub record Fits (a : Answers) (capacity : HostCapacity) (name : String) (required : ℕ)
    : Type 0 where
  pub pool : StorageCapacity
  pub before : List StorageCapacity
  pub after : List StorageCapacity
  pub listed : capacity.storage ≡ before ++ pool ∷ after
  pub named : pool.storage ≡ name
  pub is_active : pool.active ≡ some true
  pub is_enabled : pool.enabled ≡ some true
  pub holds_images : contains pool.content "images" ≡ true
  pub free : ℕ
  pub has_free : pool.memory.free_bytes ≡ some free
  pub is_granted :
      flag (
        get_field "Datastore.AllocateSpace" (
          fields_of
            (get_field ("/storage/" <> name) (fields_of (a.permissions ("/storage/" <> name))))))
      ≢ none
  pub fits : required ≤ free

-- The pool that is found by its name.
record Found (name : String) (pools : List StorageCapacity) (pool : StorageCapacity) : Type 0 where
  before : List StorageCapacity
  after : List StorageCapacity
  among : pools ≡ before ++ pool ∷ after
  named : pool.storage ≡ name

pool_of-Found :
    (name : String) (pools : List StorageCapacity) (pool : StorageCapacity)
    → pool_of name pools ≡ some pool
    → Found name pools pool
unfolding pool_of
pool_of-Found name [] pool e = absurd (ground arith)
pool_of-Found name (p ∷ pools) pool e = elim (Option-cases (pool_of name pools)) [
  | inl q ↦ elim (Bool-cases (p.storage == name)) [
    | inl same ↦ record { before = []; after = pools; among = ground arith; named = ground arith }
    | inr other ↦ absurd (ground arith)
  ]
  | inr (r, q) ↦
      let later = pool_of-Found name pools pool (ground arith) in
      record {
        before = p ∷ later.before;
        after = later.after;
        among = ap (λ l. p ∷ l) later.among;
        named = later.named;
      }
]

on-true : (o : Option Bool) → is_on o ≡ true → o ≡ some true
on-true none e = absurd (ground arith)
on-true (some true) e = refl
on-true (some false) e = absurd (ground arith)

usable_space-pool :
    (p : StorageCapacity) (free : ℕ) (total : Option ℕ)
    → usable_space (some p) ≡ some (free, total)
    → (p.active ≡ some true)
      × (p.enabled ≡ some true)
      × (contains p.content "images" ≡ true)
      × (p.memory.free_bytes ≡ some free)
unfolding usable_space
usable_space-pool p free total e =
    (on-true p.active (ground arith), on-true p.enabled (ground arith), ground arith, ground arith)

granted-flag :
    (a : Answers) (name : String)
    → may_allocate a name ≡ true
    → flag (
        get_field "Datastore.AllocateSpace" (
          fields_of
            (get_field ("/storage/" <> name) (fields_of (a.permissions ("/storage/" <> name))))))
      ≢ none
unfolding may_allocate
granted-flag a name h q = absurd (ground arith)

pub make-Fits :
    (a : Answers) (capacity : HostCapacity) (name : String) (required free : ℕ) (total : Option ℕ)
    → usable_space (pool_of name capacity.storage) ≡ some (free, total)
    → may_allocate a name ≡ true
    → required ≤ free
    → Fits a capacity name required
make-Fits a capacity name required free total u granted fits =
    elim (Option-cases (pool_of name capacity.storage)) [
      | inl e ↦ absurd (unfold usable_space in ground arith)
      | inr (pool, e) ↦
          let found = pool_of-Found name capacity.storage pool e in
          let (active, enabled, images, has_free) =
            usable_space-pool pool free total (ground arith) in
          record {
            pool = pool;
            before = found.before;
            after = found.after;
            listed = found.among;
            named = found.named;
            is_active = active;
            is_enabled = enabled;
            holds_images = images;
            free = free;
            has_free = has_free;
            is_granted = granted-flag a name granted;
            fits = fits;
          }
    ]
