-- ===== src/Snapshots/Planning/Candidates.antt =====
-- What retention may delete.
use mathlib.Core.Path.{subst}
use range42_backend_api.Prelude.{
  ℕ, ◌+◌, ◌-◌, ◌*◌, ◌≤◌, String, ◌≡◌, refl, ◌⊎◌, inl, inr, Bool, true, ◌&&◌, List, [], ◌∷◌, leb,
  length, ◌==◌, string_eq, nat_eq, suc, All, Bool-cases, arith,
}
use range42_backend_api.Prelude.Table.{select}
use range42_backend_api.Prelude.Result.{ok}
use range42_backend_api.Models.{Db, RetentionPolicy, SnapshotSet}
use range42_backend_api.Snapshots.Planning.{
  Review, older, place, newest_first, complete_sets, is_complete, is_old, expired,
  retention_candidates,
}

-- A complete set of the deployment, created at least `keep_days` ago.
abbrev pub Eligible : ℕ → RetentionPolicy → String → SnapshotSet → Type 0
Eligible now policy d s =
    (s.deployment_id ≡ d)
    × (is_complete s.state ≡ true)
    × (s.created_at + policy.keep_days * 86400 ≤ now)

All-Eligible :
    (now : ℕ) (policy : RetentionPolicy) (d : String) (xs : List SnapshotSet)
    → All
        (λ s. ((s.deployment_id ≡ d) × (is_complete s.state ≡ true)) × (is_old now policy s ≡ true))
        xs
    → All (Eligible now policy d) xs
All-Eligible now policy d [] h = tt
All-Eligible now policy d (s ∷ rest) (((a, b), c), hs) =
    ((a, b, ground arith), All-Eligible now policy d rest hs)

module _ {A : Type 0} (P : A → Type 0) where
  All-select : (p : A → Bool) → ((a : A) → p a ≡ true → P a) → (xs : List A) → All P (select p xs)
  unfolding select
  All-select p h [] = tt
  All-select p h (x ∷ xs) = elim (Bool-cases (p x)) [
    | inl e ↦ rw e (h x e, All-select p h xs)
    | inr e ↦ rw e (All-select p h xs)
  ]

module _ (x : Review) (P : SnapshotSet → Type 0) where
  All-place : (s : SnapshotSet) (ys : List SnapshotSet) → P s → All P ys → All P (place x s ys)
  unfolding place
  All-place s [] h hs = (h, tt)
  All-place s (y ∷ ys) h hs = elim (Bool-cases (older x s y)) [
    | inl e ↦ rw e (hs.0, All-place s ys h hs.1)
    | inr e ↦ rw e (h, hs)
  ]

  All-newest_first : (xs : List SnapshotSet) → All P xs → All P (newest_first x xs)
  unfolding newest_first
  All-newest_first [] h = tt
  All-newest_first (s ∷ rest) h = All-place s (newest_first x rest) h.0 (All-newest_first rest h.1)

module _ (now : ℕ) (policy : RetentionPolicy) where
  All-expired :
      (P : SnapshotSet → Type 0) (i : ℕ) (xs : List SnapshotSet)
      → All P xs
      → All (λ s. P s × (is_old now policy s ≡ true)) (expired now policy i xs)
  unfolding expired
  All-expired P i [] h = tt
  All-expired P i (s ∷ rest) h =
      elim (Bool-cases (leb policy.keep_count i && is_old now policy s)) [
        | inl e ↦ rw e ((h.0, ground arith), All-expired P (suc i) rest h.1)
        | inr e ↦ rw e (All-expired P (suc i) rest h.1)
      ]

  length-expired :
      (i : ℕ) (xs : List SnapshotSet)
      → (length (expired now policy i xs) ≡ 0)
        ⊎ (length (expired now policy i xs) + (policy.keep_count - i) ≤ length xs)
  unfolding expired
  length-expired i [] = inl refl
  length-expired i (s ∷ rest) = ground (arith, length-expired (suc i) rest)

length-place :
    (x : Review) (s : SnapshotSet) (ys : List SnapshotSet) → length (place x s ys) ≡ suc (length ys)
unfolding place
length-place x s [] = refl
length-place x s (y ∷ ys) = ground (arith, length-place x s ys)

length-newest_first : (x : Review) (xs : List SnapshotSet) → length (newest_first x xs) ≡ length xs
unfolding newest_first
length-newest_first x [] = refl
length-newest_first x (s ∷ rest) =
    ground (arith, length-place x s (newest_first x rest), length-newest_first x rest)

-- The complete sets of a deployment, in the order of the table.
abbrev pub complete_in : Db → String → List SnapshotSet
complete_in db d = select (λ s. s.deployment_id == d && is_complete s.state) db.snapshots

-- Every candidate for deletion by retention is a complete set of the deployment and older than
-- `keep_days`, and there is no candidate or at least `keep_count` complete sets are none.
pub retention_candidates-Eligible :
    (x : Review) (db : Db) (d : String) (policy : RetentionPolicy) (rows : List SnapshotSet)
    → retention_candidates x db d policy ≡ ok rows
    → All (Eligible x.now policy d) rows
      × ((length rows ≡ 0) ⊎ (length rows + policy.keep_count ≤ length (complete_in db d)))
unfolding retention_candidates complete_sets
retention_candidates-Eligible x db d policy rows h =
    let sets = newest_first x (complete_in db d) in
    let same : expired x.now policy 0 sets ≡ rows = ground arith in
    let complete =
      All-newest_first x (λ s. (s.deployment_id ≡ d) × (is_complete s.state ≡ true))
        (complete_in db d) (All-select _ _ (λ a e. ground arith) db.snapshots) in
    let old = All-expired x.now policy _ 0 sets complete in
    let few = length-expired x.now policy 0 sets in
    let all_sets = length-newest_first x (complete_in db d) in
    subst
      (λ r.
        All (Eligible x.now policy d) r
        × ((length r ≡ 0) ⊎ (length r + policy.keep_count ≤ length (complete_in db d))))
      same
      (All-Eligible x.now policy d (expired x.now policy 0 sets) old, ground (arith, few, all_sets))
