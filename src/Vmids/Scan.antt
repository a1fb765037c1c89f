-- ===== src/Vmids/Scan.antt =====
-- The scan returns the first free VMIDs, or fails where there are not enough.
use range42_backend_api.Prelude.{
  ℕ, zero, suc, ◌+◌, ◌-◌, ◌≡◌, refl, ◌≤◌, ◌<◌, Bool, true, false, none, some, List, [], ◌∷◌, arith,
  ltb, length, All, if◌then◌else◌, Bool-cases, inl, inr,
}
use mathlib.Core.Path.{subst}
use range42_backend_api.Prelude.Table.{select}
use range42_backend_api.Vmids.{Range, scan_end, allocatable, scan, allocate_vmids}

abbrev pub take {ℓ} : {A : Type ℓ} → ℕ → List A → List A
take zero xs = []
take (suc n) [] = []
take (suc n) (x ∷ xs) = x ∷ take n xs

-- `v`, `v + 1`, …: `n` numbers
abbrev pub upto : ℕ → ℕ → List ℕ
upto zero v = []
upto (suc n) v = v ∷ upto n (v + 1)

-- The free VMIDs from `start` up to the limit of the scan.
abbrev pub candidates : ℕ → List ℕ → List Range → List ℕ
candidates start reserved host_overrides =
    select (allocatable reserved host_overrides) (upto (scan_end - start) start)

scan-eq-take :
    (free : ℕ → Bool) (left v need : ℕ)
    → scan free left v need ≡ take need (select free (upto left v))
unfolding scan select
scan-eq-take free zero v zero = refl
scan-eq-take free zero v (suc need) = refl
scan-eq-take free (suc left) v zero = refl
scan-eq-take free (suc left) v (suc need) =
    ground (arith, scan-eq-take free left (v + 1) need, scan-eq-take free left (v + 1) (suc need))

module _ {ℓ} {A : Type ℓ} where
  ltb-length-take : (n : ℕ) (xs : List A) → ltb (length (take n xs)) n ≡ ltb (length xs) n
  ltb-length-take zero xs = ground arith
  ltb-length-take (suc n) [] = refl
  ltb-length-take (suc n) (x ∷ xs) = ground (arith, ltb-length-take n xs)

  length-take : (n : ℕ) (xs : List A) → ltb (length xs) n ≡ false → length (take n xs) ≡ n
  length-take zero xs h = refl
  length-take (suc n) [] h = ground arith
  length-take (suc n) (x ∷ xs) h = ground (arith, length-take n xs)

-- The scan answers with the first `count` free VMIDs from `start` on, in ascending order, and fails
-- exactly where fewer than `count` are left below the limit.
pub allocate_vmids-eq-take :
    (start count : ℕ) (reserved : List ℕ) (host_overrides : List Range)
    → allocate_vmids start count reserved host_overrides ≡ (
        if ltb (length (candidates start reserved host_overrides)) count
        then none
        else some (take count (candidates start reserved host_overrides)))
unfolding allocate_vmids
allocate_vmids-eq-take start count reserved host_overrides = rw (
  scan-eq-take (allocatable reserved host_overrides) (scan_end - start) start count,
  ltb-length-take count (candidates start reserved host_overrides),
)

-- Each number is greater than the one before.
abbrev pub IsIncreasing : ℕ → List ℕ → Type 0
IsIncreasing lo [] = Unit
IsIncreasing lo (x ∷ xs) = (lo ≤ x) × IsIncreasing (suc x) xs

IsIncreasing-weaken : (a b : ℕ) (xs : List ℕ) → a ≤ b → IsIncreasing b xs → IsIncreasing a xs
IsIncreasing-weaken a b [] h i = tt
IsIncreasing-weaken a b (x ∷ xs) h i = (omega arith, i.1)

module _ (free : ℕ → Bool) where
  -- What is said of every VMID that a scan returns.
  abbrev Good : ℕ → ℕ → Type 0
  Good hi x = (x < hi) × (free x ≡ true)

  sound-select :
      (left v hi need : ℕ)
      → v + left ≤ hi
      → IsIncreasing v (take need (select free (upto left v)))
        × All (Good hi) (take need (select free (upto left v)))
  unfolding select
  sound-select zero v hi zero h = (tt, tt)
  sound-select zero v hi (suc need) h = (tt, tt)
  sound-select (suc left) v hi zero h = (tt, tt)
  sound-select (suc left) v hi (suc need) h = elim (Bool-cases (free v)) [
    | inl e ↦
        let (inc, good) = sound-select left (v + 1) hi need (omega arith) in
        rw e (
          (omega arith, IsIncreasing-weaken (suc v) (v + 1) _ (omega arith) inc),
          ((omega arith, e), good),
        )
    | inr e ↦
        let (inc, good) = sound-select left (v + 1) hi (suc need) (omega arith) in
        rw e (IsIncreasing-weaken v (v + 1) _ (omega arith) inc, good)
  ]

abbrev Found : ℕ → ℕ → List ℕ → List Range → List ℕ → Type 0
Found start count reserved host_overrides out =
    (length out ≡ count)
    × IsIncreasing start out
    × All (Good (allocatable reserved host_overrides) scan_end) out

-- What a scan from a start below the limit returns: `count` VMIDs, ascending and so all different,
-- from `start` on and below the limit, none of them reserved or protected.
pub allocate_vmids_sound :
    (start count : ℕ) (reserved : List ℕ) (host_overrides : List Range) (out : List ℕ)
    → start ≤ scan_end
    → allocate_vmids start count reserved host_overrides ≡ some out
    → (length out ≡ count)
      × IsIncreasing start out
      × All (λ x. (x < scan_end) × (allocatable reserved host_overrides x ≡ true)) out
allocate_vmids_sound start count reserved host_overrides out h e =
    let cands = candidates start reserved host_overrides in
    elim (Bool-cases (ltb (length cands) count)) [
      | inl few ↦
          absurd (ground (arith, allocate_vmids-eq-take start count reserved host_overrides))
      | inr enough ↦
          let same : take count cands ≡ out =
            ground (arith, allocate_vmids-eq-take start count reserved host_overrides) in
          let (inc, good) =
            sound-select (allocatable reserved host_overrides) (scan_end - start) start scan_end
              count (omega arith) in
          subst (Found start count reserved host_overrides) same
            (length-take count cands enough, inc, good)
    ]
