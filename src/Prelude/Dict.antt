-- ===== src/Prelude/Dict.antt =====
-- A dictionary as the list of its entries, the latest first, and lists without repetition.
use mathlib.Core.Path.{◌≡◌}
use mathlib.Core.Bool.{Bool, true, not, ◌&&◌}
use mathlib.Core.Option.{Option, none, some}
use mathlib.Core.List.{List, [], ◌∷◌}
use native.Mathlib.Omega.{arith}
use range42_backend_api.Prelude.Tests.{Eq, ◌==◌, contains, if◌then◌else◌}
use range42_backend_api.Prelude.Lists.{All}

module _ {K A : Type 0} ⦃e : Eq K⦄ where
  -- `d.get(k)`
  unfoldable pub find_key : K → List (K × A) → Option A
  find_key k [] = none
  find_key k ((j, a) ∷ rest) = let later = find_key k rest in if k == j then some a else later

  abbrev pub keys : List (K × A) → List K
  keys [] = []
  keys ((j, a) ∷ rest) = j ∷ keys rest

  abbrev pub values : List (K × A) → List A
  values [] = []
  values ((j, a) ∷ rest) = a ∷ values rest

module _ {A : Type 0} ⦃e : Eq A⦄ where
  unfoldable pub distinct : List A → Bool
  distinct [] = true
  distinct (x ∷ xs) = not (contains xs x) && distinct xs

  pub All-contains : (P : A → Type 0) (xs : List A) (a : A) → All P xs → contains xs a ≡ true → P a
  All-contains P [] a all h = absurd (ground arith)
  All-contains P (x ∷ xs) a all h = ground (arith, All-contains P xs a)

module _ {K A : Type 0} ⦃e : Eq K⦄ ⦃f : Eq A⦄ where
  pub find_key-values :
      (k : K) (d : List (K × A)) (a : A) → find_key k d ≡ some a → contains (values d) a ≡ true
  unfolding find_key
  find_key-values k [] a h = absurd (ground arith)
  find_key-values k ((j, b) ∷ rest) a h = ground (arith, find_key-values k rest a)

  find_key-keys :
      (k : K) (d : List (K × A)) (a : A) → find_key k d ≡ some a → contains (keys d) k ≡ true
  unfolding find_key
  find_key-keys k [] a h = absurd (ground arith)
  find_key-keys k ((j, b) ∷ rest) a h = ground (arith, find_key-keys k rest a)

  -- Where no two values are equal, a value has one key.
  pub find_key-injective :
      (j k : K) (d : List (K × A)) (a : A)
      → distinct (values d) ≡ true
      → find_key j d ≡ some a
      → find_key k d ≡ some a
      → j ≡ k
  unfolding find_key distinct
  find_key-injective j k [] a u h₁ h₂ = absurd (ground arith)
  find_key-injective j k ((i, b) ∷ rest) a u h₁ h₂ =
      ground
        (arith, find_key-injective j k rest a, find_key-values j rest a, find_key-values k rest a)

  pub All-find_key :
      (P : K × A → Type 0) (k : K) (d : List (K × A)) (a : A)
      → All P d
      → find_key k d ≡ some a
      → P (k, a)
  unfolding find_key
  All-find_key P k [] a all h = absurd (ground arith)
  All-find_key P k ((j, b) ∷ rest) a all h = ground (arith, All-find_key P k rest a)

  -- Where no two keys are equal, each entry is found.
  pub All-entries :
      (d whole : List (K × A))
      → distinct (keys d) ≡ true
      → ((k : K) (a : A) → find_key k d ≡ some a → find_key k whole ≡ some a)
      → All (λ entry. find_key entry.0 whole ≡ some entry.1) d
  unfolding find_key distinct
  All-entries [] whole u h = tt
  All-entries ((j, b) ∷ rest) whole u h = (
    h j b (ground arith),
    All-entries rest whole (ground arith)
        (λ k a found. h k a (ground (arith, find_key-keys k rest a found))),
  )
