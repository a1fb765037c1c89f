-- ===== src/Prelude/Table.antt =====
-- A table of the database as a list of rows, with the statements that the program issues. `key`
-- reads a row's primary key.
use Prim.Native.String.{String}
use mathlib.Core.Path.{◌≡◌, refl}
use mathlib.Core.Bool.{Bool, false, ◌&&◌}
use mathlib.Core.Option
use mathlib.Core.Option.{Option, none, some}
use mathlib.Core.List.{List, [], ◌∷◌, map}
use native.Mathlib.Omega.{arith}
use range42_backend_api.Prelude.Tests.{string_eq, ◌==◌, if◌then◌else◌}
use range42_backend_api.Prelude.Lists.{any}

module _ {A : Type 0} where
  -- `select(T).where(p)`
  unfoldable pub select : (A → Bool) → List A → List A
  select p [] = []
  select p (x ∷ xs) = let rest = select p xs in if p x then x ∷ rest else rest

  -- `update(T).where(p).values(...)`
  unfoldable pub update : (A → Bool) → (A → A) → List A → List A
  update p f xs = map (λ x. if p x then f x else x) xs

  pub any-select : (p q : A → Bool) (xs : List A) → any p (select q xs) ≡ any (λ x. q x && p x) xs
  unfolding select
  any-select p q [] = refl
  any-select p q (x ∷ xs) = ground (arith, any-select p q xs)

  module _ (key : A → String) where
    -- `session.get(T, k)`
    unfoldable pub get : String → List A → Option A
    get k [] = none
    get k (x ∷ xs) = if key x == k then some x else get k xs

    -- `session.delete(row)`: by its primary key
    unfoldable pub delete : String → List A → List A
    delete k [] = []
    delete k (x ∷ xs) = let rest = delete k xs in if key x == k then rest else x ∷ rest

    pub get-cons :
        (k : String) (x : A) (xs : List A)
        → get k (x ∷ xs) ≡ (if key x == k then some x else get k xs)
    unfolding get
    get-cons k x xs = refl

    pub get-delete :
        (j k : String) (xs : List A) → get k (delete j xs) ≡ (if j == k then none else get k xs)
    unfolding get delete
    get-delete j k [] = ground arith
    get-delete j k (x ∷ xs) = ground (arith, get-delete j k xs)

    pub get-update :
        (p : A → Bool) (f : A → A) (k : String) (xs : List A)
        → ((x : A) → key (f x) ≡ key x)
        → get k (update p f xs) ≡ Option.map (λ x. if p x then f x else x) (get k xs)
    unfolding get update
    get-update p f k [] same = refl
    get-update p f k (x ∷ xs) same = ground (arith, get-update p f k xs same, same x)

    pub key-get : (k : String) (xs : List A) (x : A) → get k xs ≡ some x → key x ≡ k
    unfolding get
    key-get k [] y h = cc
    key-get k (x ∷ xs) y h = ground (arith, key-get k xs y)

    module _ (k : String) (f : A → A) where
      pub get-update-key :
          (j : String) (xs : List A)
          → ((x : A) → key (f x) ≡ key x)
          → get j (update (λ x. key x == k) f xs)
            ≡ (if k == j then Option.map f (get j xs) else get j xs)
      unfolding get update
      get-update-key j [] same = ground arith
      get-update-key j (x ∷ xs) same = ground (arith, get-update-key j xs same, same x)

      -- an update by primary key under a further condition
      pub get-update_if :
          (q : A → Bool) (j : String) (xs : List A)
          → ((x : A) → key (f x) ≡ key x)
          → get j (update (λ x. key x == k && q x) f xs)
            ≡ (if k == j then Option.map (λ x. if q x then f x else x) (get j xs) else get j xs)
      unfolding get update
      get-update_if q j [] same = ground arith
      get-update_if q j (x ∷ xs) same = ground (arith, get-update_if q j xs same, same x)

    -- No two rows have the same key.
    abbrev pub Unique : List A → Type 0
    Unique [] = Unit
    Unique (x ∷ xs) = (get (key x) xs ≡ none) × Unique xs

    pub get-select :
        (p : A → Bool) (k : String) (xs : List A) (x : A)
        → Unique xs
        → get k (select p xs) ≡ some x
        → get k xs ≡ some x
    unfolding get select
    get-select p k [] x u h = absurd (ground arith)
    get-select p k (y ∷ ys) x u h = ground (arith, get-select p k ys x)

    abbrev pub holds_at : (A → Bool) → Option A → Bool
    holds_at p none = false
    holds_at p (some x) = p x

    any-none :
        (p : A → Bool) (k : String) (xs : List A)
        → get k xs ≡ none
        → any (λ x. key x == k && p x) xs ≡ false
    unfolding get
    any-none p k [] h = refl
    any-none p k (x ∷ xs) h = ground (arith, any-none p k xs)

    -- A condition on the rows of one key is a condition on the row that `get` returns.
    pub any-eq-holds_at :
        (p : A → Bool) (k : String) (xs : List A)
        → Unique xs
        → any (λ x. key x == k && p x) xs ≡ holds_at p (get k xs)
    unfolding get
    any-eq-holds_at p k [] u = refl
    any-eq-holds_at p k (x ∷ xs) u = ground (arith, any-eq-holds_at p k xs, any-none p k xs)

    -- The rows of one key, in a table that holds that key once.
    pub any-select-key :
        (p : A → Bool) (k j : String) (xs : List A)
        → any (λ x. key x == j && p x) (select (λ x. key x == k) xs)
          ≡ (k == j && any (λ x. key x == j && p x) xs)
    unfolding select
    any-select-key p k j [] = ground arith
    any-select-key p k j (x ∷ xs) = ground (arith, any-select-key p k j xs)
