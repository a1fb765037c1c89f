-- ===== src/Allocations/Planning/Choices.antt =====
-- A loop that gives every key its fixed value or a new one, as a relation.
use range42_backend_api.Prelude.{
  ◌≡◌, ◌⊎◌, refl, inl, inr, Bool, true, false, some, List, [], ◌∷◌, ◌++◌, Eq, ◌==◌, contains, All,
  arith, Bool-cases,
}
use range42_backend_api.Prelude.Dict.{
  find_key, values, distinct, find_key-values, find_key-injective, All-contains,
}

module _ {K A : Type 0} ⦃e : Eq K⦄ ⦃f : Eq A⦄ where
  -- What fixed values keep: they are what is claimed, no two of them are equal, all are good.
  pub record Held (good : A → Bool) (d : List (K × A)) (claimed : List A) : Type 0 where
    pub claimed_values : values d ≡ claimed
    pub is_distinct : distinct claimed ≡ true
    pub all_good : All (λ a. good a ≡ true) claimed

  pub Held-cons :
      (good : A → Bool) (d : List (K × A)) (claimed : List A) (k : K) (a : A)
      → Held good d claimed
      → contains claimed a ≡ false
      → good a ≡ true
      → Held good ((k, a) ∷ d) (a ∷ claimed)
  unfolding distinct
  Held-cons good d claimed k a h new is_good = record {
    claimed_values = ground (arith, h.claimed_values);
    is_distinct = ground (arith, h.is_distinct);
    all_good = (is_good, h.all_good);
  }

  -- `Gives d good claimed ks as claimed'`: the keys `ks` are given the values `as`.
  pub data Gives (d : List (K × A)) (good : A → Bool)
      : List A → List K → List A → List A → Type 0 where
    done : {claimed : List A} → Gives d good claimed [] [] claimed
    fixed :
        {claimed claimed' : List A} {k : K} {a : A} {ks : List K} {vs : List A}
        → find_key k d ≡ some a
        → Gives d good claimed ks vs claimed'
        → Gives d good claimed (k ∷ ks) (a ∷ vs) claimed'
    fresh :
        {claimed claimed' : List A} {k : K} {a : A} {ks : List K} {vs : List A}
        → contains claimed a ≡ false
        → good a ≡ true
        → Gives d good (a ∷ claimed) ks vs claimed'
        → Gives d good claimed (k ∷ ks) (a ∷ vs) claimed'

  module _ (d : List (K × A)) (good : A → Bool) where
    pub Gives-append :
        {c₀ c₁ c₂ : List A} {ks js : List K} {vs bs : List A}
        → Gives d good c₀ ks vs c₁
        → Gives d good c₁ js bs c₂
        → Gives d good c₀ (ks ++ js) (vs ++ bs) c₂
    Gives-append Gives.done h = h
    Gives-append (Gives.fixed e g) h = Gives.fixed e (Gives-append g h)
    Gives-append (Gives.fresh e p g) h = Gives.fresh e p (Gives-append g h)

    -- A value that is given is the fixed one of a key, or was not claimed before.
    given-values :
        {c₀ c₁ : List A} {ks : List K} {vs : List A}
        → Gives d good c₀ ks vs c₁
        → (a : A) → contains vs a ≡ true
        → ((k : K) × (contains ks k ≡ true) × (find_key k d ≡ some a)) ⊎ (contains c₀ a ≡ false)
    given-values Gives.done a h = absurd (ground arith)
    given-values (Gives.fixed {k = k} {a = b} {ks = ks} {vs = bs} e g) a h =
        elim (Bool-cases (a == b)) [
          | inl same ↦ inl (k, ground arith, ground (arith, e))
          | inr differ ↦ elim (given-values g a (ground arith)) [
            | inl (j, among, found) ↦ inl (j, ground arith, found)
            | inr out ↦ inr out
          ]
        ]
    given-values (Gives.fresh {k = k} {a = b} {ks = ks} {vs = bs} new is_good g) a h =
        elim (Bool-cases (a == b)) [
          | inl same ↦ inr (ground (arith, new))
          | inr differ ↦ elim (given-values g a (ground arith)) [
            | inl (j, among, found) ↦ inl (j, ground arith, found)
            | inr out ↦ inr (ground arith)
          ]
        ]

    -- Keys without repetition are given values without repetition, all good.
    module _ (fix : List A) (held : Held good d fix) where
      fixed-good :
          (k : K) (a : A) → find_key k d ≡ some a → (contains fix a ≡ true) × (good a ≡ true)
      fixed-good k a h =
          let among : contains fix a ≡ true =
            ground (arith, find_key-values k d a h, held.claimed_values) in
          (among, All-contains (λ b. good b ≡ true) fix a held.all_good among)

      given-distinct :
          {c₀ c₁ : List A} {ks : List K} {vs : List A}
          → Gives d good c₀ ks vs c₁
          → ((a : A) → contains fix a ≡ true → contains c₀ a ≡ true)
          → distinct ks ≡ true
          → (distinct vs ≡ true) × All (λ a. good a ≡ true) vs
      unfolding distinct
      given-distinct Gives.done inside u = (refl, tt)
      given-distinct (Gives.fixed {k = k} {a = a} {ks = ks} {vs = vs} e g) inside u =
          let later = given-distinct g inside (ground arith) in
          let good_a = fixed-good k a e in
          (
            elim (Bool-cases (contains vs a)) [
              | inr out ↦ ground arith
              | inl among ↦ elim (given-values g a among) [
                | inl (j, in_ks, found) ↦ absurd (
                    ground (
                      arith,
                      find_key-injective j k d a
                          (ground (arith, held.claimed_values, held.is_distinct)) found e,
                    ))
                | inr out ↦ absurd (ground (arith, inside a good_a.0))
              ]
            ],
            (good_a.1, later.1),
          )
      given-distinct (Gives.fresh {k = k} {a = a} {ks = ks} {vs = vs} new is_good g) inside u =
          let later = given-distinct g (λ b h. ground (arith, inside b h)) (ground arith) in
          (
            elim (Bool-cases (contains vs a)) [
              | inr out ↦ ground arith
              | inl among ↦ elim (given-values g a among) [
                | inl (j, in_ks, found) ↦ absurd (ground (arith, inside a (fixed-good j a found).0))
                | inr out ↦ absurd (ground arith)
              ]
            ],
            (is_good, later.1),
          )

      -- From the fixed values on
      pub Gives-distinct :
          {c₁ : List A} {ks : List K} {vs : List A}
          → Gives d good fix ks vs c₁
          → distinct ks ≡ true
          → (distinct vs ≡ true) × All (λ a. good a ≡ true) vs
      Gives-distinct g u = given-distinct g (λ a h. h) u
