-- ===== src/Redaction/Sealing.antt =====
-- What the vault layer leaves carries no marker and no inline tag.
use mathlib.Core.Bool.{and-eq-true_iff}
use range42_backend_api.Prelude.{
  ℕ, ◌+◌, String, ◌≡◌, refl, ap, inl, inr, Bool-cases, Bool, true, false, not, ◌&&◌, Option, some,
  List, [], ◌∷◌, ◌++◌, ◌==◌, string_eq, if◌then◌else◌, arith,
}
use range42_backend_api.Json.{Json, Items, Fields, get_field}
use range42_backend_api.Redaction.{
  Step, key, index, is_true, is_secret, is_marked, vault_walk, vault_fields, vault_items,
}

unfoldable mutual
  pub is_sealed : (String → Bool) → Json → Bool
  is_sealed inline (Json.string s) = not (inline s)
  is_sealed inline (Json.object fields) = not (is_marked fields) && are_sealed inline fields
  is_sealed inline (Json.array items) = items_sealed inline items
  is_sealed inline v = true

  pub are_sealed : (String → Bool) → Fields → Bool
  are_sealed inline Fields.end = true
  are_sealed inline (Fields.field k v rest) = is_sealed inline v && are_sealed inline rest

  pub items_sealed : (String → Bool) → Items → Bool
  items_sealed inline Items.nil = true
  items_sealed inline (Items.item v rest) = is_sealed inline v && items_sealed inline rest

true-vault_walk :
    (inline : String → Bool) (v : Json) (path : List Step)
    → is_true (some (vault_walk inline v path).0) ≡ true
    → is_true (some v) ≡ true
unfolding vault_walk
true-vault_walk inline (Json.object fs) path h = absurd (ground arith)
true-vault_walk inline (Json.array xs) path h = absurd (ground arith)
true-vault_walk inline (Json.string _) path h = absurd (ground arith)
true-vault_walk inline Json.null path h = h
true-vault_walk inline (Json.boolean _) path h = h
true-vault_walk inline (Json.number _) path h = h
true-vault_walk inline (Json.float _) path h = h

true-if :
    (first : Bool) (v v' : Json) (later later' : Option Json)
    → (is_true (some v) ≡ true → is_true (some v') ≡ true)
    → (is_true later ≡ true → is_true later' ≡ true)
    → is_true (if first then some v else later) ≡ true
    → is_true (if first then some v' else later') ≡ true
true-if true v v' later later' here there h = here h
true-if false v v' later later' here there h = there h

true-vault_fields :
    (inline : String → Bool) (fs : Fields) (path : List Step) (j : String)
    → is_true (get_field j (vault_fields inline fs path).0) ≡ true
    → is_true (get_field j fs) ≡ true
unfolding vault_fields get_field
true-vault_fields inline Fields.end path j h = h
true-vault_fields inline (Fields.field k v rest) path j h =
    true-if (k == j) (vault_walk inline v (path ++ key k ∷ [])).0 v
      (get_field j (vault_fields inline rest path).0) (get_field j rest)
      (true-vault_walk inline v (path ++ key k ∷ [])) (true-vault_fields inline rest path j) h

pub marked-vault_fields :
    (inline : String → Bool) (fs : Fields) (path : List Step)
    → is_marked fs ≡ false
    → is_marked (vault_fields inline fs path).0 ≡ false
unfolding is_marked
marked-vault_fields inline fs path h =
    ground (arith, true-vault_fields inline fs path "__range42_vault_origin__")

pub secret-vault_fields :
    (inline : String → Bool) (fs : Fields) (path : List Step)
    → is_secret (vault_fields inline fs path).0 ≡ true
    → is_secret fs ≡ true
unfolding is_secret
secret-vault_fields inline fs path = true-vault_fields inline fs path "secret"

pub sealed-object :
    (inline : String → Bool) (fs : Fields)
    → is_marked fs ≡ false
    → are_sealed inline fs ≡ true
    → is_sealed inline (Json.object fs) ≡ true
unfolding is_sealed
sealed-object inline fs e h = (and-eq-true_iff _ _).1 (ap not e, h)

module _ (inline : String → Bool) (plain : inline "[REDACTED:vault_tagged]" ≡ false) where
  mutual
    unfolding vault_walk is_sealed

    sealed-vault_walk :
        (v : Json) (path : List Step) → is_sealed inline (vault_walk inline v path).0 ≡ true
    sealed-vault_walk (Json.object fs) path =
        let new = (vault_fields inline fs path).0 in
        let whole = λ (e : is_marked fs ≡ false).
          sealed-object inline new (marked-vault_fields inline fs path e)
            (sealed-vault_fields fs path) in
        elim (Bool-cases (is_marked fs)) [ inl e ↦ rw e (ap not plain) | inr e ↦ rw e (whole e) ]
    sealed-vault_walk (Json.array xs) path = sealed-vault_items xs path 0
    sealed-vault_walk (Json.string s) path = ground arith
    sealed-vault_walk Json.null path = refl
    sealed-vault_walk (Json.boolean _) path = refl
    sealed-vault_walk (Json.number _) path = refl
    sealed-vault_walk (Json.float _) path = refl

    pub sealed-vault_fields :
        (fs : Fields) (path : List Step) → are_sealed inline (vault_fields inline fs path).0 ≡ true
    sealed-vault_fields Fields.end path = refl
    sealed-vault_fields (Fields.field k v rest) path =
        (and-eq-true_iff _ _).1
          (sealed-vault_walk v (path ++ key k ∷ []), sealed-vault_fields rest path)

    sealed-vault_items :
        (xs : Items) (path : List Step) (i : ℕ)
        → items_sealed inline (vault_items inline xs path i).0 ≡ true
    sealed-vault_items Items.nil path i = refl
    sealed-vault_items (Items.item v rest) path i =
        (and-eq-true_iff _ _).1
          (sealed-vault_walk v (path ++ index i ∷ []), sealed-vault_items rest path (i + 1))
