-- ===== src/Overlay/Sealing.antt =====
-- The vault layer of the redaction hides what `resolve_secrets` puts into a document.
use mathlib.Core.Path.{subst}
use range42_backend_api.Prelude.{
  ℕ, ◌+◌, String, ◌≡◌, refl, Bool, true, false, some, List, [], ◌∷◌, ◌++◌, map, ◌==◌, string_eq,
  if◌then◌else◌, arith,
}
use range42_backend_api.Json.{Json, Items, Fields, get_field}
use range42_backend_api.Events.{set_field}
use range42_backend_api.Redaction.{
  Step, key, index, is_true, is_marked, vault_walk, vault_fields, vault_items,
}
use range42_backend_api.Overlay.{Rewrite, sealed, pop_field, put_all, pop_all, targets}

abbrev pub sources : List Rewrite → List String
sources rs = map (λ (r : Rewrite). r.source) rs

module _ (inline : String → Bool) where
  -- Two values that the vault layer turns into the same, with the same rows for the audit.
  abbrev pub Alike : Json → Json → Type 0
  Alike v w =
      ((path : List Step) → vault_walk inline v path ≡ vault_walk inline w path)
      × (is_true (some v) ≡ is_true (some w))

  -- The same keys in the same order, with values that are alike.
  unfoldable pub AlikeFields : Fields → Fields → Type 0
  AlikeFields Fields.end Fields.end = Unit
  AlikeFields Fields.end (Fields.field j w s) = ⊥
  AlikeFields (Fields.field k v r) Fields.end = ⊥
  AlikeFields (Fields.field k v r) (Fields.field j w s) = (k ≡ j) × Alike v w × AlikeFields r s

  unfoldable pub AlikeItems : Items → Items → Type 0
  AlikeItems Items.nil Items.nil = Unit
  AlikeItems Items.nil (Items.item w s) = ⊥
  AlikeItems (Items.item v r) Items.nil = ⊥
  AlikeItems (Items.item v r) (Items.item w s) = Alike v w × AlikeItems r s

  AlikeFields-get_field :
      (k : String) (fs gs : Fields)
      → AlikeFields fs gs
      → is_true (get_field k fs) ≡ is_true (get_field k gs)
  unfolding AlikeFields get_field
  AlikeFields-get_field k Fields.end Fields.end h = refl
  AlikeFields-get_field k Fields.end (Fields.field j w s) h = absurd h
  AlikeFields-get_field k (Fields.field j v r) Fields.end h = absurd h
  AlikeFields-get_field k (Fields.field i v r) (Fields.field j w s) (e, (_, marks), rest) =
      ground (arith, AlikeFields-get_field k r s rest)

  AlikeFields-vault_fields :
      (fs gs : Fields) (path : List Step)
      → AlikeFields fs gs
      → vault_fields inline fs path ≡ vault_fields inline gs path
  unfolding AlikeFields vault_fields
  AlikeFields-vault_fields Fields.end Fields.end path h = refl
  AlikeFields-vault_fields Fields.end (Fields.field j w s) path h = absurd h
  AlikeFields-vault_fields (Fields.field j v r) Fields.end path h = absurd h
  AlikeFields-vault_fields (Fields.field i v r) (Fields.field j w s) path (e, (walks, _), rest) =
      rw (e, walks (path ++ key j ∷ []), AlikeFields-vault_fields r s path rest)

  AlikeItems-vault_items :
      (xs ys : Items) (path : List Step) (i : ℕ)
      → AlikeItems xs ys
      → vault_items inline xs path i ≡ vault_items inline ys path i
  unfolding AlikeItems vault_items
  AlikeItems-vault_items Items.nil Items.nil path i h = refl
  AlikeItems-vault_items Items.nil (Items.item w s) path i h = absurd h
  AlikeItems-vault_items (Items.item v r) Items.nil path i h = absurd h
  AlikeItems-vault_items (Items.item v r) (Items.item w s) path i ((walks, _), rest) =
      rw (walks (path ++ index i ∷ []), AlikeItems-vault_items r s path (i + 1) rest)

  pub Alike-object : (fs gs : Fields) → AlikeFields fs gs → Alike (Json.object fs) (Json.object gs)
  unfolding vault_walk is_marked
  Alike-object fs gs h = (
    λ path. rw (
      AlikeFields-vault_fields fs gs path h,
      AlikeFields-get_field "__range42_vault_origin__" fs gs h,
    ),
    refl,
  )

  pub Alike-array : (xs ys : Items) → AlikeItems xs ys → Alike (Json.array xs) (Json.array ys)
  unfolding vault_walk
  Alike-array xs ys h = (λ path. rw (AlikeItems-vault_items xs ys path 0 h), refl)

  Alike-sealed : (s t : String) → Alike (sealed s) (sealed t)
  unfolding vault_walk is_marked get_field string_eq
  Alike-sealed s t = (λ path. refl, refl)

  if-AlikeFields :
      (b : Bool) (x x' y y' : Fields)
      → AlikeFields x x'
      → AlikeFields y y'
      → AlikeFields (if b then x else y) (if b then x' else y')
  if-AlikeFields true x x' y y' h h' = h
  if-AlikeFields false x x' y y' h h' = h'

  set_field-AlikeFields :
      (k : String) (v w : Json) (fs gs : Fields)
      → Alike v w
      → AlikeFields fs gs
      → AlikeFields (set_field k v fs) (set_field k w gs)
  unfolding AlikeFields set_field
  set_field-AlikeFields k v w Fields.end Fields.end a h = (refl, a, tt)
  set_field-AlikeFields k v w Fields.end (Fields.field j w' s) a h = absurd h
  set_field-AlikeFields k v w (Fields.field j v' r) Fields.end a h = absurd h
  set_field-AlikeFields k v w (Fields.field i v' r) (Fields.field j w' s) a (e, b, rest) =
      subst
        (λ t.
          AlikeFields (set_field k v (Fields.field i v' r)) (set_field k w (Fields.field t w' s)))
        e
        (if-AlikeFields (i == k) (Fields.field i v r) (Fields.field i w s)
          (Fields.field i v' (set_field k v r)) (Fields.field i w' (set_field k w s))
          (refl, a, rest) (refl, b, set_field-AlikeFields k v w r s a rest))

  pop_field-AlikeFields :
      (k : String) (fs gs : Fields)
      → AlikeFields fs gs
      → AlikeFields (pop_field k fs) (pop_field k gs)
  unfolding AlikeFields pop_field
  pop_field-AlikeFields k Fields.end Fields.end h = tt
  pop_field-AlikeFields k Fields.end (Fields.field j w' s) h = absurd h
  pop_field-AlikeFields k (Fields.field j v' r) Fields.end h = absurd h
  pop_field-AlikeFields k (Fields.field i v' r) (Fields.field j w' s) (e, b, rest) =
      subst
        (λ t. AlikeFields (pop_field k (Fields.field i v' r)) (pop_field k (Fields.field t w' s))) e
        (if-AlikeFields (i == k) r s (Fields.field i v' (pop_field k r))
          (Fields.field i w' (pop_field k s)) rest (refl, b, pop_field-AlikeFields k r s rest))

  pub put_all-AlikeFields :
      (xs ys : List Rewrite) (fs gs : Fields)
      → targets xs ≡ targets ys
      → AlikeFields fs gs
      → AlikeFields (put_all xs fs) (put_all ys gs)
  unfolding put_all
  put_all-AlikeFields [] [] fs gs same h = h
  put_all-AlikeFields [] (y ∷ ys) fs gs same h = absurd (ground arith)
  put_all-AlikeFields (x ∷ xs) [] fs gs same h = absurd (ground arith)
  put_all-AlikeFields (x ∷ xs) (y ∷ ys) fs gs same h =
      let e : x.target ≡ y.target = ground arith in
      put_all-AlikeFields xs ys _ _ (ground arith) (
        subst
          (λ t.
            AlikeFields (set_field x.target (sealed x.value) fs) (set_field t (sealed y.value) gs))
          e
          (set_field-AlikeFields x.target (sealed x.value) (sealed y.value) fs gs
            (Alike-sealed x.value y.value) h))

  pub pop_all-AlikeFields :
      (xs ys : List Rewrite) (fs gs : Fields)
      → sources xs ≡ sources ys
      → AlikeFields fs gs
      → AlikeFields (pop_all xs fs) (pop_all ys gs)
  unfolding pop_all
  pop_all-AlikeFields [] [] fs gs same h = h
  pop_all-AlikeFields [] (y ∷ ys) fs gs same h = absurd (ground arith)
  pop_all-AlikeFields (x ∷ xs) [] fs gs same h = absurd (ground arith)
  pop_all-AlikeFields (x ∷ xs) (y ∷ ys) fs gs same h =
      let e : x.source ≡ y.source = ground arith in
      pop_all-AlikeFields xs ys _ _ (ground arith) (
        subst (λ t. AlikeFields (pop_field x.source fs) (pop_field t gs)) e
          (pop_field-AlikeFields x.source fs gs h))
