-- ===== src/Redaction/Coverage.antt =====
-- Where an event is changed: a place that a layer does not report keeps its value, or is an object
-- with the same keys or a list of the same length, of which the same can be said.
use range42_backend_api.Prelude.{ℕ, ◌+◌, ◌≡◌, refl, ◌⊎◌, inl, inr, List, [], ◌∷◌, ◌++◌, string_eq}
use mathlib.Core.Path.{subst}
use range42_backend_api.Json.{Json, Items, Fields}
use range42_backend_api.Redaction.{Step, key, index, Fired}

-- A row for this path is among the reports.
abbrev pub Reports : List Fired → List Step → Type 0
Reports [] p = ⊥
Reports (f ∷ fired) p = (f.field_path ≡ p) ⊎ Reports fired p

unfoldable mutual
  -- The value `v` at a path may have become `w`: it is the same, or the path is reported, or both are
  -- objects or lists and so it is below.
  pub Covered : (List Step → Type 0) → List Step → Json → Json → Type 0
  Covered P path (Json.object fs) w =
      (w ≡ Json.object fs)
      ⊎ (P path ⊎ ((gs : Fields) × (w ≡ Json.object gs) × CoveredFields P path fs gs))
  Covered P path (Json.array xs) w =
      (w ≡ Json.array xs)
      ⊎ (P path ⊎ ((ys : Items) × (w ≡ Json.array ys) × CoveredItems P path 0 xs ys))
  Covered P path (Json.string s) w = (w ≡ Json.string s) ⊎ P path
  Covered P path Json.null w = (w ≡ Json.null) ⊎ P path
  Covered P path (Json.boolean b) w = (w ≡ Json.boolean b) ⊎ P path
  Covered P path (Json.number n) w = (w ≡ Json.number n) ⊎ P path
  Covered P path (Json.float s) w = (w ≡ Json.float s) ⊎ P path

  pub CoveredFields : (List Step → Type 0) → List Step → Fields → Fields → Type 0
  CoveredFields P path Fields.end gs = gs ≡ Fields.end
  CoveredFields P path (Fields.field k v rest) gs =
      (w : Json) × (later : Fields) × (gs ≡ Fields.field k w later)
      × Covered P (path ++ key k ∷ []) v w
      × CoveredFields P path rest later

  pub CoveredItems : (List Step → Type 0) → List Step → ℕ → Items → Items → Type 0
  CoveredItems P path i Items.nil ys = ys ≡ Items.nil
  CoveredItems P path i (Items.item v rest) ys =
      (w : Json) × (later : Items) × (ys ≡ Items.item w later)
      × Covered P (path ++ index i ∷ []) v w
      × CoveredItems P path (i + 1) rest later

pub Reports-left : (xs ys : List Fired) (p : List Step) → Reports xs p → Reports (xs ++ ys) p
Reports-left [] ys p h = absurd h
Reports-left (x ∷ xs) ys p (inl e) = inl e
Reports-left (x ∷ xs) ys p (inr h) = inr (Reports-left xs ys p h)

pub Reports-right : (xs ys : List Fired) (p : List Step) → Reports ys p → Reports (xs ++ ys) p
Reports-right [] ys p h = h
Reports-right (x ∷ xs) ys p h = inr (Reports-right xs ys p h)

module _ (P : List Step → Type 0) where
  pub same-Covered : (path : List Step) (v w : Json) → w ≡ v → Covered P path v w
  unfolding Covered
  same-Covered path (Json.object fs) w e = inl e
  same-Covered path (Json.array xs) w e = inl e
  same-Covered path (Json.string s) w e = inl e
  same-Covered path Json.null w e = inl e
  same-Covered path (Json.boolean b) w e = inl e
  same-Covered path (Json.number n) w e = inl e
  same-Covered path (Json.float s) w e = inl e

  pub named-Covered : (path : List Step) (v w : Json) → P path → Covered P path v w
  unfolding Covered
  named-Covered path (Json.object fs) w p = inr (inl p)
  named-Covered path (Json.array xs) w p = inr (inl p)
  named-Covered path (Json.string s) w p = inr p
  named-Covered path Json.null w p = inr p
  named-Covered path (Json.boolean b) w p = inr p
  named-Covered path (Json.number n) w p = inr p
  named-Covered path (Json.float s) w p = inr p

  pub same-CoveredFields : (path : List Step) (fs : Fields) → CoveredFields P path fs fs
  unfolding Covered
  same-CoveredFields path Fields.end = refl
  same-CoveredFields path (Fields.field k v rest) =
      (v, rest, refl, same-Covered (path ++ key k ∷ []) v v refl, same-CoveredFields path rest)

  mutual
    unfolding Covered

    Covered-trans :
        (path : List Step) (u v w : Json)
        → Covered P path u v
        → Covered P path v w
        → Covered P path u w
    Covered-trans path (Json.object fs) v w (inl e) h = subst (λ x. Covered P path x w) e h
    Covered-trans path (Json.object fs) v w (inr (inl p)) h = inr (inl p)
    Covered-trans path (Json.object fs) v w (inr (inr (gs, e, deep))) h =
        elim (subst (λ x. Covered P path x w) e h) [
          | inl same ↦ inr (inr (gs, same, deep))
          | inr (inl p) ↦ inr (inl p)
          | inr (inr (hs, same, more)) ↦
              inr (inr (hs, same, CoveredFields-trans path fs gs hs deep more))
        ]
    Covered-trans path (Json.array xs) v w (inl e) h = subst (λ x. Covered P path x w) e h
    Covered-trans path (Json.array xs) v w (inr (inl p)) h = inr (inl p)
    Covered-trans path (Json.array xs) v w (inr (inr (ys, e, deep))) h =
        elim (subst (λ x. Covered P path x w) e h) [
          | inl same ↦ inr (inr (ys, same, deep))
          | inr (inl p) ↦ inr (inl p)
          | inr (inr (zs, same, more)) ↦
              inr (inr (zs, same, CoveredItems-trans path 0 xs ys zs deep more))
        ]
    Covered-trans path (Json.string s) v w (inl e) h = subst (λ x. Covered P path x w) e h
    Covered-trans path (Json.string s) v w (inr p) h = inr p
    Covered-trans path Json.null v w (inl e) h = subst (λ x. Covered P path x w) e h
    Covered-trans path Json.null v w (inr p) h = inr p
    Covered-trans path (Json.boolean b) v w (inl e) h = subst (λ x. Covered P path x w) e h
    Covered-trans path (Json.boolean b) v w (inr p) h = inr p
    Covered-trans path (Json.number n) v w (inl e) h = subst (λ x. Covered P path x w) e h
    Covered-trans path (Json.number n) v w (inr p) h = inr p
    Covered-trans path (Json.float s) v w (inl e) h = subst (λ x. Covered P path x w) e h
    Covered-trans path (Json.float s) v w (inr p) h = inr p

    pub CoveredFields-trans :
        (path : List Step) (fs gs hs : Fields)
        → CoveredFields P path fs gs
        → CoveredFields P path gs hs
        → CoveredFields P path fs hs
    CoveredFields-trans path Fields.end gs hs e h = subst (λ x. CoveredFields P path x hs) e h
    CoveredFields-trans path (Fields.field k u rest) gs hs (v, later, e, first, more) h =
        let (w, last, e', second, further) = subst (λ x. CoveredFields P path x hs) e h in
        (
          w,
          last,
          e',
          Covered-trans (path ++ key k ∷ []) u v w first second,
          CoveredFields-trans path rest later last more further,
        )

    CoveredItems-trans :
        (path : List Step) (i : ℕ) (xs ys zs : Items)
        → CoveredItems P path i xs ys
        → CoveredItems P path i ys zs
        → CoveredItems P path i xs zs
    CoveredItems-trans path i Items.nil ys zs e h = subst (λ x. CoveredItems P path i x zs) e h
    CoveredItems-trans path i (Items.item u rest) ys zs (v, later, e, first, more) h =
        let (w, last, e', second, further) = subst (λ x. CoveredItems P path i x zs) e h in
        (
          w,
          last,
          e',
          Covered-trans (path ++ index i ∷ []) u v w first second,
          CoveredItems-trans path (i + 1) rest later last more further,
        )
