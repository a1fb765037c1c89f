-- ===== src/Redaction/Reporting.antt =====
-- The vault layer and the layer of tainted texts report every place that they change.
use range42_backend_api.Prelude.{
  ℕ, ◌+◌, String, ◌≡◌, refl, ap, ◌⊎◌, inl, inr, Bool, ◌&&◌, List, [], ◌∷◌, ◌++◌, ◌!=◌, string_eq,
  arith, Bool-cases,
}
use range42_backend_api.Json.{Json, Items, Fields}
use range42_backend_api.Redaction.{
  Step, key, index, Fired, Texts, is_marked, vault_walk, vault_fields, vault_items, redact_string,
  tainted_walk, tainted_fields, tainted_items,
}
use range42_backend_api.Redaction.Coverage.{
  Reports, Covered, CoveredFields, CoveredItems, Reports-left, Reports-right, same-Covered,
  named-Covered,
}

-- Every report is of a place of which `P` holds.
abbrev pub Within : List Fired → (List Step → Type 0) → Type 0
Within fired P = (p : List Step) → Reports fired p → P p

pub within_left : (P : List Step → Type 0) (xs ys : List Fired) → Within (xs ++ ys) P → Within xs P
within_left P xs ys h p r = h p (Reports-left xs ys p r)

pub within_right : (P : List Step → Type 0) (xs ys : List Fired) → Within (xs ++ ys) P → Within ys P
within_right P xs ys h p r = h p (Reports-right xs ys p r)

module _ (P : List Step → Type 0) (inline : String → Bool) where
  mutual
    unfolding vault_walk Covered

    vault_walk-Covered :
        (v : Json) (path : List Step)
        → Within (vault_walk inline v path).1 P
        → Covered P path v (vault_walk inline v path).0
    vault_walk-Covered (Json.string s) path h = elim (Bool-cases (inline s)) [
      | inl e ↦ named-Covered P path (Json.string s) _ (h path (rw e (inl refl)))
      | inr e ↦ same-Covered P path (Json.string s) _ (ground arith)
    ]
    vault_walk-Covered (Json.object fields) path h = elim (Bool-cases (is_marked fields)) [
      | inl e ↦ named-Covered P path (Json.object fields) _ (h path (rw e (inl refl)))
      | inr e ↦ inr (
          inr (
            (vault_fields inline fields path).0,
            ground arith,
            vault_fields-Covered fields path (λ p r. h p (rw e r)),
          ))
    ]
    vault_walk-Covered (Json.array items) path h =
        inr (inr ((vault_items inline items path 0).0, refl, vault_items-Covered items path 0 h))
    vault_walk-Covered Json.null path h = inl refl
    vault_walk-Covered (Json.boolean b) path h = inl refl
    vault_walk-Covered (Json.number n) path h = inl refl
    vault_walk-Covered (Json.float s) path h = inl refl

    pub vault_fields-Covered :
        (fs : Fields) (path : List Step)
        → Within (vault_fields inline fs path).1 P
        → CoveredFields P path fs (vault_fields inline fs path).0
    vault_fields-Covered Fields.end path h = refl
    vault_fields-Covered (Fields.field k v rest) path h =
        let sub = path ++ key k ∷ [] in
        let fired = (vault_walk inline v sub).1 in
        let more = (vault_fields inline rest path).1 in
        (
          (vault_walk inline v sub).0,
          (vault_fields inline rest path).0,
          refl,
          vault_walk-Covered v sub (within_left P fired more h),
          vault_fields-Covered rest path (within_right P fired more h),
        )

    vault_items-Covered :
        (xs : Items) (path : List Step) (i : ℕ)
        → Within (vault_items inline xs path i).1 P
        → CoveredItems P path i xs (vault_items inline xs path i).0
    vault_items-Covered Items.nil path i h = refl
    vault_items-Covered (Items.item v rest) path i h =
        let sub = path ++ index i ∷ [] in
        let fired = (vault_walk inline v sub).1 in
        let more = (vault_items inline rest path (i + 1)).1 in
        (
          (vault_walk inline v sub).0,
          (vault_items inline rest path (i + 1)).0,
          refl,
          vault_walk-Covered v sub (within_left P fired more h),
          vault_items-Covered rest path (i + 1) (within_right P fired more h),
        )

redact_string-cases :
    (texts : Texts) (tainted : List String) (s : String) (path : List Step)
    → ((redact_string texts tainted s path).0 ≡ s)
      ⊎ Reports (redact_string texts tainted s path).1 path
unfolding redact_string
redact_string-cases texts [] s path = inl refl
redact_string-cases texts (t ∷ tainted) s path = elim (Bool-cases (t != "" && texts.occurs t s)) [
  | inl e ↦ inr (rw e (inl refl))
  | inr e ↦ rw e (redact_string-cases texts tainted s path)
]

module _ (P : List Step → Type 0) (texts : Texts) (tainted : List String) where
  mutual
    unfolding tainted_walk Covered

    tainted_walk-Covered :
        (v : Json) (path : List Step)
        → Within (tainted_walk texts tainted v path).1 P
        → Covered P path v (tainted_walk texts tainted v path).0
    tainted_walk-Covered (Json.string s) path h = elim (redact_string-cases texts tainted s path) [
      | inl e ↦ inl (ap Json.string e)
      | inr r ↦ inr (h path r)
    ]
    tainted_walk-Covered (Json.object fields) path h = inr (
        inr (
          (tainted_fields texts tainted fields path).0,
          refl,
          tainted_fields-Covered fields path h,
        ))
    tainted_walk-Covered (Json.array items) path h = inr (
        inr (
          (tainted_items texts tainted items path 0).0,
          refl,
          tainted_items-Covered items path 0 h,
        ))
    tainted_walk-Covered Json.null path h = inl refl
    tainted_walk-Covered (Json.boolean b) path h = inl refl
    tainted_walk-Covered (Json.number n) path h = inl refl
    tainted_walk-Covered (Json.float s) path h = inl refl

    pub tainted_fields-Covered :
        (fs : Fields) (path : List Step)
        → Within (tainted_fields texts tainted fs path).1 P
        → CoveredFields P path fs (tainted_fields texts tainted fs path).0
    tainted_fields-Covered Fields.end path h = refl
    tainted_fields-Covered (Fields.field k v rest) path h =
        let sub = path ++ key k ∷ [] in
        let fired = (tainted_walk texts tainted v sub).1 in
        let more = (tainted_fields texts tainted rest path).1 in
        (
          (tainted_walk texts tainted v sub).0,
          (tainted_fields texts tainted rest path).0,
          refl,
          tainted_walk-Covered v sub (within_left P fired more h),
          tainted_fields-Covered rest path (within_right P fired more h),
        )

    tainted_items-Covered :
        (xs : Items) (path : List Step) (i : ℕ)
        → Within (tainted_items texts tainted xs path i).1 P
        → CoveredItems P path i xs (tainted_items texts tainted xs path i).0
    tainted_items-Covered Items.nil path i h = refl
    tainted_items-Covered (Items.item v rest) path i h =
        let sub = path ++ index i ∷ [] in
        let fired = (tainted_walk texts tainted v sub).1 in
        let more = (tainted_items texts tainted rest path (i + 1)).1 in
        (
          (tainted_walk texts tainted v sub).0,
          (tainted_items texts tainted rest path (i + 1)).0,
          refl,
          tainted_walk-Covered v sub (within_left P fired more h),
          tainted_items-Covered rest path (i + 1) (within_right P fired more h),
        )
