-- ===== src/Redaction/Accounts.antt =====
-- The layers of the service report every place that they change, the deny list included.
use range42_backend_api.Prelude.{
  ℕ, ◌+◌, String, ◌≡◌, refl, sym, ◌⊎◌, inl, inr, Bool, true, ◌&&◌, Option, List, [], ◌∷◌, ◌++◌,
  ◌==◌, map, All, string_eq, arith, Bool-cases,
}
use mathlib.Core.Path.{subst}
use range42_backend_api.Models.{ℤ}
use range42_backend_api.Json.{Json, Items, Fields, get_field}
use range42_backend_api.Redaction.{
  Step, key, index, Fired, Walked, Texts, Layer, AuditRow, is_secret, is_tree, is_marked, has_field,
  denylist_entry, secret_fired, denylist_walk, denylist_fields, denylist_items, denylist_redact,
  vault_redact, tainted_redact, run_pipeline, audit_row, service_layers,
}
use range42_backend_api.Redaction.Coverage.{
  Reports, Covered, CoveredFields, CoveredItems, same-Covered, named-Covered, same-CoveredFields,
  CoveredFields-trans,
}
use range42_backend_api.Redaction.Reporting.{
  Within, within_left, within_right, vault_fields-Covered, tainted_fields-Covered,
}

module _ (P : List Step → Type 0) (matches : String → Bool) where
  denylist_entry-Covered :
      (secret : Bool) (k : String) (v : Json) (walked : Walked Json) (sub : List Step)
      → Within (denylist_entry matches secret k v walked sub).1 P
      → (secret ≡ true → k ≡ "value" → P sub)
      → (Within walked.1 P → Covered P sub v walked.0)
      → Covered P sub v (denylist_entry matches secret k v walked sub).0
  unfolding denylist_entry
  denylist_entry-Covered secret k v walked sub h hidden deep =
      elim (Bool-cases (secret && k == "value")) [
        | inl e ↦ named-Covered P sub v _ (hidden (ground arith) (ground arith))
        | inr e ↦ elim (Bool-cases (is_tree v)) [
          | inl f ↦ rw (e, f) (deep (λ p r. h p (rw (e, f) r)))
          | inr f ↦ elim (Bool-cases (matches k)) [
            | inl g ↦ named-Covered P sub v _ (h sub (rw (e, f, g) (inl refl)))
            | inr g ↦ same-Covered P sub v _ (rw (e, f, g) refl)
          ]
        ]
      ]

  hidden_place :
      (fields : Fields) (path : List Step)
      → Within (secret_fired fields path) P
      → is_secret fields ≡ true
      → has_field "value" fields ≡ true
      → P (path ++ key "value" ∷ [])
  unfolding secret_fired
  hidden_place fields path h e f = h (path ++ key "value" ∷ []) (rw (e, f) (inl refl))

  mutual
    unfolding denylist_walk Covered has_field get_field

    denylist_walk-Covered :
        (v : Json) (path : List Step)
        → Within (denylist_walk matches v path).1 P
        → Covered P path v (denylist_walk matches v path).0
    denylist_walk-Covered (Json.object fields) path h =
        let first = secret_fired fields path in
        let more = (denylist_fields matches (is_secret fields) fields path).1 in
        inr (
          inr (
            (denylist_fields matches (is_secret fields) fields path).0,
            refl,
            denylist_fields-Covered (is_secret fields) fields path (within_right P first more h)
                (hidden_place fields path (within_left P first more h)),
          ))
    denylist_walk-Covered (Json.array items) path h =
        inr (
          inr
            ((denylist_items matches items path 0).0, refl, denylist_items-Covered items path 0 h))
    denylist_walk-Covered (Json.string s) path h = inl refl
    denylist_walk-Covered Json.null path h = inl refl
    denylist_walk-Covered (Json.boolean b) path h = inl refl
    denylist_walk-Covered (Json.number n) path h = inl refl
    denylist_walk-Covered (Json.float s) path h = inl refl

    denylist_fields-Covered :
        (secret : Bool) (fs : Fields) (path : List Step)
        → Within (denylist_fields matches secret fs path).1 P
        → (secret ≡ true → has_field "value" fs ≡ true → P (path ++ key "value" ∷ []))
        → CoveredFields P path fs (denylist_fields matches secret fs path).0
    denylist_fields-Covered secret Fields.end path h hidden = refl
    denylist_fields-Covered secret (Fields.field k v rest) path h hidden =
        let sub = path ++ key k ∷ [] in
        let walked = denylist_walk matches v sub in
        let fired = (denylist_entry matches secret k v walked sub).1 in
        let more = (denylist_fields matches secret rest path).1 in
        (
          (denylist_entry matches secret k v walked sub).0,
          (denylist_fields matches secret rest path).0,
          refl,
          denylist_entry-Covered secret k v walked sub (within_left P fired more h)
              (λ s e. subst (λ x. P (path ++ key x ∷ [])) (sym e) (hidden s (ground (arith, e))))
              (denylist_walk-Covered v sub),
          denylist_fields-Covered secret rest path (within_right P fired more h)
              (λ s e. hidden s (ground (arith, e))),
        )

    denylist_items-Covered :
        (xs : Items) (path : List Step) (i : ℕ)
        → Within (denylist_items matches xs path i).1 P
        → CoveredItems P path i xs (denylist_items matches xs path i).0
    denylist_items-Covered Items.nil path i h = refl
    denylist_items-Covered (Items.item v rest) path i h =
        let sub = path ++ index i ∷ [] in
        let fired = (denylist_walk matches v sub).1 in
        let more = (denylist_items matches rest path (i + 1)).1 in
        (
          (denylist_walk matches v sub).0,
          (denylist_items matches rest path (i + 1)).0,
          refl,
          denylist_walk-Covered v sub (within_left P fired more h),
          denylist_items-Covered rest path (i + 1) (within_right P fired more h),
        )

-- A layer that reports every place that it changes.
abbrev IsAccountable : Layer → Type 1
IsAccountable layer =
    (P : List Step → Type 0) (event : Fields)
    → Within (layer.redact event).1 P
    → CoveredFields P [] event (layer.redact event).0

denylist_redact-accounts :
    (matches : String → Bool) (P : List Step → Type 0) (event : Fields)
    → Within (denylist_redact matches event).1 P
    → CoveredFields P [] event (denylist_redact matches event).0
unfolding denylist_redact
denylist_redact-accounts matches P event h =
    let first = secret_fired event [] in
    let more = (denylist_fields matches (is_secret event) event []).1 in
    denylist_fields-Covered P matches (is_secret event) event [] (within_right P first more h)
      (hidden_place P matches event [] (within_left P first more h))

vault_redact-accounts :
    (inline : String → Bool) (P : List Step → Type 0) (event : Fields)
    → Within (vault_redact inline event).1 P
    → CoveredFields P [] event (vault_redact inline event).0
unfolding vault_redact
vault_redact-accounts inline P event h = elim (Bool-cases (is_marked event)) [
  | inl e ↦ rw e (same-CoveredFields P [] event)
  | inr e ↦ rw e (vault_fields-Covered P inline event [] (λ p r. h p (rw e r)))
]

tainted_redact-accounts :
    (texts : Texts) (tainted : List String) (P : List Step → Type 0) (event : Fields)
    → Within (tainted_redact texts tainted event).1 P
    → CoveredFields P [] event (tainted_redact texts tainted event).0
unfolding tainted_redact
tainted_redact-accounts texts [] P event h = same-CoveredFields P [] event
tainted_redact-accounts texts (t ∷ tainted) P event h =
    tainted_fields-Covered P texts (t ∷ tainted) event [] h

-- An audit row names this path.
abbrev pub InAudit : List AuditRow → List Step → Type 0
InAudit [] p = ⊥
InAudit (row ∷ rows) p = (row.field_path ≡ p) ⊎ InAudit rows p

audited :
    (seq : Option Json → ℤ) (name : String) (event : Fields) (fired : List Fired)
    (rows : List AuditRow) (p : List Step)
    → Reports fired p
    → InAudit (map (audit_row seq name event) fired ++ rows) p
audited seq name event [] rows p h = absurd h
audited seq name event (f ∷ fired) rows p (inl e) = inl e
audited seq name event (f ∷ fired) rows p (inr h) = inr (audited seq name event fired rows p h)

audited_later :
    (first rows : List AuditRow) (p : List Step) → InAudit rows p → InAudit (first ++ rows) p
audited_later [] rows p h = h
audited_later (x ∷ first) rows p h = inr (audited_later first rows p h)

module _ (seq : Option Json → ℤ) (P : List Step → Type 0) where
  pipeline-Covered :
      (event : Fields) (layers : List Layer)
      → All IsAccountable layers
      → ((p : List Step) → InAudit (run_pipeline seq event layers).1 p → P p)
      → CoveredFields P [] event (run_pipeline seq event layers).0
  unfolding run_pipeline
  pipeline-Covered event [] honest h = same-CoveredFields P [] event
  pipeline-Covered event (layer ∷ layers) honest h =
      let current = (layer.redact event).0 in
      let fired = (layer.redact event).1 in
      let rows = (run_pipeline seq current layers).1 in
      CoveredFields-trans P [] event current (run_pipeline seq current layers).0
        (honest.0 P event (λ p r. h p (audited seq layer.name current fired rows p r)))
        (pipeline-Covered current layers honest.1
          (λ p r. h p (audited_later (map (audit_row seq layer.name current) fired) rows p r)))

-- The three layers of the service change an event only where an audit row says so: the stored event
-- has the keys of the event in their order, and each value, at any depth of objects and lists, is
-- as it was, or a row names its path or that of an object or list around it.
pub run_pipeline-accounts :
    (matches inline : String → Bool) (texts : Texts) (tainted : List String) (seq : Option Json → ℤ)
    (event : Fields)
    → CoveredFields
        (InAudit (run_pipeline seq event (service_layers matches inline texts tainted)).1)
        []
        event
        (run_pipeline seq event (service_layers matches inline texts tainted)).0
run_pipeline-accounts matches inline texts tainted seq event =
    let layers = service_layers matches inline texts tainted in
    pipeline-Covered seq (InAudit (run_pipeline seq event layers).1) event layers
      (
        denylist_redact-accounts matches,
        (vault_redact-accounts inline, (tainted_redact-accounts texts tainted, tt)),
      )
      (λ p r. r)
