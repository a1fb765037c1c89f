-- ===== src/Redaction/Vault.antt =====
-- No vault value is left below an event, and what the deny list hid stays hidden.
use mathlib.Core.Bool.{and-eq-true_iff}
use range42_backend_api.Prelude.{
  ℕ, ◌+◌, String, ◌≡◌, refl, Bool, true, false, Option, List, [], ◌∷◌, ◌++◌, string_eq, arith,
}
use range42_backend_api.Models.{ℤ}
use range42_backend_api.Json.{Json, Items, Fields}
use range42_backend_api.Redaction.{
  Step, key, index, is_secret, is_marked, denylist_redact, vault_walk, vault_fields, vault_items,
  vault_redact, run_pipeline, hard_layers,
}
use range42_backend_api.Redaction.Denylist.{
  in_order, is_clean, are_clean, items_clean, are_clean-weaken, clean-denylist_redact,
  true-denylist_fields,
}
use range42_backend_api.Redaction.Sealing.{
  is_sealed, marked-vault_fields, secret-vault_fields, sealed-object, sealed-vault_fields,
}

module _ (m inline : String → Bool) where
  in_order-vault_walk :
      (secret : Bool) (k : String) (v : Json) (sub : List Step)
      → in_order m secret k v ≡ true
      → in_order m secret k (vault_walk inline v sub).0 ≡ true
  unfolding vault_walk
  in_order-vault_walk secret k (Json.object fs) sub h = ground arith
  in_order-vault_walk secret k (Json.array xs) sub h = h
  in_order-vault_walk secret k (Json.string s) sub h = ground arith
  in_order-vault_walk secret k Json.null sub h = h
  in_order-vault_walk secret k (Json.boolean _) sub h = h
  in_order-vault_walk secret k (Json.number _) sub h = h
  in_order-vault_walk secret k (Json.float _) sub h = h

  mutual
    unfolding vault_walk is_clean

    clean-vault_walk :
        (v : Json) (path : List Step)
        → is_clean m v ≡ true
        → is_clean m (vault_walk inline v path).0 ≡ true
    clean-vault_walk (Json.object fs) path h =
        let fields = (vault_fields inline fs path).0 in
        let kept =
          are_clean-weaken m (is_secret fs) (is_secret fields) fields
            (secret-vault_fields inline fs path) (clean-vault_fields (is_secret fs) fs path h) in
        ground (arith, kept)
    clean-vault_walk (Json.array xs) path h = clean-vault_items xs path 0 h
    clean-vault_walk (Json.string s) path h = ground arith
    clean-vault_walk Json.null path h = refl
    clean-vault_walk (Json.boolean _) path h = refl
    clean-vault_walk (Json.number _) path h = refl
    clean-vault_walk (Json.float _) path h = refl

    clean-vault_fields :
        (secret : Bool) (fs : Fields) (path : List Step)
        → are_clean m secret fs ≡ true
        → are_clean m secret (vault_fields inline fs path).0 ≡ true
    clean-vault_fields secret Fields.end path h = refl
    clean-vault_fields secret (Fields.field k v rest) path h =
        let sub = path ++ key k ∷ [] in
        let (a, b) = (and-eq-true_iff (in_order m secret k v) _).0 h in
        let (c, d) = (and-eq-true_iff (is_clean m v) _).0 b in
        (and-eq-true_iff (in_order m secret k (vault_walk inline v sub).0) _).1 (
          in_order-vault_walk secret k v sub a,
          (and-eq-true_iff (is_clean m (vault_walk inline v sub).0) _).1
              (clean-vault_walk v sub c, clean-vault_fields secret rest path d),
        )

    clean-vault_items :
        (xs : Items) (path : List Step) (i : ℕ)
        → items_clean m xs ≡ true
        → items_clean m (vault_items inline xs path i).0 ≡ true
    clean-vault_items Items.nil path i h = refl
    clean-vault_items (Items.item v rest) path i h =
        let (a, b) = (and-eq-true_iff (is_clean m v) _).0 h in
        (and-eq-true_iff _ _).1
          (clean-vault_walk v (path ++ index i ∷ []) a, clean-vault_items rest path (i + 1) b)

vault_redact-unmarked :
    (inline : String → Bool) (event : Fields)
    → is_marked event ≡ false
    → (vault_redact inline event).0 ≡ (vault_fields inline event []).0
unfolding vault_redact
vault_redact-unmarked inline event h = ground arith

marked-denylist_redact :
    (m : String → Bool) (event : Fields)
    → is_marked event ≡ false
    → is_marked (denylist_redact m event).0 ≡ false
unfolding is_marked denylist_redact
marked-denylist_redact m event h =
    ground (arith, true-denylist_fields m (is_secret event) event [] "__range42_vault_origin__")

sealed-vault_event :
    (inline : String → Bool)
    → inline "[REDACTED:vault_tagged]" ≡ false
    → (event : Fields) → is_marked event ≡ false
    → is_sealed inline (Json.object (vault_fields inline event []).0) ≡ true
sealed-vault_event inline plain event h =
    sealed-object inline (vault_fields inline event []).0 (marked-vault_fields inline event [] h)
      (sealed-vault_fields inline plain event [])

clean-vault_event :
    (m inline : String → Bool) (event : Fields)
    → is_clean m (Json.object event) ≡ true
    → is_clean m (Json.object (vault_fields inline event []).0) ≡ true
unfolding is_clean
clean-vault_event m inline event h =
    are_clean-weaken m (is_secret event) _ (vault_fields inline event []).0
      (secret-vault_fields inline event [])
      (clean-vault_fields m inline (is_secret event) event [] h)

-- After the first two layers of the service, below an event that is not itself marked as a vault
-- value: every value of a key that the deny list matches is a redaction or an object or list, every
-- `value` beside `secret: true` is a redaction, no object is marked as a vault value, and no text
-- is an inline vault tag. The text that replaces a vault value must not count as such a tag.
pub run_pipeline-hides :
    (matches inline : String → Bool) (seq : Option Json → ℤ) (event : Fields)
    → inline "[REDACTED:vault_tagged]" ≡ false
    → is_marked event ≡ false
    → (is_clean matches (Json.object (run_pipeline seq event (hard_layers matches inline)).0)
        ≡ true)
      × (is_sealed inline (Json.object (run_pipeline seq event (hard_layers matches inline)).0)
          ≡ true)
unfolding run_pipeline
run_pipeline-hides matches inline seq event plain unmarked =
    let first = (denylist_redact matches event).0 in
    let still = marked-denylist_redact matches event unmarked in
    rw (vault_redact-unmarked inline first still) (
      clean-vault_event matches inline first (clean-denylist_redact matches event),
      sealed-vault_event inline plain first still,
    )
