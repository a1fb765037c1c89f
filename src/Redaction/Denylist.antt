-- ===== src/Redaction/Denylist.antt =====
-- No value under a denied key is left, and none that `secret` hides.
use range42_backend_api.Prelude.{
  ℕ, ◌+◌, String, ◌≡◌, refl, Bool, true, false, not, ◌&&◌, ◌||◌, some, List, [], ◌∷◌, ◌++◌, ◌==◌,
  string_eq, arith,
}
use mathlib.Core.Bool.{and-eq-true_iff}
use range42_backend_api.Json.{Json, Items, Fields, get_field}
use range42_backend_api.Redaction.{
  Step, key, index, Walked, denied, is_true, is_tree, is_secret, denylist_entry, denylist_walk,
  denylist_fields, denylist_items, denylist_redact,
}

abbrev pub is_redacted : Json → Bool
is_redacted (Json.string s) = s == "[REDACTED:config_denylist]" || s == "[REDACTED:vault_tagged]"
is_redacted _ = false

-- Whether a key with this value is in order: a denied key holds a tree or a redaction, and the
-- value of a secret a redaction.
abbrev pub in_order : (String → Bool) → Bool → String → Json → Bool
in_order m secret k v = is_redacted v || not (secret && k == "value" || m k && not (is_tree v))

unfoldable mutual
  pub is_clean : (String → Bool) → Json → Bool
  is_clean m (Json.object fields) = are_clean m (is_secret fields) fields
  is_clean m (Json.array items) = items_clean m items
  is_clean m v = true

  pub are_clean : (String → Bool) → Bool → Fields → Bool
  are_clean m secret Fields.end = true
  are_clean m secret (Fields.field k v rest) =
      in_order m secret k v && (is_clean m v && are_clean m secret rest)

  pub items_clean : (String → Bool) → Items → Bool
  items_clean m Items.nil = true
  items_clean m (Items.item v rest) = is_clean m v && items_clean m rest

exempt-weaken :
    (redacted s s' value denied : Bool)
    → (s' ≡ true → s ≡ true)
    → (redacted || not (s && value || denied)) ≡ true
    → (redacted || not (s' && value || denied)) ≡ true
exempt-weaken redacted s true value denied w h = rw (w refl) at h
exempt-weaken redacted true false value denied w h = ground arith
exempt-weaken redacted false false value denied w h = h

pub are_clean-weaken :
    (m : String → Bool) (s s' : Bool) (fs : Fields)
    → (s' ≡ true → s ≡ true)
    → are_clean m s fs ≡ true
    → are_clean m s' fs ≡ true
unfolding are_clean
are_clean-weaken m s s' Fields.end w h = refl
are_clean-weaken m s s' (Fields.field k v rest) w h =
    let (a, b) = (and-eq-true_iff (in_order m s k v) _).0 h in
    let (c, d) = (and-eq-true_iff (is_clean m v) _).0 b in
    (and-eq-true_iff (in_order m s' k v) _).1 (
      exempt-weaken (is_redacted v) s s' (k == "value") (m k && not (is_tree v)) w a,
      (and-eq-true_iff (is_clean m v) _).1 (c, are_clean-weaken m s s' rest w d),
    )

true-denylist_walk :
    (m : String → Bool) (v : Json) (path : List Step)
    → is_true (some (denylist_walk m v path).0) ≡ true
    → is_true (some v) ≡ true
unfolding denylist_walk
true-denylist_walk m (Json.object fs) path h = absurd (ground arith)
true-denylist_walk m (Json.array xs) path h = absurd (ground arith)
true-denylist_walk m Json.null path h = h
true-denylist_walk m (Json.boolean _) path h = h
true-denylist_walk m (Json.number _) path h = h
true-denylist_walk m (Json.float _) path h = h
true-denylist_walk m (Json.string _) path h = h

true-denylist_entry :
    (m : String → Bool) (secret : Bool) (k : String) (v : Json) (w : Walked Json) (sub : List Step)
    → (is_true (some w.0) ≡ true → is_true (some v) ≡ true)
    → is_true (some (denylist_entry m secret k v w sub).0) ≡ true
    → is_true (some v) ≡ true
unfolding denylist_entry
true-denylist_entry m secret k v w sub tree h = ground (arith, tree)

pub true-denylist_fields :
    (m : String → Bool) (secret : Bool) (fs : Fields) (path : List Step) (j : String)
    → is_true (get_field j (denylist_fields m secret fs path).0) ≡ true
    → is_true (get_field j fs) ≡ true
unfolding denylist_fields get_field
true-denylist_fields m secret Fields.end path j h = h
true-denylist_fields m secret (Fields.field k v rest) path j h =
    let sub = path ++ key k ∷ [] in
    let entry =
      true-denylist_entry m secret k v (denylist_walk m v sub) sub (true-denylist_walk m v sub) in
    ground (arith, true-denylist_fields m secret rest path j, entry)

secret-denylist_fields :
    (m : String → Bool) (secret : Bool) (fs : Fields) (path : List Step)
    → is_secret (denylist_fields m secret fs path).0 ≡ true
    → is_secret fs ≡ true
unfolding is_secret
secret-denylist_fields m secret fs path = true-denylist_fields m secret fs path "secret"

tree-denylist_walk :
    (m : String → Bool) (v : Json) (path : List Step)
    → is_tree v ≡ true
    → is_tree (denylist_walk m v path).0 ≡ true
unfolding denylist_walk
tree-denylist_walk m (Json.object fs) path h = refl
tree-denylist_walk m (Json.array xs) path h = refl
tree-denylist_walk m Json.null path h = h
tree-denylist_walk m (Json.boolean _) path h = h
tree-denylist_walk m (Json.number _) path h = h
tree-denylist_walk m (Json.float _) path h = h
tree-denylist_walk m (Json.string _) path h = h

leaf-denylist_walk :
    (m : String → Bool) (v : Json) (path : List Step)
    → is_tree v ≡ false
    → (denylist_walk m v path).0 ≡ v
unfolding denylist_walk
leaf-denylist_walk m (Json.object fs) path h = absurd (ground arith)
leaf-denylist_walk m (Json.array xs) path h = absurd (ground arith)
leaf-denylist_walk m Json.null path h = refl
leaf-denylist_walk m (Json.boolean _) path h = refl
leaf-denylist_walk m (Json.number _) path h = refl
leaf-denylist_walk m (Json.float _) path h = refl
leaf-denylist_walk m (Json.string _) path h = refl

entry-clean :
    (m : String → Bool) (secret : Bool) (k : String) (v : Json) (w : Walked Json) (sub : List Step)
    → is_clean m w.0 ≡ true
    → (is_tree v ≡ true → is_tree w.0 ≡ true)
    → (is_tree v ≡ false → w.0 ≡ v)
    → (in_order m secret k (denylist_entry m secret k v w sub).0
        && is_clean m (denylist_entry m secret k v w sub).0)
      ≡ true
unfolding denylist_entry is_clean
entry-clean m secret k v w sub h tree leaf = ground (arith, tree, leaf)

mutual
  unfolding denylist_walk is_clean

  clean-denylist_walk :
      (m : String → Bool) (v : Json) (path : List Step)
      → is_clean m (denylist_walk m v path).0 ≡ true
  clean-denylist_walk m (Json.object fs) path =
      are_clean-weaken m (is_secret fs) _ (denylist_fields m (is_secret fs) fs path).0
        (secret-denylist_fields m (is_secret fs) fs path)
        (clean-denylist_fields m (is_secret fs) fs path)
  clean-denylist_walk m (Json.array xs) path = clean-denylist_items m xs path 0
  clean-denylist_walk m Json.null path = refl
  clean-denylist_walk m (Json.boolean _) path = refl
  clean-denylist_walk m (Json.number _) path = refl
  clean-denylist_walk m (Json.float _) path = refl
  clean-denylist_walk m (Json.string _) path = refl

  clean-denylist_fields :
      (m : String → Bool) (secret : Bool) (fs : Fields) (path : List Step)
      → are_clean m secret (denylist_fields m secret fs path).0 ≡ true
  clean-denylist_fields m secret Fields.end path = refl
  clean-denylist_fields m secret (Fields.field k v rest) path =
      let sub = path ++ key k ∷ [] in
      let (a, b) = (and-eq-true_iff _ _).0 (
        entry-clean m secret k v (denylist_walk m v sub) sub (clean-denylist_walk m v sub)
          (tree-denylist_walk m v sub) (leaf-denylist_walk m v sub)) in
      (and-eq-true_iff _ _).1
        (a, (and-eq-true_iff _ _).1 (b, clean-denylist_fields m secret rest path))

  clean-denylist_items :
      (m : String → Bool) (xs : Items) (path : List Step) (i : ℕ)
      → items_clean m (denylist_items m xs path i).0 ≡ true
  clean-denylist_items m Items.nil path i = refl
  clean-denylist_items m (Items.item v rest) path i =
      (and-eq-true_iff _ _).1
        (clean-denylist_walk m v (path ++ index i ∷ []), clean-denylist_items m rest path (i + 1))

pub clean-denylist_redact :
    (m : String → Bool) (event : Fields)
    → is_clean m (Json.object (denylist_redact m event).0) ≡ true
unfolding denylist_redact is_clean
clean-denylist_redact m event =
    are_clean-weaken m (is_secret event) _ (denylist_fields m (is_secret event) event []).0
      (secret-denylist_fields m (is_secret event) event [])
      (clean-denylist_fields m (is_secret event) event [])
