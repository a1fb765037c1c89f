-- ===== src/Overlay.antt =====
-- overlay/resolve_secrets.py: the references to secrets in a document become values that carry the
-- marker of the vault. Where a text ends or begins with a fixed text is a parameter. The expansion
-- to teams is in Teams.
mod Sealing
mod Rewriting
pub mod Secrecy
pub mod Templates
pub mod Teams
mod Examples
use range42_backend_api.Prelude.{
  String, Bool, true, false, ◌||◌, Option, none, some, List, [], ◌∷◌, ◌++◌, map, contains, ◌==◌,
  string_eq, if◌then◌else◌,
}
use range42_backend_api.Json.{Json, Items, Fields}
use range42_backend_api.Events.{set_field}

-- `k[: -len("_from")]` of a key that ends so, and the name in "env.secret.<name>".
pub record References : Type 0 where
  pub stem : String → Option String
  pub secret_name : String → Option String

-- The secret of a reference, and the keys it is moved between.
pub record Rewrite : Type 0 where
  pub source : String
  pub target : String
  pub value : String

-- `{VAULT_MARKER: True, "value": val}`
abbrev pub sealed : String → Json
sealed val = Json.object (
    Fields.field "__range42_vault_origin__" (Json.boolean true)
      (Fields.field "value" (Json.string val) Fields.end))

-- `obj.pop(k, None)`
unfoldable pub pop_field : String → Fields → Fields
pop_field k Fields.end = Fields.end
pop_field k (Fields.field j w rest) =
    let later = pop_field k rest in if j == k then rest else Fields.field j w later

unfoldable pub put_all : List Rewrite → Fields → Fields
put_all [] fs = fs
put_all (r ∷ rest) fs = put_all rest (set_field r.target (sealed r.value) fs)

unfoldable pub pop_all : List Rewrite → Fields → Fields
pop_all [] fs = fs
pop_all (r ∷ rest) fs = pop_all rest (pop_field r.source fs)

abbrev pub targets : List Rewrite → List String
targets rs = map (λ (r : Rewrite). r.target) rs

module _ (refs : References) (lookup : String → Option String) where
  -- The rewrite that one field asks for, if any; `none` is a `KeyError`.
  unfoldable pub rewrite_of : String → Json → Option (List Rewrite)
  rewrite_of k (Json.string s) = elim (refs.stem k) [
    | none ↦ some []
    | some stem ↦ elim (refs.secret_name s) [
      | none ↦ some []
      | some name ↦ elim (lookup name) [
        | none ↦ none
        | some val ↦ some (record { source = k; target = stem; value = val } ∷ [])
      ]
    ]
  ]
  rewrite_of k v = some []

  -- The loop over a snapshot of the items
  unfoldable pub rewrites : Fields → Option (List Rewrite)
  rewrites Fields.end = some []
  rewrites (Fields.field k v rest) =
      let later = rewrites rest in
      elim (rewrite_of k v) [
        | none ↦ none
        | some here ↦ elim later [ none ↦ none | some more ↦ some (here ++ more) ]
      ]

  -- `_walk`. The values are walked after the rewrites, which is to walk the values that no rewrite
  -- overwrites: a text and a marked value have nothing to walk.
  unfoldable mutual
    pub walk : Json → Option Json
    walk (Json.object fs) = elim (rewrites fs) [
      | none ↦ none
      | some rs ↦ elim (walk_fields (targets rs) fs) [
        | none ↦ none
        | some walked ↦ some (Json.object (pop_all rs (put_all rs walked)))
      ]
    ]
    walk (Json.array xs) = elim (walk_items xs) [ none ↦ none | some ys ↦ some (Json.array ys) ]
    walk v = some v

    pub walk_fields : List String → Fields → Option Fields
    walk_fields over Fields.end = some Fields.end
    walk_fields over (Fields.field k v rest) =
        let new = walk v in
        let later = walk_fields over rest in
        elim (if contains over k then some v else new) [
          | none ↦ none
          | some w ↦ elim later [ none ↦ none | some ws ↦ some (Fields.field k w ws) ]
        ]

    pub walk_items : Items → Option Items
    walk_items Items.nil = some Items.nil
    walk_items (Items.item v rest) =
        let later = walk_items rest in
        elim (walk v) [
          | none ↦ none
          | some w ↦ elim later [ none ↦ none | some ws ↦ some (Items.item w ws) ]
        ]

  -- `deepcopy` leaves the caller's document as it is.
  unfoldable pub resolve_secrets : Fields → Option Json
  resolve_secrets document = walk (Json.object document)
