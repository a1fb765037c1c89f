-- ===== src/Overlay/Teams/Expansion.antt =====
-- overlay/expand_replication.py, `_walk_and_expand`: a document with one copy of each replicated node
-- for each team. A node that is no object, and a replicated group without an id, raise.
use range42_backend_api.Prelude.{
  ℕ, zero, suc, String, ◌<>◌, Bool, true, false, Option, none, some, List, [], ◌++◌, ◌==◌,
  string_eq, if◌then◌else◌,
}
use range42_backend_api.Prelude.Result.{Result, ok, ◌>>=◌}
use range42_backend_api.Models.{ℤ, pos, negsuc}
use range42_backend_api.Json.{Json, Items, Fields, get_field}
use range42_backend_api.Events.{set_field}
use range42_backend_api.Overlay.Templates.{Number, Python}
use range42_backend_api.Overlay.Teams.{
  Sunk, failed, as_text, as_number, object_at, suffix, apply_offsets,
}

unfoldable pub append_items : Items → Items → Items
append_items Items.nil ys = ys
append_items (Items.item v xs) ys = Items.item v (append_items xs ys)

says_shared : Option Json → Bool
says_shared none = true
says_shared (some Json.null) = true
says_shared (some (Json.string t)) = t == "shared"
says_shared _ = false

-- `scope == "shared"`
unfoldable pub is_shared : Fields → Bool
unfolding says_shared
is_shared node = says_shared (get_field "scope" (object_at "replication" node))

is_text : String → Option String → Bool
is_text t none = false
is_text t (some s) = s == t

unfoldable pub as_array : Option Json → Option Items
as_array (some (Json.array xs)) = some xs
as_array _ = none

-- The children of a group
unfoldable pub group_children : Fields → Option Items
unfolding is_text as_array as_text
group_children node =
    if is_text "group" (as_text (get_field "kind" node))
    then as_array (get_field "children" node)
    else none

-- `result.append(nn)`
abbrev pub as_node : Sunk Fields → Result (Sunk Items)
as_node (new, names) = ok (Items.item (Json.object new) Items.nil, names)

module _ (x : Python) (base : Number) where
  -- `f"{value}"`
  formatted : Json → String
  formatted Json.null = "None"
  formatted (Json.boolean true) = "True"
  formatted (Json.boolean false) = "False"
  formatted (Json.number i) = x.show_int i
  formatted (Json.float d) = x.show_float d
  formatted (Json.string t) = t
  formatted v = x.show v

  -- `expanded_children`
  unfoldable pub copy_children : ℕ → Fields → Items → Result (Sunk Items)
  copy_children team id_offset Items.nil = ok (Items.nil, [])
  copy_children team id_offset (Items.item (Json.object c) rest) = do
    (new, names) ← apply_offsets x team base id_offset c
    (later, more) ← copy_children team id_offset rest
    ok (Items.item (Json.object new) later, names ++ more)
  copy_children team id_offset (Items.item _ rest) = failed

  -- `{"scope": "shared"}`
  abbrev pub shared : Json
  shared = Json.object (Fields.field "scope" (Json.string "shared") Fields.end)

  group_copy : ℕ → Fields → Option Json → Items → Result Fields
  unfolding formatted
  group_copy team node none children = failed
  group_copy team node (some id) children = ok (
      set_field "replication" shared (
        set_field "children" (Json.array children)
          (set_field "id" (Json.string (formatted id <> suffix x team base)) node)))

  -- The copy of a replicated node for one team
  unfoldable pub copy_node : ℕ → Fields → Result (Sunk Fields)
  unfolding group_copy
  copy_node team node =
      let id_offset = object_at "id_offset" (object_at "replication" node) in
      elim (group_children node) [
        | none ↦ apply_offsets x team base id_offset node
        | some children ↦ do
          (new, names) ← copy_children team id_offset children
          grp ← group_copy team node (get_field "id" node) new
          ok (grp, names)
      ]

  -- The copies for `count` teams, from `team` on
  unfoldable pub copies : ℕ → ℕ → Fields → Result (Sunk Items)
  copies team zero node = ok (Items.nil, [])
  copies team (suc count) node = do
    (new, names) ← copy_node team node
    (later, more) ← copies (suc team) count node
    ok (Items.item (Json.object new) later, names ++ more)

  module _ (team_count : ℕ) where
    unfoldable mutual
      unfolding append_items

      -- `_walk_and_expand`
      pub expand_nodes : Items → Result (Sunk Items)
      expand_nodes Items.nil = ok (Items.nil, [])
      expand_nodes (Items.item v rest) = do
        (new, names) ← expand_node v
        (later, more) ← expand_nodes rest
        ok (append_items new later, names ++ more)

      pub expand_node : Json → Result (Sunk Items)
      expand_node (Json.object node) =
          let inner = expand_children node in
          if is_shared node
          then elim (group_children node) [
            | none ↦ ok (Items.item (Json.object node) Items.nil, [])
            | some _ ↦ inner >>= as_node
          ]
          else copies 1 team_count node
      expand_node _ = failed

      -- `nn["children"] = _walk_and_expand(n["children"], ...)`, of a group
      pub expand_children : Fields → Result (Sunk Fields)
      expand_children Fields.end = ok (Fields.end, [])
      expand_children (Fields.field k v rest) =
          let expanded = expand_array v in
          let later = expand_children rest in
          if k == "children"
          then (expanded >>= λ (new, names). ok (Fields.field k new rest, names))
          else (later >>= λ (new, names). ok (Fields.field k v new, names))

      pub expand_array : Json → Result (Sunk Json)
      expand_array (Json.array xs) = do (new, names) ← expand_nodes xs; ok (Json.array new, names)
      expand_array v = ok (v, [])

pub record ExpandResult : Type 0 where
  pub plays_per_team : ℕ
  pub handler_namespaces : List String
  pub document : Fields

base_of : Option Number → Number
base_of none = Number.whole (pos 140)
base_of (some n) = n

unfoldable pub nodes_of : Option Items → Items
nodes_of none = Items.nil
nodes_of (some xs) = xs

-- The document's `bridge_base`, and its nodes
unfoldable pub bridge_base_of : Fields → Number
unfolding base_of
bridge_base_of doc = base_of (as_number (get_field "bridge_base" doc))

unfoldable pub raw_nodes : Fields → Items
unfolding nodes_of as_array
raw_nodes doc = nodes_of (as_array (get_field "nodes" doc))

unfoldable pub expand_for : Python → Fields → ℕ → Result ExpandResult
expand_for x doc zero = failed
expand_for x doc (suc n) = do
  (nodes, names) ← expand_nodes x (bridge_base_of doc) (suc n) (raw_nodes doc)
  ok (record {
    plays_per_team = suc n;
    handler_namespaces = names;
    document = set_field "nodes" (Json.array nodes) doc;
  })

unfoldable pub expand_replication : Python → Fields → ℤ → Result ExpandResult
expand_replication x doc (pos n) = expand_for x doc n
expand_replication x doc (negsuc n) = failed
