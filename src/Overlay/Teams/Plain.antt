-- ===== src/Overlay/Teams/Plain.antt =====
-- A document in which every node is shared is its own expansion.
use range42_backend_api.Prelude.{
  ℕ, zero, suc, ◌<◌, ◌≡◌, refl, inl, inr, Bool, true, false, ◌&&◌, none, some, [], ◌==◌, string_eq,
  if◌then◌else◌, arith, Option-cases, Bool-cases,
}
use range42_backend_api.Prelude.Result.{ok}
use range42_backend_api.Models.{pos}
use range42_backend_api.Json.{Json, Items, Fields}
use range42_backend_api.Events.{set_field}
use range42_backend_api.Overlay.Templates.{Number, Python}
use range42_backend_api.Overlay.Teams.Expansion.{
  is_shared, group_children, append_items, expand_nodes, expand_node, expand_children, expand_array,
  bridge_base_of, raw_nodes, expand_for, expand_replication,
}

-- Every node is a shared object, and so are the children of every group.
unfoldable mutual
  pub all_shared : Items → Bool
  all_shared Items.nil = true
  all_shared (Items.item v rest) = node_shared v && all_shared rest

  pub node_shared : Json → Bool
  node_shared (Json.object node) =
      let inner = children_shared node in
      is_shared node && elim (group_children node) [ none ↦ true | some _ ↦ inner ]
  node_shared _ = false

  pub children_shared : Fields → Bool
  children_shared Fields.end = true
  children_shared (Fields.field k v rest) =
      let here = array_shared v in
      let later = children_shared rest in if k == "children" then here else later

  pub array_shared : Json → Bool
  array_shared (Json.array xs) = all_shared xs
  array_shared _ = true

and-true : (a b : Bool) → (a && b) ≡ true → (a ≡ true) × (b ≡ true)
and-true a b h = ground arith

module _ (x : Python) (base : Number) (n : ℕ) where
  mutual
    unfolding all_shared expand_nodes append_items

    expand_nodes-same : (xs : Items) → all_shared xs ≡ true → expand_nodes x base n xs ≡ ok (xs, [])
    expand_nodes-same Items.nil h = refl
    expand_nodes-same (Items.item v rest) h =
        let (first, others) = and-true (node_shared v) (all_shared rest) h in
        rw (expand_node-same v first, expand_nodes-same rest others)

    expand_node-same :
        (v : Json) → node_shared v ≡ true → expand_node x base n v ≡ ok (Items.item v Items.nil, [])
    expand_node-same (Json.object node) h = elim (Option-cases (group_children node)) [
      | inl e ↦ ground arith
      | inr (xs, e) ↦ ground (arith, expand_children-same node)
    ]
    expand_node-same Json.null h = absurd (ground arith)
    expand_node-same (Json.boolean b) h = absurd (ground arith)
    expand_node-same (Json.number i) h = absurd (ground arith)
    expand_node-same (Json.float d) h = absurd (ground arith)
    expand_node-same (Json.string t) h = absurd (ground arith)
    expand_node-same (Json.array xs) h = absurd (ground arith)

    expand_children-same :
        (fs : Fields) → children_shared fs ≡ true → expand_children x base n fs ≡ ok (fs, [])
    expand_children-same Fields.end h = refl
    expand_children-same (Fields.field k v rest) h = elim (Bool-cases (k == "children")) [
      | inl e ↦ ground (arith, expand_array-same v)
      | inr e ↦ ground (arith, expand_children-same rest)
    ]

    expand_array-same : (v : Json) → array_shared v ≡ true → expand_array x base n v ≡ ok (v, [])
    expand_array-same (Json.array xs) h = ground (arith, expand_nodes-same xs)
    expand_array-same Json.null h = refl
    expand_array-same (Json.boolean b) h = refl
    expand_array-same (Json.number i) h = refl
    expand_array-same (Json.float d) h = refl
    expand_array-same (Json.string t) h = refl
    expand_array-same (Json.object fs) h = refl

-- Where no node, at any depth of the groups, is replicated, the expansion for one or more teams
-- returns: the nodes are as they were, and there is no handler namespace.
pub expand_replication-same :
    (x : Python) (doc : Fields) (n : ℕ)
    → 0 < n
    → all_shared (raw_nodes doc) ≡ true
    → expand_replication x doc (pos n)
      ≡ ok (record {
        plays_per_team = n;
        handler_namespaces = [];
        document = set_field "nodes" (Json.array (raw_nodes doc)) doc;
      })
unfolding expand_replication expand_for
expand_replication-same x doc zero h s = absurd (ground arith)
expand_replication-same x doc (suc n) h s =
    ground (arith, expand_nodes-same x (bridge_base_of doc) (suc n) (raw_nodes doc))
