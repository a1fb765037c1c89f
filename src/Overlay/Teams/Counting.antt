-- ===== src/Overlay/Teams/Counting.antt =====
-- How many nodes an expansion has, and a document that has nothing to expand.
use range42_backend_api.Prelude.{
  ℕ, zero, suc, ◌+◌, ◌<◌, String, ◌≡◌, inl, inr, false, List, ◌==◌, string_eq, if◌then◌else◌, arith,
  Option-cases, Bool-cases,
}
use range42_backend_api.Prelude.Result.{Result, ok, raise, ◌>>=◌, >>=-eq-ok}
use range42_backend_api.Models.{ℤ, pos, negsuc}
use range42_backend_api.Json.{Json, Items, Fields, get_field}
use range42_backend_api.Events.{set_field}
use range42_backend_api.Events.Numbering.{get-set_field}
use range42_backend_api.Overlay.Templates.{Number, Python}
use range42_backend_api.Overlay.Teams.{Sunk}
use range42_backend_api.Overlay.Teams.Expansion.{
  nodes_of, as_node, is_shared, group_children, append_items, as_array, copy_node, copies,
  expand_nodes, expand_node, expand_children, bridge_base_of, raw_nodes, ExpandResult, expand_for,
  expand_replication,
}

abbrev pub length_items : Items → ℕ
length_items Items.nil = 0
length_items (Items.item v rest) = suc (length_items rest)

copies_of : ℕ → Json → ℕ
copies_of n (Json.object node) = if is_shared node then 1 else n
copies_of n _ = 1

-- One node for each shared one, and `n` for each replicated one
unfoldable pub planned_length : ℕ → Items → ℕ
unfolding copies_of
planned_length n Items.nil = 0
planned_length n (Items.item v rest) = copies_of n v + planned_length n rest

length-append_items :
    (xs ys : Items) → length_items (append_items xs ys) ≡ length_items xs + length_items ys
unfolding append_items
length-append_items Items.nil ys = ground arith
length-append_items (Items.item v xs) ys = ground (arith, length-append_items xs ys)

length-single :
    (r : Result (Sunk Fields)) (items : Items) (names : List String)
    → (r >>= as_node) ≡ ok (items, names)
    → length_items items ≡ 1
length-single (raise e) items names h = absurd (ground arith)
length-single (ok (new, n)) items names h = ground arith

module _ (x : Python) (base : Number) where
  length-copies :
      (team count : ℕ) (node : Fields) (items : Items) (names : List String)
      → copies x base team count node ≡ ok (items, names)
      → length_items items ≡ count
  unfolding copies
  length-copies team zero node items names h = ground arith
  length-copies team (suc count) node items names h =
      let ((new, n1), e1, h1) = >>=-eq-ok (copy_node x base team node) _ h in
      let ((later, n2), e2, h2) = >>=-eq-ok (copies x base (suc team) count node) _ h1 in
      ground (arith, length-copies (suc team) count node later n2 e2)

  module _ (n : ℕ) where
    length-expand_node :
        (v : Json) (items : Items) (names : List String)
        → expand_node x base n v ≡ ok (items, names)
        → length_items items ≡ copies_of n v
    unfolding expand_node copies_of
    length-expand_node (Json.object node) items names h = elim (Bool-cases (is_shared node)) [
      | inl s ↦ elim (Option-cases (group_children node)) [
        | inl e ↦ ground arith
        | inr (xs, e) ↦ ground (arith, length-single (expand_children x base n node) items names)
      ]
      | inr s ↦ ground (arith, length-copies 1 n node items names)
    ]
    length-expand_node Json.null items names h = absurd (ground arith)
    length-expand_node (Json.boolean b) items names h = absurd (ground arith)
    length-expand_node (Json.number i) items names h = absurd (ground arith)
    length-expand_node (Json.float d) items names h = absurd (ground arith)
    length-expand_node (Json.string t) items names h = absurd (ground arith)
    length-expand_node (Json.array xs) items names h = absurd (ground arith)

    length-expand_nodes :
        (xs items : Items) (names : List String)
        → expand_nodes x base n xs ≡ ok (items, names)
        → length_items items ≡ planned_length n xs
    unfolding expand_nodes planned_length
    length-expand_nodes Items.nil items names h = ground arith
    length-expand_nodes (Items.item v rest) items names h =
        let ((new, n1), e1, h1) = >>=-eq-ok (expand_node x base n v) _ h in
        let ((later, n2), e2, h2) = >>=-eq-ok (expand_nodes x base n rest) _ h1 in
        ground (
          arith,
          length-append_items new later,
          length-expand_node v new n1 e1,
          length-expand_nodes rest later n2 e2,
        )

raw_nodes-set_field :
    (xs : Items) (doc : Fields) → raw_nodes (set_field "nodes" (Json.array xs) doc) ≡ xs
unfolding raw_nodes nodes_of as_array
raw_nodes-set_field xs doc = ground (arith, get-set_field "nodes" "nodes" (Json.array xs) doc)

-- What an expansion that returns has
pub record IsExpanded (doc : Fields) (team_count : ℤ) (r : ExpandResult) : Type 0 where
  pub asked : team_count ≡ pos r.plays_per_team
  pub positive : 0 < r.plays_per_team
  pub nodes : length_items (raw_nodes r.document) ≡ planned_length r.plays_per_team (raw_nodes doc)
  pub rest : (k : String) → (k == "nodes") ≡ false → get_field k r.document ≡ get_field k doc

-- An expansion that returns was asked for at least one team and reports their number; its document
-- has one node for each shared node of the document and one for each team for each replicated one,
-- and every other key of the document as it was.
pub expand_replication-IsExpanded :
    (x : Python) (doc : Fields) (team_count : ℤ) (r : ExpandResult)
    → expand_replication x doc team_count ≡ ok r
    → IsExpanded doc team_count r
unfolding expand_replication expand_for
expand_replication-IsExpanded x doc (negsuc n) r h = absurd (ground arith)
expand_replication-IsExpanded x doc (pos zero) r h = absurd (ground arith)
expand_replication-IsExpanded x doc (pos (suc n)) r h =
    let ((nodes, names), e, h1) =
      >>=-eq-ok (expand_nodes x (bridge_base_of doc) (suc n) (raw_nodes doc)) _ h in
    let document = set_field "nodes" (Json.array nodes) doc in
    let same : document ≡ r.document = ground arith in
    record {
      asked = ground arith;
      positive = ground arith;
      nodes = ground (
        arith,
        raw_nodes-set_field nodes doc,
        length-expand_nodes x (bridge_base_of doc) (suc n) (raw_nodes doc) nodes names e,
      );
      rest = λ k other. ground (arith, get-set_field "nodes" k (Json.array nodes) doc);
    }
