-- ===== src/Overlay/Teams/Examples.antt =====
-- A router that the teams share, and a group of one VM that is replicated.
use range42_backend_api.Prelude.{
  ℕ, String, ◌≡◌, ◌≢◌, refl, true, none, [], ◌∷◌, ◌==◌, string_eq, nat_eq, if◌then◌else◌, arith,
}
use range42_backend_api.Prelude.Result.{ok}
use range42_backend_api.Models.{ℤ, pos, negsuc}
use range42_backend_api.Json.{Json, Items, Fields, get_field}
use range42_backend_api.Events.{set_field}
use range42_backend_api.Overlay.{pop_field}
use range42_backend_api.Overlay.Templates.{
  Number, Token, Operator, Segment, Python, compute, num_to_str, num_to_str_value, val, eval_rest,
  eval_tokens, eval_expr, substitute, render_template, ◌+ℤ◌, ◌*ℤ◌,
}
use range42_backend_api.Overlay.Teams.{
  object_at, as_object, as_text, as_number, js_str, js_number, move_text, rendered, rendered_int,
  shift, offset_vm_id, offset_config, render_node, with_networks, with_attachments, apply_offsets,
}
use range42_backend_api.Overlay.Teams.Expansion.{
  append_items, is_shared, group_children, as_array, nodes_of, copy_children, copy_node, copies,
  expand_node, bridge_base_of, raw_nodes, ExpandResult, expand_for, expand_replication,
}
use range42_backend_api.Overlay.Teams.Copies.{
  IsVm, vm_ids, as_ids, shifted_ids, AreDistinct, expand_node-vm_ids,
}
use range42_backend_api.Overlay.Teams.Counting.{IsExpanded, expand_replication-IsExpanded}
use range42_backend_api.Overlay.Teams.Plain.{all_shared, expand_replication-same}

abbrev digit : ℤ → String
digit (pos n) = if n == 1 then "1" else if n == 2 then "2" else if n == 142 then "142" else "?"
digit (negsuc n) = "?"

-- `vmbr{{ bridge_base + team_id }}`, and texts without a template
abbrev python : Python
python = record {
  jinja = λ t.
      if t == "vmbr{{ bridge_base + team_id }}"
      then Segment.between "vmbr"
        ∷ Segment.match_
            (record { group_0 = "{{ bridge_base + team_id }}"; group_1 = "bridge_base + team_id " })
        ∷ []
      else Segment.between t ∷ [];
  supported = λ _. true;
  tokens = λ _. Token.bridge_base ∷ Token.operator Operator.plus ∷ Token.team_id ∷ [];
  legacy = λ t. Segment.between t ∷ [];
  leading_int = λ _. none;
  float_of = λ _. none;
  float_op = λ _ a _. a;
  integral = λ _. none;
  show_int = digit;
  show_float = λ t. t;
  show = λ _. "?";
}

renders :
    render_template python 2 (Number.whole (pos 140)) "vmbr{{ bridge_base + team_id }}"
    ≡ ok "vmbr142"
unfolding render_template substitute eval_expr eval_tokens eval_rest val compute num_to_str ◌+ℤ◌
    string_eq nat_eq
renders = refl

abbrev with_scope : String → Fields → Fields
with_scope scope rest =
    Fields.field "replication"
      (Json.object (
        Fields.field "scope" (Json.string scope) (
          Fields.field "id_offset"
            (Json.object (Fields.field "vmid" (Json.number (pos 100)) Fields.end)) Fields.end)))
      rest

abbrev vm : Fields
vm = Fields.field "id" (Json.string "web") (
    Fields.field "config" (Json.object (Fields.field "vm_id" (Json.number (pos 2000)) Fields.end))
      (with_scope "per_team" Fields.end))

abbrev vm_for : String → ℕ → Fields
vm_for id vm_id = Fields.field "id" (Json.string id) (
    Fields.field "config" (Json.object (Fields.field "vm_id" (Json.number (pos vm_id)) Fields.end))
      (with_scope "per_team" Fields.end))

abbrev two_vms : Items
two_vms =
    Items.item (Json.object (vm_for "web__team_1" 2100))
      (Items.item (Json.object (vm_for "web__team_2" 2200)) Items.nil)

expands : expand_node python (Number.whole (pos 140)) 2 (Json.object vm) ≡ ok (two_vms, [])
unfolding expand_node copies copy_node group_children as_array is_shared object_at as_object as_text
    as_number apply_offsets js_str js_number move_text rendered rendered_int shift offset_vm_id
    offset_config render_node with_networks with_attachments compute num_to_str_value ◌+ℤ◌ ◌*ℤ◌
    get_field set_field pop_field string_eq nat_eq
expands = refl

vm-IsVm : IsVm vm (pos 2000) (pos 100)
unfolding expands
vm-IsVm = record { replicated = refl; single = refl; vm_id = refl; offset = refl }

expand_node-vm_ids_example :
    (vm_ids two_vms ≡ as_ids (shifted_ids (pos 2000) (pos 100) 1 2))
    × (pos 100 ≢ pos 0 → AreDistinct (shifted_ids (pos 2000) (pos 100) 1 2))
expand_node-vm_ids_example =
    expand_node-vm_ids python (Number.whole (pos 140)) vm (pos 2000) (pos 100) vm-IsVm 2 two_vms []
      expands

abbrev router : Fields
router = Fields.field "id" (Json.string "router") (with_scope "shared" Fields.end)

abbrev document : Items → Fields
document nodes =
    Fields.field "nodes" (Json.array nodes) (Fields.field "name" (Json.string "lab") Fields.end)

abbrev mixed : Fields
mixed = document (Items.item (Json.object router) (Items.item (Json.object vm) Items.nil))

abbrev expanded : ExpandResult
expanded = record {
  plays_per_team = 2;
  handler_namespaces = [];
  document = document (Items.item (Json.object router) two_vms);
}

expands_document : expand_replication python mixed (pos 2) ≡ ok expanded
unfolding expands expand_replication expand_for bridge_base_of raw_nodes nodes_of append_items
expands_document = refl

expand_replication-IsExpanded_example : IsExpanded mixed (pos 2) expanded
expand_replication-IsExpanded_example =
    expand_replication-IsExpanded python mixed (pos 2) expanded expands_document

abbrev shared_group : Fields
shared_group =
    Fields.field "kind" (Json.string "group")
      (Fields.field "children" (Json.array (Items.item (Json.object router) Items.nil)) Fields.end)

abbrev plain : Fields
plain = document (Items.item (Json.object shared_group) Items.nil)

plain-shared : all_shared (raw_nodes plain) ≡ true
unfolding all_shared expands_document
plain-shared = refl

expand_replication-same_example :
    expand_replication python plain (pos 3)
    ≡ ok (record {
      plays_per_team = 3;
      handler_namespaces = [];
      document = set_field "nodes" (Json.array (raw_nodes plain)) plain;
    })
expand_replication-same_example = expand_replication-same python plain 3 (omega arith) plain-shared

abbrev group : String → Fields → Fields → Fields
group id child rest = Fields.field "id" (Json.string id) (
    Fields.field "kind" (Json.string "group")
      (Fields.field "children" (Json.array (Items.item (Json.object child) Items.nil)) rest))

-- A VM of a group within a replicated group is copied as it is: every team has the same VM id.
nested_group :
    copy_node python
      (Number.whole (pos 140))
      1
      (group "zone" (group "rack" vm Fields.end) (with_scope "per_team" Fields.end))
    ≡ ok (
      group "zone__team_1"
          (group "rack__team_1" vm (Fields.field "config" (Json.object Fields.end) Fields.end))
          (Fields.field "replication"
            (Json.object (Fields.field "scope" (Json.string "shared") Fields.end))
            Fields.end),
      [],
    )
unfolding expands copy_children
nested_group = refl
