-- ===== src/Overlay/Teams.antt =====
-- overlay/expand_replication.py, `_apply_offsets`: the copy of a node for one team.
pub mod Expansion
pub mod Ids
pub mod Copies
pub mod Counting
pub mod Plain
mod Examples
use range42_backend_api.Prelude.{
  ℕ, zero, suc, ◌+◌, ◌-◌, String, ◌<>◌, Bool, true, false, not, ◌&&◌, ◌||◌, Option, none, some,
  List, [], ◌∷◌, ◌++◌, ◌==◌, string_eq, if◌then◌else◌,
}
use range42_backend_api.Prelude.Result.{Result, ok, raise, raise_if, error, ◌>>=◌, ◌>>◌}
use range42_backend_api.Models.{ℤ, pos}
use range42_backend_api.Json.{Json, Items, Fields, get_field}
use range42_backend_api.Events.{set_field}
use range42_backend_api.Overlay.{pop_field}
use range42_backend_api.Overlay.Templates.{
  Number, Operator, Python, compute, num_to_str, num_to_str_value, render_template,
}

abbrev pub failed {ℓ} : {A : Type ℓ} → Result A
failed = raise (error 500 "INTERNAL")

-- The new value, and what was appended to `namespace_sink`.
abbrev pub Sunk : Type 0 → Type 0
Sunk A = A × List String

unfoldable pub as_object : Option Json → Option Fields
as_object (some (Json.object fs)) = some fs
as_object _ = none

unfoldable pub as_text : Option Json → Option String
as_text (some (Json.string t)) = some t
as_text _ = none

-- An int or a float, and no truth value
unfoldable pub as_number : Option Json → Option Number
as_number (some (Json.number i)) = some (Number.whole i)
as_number (some (Json.float d)) = some (Number.decimal d)
as_number _ = none

or_end : Option Fields → Fields
or_end none = Fields.end
or_end (some fs) = fs

-- The object at a key, or an empty one
unfoldable pub object_at : String → Fields → Fields
unfolding as_object or_end
object_at k fs = or_end (as_object (get_field k fs))

module _ (x : Python) (team : ℕ) (base : Number) where
  -- `_js_str`, of a value that may be absent
  unfoldable pub js_str : Option Json → String
  js_str none = "undefined"
  js_str (some Json.null) = "null"
  js_str (some (Json.boolean true)) = "true"
  js_str (some (Json.boolean false)) = "false"
  js_str (some (Json.number i)) = x.show_int i
  js_str (some (Json.float d)) = num_to_str x (Number.decimal d)
  js_str (some (Json.string t)) = t
  js_str (some v) = x.show v

  abbrev pub suffix : String
  suffix = "__team_" <> x.show_int (pos team)

  -- `fields[target] = make(fields.pop(source))`, where there is a text
  unfoldable pub move_text : (String → Result Json) → String → String → Fields → Result Fields
  unfolding as_text
  move_text make source target fs = elim (as_text (get_field source fs)) [
    | none ↦ ok fs
    | some t ↦ do v ← make t; ok (set_field target v (pop_field source fs))
  ]

  unfoldable pub rendered : String → Result Json
  rendered tpl = do t ← render_template x team base tpl; ok (Json.string t)

  number_or_null : Option ℤ → Json
  number_or_null none = Json.null
  number_or_null (some i) = Json.number i

  -- `_js_parse_int` of a rendered text
  unfoldable pub rendered_int : String → Result Json
  unfolding number_or_null
  rendered_int tpl = do t ← render_template x team base tpl; ok (number_or_null (x.leading_int t))

  -- `_js_number`
  unfoldable pub js_number : Json → Option Number
  js_number Json.null = some (Number.whole (pos 0))
  js_number (Json.boolean true) = some (Number.whole (pos 1))
  js_number (Json.boolean false) = some (Number.whole (pos 0))
  js_number (Json.number i) = some (Number.whole i)
  js_number (Json.float d) = some (Number.decimal d)
  js_number (Json.string t) = x.float_of t
  js_number (Json.array xs) = none
  js_number (Json.object fs) = none

  -- `base_vmid + id_offset["vmid"] * team_id`
  abbrev pub shifted : Number → Number → Json
  shifted vmid offset =
      num_to_str_value x
        (compute x Operator.plus vmid (compute x Operator.times offset (Number.whole (pos team))))

  unfoldable pub shift : Option Number → Option Json → Fields → Fields
  shift none vm_id cfg = cfg
  shift (some offset) none cfg = cfg
  shift (some offset) (some v) cfg = elim (js_number v) [
    | none ↦ cfg
    | some vmid ↦ set_field "vm_id" (shifted vmid offset) cfg
  ]

  unfoldable pub offset_vm_id : Fields → Fields → Fields
  unfolding as_number shift
  offset_vm_id id_offset cfg =
      shift (as_number (get_field "vmid" id_offset)) (get_field "vm_id" cfg) cfg

  -- The keys of `config`
  unfoldable pub offset_config : Fields → Fields → Result Fields
  unfolding move_text rendered rendered_int
  offset_config id_offset cfg = do
    named ← move_text rendered "name_template" "name" cfg
    tagged ← move_text rendered_int "vlan_template" "vlan" named
    ok (offset_vm_id id_offset tagged)

  -- `_NODE_TEMPLATES`
  unfoldable pub render_node : Fields → Result Fields
  unfolding move_text rendered
  render_node fs = do
    a ← move_text rendered "cidr_template" "cidr" fs
    b ← move_text rendered "bridge_template" "bridge" a
    move_text rendered "gateway_template" "gateway" b

  render_network : Json → Result Json
  unfolding move_text rendered
  render_network (Json.object fs) = do
    new ← move_text rendered "ip_template" "ip" fs
    ok (Json.object new)
  render_network v = ok v

  unfoldable pub render_networks : Items → Result Items
  unfolding render_network
  render_networks Items.nil = ok Items.nil
  render_networks (Items.item v rest) = do
    new ← render_network v
    later ← render_networks rest
    ok (Items.item new later)

  suffixed : Items → Items
  suffixed Items.nil = Items.nil
  suffixed (Items.item v rest) =
      Items.item (Json.string (js_str (some v) <> suffix)) (suffixed rest)

  rename_notify : Option Json → Fields → Fields
  unfolding suffixed
  rename_notify (some (Json.array xs)) att = set_field "notify" (Json.array (suffixed xs)) att
  rename_notify (some (Json.string t)) att = set_field "notify" (Json.string (t <> suffix)) att
  rename_notify _ att = att

  namespace_of : Option String → String
  namespace_of none = "team_" <> x.show_int (pos team)
  namespace_of (some t) = if t == "" then "team_" <> x.show_int (pos team) else t <> suffix

  -- One attachment: its notify targets and, of a handler, its namespace.
  unfoldable pub rename_attachment : Fields → Sunk Fields
  unfolding rename_notify namespace_of as_text
  rename_attachment att =
      let notified = rename_notify (get_field "notify" att) att in
      let name = namespace_of (as_text (get_field "handler_namespace" notified)) in
      elim (as_text (get_field "ansible_primitive" notified)) [
        | none ↦ (notified, [])
        | some p ↦
            if p == "handler"
            then (set_field "handler_namespace" (Json.string name) notified, name ∷ [])
            else (notified, [])
      ]

  unfoldable pub rename_attachments : Items → Sunk Items
  rename_attachments Items.nil = (Items.nil, [])
  rename_attachments (Items.item (Json.object att) rest) =
      let (new, names) = rename_attachment att in
      let (later, more) = rename_attachments rest in
      (Items.item (Json.object new) later, names ++ more)
  rename_attachments (Items.item v rest) =
      let (later, more) = rename_attachments rest in (Items.item v later, more)

  unfoldable pub with_networks : Option Json → Fields → Result Fields
  with_networks (some (Json.array xs)) fs = do
    new ← render_networks xs
    ok (set_field "networks" (Json.array new) fs)
  with_networks _ fs = ok fs

  unfoldable pub with_attachments : Option Json → Fields → Sunk Fields
  with_attachments (some (Json.array xs)) fs =
      let (new, names) = rename_attachments xs in
      (set_field "attachments" (Json.array new) fs, names)
  with_attachments _ fs = (fs, [])

  -- `_apply_offsets` of an object
  unfoldable pub apply_offsets : Fields → Fields → Result (Sunk Fields)
  unfolding with_networks with_attachments
  apply_offsets id_offset node = do
    let named = set_field "id" (Json.string (js_str (get_field "id" node) <> suffix)) node
    cfg ← offset_config id_offset (object_at "config" named)
    rendered_node ← render_node (set_field "config" (Json.object cfg) named)
    networked ← with_networks (get_field "networks" rendered_node) rendered_node
    ok (with_attachments (get_field "attachments" networked) networked)
