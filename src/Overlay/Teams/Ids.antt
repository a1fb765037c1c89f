-- ===== src/Overlay/Teams/Ids.antt =====
-- The VM ids of the copies of a replicated VM.
use range42_backend_api.Prelude.{
  ℕ, String, ◌<>◌, ◌≡◌, refl, ◌∙◌, inl, inr, Bool, false, Option, none, some, List, ◌==◌, string_eq,
  arith, Option-cases,
}
use range42_backend_api.Prelude.Result.{Result, ok, >>=-eq-ok}
use range42_backend_api.Models.{ℤ, pos}
use range42_backend_api.Json.{Json, Fields, get_field}
use range42_backend_api.Events.{set_field}
use range42_backend_api.Events.Numbering.{get-set_field}
use range42_backend_api.Overlay.{pop_field}
use range42_backend_api.Overlay.Templates.{Number, Python, compute, num_to_str_value, ◌+ℤ◌, ◌*ℤ◌}
use range42_backend_api.Overlay.Teams.{
  object_at, as_object, as_text, as_number, js_str, suffix, js_number, move_text, rendered,
  rendered_int, shift, offset_vm_id, offset_config, render_node, render_networks,
  rename_attachments, with_networks, with_attachments, apply_offsets,
}

get-pop_field :
    (k j : String) (fs : Fields) → (k == j) ≡ false → get_field j (pop_field k fs) ≡ get_field j fs
unfolding get_field pop_field
get-pop_field k j Fields.end h = refl
get-pop_field k j (Fields.field i w rest) h = ground (arith, get-pop_field k j rest h)

abbrev is_config : String → Bool
is_config k = k == "config"

abbrev is_vm_id : String → Bool
is_vm_id k = k == "vm_id"

-- The keys that the templates of a node write are not `config`.
not_config :
    (is_config "cidr_template" ≡ false)
    × (is_config "cidr" ≡ false)
    × (is_config "bridge_template" ≡ false)
    × (is_config "bridge" ≡ false)
    × (is_config "gateway_template" ≡ false)
    × (is_config "gateway" ≡ false)
    × (is_config "networks" ≡ false)
    × (is_config "attachments" ≡ false)
unfolding string_eq
not_config = (refl, refl, refl, refl, refl, refl, refl, refl)

id_not_config : is_config "id" ≡ false
unfolding string_eq
id_not_config = refl

not_vm_id :
    (is_vm_id "name_template" ≡ false)
    × (is_vm_id "name" ≡ false)
    × (is_vm_id "vlan_template" ≡ false)
    × (is_vm_id "vlan" ≡ false)
unfolding string_eq
not_vm_id = (refl, refl, refl, refl)

module _ (x : Python) (team : ℕ) (base : Number) where
  get-move_text :
      (make : String → Result Json) (source target j : String) (fs fs' : Fields)
      → (source == j) ≡ false
      → (target == j) ≡ false
      → move_text x team base make source target fs ≡ ok fs'
      → get_field j fs' ≡ get_field j fs
  unfolding move_text
  get-move_text make source target j fs fs' s t h =
      elim (Option-cases (as_text (get_field source fs))) [
        | inl e ↦ ground arith
        | inr (tpl, e) ↦
            let (v, made, put) =
              >>=-eq-ok (make tpl) (λ v. ok (set_field target v (pop_field source fs))) {b = fs'}
                (ground arith) in
            ground
              (arith, get-set_field target j v (pop_field source fs), get-pop_field source j fs s)
      ]

  config-render_node :
      (fs fs' : Fields)
      → render_node x team base fs ≡ ok fs'
      → get_field "config" fs' ≡ get_field "config" fs
  unfolding render_node
  config-render_node fs fs' h =
      let (a, ea, h1) =
        >>=-eq-ok (move_text x team base (rendered x team base) "cidr_template" "cidr" fs) _ h in
      let (b, eb, h2) =
        >>=-eq-ok (move_text x team base (rendered x team base) "bridge_template" "bridge" a) _
          h1 in
      let (n1, n2, n3, n4, n5, n6, _, _) = not_config in
      get-move_text (rendered x team base) "gateway_template" "gateway" "config" b fs' n5 n6 h2
      ∙ get-move_text (rendered x team base) "bridge_template" "bridge" "config" a b n3 n4 eb
      ∙ get-move_text (rendered x team base) "cidr_template" "cidr" "config" fs a n1 n2 ea

  config-with_networks :
      (o : Option Json) (fs fs' : Fields)
      → with_networks x team base o fs ≡ ok fs'
      → get_field "config" fs' ≡ get_field "config" fs
  unfolding with_networks
  config-with_networks (some (Json.array xs)) fs fs' h =
      let (new, e, h1) = >>=-eq-ok (render_networks x team base xs) _ h in
      let (_, _, _, _, _, _, n, _) = not_config in
      ground (arith, get-set_field "networks" "config" (Json.array new) fs)
  config-with_networks none fs fs' h = ground arith
  config-with_networks (some Json.null) fs fs' h = ground arith
  config-with_networks (some (Json.boolean b)) fs fs' h = ground arith
  config-with_networks (some (Json.number i)) fs fs' h = ground arith
  config-with_networks (some (Json.float d)) fs fs' h = ground arith
  config-with_networks (some (Json.string t)) fs fs' h = ground arith
  config-with_networks (some (Json.object gs)) fs fs' h = ground arith

  config-with_attachments :
      (o : Option Json) (fs : Fields)
      → get_field "config" (with_attachments x team base o fs).0 ≡ get_field "config" fs
  unfolding with_attachments
  config-with_attachments (some (Json.array xs)) fs =
      let (_, _, _, _, _, _, _, n) = not_config in
      ground (
        arith,
        get-set_field "attachments" "config" (Json.array (rename_attachments x team base xs).0) fs,
      )
  config-with_attachments none fs = refl
  config-with_attachments (some Json.null) fs = refl
  config-with_attachments (some (Json.boolean b)) fs = refl
  config-with_attachments (some (Json.number i)) fs = refl
  config-with_attachments (some (Json.float d)) fs = refl
  config-with_attachments (some (Json.string t)) fs = refl
  config-with_attachments (some (Json.object gs)) fs = refl

  vm_id-offset_config :
      (id_offset cfg cfg' : Fields) (v o : ℤ)
      → get_field "vmid" id_offset ≡ some (Json.number o)
      → get_field "vm_id" cfg ≡ some (Json.number v)
      → offset_config x team base id_offset cfg ≡ ok cfg'
      → get_field "vm_id" cfg' ≡ some (Json.number (v +ℤ o *ℤ pos team))
  unfolding offset_config offset_vm_id shift as_number js_number compute num_to_str_value
  vm_id-offset_config id_offset cfg cfg' v o off vm h =
      let (named, e1, h1) =
        >>=-eq-ok (move_text x team base (rendered x team base) "name_template" "name" cfg) _ h in
      let (tagged, e2, h2) =
        >>=-eq-ok (move_text x team base (rendered_int x team base) "vlan_template" "vlan" named) _
          h1 in
      let (n1, n2, n3, n4) = not_vm_id in
      let same =
        get-move_text (rendered_int x team base) "vlan_template" "vlan" "vm_id" named tagged n3 n4
          e2
        ∙ get-move_text (rendered x team base) "name_template" "name" "vm_id" cfg named n1 n2 e1
        ∙ vm in
      ground (arith, get-set_field "vm_id" "vm_id" (Json.number (v +ℤ o *ℤ pos team)) tagged)

  -- Whoever gives a node's copy a VM id by its offset gives the sum of the id and that multiple.
  pub vm_id-apply_offsets :
      (id_offset node new : Fields) (names : List String) (v o : ℤ)
      → get_field "vmid" id_offset ≡ some (Json.number o)
      → get_field "vm_id" (object_at "config" node) ≡ some (Json.number v)
      → apply_offsets x team base id_offset node ≡ ok (new, names)
      → get_field "vm_id" (object_at "config" new) ≡ some (Json.number (v +ℤ o *ℤ pos team))
  unfolding apply_offsets object_at as_object
  vm_id-apply_offsets id_offset node new names v o off vm h =
      let id : Json =
        Json.string (js_str x team base (get_field "id" node) <> suffix x team base) in
      let named = set_field "id" id node in
      let (cfg, e1, h1) =
        >>=-eq-ok (offset_config x team base id_offset (object_at "config" named)) _ h in
      let placed = set_field "config" (Json.object cfg) named in
      let (drawn, e2, h2) = >>=-eq-ok (render_node x team base placed) _ h1 in
      let (netted, e3, h3) =
        >>=-eq-ok (with_networks x team base (get_field "networks" drawn) drawn) _ h2 in
      let kept : get_field "config" named ≡ get_field "config" node =
        ground (arith, get-set_field "id" "config" id node, id_not_config) in
      let config : get_field "config" new ≡ some (Json.object cfg) = ground (
        arith,
        config-with_attachments (get_field "attachments" netted) netted,
        config-with_networks (get_field "networks" drawn) drawn netted e3,
        config-render_node placed drawn e2,
        get-set_field "config" "config" (Json.object cfg) named,
      ) in
      let shifted =
        vm_id-offset_config id_offset (object_at "config" named) cfg v o off (ground (arith, kept))
          e1 in
      ground (arith, config, shifted)
