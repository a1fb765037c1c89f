-- ===== src/Overlay/Teams/Copies.antt =====
-- The VM ids that a replicated VM has in the ranges of the teams.
use range42_backend_api.Prelude.{
  ℕ, zero, suc, ◌*◌, ◌<◌, String, ◌≡◌, ◌≢◌, refl, false, Option, none, some, List, [], ◌∷◌, All,
  arith,
}
use range42_backend_api.Prelude.Result.{ok, >>=-eq-ok}
use range42_backend_api.Models.{ℤ, pos, negsuc}
use range42_backend_api.Json.{Json, Items, Fields, get_field}
use range42_backend_api.Overlay.Templates.{Number, Python, ◌+ℤ◌, ◌*ℤ◌}
use range42_backend_api.Overlay.Teams.{object_at}
use range42_backend_api.Overlay.Teams.Expansion.{
  is_shared, group_children, copy_node, copies, expand_node,
}
use range42_backend_api.Overlay.Teams.Ids.{vm_id-apply_offsets}

vm_id_of : Json → Option Json
vm_id_of (Json.object node) = get_field "vm_id" (object_at "config" node)
vm_id_of _ = none

-- The VM ids of a list of nodes
unfoldable pub vm_ids : Items → List (Option Json)
unfolding vm_id_of
vm_ids Items.nil = []
vm_ids (Items.item v rest) = vm_id_of v ∷ vm_ids rest

-- `v + o * team`, for `count` teams from `team` on
unfoldable pub shifted_ids : ℤ → ℤ → ℕ → ℕ → List ℤ
shifted_ids v o team zero = []
shifted_ids v o team (suc count) = (v +ℤ o *ℤ pos team) ∷ shifted_ids v o (suc team) count

abbrev pub as_ids : List ℤ → List (Option Json)
as_ids [] = []
as_ids (i ∷ rest) = some (Json.number i) ∷ as_ids rest

-- No two elements are equal.
abbrev pub AreDistinct : List ℤ → Type 0
AreDistinct [] = Unit
AreDistinct (i ∷ rest) = All (λ j. i ≢ j) rest × AreDistinct rest

-- A replicated VM with the id `v`, whose ids are `o` apart.
pub record IsVm (node : Fields) (v o : ℤ) : Type 0 where
  pub replicated : is_shared node ≡ false
  pub single : group_children node ≡ none
  pub vm_id : get_field "vm_id" (object_at "config" node) ≡ some (Json.number v)
  pub offset :
      get_field "vmid" (object_at "id_offset" (object_at "replication" node)) ≡ some (Json.number o)

mul-lt : (a s t : ℕ) → s < t → suc a * s < suc a * t
mul-lt zero s t h = omega arith
mul-lt (suc a) s t h = omega (arith, mul-lt a s t h)

shifted-ne : (v o : ℤ) (s t : ℕ) → o ≢ pos 0 → s < t → (v +ℤ o *ℤ pos s) ≢ (v +ℤ o *ℤ pos t)
unfolding ◌+ℤ◌ ◌*ℤ◌
shifted-ne v (pos zero) s t n h e = absurd (n refl)
shifted-ne v (pos (suc a)) s t n h e = ground (arith, mul-lt a s t h)
shifted-ne v (negsuc a) s t n h e = ground (arith, mul-lt a s t h)

shifted_ids-ne :
    (v o : ℤ) (s t count : ℕ)
    → o ≢ pos 0
    → s < t
    → All (λ j. (v +ℤ o *ℤ pos s) ≢ j) (shifted_ids v o t count)
unfolding shifted_ids
shifted_ids-ne v o s t zero n h = tt
shifted_ids-ne v o s t (suc count) n h =
    (shifted-ne v o s t n h, shifted_ids-ne v o s (suc t) count n (omega arith))

shifted_ids-AreDistinct :
    (v o : ℤ) (team count : ℕ) → o ≢ pos 0 → AreDistinct (shifted_ids v o team count)
unfolding shifted_ids
shifted_ids-AreDistinct v o team zero n = tt
shifted_ids-AreDistinct v o team (suc count) n = (
  shifted_ids-ne v o team (suc team) count n (omega arith),
  shifted_ids-AreDistinct v o (suc team) count n,
)

module _ (x : Python) (base : Number) (node : Fields) (v o : ℤ) (vm : IsVm node v o) where
  vm_ids-copies :
      (team count : ℕ) (items : Items) (names : List String)
      → copies x base team count node ≡ ok (items, names)
      → vm_ids items ≡ as_ids (shifted_ids v o team count)
  unfolding vm_ids shifted_ids copies copy_node
  vm_ids-copies team zero items names h = ground arith
  vm_ids-copies team (suc count) items names h =
      let ((new, n1), e1, h1) = >>=-eq-ok (copy_node x base team node) _ h in
      let ((later, n2), e2, h2) = >>=-eq-ok (copies x base (suc team) count node) _ h1 in
      let single = vm.single in
      let id =
        vm_id-apply_offsets x team base (object_at "id_offset" (object_at "replication" node)) node
          new n1 v o vm.offset vm.vm_id (ground arith) in
      ground (arith, id, vm_ids-copies (suc team) count later n2 e2)

  -- Where the expansion of a replicated VM with an integer id and an integer offset returns, the
  -- copies have, in the order of the teams, the id plus the offset times the number of the team,
  -- from 1 to the count; no two of these ids are equal unless the offset is 0.
  pub expand_node-vm_ids :
      (team_count : ℕ) (items : Items) (names : List String)
      → expand_node x base team_count (Json.object node) ≡ ok (items, names)
      → (vm_ids items ≡ as_ids (shifted_ids v o 1 team_count))
        × (o ≢ pos 0 → AreDistinct (shifted_ids v o 1 team_count))
  unfolding expand_node
  expand_node-vm_ids team_count items names h =
      let replicated = vm.replicated in
      (
        vm_ids-copies 1 team_count items names (ground arith),
        shifted_ids-AreDistinct v o 1 team_count,
      )
