-- ===== src/Snapshots/Observation/Examples.antt =====
-- One running guest.
use range42_backend_api.Prelude.{
  ◌≡◌, refl, true, false, none, some, List, [], ◌∷◌, nat_eq, string_eq, option_eq,
}
use range42_backend_api.Prelude.Table.{select}
use range42_backend_api.Prelude.Result.{ok, raise, error}
use range42_backend_api.Models.{Member, ℤ}
use range42_backend_api.Json.{Json, Fields, get_field}
use range42_backend_api.Vmids.{
  assert_vmid_safe, assert_outside, effective_ranges, default_protected_ranges,
}
use range42_backend_api.Snapshots.Observation.{
  Reader, Answers, keep_fields, restore_digest, is_placed, the_row, is_settled_guest, running_of,
  identity_of, named, with_status, settled_member, report, observe_guest, observe_guests, inventory,
  observe, has_key,
}
use range42_backend_api.Snapshots.Observation.Identity.{AllObserved, observe-Observed}

abbrev reader : Reader
reader = record {
  lines = λ _. "range42-deployment:d1" ∷ [];
  uuids = λ _. some ("u" ∷ []);
  canonical = λ s. some s;
  is_unused = λ _. false;
  digest = λ _. "digest";
}

abbrev roster : List Fields
roster =
    Fields.field "vmid" (Json.number (ℤ.pos 2000)) (
      Fields.field "node" (Json.string "pve") (
        Fields.field "type" (Json.string "qemu")
          (Fields.field "name" (Json.string "web") Fields.end)))
    ∷ []

abbrev config : Fields
config = Fields.field "name" (Json.string "web") Fields.end

abbrev answers : Answers
answers = record {
  roster = ok (some roster);
  config = λ _. ok (some config);
  pending = λ _. ok (some []);
  status = λ _. ok (some (Fields.field "status" (Json.string "running") Fields.end));
}

abbrev seen : Member
seen = record {
  vm_id = 2000;
  vm_name = "web";
  uuid = "u";
  config_digest = "digest";
  restore_digest = "digest";
  running = true;
}

observes : observe reader answers none "pve" "d1" ((2000, some "web") ∷ []) ≡ ok (seen ∷ [])
unfolding observe inventory observe_guests observe_guest assert_vmid_safe assert_outside
    effective_ranges default_protected_ranges the_row is_placed report with_status running_of
    settled_member is_settled_guest has_key identity_of named restore_digest keep_fields get_field
    select string_eq nat_eq option_eq
observes = refl

-- A guest of another deployment is not observed.
foreign :
    observe (record reader { lines = λ _. [] }) answers none "pve" "d1" ((2000, some "web") ∷ [])
    ≡ raise (error 409 "SNAPSHOT_OWNERSHIP_CHANGED")
unfolding observe inventory observe_guests observe_guest assert_vmid_safe assert_outside
    effective_ranges default_protected_ranges the_row is_placed report with_status running_of
    settled_member is_settled_guest has_key get_field select string_eq nat_eq option_eq
foreign = refl

observe-Observed_example :
    (rows : List Fields) × (answers.roster ≡ ok (some rows))
    × AllObserved reader answers none "pve" "d1" rows ((2000, some "web") ∷ []) (seen ∷ [])
observe-Observed_example =
    observe-Observed reader answers none "pve" "d1" ((2000, some "web") ∷ []) (seen ∷ []) observes
