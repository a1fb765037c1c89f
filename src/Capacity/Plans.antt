-- ===== src/Capacity/Plans.antt =====
-- core/scenario_capacity.py: the resources that a plan needs, checked against a capacity report.
-- Texts are taken apart by parameters; a detail for people is left out of a check.
use range42_backend_api.Prelude.{
  ℕ, ◌+◌, ◌*◌, ◌/◌, ◌%◌, ◌^◌, String, Bool, true, false, not, ◌&&◌, ◌||◌, Option, none, some, List,
  [], ◌∷◌, leb, ltb, ◌==◌, nat_eq, string_eq, option_eq, if◌then◌else◌,
}
use range42_backend_api.Models.{ℤ}
use range42_backend_api.Json.{Json, Fields, get_field}
use range42_backend_api.Capacity.{is_none}

-- A number in a size: its digits without the point, how many of them follow it, and the power of
-- 1024 of its unit
pub record Scan : Type 0 where
  pub digits : ℕ
  pub places : ℕ
  pub power : ℕ

-- What reads texts: the expressions `_DISK` and `_SIZE`, `split(",")`, `split("=", 1)` where there
-- is an equals sign, and the name of the pool before the colon of a volume. `sorted` orders names,
-- `reaches` is the test of floats `a / b >= 0.90`.
pub record Texts : Type 0 where
  pub is_disk : String → Bool
  pub scan : String → Option Scan
  pub split : String → List String
  pub pair : String → Option (String × String)
  pub pool : String → Option String
  pub sorted : List String → List String
  pub reaches : ℕ → ℕ → Bool

pub record PlannedVm : Type 0 where
  pub template_vm_id : ℕ
  pub cores : Option Json
  pub disk_gb : Option ℕ
  pub disk_device : Option String
  pub storage : Option String

abbrev pub gib : ℕ
gib = 1024 ^ 3

-- `_size_bytes`, of a number that is whole, positive and below 2 ** 63
unfoldable pub whole_size : Scan → Option ℕ
whole_size s =
    let bytes = s.digits * 1024 ^ s.power in
    let unit = 10 ^ s.places in
    if ltb 0 bytes && (bytes % unit == 0 && ltb (bytes / unit) (2 ^ 63))
    then some (bytes / unit)
    else none

unfoldable pub size_bytes : Texts → String → Option ℕ
size_bytes t value = elim (t.scan value) [ none ↦ none | some s ↦ whole_size s ]

-- `dict(part.split("=", 1) for part in parts[1:] if "=" in part).get(key)`
unfoldable pub option_of : Texts → String → List String → Option String
option_of t key [] = none
option_of t key (part ∷ parts) = elim (option_of t key parts) [
  | some v ↦ some v
  | none ↦ elim (t.pair part) [ none ↦ none | some (k, v) ↦ if k == key then some v else none ]
]

abbrev pub rest_of : List String → List String
rest_of [] = []
rest_of (_ ∷ parts) = parts

abbrev pub first_of : List String → String
first_of [] = ""
first_of (part ∷ _) = part

abbrev pub or_default : String → Option String → String
or_default fallback none = fallback
or_default fallback (some s) = s

-- `planned.get("storage") or pool`
abbrev pub or_pool : String → Option String → String
or_pool pool none = pool
or_pool pool (some s) = if s == "" then pool else s

-- `options.get("size", "")`
unfoldable pub declared_size : Texts → List String → Option ℕ
declared_size t parts = size_bytes t (or_default "" (option_of t "size" (rest_of parts)))

unfoldable pub is_cdrom : Texts → List String → Bool
is_cdrom t parts = option_of t "media" (rest_of parts) == some "cdrom"

-- Bytes per pool: `storage[name] += size`
abbrev pub Sizes : Type 0
Sizes = List (String × ℕ)

unfoldable pub size_at : String → Sizes → ℕ
size_at name [] = 0
size_at name ((k, size) ∷ rest) = let later = size_at name rest in if k == name then size else later

unfoldable pub add_size : String → ℕ → Sizes → Sizes
add_size name size [] = (name, size) ∷ []
add_size name size ((k, old) ∷ rest) =
    let later = add_size name size rest in
    if k == name then (k, old + size) ∷ rest else (k, old) ∷ later

pub record Requirements : Type 0 where
  pub sizes : Sizes
  pub unknown_disk : Bool
  pub found_disk : Bool
  pub resized : Bool

-- The size that a disk is to have, and whether it is the one that grows.
unfoldable pub grown : PlannedVm → String → ℕ → ℕ × Bool
grown vm device size = elim vm.disk_gb [
  | none ↦ (size, false)
  | some g ↦
      if device == or_default "scsi0" vm.disk_device
      then (if leb (g * gib) size then size else g * gib, true)
      else (size, false)
]

unfoldable pub add_volume :
    PlannedVm → String → Option String → Option ℕ → Requirements → Requirements
add_volume vm device (some pool) (some size) r =
    let (bytes, resized) = grown vm device size in
    record r {
      sizes = add_size (or_pool pool vm.storage) bytes r.sizes;
      found_disk = true;
      resized = r.resized || resized;
    }
add_volume vm device _ _ r = record r { unknown_disk = true; found_disk = true }

-- One device of the template's configuration
unfoldable pub add_device : Texts → PlannedVm → String → Json → Requirements → Requirements
add_device t vm device (Json.string specification) r =
    let parts = t.split specification in
    if t.is_disk device && not (is_cdrom t parts)
    then add_volume vm device (t.pool (first_of parts)) (declared_size t parts) r
    else r
add_device t vm device _ r = if t.is_disk device then record r { unknown_disk = true } else r

unfoldable pub add_devices : Texts → PlannedVm → Fields → Requirements → Requirements
add_devices t vm Fields.end r = r
add_devices t vm (Fields.field device v rest) r = add_devices t vm rest (add_device t vm device v r)

-- A positive `int`, where an absent key counts as 1
unfoldable pub positive : Option Json → Option ℕ
positive none = some 1
positive (some (Json.number (ℤ.pos n))) = if n == 0 then none else some n
positive _ = none

unfoldable pub cpu_count : PlannedVm → Fields → Option ℕ
cpu_count vm config =
    elim (positive (elim vm.cores [ none ↦ get_field "cores" config | some v ↦ some v ])) [
      | none ↦ none
      | some cores ↦ elim (positive (get_field "sockets" config)) [
        | none ↦ none
        | some sockets ↦ some (cores * sockets)
      ]
    ]

-- `_template_requirements`, but for the number of processors: the sizes, and whether they are
-- incomplete
unfoldable pub template_requirements : Texts → PlannedVm → Fields → Sizes × Bool
template_requirements t vm config =
    let r = add_devices t vm config (record {
      sizes = [];
      unknown_disk = false;
      found_disk = false;
      resized = is_none vm.disk_gb;
    }) in
    (r.sizes, r.unknown_disk || not r.found_disk || not r.resized)
