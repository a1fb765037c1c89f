-- ===== src/Capacity/Needs.antt =====
-- What a plan needs of a pool, from the configurations of its templates, and when each disk in them
-- has a known size.
use range42_backend_api.Prelude.{
  ℕ, ◌+◌, ◌*◌, ◌≡◌, ◌⊎◌, refl, inl, inr, String, true, false, not, ◌&&◌, Option, none, some, List,
  [], ◌∷◌, All, leb, arith, nat_eq, string_eq, option_eq, Bool-cases, Option-cases, ◌==◌,
  if◌then◌else◌,
}
use range42_backend_api.Json.{Json, Fields}
use range42_backend_api.Capacity.{is_none}
use range42_backend_api.Capacity.Plans.{
  Texts, PlannedVm, Sizes, Requirements, gib, add_size, or_default, or_pool, first_of,
  declared_size, is_cdrom, grown, add_volume, add_device, add_devices, template_requirements,
}
use range42_backend_api.Capacity.Admission.{Answers, Totals, add_vm, add_vms}

-- The bytes of all entries of a pool
abbrev pub bytes_for : String → Sizes → ℕ
bytes_for name [] = 0
bytes_for name ((k, size) ∷ rest) = (if k == name then size else 0) + bytes_for name rest

abbrev larger : ℕ → ℕ → ℕ
larger m n = if leb m n then n else m

-- A disk is as large as in the template; the one that is to grow has at least the wanted size.
abbrev pub wanted_bytes : PlannedVm → String → ℕ → ℕ
wanted_bytes vm device size = elim vm.disk_gb [
  | none ↦ size
  | some g ↦ if device == or_default "scsi0" vm.disk_device then larger (g * gib) size else size
]

-- A disk is copied to the pool that the VM selects, or else stays on its own.
abbrev pub volume_bytes : String → PlannedVm → String → Option String → Option ℕ → ℕ
volume_bytes name vm device none size = 0
volume_bytes name vm device (some pool) none = 0
volume_bytes name vm device (some pool) (some size) =
    if or_pool pool vm.storage == name then wanted_bytes vm device size else 0

abbrev pub disk_bytes : Texts → String → PlannedVm → String → Json → ℕ
disk_bytes t name vm device (Json.string text) =
    if t.is_disk device && not (is_cdrom t (t.split text))
    then volume_bytes name vm device (t.pool (first_of (t.split text)))
        (declared_size t (t.split text))
    else 0
disk_bytes t name vm device _ = 0

-- The sum over all devices of a template
unfoldable pub needs_of : Texts → String → PlannedVm → Option Fields → ℕ
needs_of t name vm none = 0
needs_of t name vm (some Fields.end) = 0
needs_of t name vm (some (Fields.field device v rest)) =
    disk_bytes t name vm device v + needs_of t name vm (some rest)

-- What the VMs of a plan need on a pool
abbrev pub demand : Texts → Answers → String → List PlannedVm → ℕ
demand t a name [] = 0
demand t a name (vm ∷ vms) = needs_of t name vm (a.config vm.template_vm_id) + demand t a name vms

-- A device that is a disk is described by a text, as a CD drive or with a pool and a size.
abbrev pub IsMeasured : Texts → String → Json → Type 0
IsMeasured t device v =
    t.is_disk device ≡ true
    → (text : String) × (v ≡ Json.string text)
      × ((is_cdrom t (t.split text) ≡ true)
          ⊎ ((pool : String) × (size : ℕ) × (t.pool (first_of (t.split text)) ≡ some pool)
              × (declared_size t (t.split text) ≡ some size)))

abbrev pub AllMeasured : Texts → Fields → Type 0
AllMeasured t Fields.end = Unit
AllMeasured t (Fields.field device v rest) = IsMeasured t device v × AllMeasured t rest

-- The template of a VM can be read and all its disks are measured.
abbrev pub IsKnown : Texts → Answers → PlannedVm → Type 0
IsKnown t a vm =
    (config : Fields) × (a.config vm.template_vm_id ≡ some config) × AllMeasured t config

bytes_for-add_size :
    (name k : String) (size : ℕ) (d : Sizes)
    → bytes_for name (add_size k size d) ≡ (if k == name then size else 0) + bytes_for name d
unfolding add_size
bytes_for-add_size name k size [] = refl
bytes_for-add_size name k size ((j, old) ∷ rest) =
    ground (arith, bytes_for-add_size name k size rest)

grown-wanted_bytes :
    (vm : PlannedVm) (device : String) (size : ℕ)
    → (grown vm device size).0 ≡ wanted_bytes vm device size
unfolding grown
grown-wanted_bytes vm device size = elim (Option-cases vm.disk_gb) [
  | inl e ↦ ground arith
  | inr (g, e) ↦ ground arith
]

module _ (t : Texts) (vm : PlannedVm) where
  bytes_for-add_volume :
      (name device : String) (pool : Option String) (size : Option ℕ) (r : Requirements)
      → bytes_for name (add_volume vm device pool size r).sizes
        ≡ volume_bytes name vm device pool size + bytes_for name r.sizes
  unfolding add_volume
  bytes_for-add_volume name device none size r = ground arith
  bytes_for-add_volume name device (some pool) none r = ground arith
  bytes_for-add_volume name device (some pool) (some size) r = ground (
    arith,
    bytes_for-add_size name (or_pool pool vm.storage) (grown vm device size).0 r.sizes,
    grown-wanted_bytes vm device size,
  )

  bytes_for-add_device :
      (name device : String) (v : Json) (r : Requirements)
      → bytes_for name (add_device t vm device v r).sizes
        ≡ disk_bytes t name vm device v + bytes_for name r.sizes
  unfolding add_device
  bytes_for-add_device name device (Json.string text) r = ground (
    arith,
    bytes_for-add_volume name device (t.pool (first_of (t.split text)))
        (declared_size t (t.split text)) r,
  )
  bytes_for-add_device name device Json.null r = ground arith
  bytes_for-add_device name device (Json.boolean b) r = ground arith
  bytes_for-add_device name device (Json.number n) r = ground arith
  bytes_for-add_device name device (Json.float s) r = ground arith
  bytes_for-add_device name device (Json.array items) r = ground arith
  bytes_for-add_device name device (Json.object fields) r = ground arith

  bytes_for-add_devices :
      (name : String) (config : Fields) (r : Requirements)
      → bytes_for name (add_devices t vm config r).sizes
        ≡ needs_of t name vm (some config) + bytes_for name r.sizes
  unfolding add_devices needs_of
  bytes_for-add_devices name Fields.end r = ground arith
  bytes_for-add_devices name (Fields.field device v rest) r = ground (
    arith,
    bytes_for-add_devices name rest (add_device t vm device v r),
    bytes_for-add_device name device v r,
  )

  pub bytes_for-template_requirements :
      (name : String) (config : Fields)
      → bytes_for name (template_requirements t vm config).0 ≡ needs_of t name vm (some config)
  unfolding template_requirements
  bytes_for-template_requirements name config = ground (
    arith,
    bytes_for-add_devices name config (record {
      sizes = [];
      unknown_disk = false;
      found_disk = false;
      resized = is_none vm.disk_gb;
    }),
  )

  measured_volume :
      (device text : String) (pool : Option String) (size : Option ℕ) (r : Requirements)
      → t.pool (first_of (t.split text)) ≡ pool
      → declared_size t (t.split text) ≡ size
      → (add_volume vm device pool size r).unknown_disk ≡ false
      → (r.unknown_disk ≡ false)
        × ((p : String) × (n : ℕ) × (t.pool (first_of (t.split text)) ≡ some p)
            × (declared_size t (t.split text) ≡ some n))
  unfolding add_volume
  measured_volume device text none size r e f h = absurd (ground arith)
  measured_volume device text (some p) none r e f h = absurd (ground arith)
  measured_volume device text (some p) (some n) r e f h = (ground arith, (p, n, e, f))

  device-IsMeasured :
      (device : String) (v : Json) (r : Requirements)
      → (add_device t vm device v r).unknown_disk ≡ false
      → (r.unknown_disk ≡ false) × IsMeasured t device v
  unfolding add_device
  device-IsMeasured device (Json.string text) r h = elim (Bool-cases (t.is_disk device)) [
    | inr no_disk ↦ (ground arith, λ e. absurd (ground arith))
    | inl disk ↦ elim (Bool-cases (is_cdrom t (t.split text))) [
      | inl cd ↦ (ground arith, λ _. (text, refl, inl cd))
      | inr no_cd ↦
          let (quiet, known) =
            measured_volume device text (t.pool (first_of (t.split text)))
              (declared_size t (t.split text)) r refl refl (ground arith) in
          (quiet, λ _. (text, refl, inr known))
    ]
  ]
  device-IsMeasured device Json.null r h = (ground arith, λ e. absurd (ground arith))
  device-IsMeasured device (Json.boolean b) r h = (ground arith, λ e. absurd (ground arith))
  device-IsMeasured device (Json.number n) r h = (ground arith, λ e. absurd (ground arith))
  device-IsMeasured device (Json.float s) r h = (ground arith, λ e. absurd (ground arith))
  device-IsMeasured device (Json.array items) r h = (ground arith, λ e. absurd (ground arith))
  device-IsMeasured device (Json.object fields) r h = (ground arith, λ e. absurd (ground arith))

  devices-AllMeasured :
      (config : Fields) (r : Requirements)
      → (add_devices t vm config r).unknown_disk ≡ false
      → (r.unknown_disk ≡ false) × AllMeasured t config
  unfolding add_devices
  devices-AllMeasured Fields.end r h = (h, tt)
  devices-AllMeasured (Fields.field device v rest) r h =
      let (later, measured) = devices-AllMeasured rest (add_device t vm device v r) h in
      let (quiet, first) = device-IsMeasured device v r later in (quiet, (first, measured))

  template_requirements-AllMeasured :
      (config : Fields) → (template_requirements t vm config).1 ≡ false → AllMeasured t config
  unfolding template_requirements
  template_requirements-AllMeasured config h =
      (devices-AllMeasured config
        (record {
          sizes = [];
          unknown_disk = false;
          found_disk = false;
          resized = is_none vm.disk_gb;
        })
        (ground arith)).1

  add_vm-IsKnown :
      (config : Option Fields) (s : Totals)
      → (add_vm t vm config s).unknown_disk ≡ false
      → (s.unknown_disk ≡ false)
        × ((fields : Fields) × (config ≡ some fields) × AllMeasured t fields)
  unfolding add_vm
  add_vm-IsKnown none s h = absurd (ground arith)
  add_vm-IsKnown (some config) s h =
      (ground arith, (config, refl, template_requirements-AllMeasured config (ground arith)))

pub add_vms-IsKnown :
    (t : Texts) (a : Answers) (vms : List PlannedVm) (s : Totals)
    → (add_vms t a vms s).unknown_disk ≡ false
    → (s.unknown_disk ≡ false) × All (IsKnown t a) vms
unfolding add_vms
add_vms-IsKnown t a [] s h = (h, tt)
add_vms-IsKnown t a (vm ∷ vms) s h =
    let config = a.config vm.template_vm_id in
    let (later, rest) = add_vms-IsKnown t a vms (add_vm t vm config s) h in
    let (quiet, first) = add_vm-IsKnown t vm config s later in (quiet, (first, rest))
