-- ===== src/Capacity/Enough.antt =====
-- A plan that is not blocked fits, as far as the report can tell.
use range42_backend_api.Prelude.{
  ℕ, All, ◌+◌, ◌≤◌, ◌≡◌, ◌≢◌, refl, inl, inr, String, Bool, true, false, not, Option, none, some,
  List, [], ◌∷◌, ◌++◌, ltb, any, any-append, contains, ◌∙◌, arith, nat_eq, string_eq, option_eq,
  Bool-cases, Option-cases, ◌==◌, if◌then◌else◌,
}
use mathlib.Core.Path.{subst}
use range42_backend_api.Json.{Fields}
use range42_backend_api.Capacity.{Samples, HostCapacity, is_empty}
use range42_backend_api.Capacity.Needs.{
  bytes_for, needs_of, demand, IsKnown, bytes_for-template_requirements, add_vms-IsKnown,
}
use range42_backend_api.Capacity.Plans.{
  Texts, PlannedVm, Sizes, size_at, add_size, template_requirements,
}
use range42_backend_api.Capacity.Admission.{
  Answers, may_allocate, Totals, add_sizes, add_vm, add_vms, nothing_needed, estimate_checks,
  cpu_check, load_checks, selected_pools, union, pool_of, usable_space, space_check, pool_checks,
  all_pool_checks, further_checks, check_plan_capacity,
}
use range42_backend_api.Capacity.Checks.{Verdict, PreflightCheck, is_block, report_result}
use range42_backend_api.Capacity.Space.{Fits, make-Fits}

abbrev pub blocks_any : List PreflightCheck → Bool
blocks_any checks = any (λ c. is_block c.result) checks

not_blocked :
    (checks : List PreflightCheck)
    → report_result checks ≢ Verdict.blocks
    → blocks_any checks ≡ false
unfolding report_result
not_blocked checks h = ground arith

size_at-add_size :
    (name k : String) (size : ℕ) (d : Sizes)
    → size_at name (add_size k size d)
      ≡ (if k == name then size_at name d + size else size_at name d)
unfolding size_at add_size
size_at-add_size name k size [] = ground arith
size_at-add_size name k size ((j, old) ∷ rest) = ground (arith, size_at-add_size name k size rest)

size_at-nothing : (name : String) → size_at name [] ≡ 0
unfolding size_at
size_at-nothing name = refl

size_at-add_sizes :
    (name : String) (xs d : Sizes)
    → size_at name (add_sizes xs d) ≡ bytes_for name xs + size_at name d
unfolding add_sizes
size_at-add_sizes name [] d = ground arith
size_at-add_sizes name ((k, size) ∷ rest) d =
    ground (arith, size_at-add_sizes name rest (add_size k size d), size_at-add_size name k size d)

module _ (t : Texts) (a : Answers) (name : String) where
  size_at-add_vm :
      (vm : PlannedVm) (config : Option Fields) (s : Totals)
      → size_at name (add_vm t vm config s).disks ≡ needs_of t name vm config + size_at name s.disks
  unfolding add_vm needs_of
  size_at-add_vm vm none s = ground arith
  size_at-add_vm vm (some config) s = ground (
    arith,
    size_at-add_sizes name (template_requirements t vm config).0 s.disks,
    bytes_for-template_requirements t vm name config,
  )

  -- The totals are the sums.
  pub size_at-add_vms :
      (vms : List PlannedVm) (s : Totals)
      → size_at name (add_vms t a vms s).disks ≡ demand t a name vms + size_at name s.disks
  unfolding add_vms
  size_at-add_vms [] s = ground arith
  size_at-add_vms (vm ∷ vms) s =
      let config = a.config vm.template_vm_id in
      ground (arith, size_at-add_vms vms (add_vm t vm config s), size_at-add_vm vm config s)

space_check-fits :
    (t : Texts) (name : String) (required free : ℕ) (total : Option ℕ)
    → is_block (space_check t true name required free total).result ≡ false
    → required ≤ free
unfolding space_check
space_check-fits t name required free total h = ground arith

module _ (t : Texts) (a : Answers) (capacity : HostCapacity) (selected : List String)
    (s : Totals) where
  pool_checks-Fits :
      (name : String)
      → contains selected name ≡ true
      → s.unknown_disk ≡ false
      → blocks_any (pool_checks t a capacity selected s name) ≡ false
      → Fits a capacity name (size_at name s.disks)
  unfolding pool_checks
  pool_checks-Fits name chosen known h =
      elim (Option-cases (usable_space (pool_of name capacity.storage))) [
        | inl e ↦ absurd (ground arith)
        | inr (space, e) ↦ elim (Bool-cases (may_allocate a name)) [
          | inr no_ ↦ absurd (ground arith)
          | inl yes_ ↦
              make-Fits a capacity name (size_at name s.disks) space.0 space.1 e yes_
                (space_check-fits t name (size_at name s.disks) space.0 space.1 (ground arith))
        ]
      ]

  all_pool_checks-quiet :
      (names : List String) (name : String)
      → contains names name ≡ true
      → blocks_any (all_pool_checks t a capacity selected s names) ≡ false
      → blocks_any (pool_checks t a capacity selected s name) ≡ false
  unfolding all_pool_checks
  all_pool_checks-quiet [] name among h = absurd (ground arith)
  all_pool_checks-quiet (n ∷ names) name among h = ground (
    arith,
    any-append (λ c. is_block c.result) (pool_checks t a capacity selected s n)
        (all_pool_checks t a capacity selected s names),
    all_pool_checks-quiet names name,
  )

contains-union :
    (sizes : Sizes) (selected : List String) (name : String)
    → contains selected name ≡ true
    → contains (union sizes selected) name ≡ true
unfolding union
contains-union [] selected name h = h
contains-union ((k, _) ∷ rest) selected name h = ground (arith, contains-union rest selected name h)

estimate-known :
    (unknown_disk : Bool) (selected : List String) (name : String)
    → contains selected name ≡ true
    → blocks_any (estimate_checks unknown_disk (not (is_empty selected))) ≡ false
    → unknown_disk ≡ false
estimate-known unknown_disk [] name among h = absurd (ground arith)
estimate-known unknown_disk (n ∷ selected) name among h = ground arith

contains-selected_pools :
    (before after : List PlannedVm) (vm : PlannedVm) (name : String)
    → vm.storage ≡ some name
    → name ≢ ""
    → contains (selected_pools (before ++ vm ∷ after)) name ≡ true
unfolding selected_pools
contains-selected_pools [] after vm name e differ =
    elim (Bool-cases (contains (selected_pools after) name)) [
      | inl p ↦ ground arith
      | inr p ↦ ground arith
    ]
contains-selected_pools (v ∷ before) after vm name e differ =
    let later = contains-selected_pools before after vm name e differ in
    elim (Option-cases v.storage) [
      | inl n ↦ ground (arith, later)
      | inr (k, q) ↦ ground (arith, later)
    ]

module _ (x : Samples) (t : Texts) (a : Answers) (capacity : HostCapacity)
    (vms : List PlannedVm) where
  abbrev totals : Totals
  totals = add_vms t a vms nothing_needed

  further-Fits :
      (name : String)
      → contains (selected_pools vms) name ≡ true
      → contains (t.sorted (union totals.disks (selected_pools vms))) name ≡ true
      → blocks_any (further_checks x t a capacity vms) ≡ false
      → (totals.unknown_disk ≡ false) × Fits a capacity name (demand t a name vms)
  unfolding further_checks
  further-Fits name chosen sorted h =
      let selected = selected_pools vms in
      let first = totals.checks ++ (cpu_check totals capacity.cpu ∷ load_checks x capacity.cpu) in
      let estimate = estimate_checks totals.unknown_disk (not (is_empty selected)) in
      let names = t.sorted (union totals.disks selected) in
      let pools = all_pool_checks t a capacity selected totals names in
      let quiet : (blocks_any estimate ≡ false) × (blocks_any pools ≡ false) = ground (
        arith,
        any-append (λ c. is_block c.result) (first ++ estimate) pools,
        any-append (λ c. is_block c.result) first estimate,
      ) in
      let known = estimate-known totals.unknown_disk selected name chosen quiet.0 in
      let fits =
        pool_checks-Fits t a capacity selected totals name chosen known
          (all_pool_checks-quiet t a capacity selected totals names name sorted quiet.1) in
      let same : size_at name totals.disks ≡ demand t a name vms =
        ground (arith, size_at-add_vms t a name vms nothing_needed, size_at-nothing name) in
      (known, subst (Fits a capacity name) same fits)

  chosen-Fits :
      (required_memory : ℕ) (name : String)
      → ((names : List String) → contains (t.sorted names) name ≡ contains names name)
      → report_result (check_plan_capacity x t a capacity vms required_memory) ≢ Verdict.blocks
      → contains (selected_pools vms) name ≡ true
      → ((free : ℕ) × (capacity.memory.free_bytes ≡ some free) × (required_memory ≤ free))
        × ((add_vms t a vms nothing_needed).unknown_disk ≡ false)
        × Fits a capacity name (demand t a name vms)
  unfolding check_plan_capacity
  chosen-Fits required_memory name keeps open_ chosen =
      let quiet = not_blocked (check_plan_capacity x t a capacity vms required_memory) open_ in
      elim (Option-cases capacity.memory.free_bytes) [
        | inl e ↦ absurd (ground arith)
        | inr (free, e) ↦ elim (Bool-cases (ltb free required_memory)) [
          | inl short ↦ absurd (ground arith)
          | inr enough ↦
              let (known, fits) =
                further-Fits name chosen
                  (keeps (union totals.disks (selected_pools vms))
                    ∙ contains-union totals.disks (selected_pools vms) name chosen)
                  (ground arith) in
              ((free, e, ground arith), known, fits)
        ]
      ]

-- If sorting keeps the names and the report on a plan is not `block`, then the free memory is known
-- and covers what the plan requires; the template of every VM is readable and every disk in it,
-- CD drives aside, has a pool and a size; and a pool that some VM of the plan selects is in the
-- report, active, enabled and able to hold images, the token has a privilege to allocate on it, and
-- its free bytes cover the sum of what the disks of all VMs need there.
pub check_plan_capacity-Fits :
    (x : Samples) (t : Texts) (a : Answers) (capacity : HostCapacity)
    (before after : List PlannedVm) (vm : PlannedVm) (required_memory : ℕ) (name : String)
    → ((names : List String) → contains (t.sorted names) name ≡ contains names name)
    → report_result (check_plan_capacity x t a capacity (before ++ vm ∷ after) required_memory)
      ≢ Verdict.blocks
    → vm.storage ≡ some name
    → name ≢ ""
    → ((free : ℕ) × (capacity.memory.free_bytes ≡ some free) × (required_memory ≤ free))
      × All (IsKnown t a) (before ++ vm ∷ after)
      × Fits a capacity name (demand t a name (before ++ vm ∷ after))
check_plan_capacity-Fits x t a capacity before after vm required_memory name keeps open_ e differ =
    let vms = before ++ vm ∷ after in
    let (memory, known, fits) =
      chosen-Fits x t a capacity vms required_memory name keeps open_
        (contains-selected_pools before after vm name e differ) in
    (memory, (add_vms-IsKnown t a vms nothing_needed known).1, fits)
