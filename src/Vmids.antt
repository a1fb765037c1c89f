-- ===== src/Vmids.antt =====
-- core/vmid_guard.py and the VMID scan of core/allocation.py. A VMID is a number from 0; a negative
-- one is in no range and below every start.
pub mod Guard
pub mod Scan
mod Examples
use range42_backend_api.Prelude.{
  ℕ, zero, suc, ◌+◌, ◌-◌, Bool, true, false, not, ◌&&◌, ◌||◌, Option, none, some, List, [], ◌∷◌,
  ◌++◌, ltb, leb, any, contains, length, if◌then◌else◌, nat_eq, Eq,
}
use range42_backend_api.Prelude.Result.{Result, ok, raise, error}

abbrev pub Range : Type 0
Range = ℕ × ℕ

-- `lo <= v <= hi`
abbrev pub within : ℕ → Range → Bool
within v (lo, hi) = leb lo v && leb v hi

-- `DEFAULT_PROTECTED_RANGES`
unfoldable pub default_protected_ranges : List Range
default_protected_ranges =
    (100, 101) ∷ (1000, 1023) ∷ (1111, 1111) ∷ (4000, 4004) ∷ (9000, 9999) ∷ []

-- The pairs among the overrides. An entry of another length is passed over.
pairs : List (List ℕ) → List Range
pairs [] = []
pairs ((lo ∷ hi ∷ []) ∷ rest) = (lo, hi) ∷ pairs rest
pairs (other ∷ rest) = pairs rest

unfoldable pub effective_ranges : Option (List (List ℕ)) → List Range
unfolding pairs
effective_ranges none = default_protected_ranges
effective_ranges (some overrides) = default_protected_ranges ++ pairs overrides

-- `VmidProtectedError`, as the error envelope reports it
unfoldable pub assert_outside : ℕ → List Range → Result (Unit {0})
assert_outside v [] = ok tt
assert_outside v (r ∷ rest) =
    if within v r then raise (error 409 "VMID_PROTECTED") else assert_outside v rest

unfoldable pub assert_vmid_safe : ℕ → Option (List (List ℕ)) → Result (Unit {0})
unfolding assert_outside
assert_vmid_safe vmid host_overrides = assert_outside vmid (effective_ranges host_overrides)

-- The `try`: a VMID that is refused goes to the second list.
sort_vmid : Result (Unit {0}) → ℕ → List ℕ × List ℕ → List ℕ × List ℕ
sort_vmid (ok _) v (safe, blocked) = (v ∷ safe, blocked)
sort_vmid (raise _) v (safe, blocked) = (safe, v ∷ blocked)

unfoldable pub filter_safe_vmids : List ℕ → Option (List (List ℕ)) → List ℕ × List ℕ
unfolding sort_vmid
filter_safe_vmids [] host_overrides = ([], [])
filter_safe_vmids (v ∷ vmids) host_overrides =
    sort_vmid (assert_vmid_safe v host_overrides) v (filter_safe_vmids vmids host_overrides)

-- `_is_protected`: the overrides of a host, as pairs
unfoldable pub is_protected : ℕ → List Range → Bool
is_protected v host_overrides =
    any (within v) default_protected_ranges || any (within v) host_overrides

-- The limit of the scan.
abbrev pub scan_end : ℕ
scan_end = 100000

abbrev pub allocatable : List ℕ → List Range → ℕ → Bool
allocatable reserved host_overrides v =
    not (contains reserved v) && not (is_protected v host_overrides)

-- The `while` loop from `v`, with `left` values below the limit and `need` still to find.
scan : (ℕ → Bool) → ℕ → ℕ → ℕ → List ℕ
scan free zero v need = []
scan free (suc left) v zero = []
scan free (suc left) v (suc need) =
    let rest = scan free left (v + 1) (if free v then need else suc need) in
    if free v then v ∷ rest else rest

unfoldable pub allocate_vmids : ℕ → ℕ → List ℕ → List Range → Option (List ℕ)
unfolding scan
allocate_vmids start count reserved host_overrides =
    let out = scan (allocatable reserved host_overrides) (scan_end - start) start count in
    if ltb (length out) count then none else some out
