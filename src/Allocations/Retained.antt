-- ===== src/Allocations/Retained.antt =====
-- core/allocation_reservations.py, `_retained_nics`: which stored NIC a requested one continues.
use range42_backend_api.Prelude.{
  ℕ, String, Bool, true, false, not, ◌&&◌, ◌||◌, Option, none, some, List, [], ◌∷◌, any, length,
  map, contains, ◌==◌, ◌!=◌, nat_eq, string_eq, option_eq, if◌then◌else◌,
}
use range42_backend_api.Prelude.Table.{select}
use range42_backend_api.Prelude.Result.{Result, ok, raise, error, raise_if, ◌>>=◌, ◌>>◌}
use range42_backend_api.Allocations.{Nic, refuse}
use range42_backend_api.Allocations.Request.{AllocationNetwork, AllocationNic, AllocationVm}

-- `{k: v for ...}[k]`: a later row replaces an earlier one.
unfoldable pub last_with {ℓ} : {A : Type ℓ} → (A → Bool) → List A → Option A
last_with p [] = none
last_with p (x ∷ xs) = elim (last_with p xs) [
  | some y ↦ some y
  | none ↦ if p x then some x else none
]

unfoldable pub find_network : List AllocationNetwork → String → Result AllocationNetwork
find_network networks network_id = elim (last_with (λ n. n.network_id == network_id) networks) [
  | none ↦ raise (error 500 "INTERNAL")
  | some n ↦ ok n
]

-- The stored keys that are not `None`
unfoldable pub stored_keys : List Nic → List String
stored_keys [] = []
stored_keys (n ∷ rest) = elim n.nic_key [ none ↦ stored_keys rest | some k ↦ k ∷ stored_keys rest ]

abbrev pub has_duplicate : List String → Bool
has_duplicate [] = false
has_duplicate (k ∷ ks) = contains ks k || has_duplicate ks

abbrev pub is_nonempty {ℓ} : {A : Type ℓ} → List A → Bool
is_nonempty [] = false
is_nonempty (_ ∷ _) = true

-- The network of a stored NIC is as requested.
unfoldable pub same_network : Nic → AllocationNetwork → Bool
same_network old network =
    old.network_id == some network.network_id
    && old.bridge == network.bridge
    && old.subnet == some network.subnet

-- What a request continues, by its index. Without an entry there is nothing to continue.
abbrev pub Retained : Type 0
Retained = List (ℕ × Nic)

unfoldable pub retained_at : Retained → ℕ → Option Nic
retained_at r index = elim (last_with (λ e. e.0 == index) r) [ none ↦ none | some e ↦ some e.1 ]

unfoldable pub by_index : List Nic → Retained
by_index previous = map (λ n. (n.index, n)) previous

unfoldable pub by_key : List Nic → List AllocationNic → Retained
by_key previous [] = []
by_key previous (nic ∷ nics) = elim (last_with (λ old. old.nic_key == nic.nic_key) previous) [
  | none ↦ by_key previous nics
  | some old ↦ (nic.index, old) ∷ by_key previous nics
]

-- `explicit`: the stored NIC is named by an address of the request.
unfoldable pub is_explicit : List AllocationNic → Nic → Bool
is_explicit nics old = any (λ n. some n.network_id == old.network_id && n.ip == some old.ip) nics

-- The NICs of the request on this network that have no address
unfoldable pub unresolved : List AllocationNic → String → List AllocationNic
unresolved nics network_id = select (λ n. n.network_id == network_id && n.ip == none) nics

-- One round of the loop over legacy rows, given its candidates.
unfoldable pub continued : ℕ → List AllocationNic → List Nic → Retained → Result Retained
continued index waiting [] later = ok later
continued index waiting (old ∷ others) later =
    if length (old ∷ others) != 1 || length waiting != 1
    then refuse "ALLOCATION_NIC_IDENTITY_REQUIRED"
    else ok ((index, old) ∷ later)

unfoldable pub legacy :
    List AllocationNetwork → List Nic → List AllocationNic → List AllocationNic → Result Retained
unfolding continued is_explicit unresolved
legacy networks previous all_nics [] = ok []
legacy networks previous all_nics (nic ∷ nics) =
    if nic.ip != none then legacy networks previous all_nics nics else do
      network ← find_network networks nic.network_id
      later ← legacy networks previous all_nics nics
      continued nic.index (unresolved all_nics nic.network_id)
          (select (λ old. not (is_explicit all_nics old) && same_network old network) previous)
          later

unfoldable pub with_keys :
    List AllocationNetwork → List Nic → List AllocationNic → Bool → Option String → Result Retained
with_keys networks previous nics keyed none =
    if keyed then refuse "ALLOCATION_NIC_IDENTITY_REQUIRED" else ok (by_index previous)
with_keys networks previous nics keyed (some _) =
    if keyed then ok (by_key previous nics) else legacy networks previous nics nics

unfoldable pub first_key : List AllocationNic → Result (Option String)
first_key [] = raise (error 500 "INTERNAL")
first_key (nic ∷ _) = ok nic.nic_key

unfoldable pub retained_nics : AllocationVm → List Nic → List AllocationNetwork → Result Retained
retained_nics vm previous networks =
    let keys = stored_keys previous in
    if not (is_nonempty previous) then ok [] else do
      raise_if (is_nonempty keys && (length keys != length previous || has_duplicate keys))
          (error 409 "ALLOCATION_NIC_IDENTITY_REQUIRED")
      key ← first_key vm.nics
      with_keys networks previous vm.nics (is_nonempty keys) key
