-- ===== src/Allocations/Overlaps.antt =====
-- `overlaps` does not depend on the order of the two lists, and a table scan covers its rows.
use range42_backend_api.Prelude.{
  String, ◌≡◌, refl, sym, ◌∙◌, ap, Bool, false, ◌||◌, some, List, [], ◌∷◌, any, string_eq, nat_eq,
  arith,
}
use range42_backend_api.Prelude.Table.{get}
use range42_backend_api.Allocations.{
  Nic, Assignment, same_address, same_vmid, share_address, overlaps,
}

any-or {ℓ} :
    {A : Type ℓ} (p q : A → Bool) (xs : List A) → any (λ x. p x || q x) xs ≡ (any p xs || any q xs)
any-or p q [] = refl
any-or p q (x ∷ xs) = ground (arith, any-or p q xs)

any-false {ℓ} : {A : Type ℓ} (xs : List A) → any (λ x. false) xs ≡ false
any-false [] = refl
any-false (x ∷ xs) = any-false xs

any-any {ℓ κ} :
    {A : Type ℓ} {B : Type κ} (r : A → B → Bool) (xs : List A) (ys : List B)
    → any (λ x. any (r x) ys) xs ≡ any (λ y. any (λ x. r x y) xs) ys
any-any r [] ys = sym (any-false ys)
any-any r (x ∷ xs) ys =
    ap (λ b. any (r x) ys || b) (any-any r xs ys) ∙ sym (any-or (r x) (λ y. any (λ x. r x y) xs) ys)

any-cong {ℓ} :
    {A : Type ℓ} (p q : A → Bool) → ((x : A) → p x ≡ q x) → (xs : List A) → any p xs ≡ any q xs
any-cong p q e [] = refl
any-cong p q e (x ∷ xs) = ground (arith, e x, any-cong p q e xs)

any_comm {ℓ} :
    {A : Type ℓ} (r : A → A → Bool)
    → ((x y : A) → r x y ≡ r y x)
    → (xs ys : List A) → any (λ x. any (r x) ys) xs ≡ any (λ y. any (r y) xs) ys
any_comm r e xs ys =
    any-any r xs ys
    ∙ any-cong (λ y. any (λ x. r x y) xs) (λ y. any (r y) xs)
        (λ y. any-cong (λ x. r x y) (r y) (λ x. e x y) xs) ys

same_vmid_comm : (a b : Assignment) → same_vmid a b ≡ same_vmid b a
unfolding same_vmid
same_vmid_comm a b = ground arith

same_address_comm : (a b : Nic) → same_address a b ≡ same_address b a
unfolding same_address
same_address_comm a b = ground arith

share_address_comm : (a b : Assignment) → share_address a b ≡ share_address b a
unfolding share_address
share_address_comm a b = any_comm same_address same_address_comm a.nics b.nics

pub overlaps_comm : (xs ys : List Assignment) → overlaps xs ys ≡ overlaps ys xs
unfolding overlaps
overlaps_comm xs ys = ground (
  arith,
  any_comm same_vmid same_vmid_comm xs ys,
  any_comm share_address share_address_comm xs ys,
)

-- A row of a table of which no row satisfies a condition does not satisfy it.
pub any-get :
    {A : Type 0} (key : A → String) (p : A → Bool) (k : String) (xs : List A) (x : A)
    → any p xs ≡ false
    → get key k xs ≡ some x
    → p x ≡ false
unfolding get
any-get key p k [] x h e = absurd (ground arith)
any-get key p k (y ∷ ys) x h e = ground (arith, any-get key p k ys x)
