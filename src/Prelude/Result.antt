-- ===== src/Prelude/Result.antt =====
-- core/errors.py: `Range42Error`, and the result of code that may raise it. An error keeps its
-- code and its HTTP status; messages and details are texts for people and are left out.
use Prim.Native.Nat.{ℕ}
use Prim.Native.String.{String}
use mathlib.Core.Path.{◌≡◌, refl}
use mathlib.Core.Logic.{◌⊎◌, inl, inr}
use mathlib.Core.Bool.{Bool, true, false}

pub record Range42Error : Type 0 where
  pub status : ℕ
  pub code : String

pub data Result {ℓ} (A : Type ℓ) : Type ℓ where
  raise : (e : Range42Error) → Result A
  ok : (answer : A) → Result A

-- The rest of a function runs on the answer; an error skips it.
infixl 5 ◌>>=◌
abbrev pub ◌>>=◌ {ℓ κ} : {A : Type ℓ} {B : Type κ} → Result A → (A → Result B) → Result B
raise e >>= rest = raise e
ok answer >>= rest = rest answer

-- `if bad: raise error`
abbrev pub raise_if : Bool → Range42Error → Result (Unit {0})
raise_if true e = raise e
raise_if false e = ok tt

infixl 5 ◌>>◌
abbrev pub ◌>>◌ {κ} : {B : Type κ} → Result (Unit {0}) → Result B → Result B
check >> rest = check >>= λ _. rest

abbrev pub error : ℕ → String → Range42Error
error status code = record { status = status; code = code }

-- A function that returns has the answer of its first call.
pub >>=-eq-ok {ℓ κ} :
    {A : Type ℓ} {B : Type κ} (first : Result A) (rest : A → Result B) {b : B}
    → (first >>= rest) ≡ ok b
    → (a : A) × (first ≡ ok a) × (rest a ≡ ok b)
>>=-eq-ok (raise e) rest h = cc
>>=-eq-ok (ok answer) rest h = (answer, refl, h)

pub raise_if-eq-ok : (b : Bool) (e : Range42Error) → raise_if b e ≡ ok tt → b ≡ false
raise_if-eq-ok true e h = cc
raise_if-eq-ok false e h = refl

pub Result-cases {ℓ} :
    {A : Type ℓ} (r : Result A) → ((e : Range42Error) × (r ≡ raise e)) ⊎ ((a : A) × (r ≡ ok a))
Result-cases (raise e) = inl (e, refl)
Result-cases (ok answer) = inr (answer, refl)
