-- ===== src/Allocations/Leases/Release.antt =====
-- Only the owner of a draft reads it or gives it back.
use range42_backend_api.Prelude.{
  ℕ, String, ◌≡◌, ◌∙◌, refl, sym, ap, ◌<◌, Bool, true, false, ◌&&◌, Option, none, some, ◌==◌,
  string_eq, if◌then◌else◌, arith,
}
use range42_backend_api.Prelude.Table.{get-delete, key-get}
use range42_backend_api.Prelude.Result.{ok, >>=-eq-ok, raise_if-eq-ok}
use range42_backend_api.Allocations.{
  AllocationReservation, Ledger, Codec, reservation?, token_digest, ownership,
}
use range42_backend_api.Allocations.Leases.{released, owned, get_or_release}

-- What an answer says: the caller knows the token of the draft and names its host; a release
-- removes this draft alone, and a read returns it unexpired and changes nothing.
pub record Answered (x : Codec) (now : ℕ) (l : Ledger) (host_id reservation_id token : String)
    (release : Bool) (answer : Option AllocationReservation) (l' : Ledger) : Type 0 where
  pub row : AllocationReservation
  pub stored : reservation? l reservation_id ≡ some row
  pub authorised : token_digest x token ≡ ok row.token_hash
  pub on_host : row.host_id ≡ host_id
  pub same_claims : l'.claims ≡ l.claims
  pub result : answer ≡ (if release then none else some row)
  pub unexpired : release ≡ false → now < row.expires_at
  pub others :
      (k : String)
      → reservation? l' k ≡ (if release && reservation_id == k then none else reservation? l k)

ownership-eq-ok :
    (row : AllocationReservation) (token_hash host_id : String)
    → ownership row token_hash host_id ≡ ok tt
    → (row.token_hash ≡ token_hash) × (row.host_id ≡ host_id)
unfolding ownership
ownership-eq-ok row token_hash host_id h = ground (arith, raise_if-eq-ok _ _ h)

module _ (x : Codec) (now : ℕ) (l : Ledger) (host_id reservation_id token : String) where
  released-Answered :
      (release : Bool) (answer : Option AllocationReservation) (l' : Ledger)
      (row : AllocationReservation)
      → reservation? l reservation_id ≡ some row
      → token_digest x token ≡ ok row.token_hash
      → row.host_id ≡ host_id
      → released now l release row ≡ ok (answer, l')
      → Answered x now l host_id reservation_id token release answer l'
  unfolding released
  released-Answered true answer l' row e a b h =
      let same =
        key-get (λ (r : AllocationReservation). r.id) reservation_id l.reservations row e in
      record {
        row = row;
        stored = e;
        authorised = a;
        on_host = b;
        same_claims = ground arith;
        result = ground arith;
        unexpired = λ p. absurd (ground arith);
        others = λ k.
            ground
              (arith, get-delete (λ (r : AllocationReservation). r.id) row.id k l.reservations);
      }
  released-Answered false answer l' row e a b h = record {
    row = row;
    stored = e;
    authorised = a;
    on_host = b;
    same_claims = ground arith;
    result = ground arith;
    unexpired = λ p. ground arith;
    others = λ k. ground arith;
  }

  owned-Answered :
      (token_hash : String) (release : Bool) (answer : Option AllocationReservation) (l' : Ledger)
      (r : Option AllocationReservation)
      → reservation? l reservation_id ≡ r
      → token_digest x token ≡ ok token_hash
      → owned now l token_hash host_id release r ≡ ok (answer, l')
      → Answered x now l host_id reservation_id token release answer l'
  unfolding owned
  owned-Answered token_hash release answer l' none e d h = absurd (ground arith)
  owned-Answered token_hash release answer l' (some row) e d h =
      let (_, own, h₁) = >>=-eq-ok (ownership row token_hash host_id) _ h in
      let (same, here) = ownership-eq-ok row token_hash host_id own in
      released-Answered release answer l' row e (d ∙ ap ok (sym same)) here h₁

  -- A draft is read or given back only with its token and its host: a release removes this draft
  -- alone, and a read returns it before it expires and changes nothing.
  pub get_or_release-Answered :
      (release : Bool) (answer : Option AllocationReservation) (l' : Ledger)
      → get_or_release x now l host_id reservation_id token release ≡ ok (answer, l')
      → Answered x now l host_id reservation_id token release answer l'
  unfolding get_or_release
  get_or_release-Answered release answer l' h =
      let (token_hash, d, h₁) =
        >>=-eq-ok (token_digest x token)
          (λ y. owned now l y host_id release (reservation? l reservation_id)) h in
      owned-Answered token_hash release answer l' (reservation? l reservation_id) refl d h₁
