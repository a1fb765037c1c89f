-- ===== src/Allocations/Reserving/Rounds.antt =====
-- The loop of `reserve` ends, and saves only what a round has planned and earlier ones have probed.
use range42_backend_api.Prelude.{
  ℕ, zero, suc, ◌+◌, ◌≡◌, ◌≤◌, ◌<◌, refl, inl, inr, String, Bool, true, Option, some, List, [], ◌∷◌,
  length, ltb, contains, All, ◌∙◌, arith, nat_eq, string_eq, Bool-cases,
}
use range42_backend_api.Prelude.Result.{Result, ok, raise, Result-cases}
use range42_backend_api.Allocations.{
  AllocationReservation, TargetHost, Ledger, Codec, refuse, token_digest,
}
use range42_backend_api.Allocations.Request.{AllocationRequest, Ipv4}
use range42_backend_api.Allocations.Planning.{Occupancy}
use range42_backend_api.Allocations.Reserving.{
  Round, Outcome, max_probes, transact, probe, rounds, reserve, merged, first_owner,
}

-- To split on the answer of a transaction.
data Ended (r : Result Outcome) : Type 0 where
  raised : (e : _) → r ≡ raise e → Ended r
  saved :
      (row : AllocationReservation) (after : Ledger) → r ≡ ok (Outcome.saved row after) → Ended r
  probing : (v : ℕ) (vs : List ℕ) → r ≡ ok (Outcome.probing v vs) → Ended r

ended : (r : Result Outcome) → Ended r
ended (raise e) = Ended.raised e refl
ended (ok (Outcome.saved row after)) = Ended.saved row after refl
ended (ok (Outcome.probing v vs)) = Ended.probing v vs refl

module _ (codec : Codec) (x : Ipv4) (payload : AllocationRequest) (host : TargetHost)
    (token_hash : String) (checked_at : ℕ) (env : ℕ → Round) where
  abbrev Answers : Option (Result (AllocationReservation × Ledger)) → Type 0
  Answers o = (r : Result (AllocationReservation × Ledger)) × (o ≡ some r)

  rounds-answers :
      (fuel i probes : ℕ) (checked_free : List ℕ) (occupancy : Occupancy)
      → probes ≤ max_probes
      → max_probes < fuel + probes
      → Answers (
          rounds codec x payload host token_hash checked_at fuel env i probes checked_free
            occupancy)
  unfolding rounds
  rounds-answers zero i probes checked_free occupancy low enough = absurd (omega arith)
  rounds-answers (suc fuel) i probes checked_free occupancy low enough =
      elim (ended
        (transact codec x payload host token_hash checked_at occupancy checked_free (env i))) [
          | Ended.raised e h ↦ (raise e, ground arith)
          | Ended.saved row after h ↦ (ok (row, after), ground arith)
          | Ended.probing v vs h ↦ elim (Bool-cases (ltb max_probes (probes + length (v ∷ vs)))) [
            | inl many ↦ (refuse "ALLOCATION_POOL_EXHAUSTED", ground arith)
            | inr few ↦
                let probed =
                  probe codec x payload host token_hash checked_at (env i).vmid_is_free (v ∷ vs)
                    checked_free occupancy in
                let (r, same) =
                  rounds-answers fuel (i + 1) (probes + length (v ∷ vs)) probed.0 probed.1
                    (ground arith) (ground arith) in
                (r, ground arith)
          ]
        ]

  -- A probe has answered that the VMID is free.
  abbrev pub IsProbed : ℕ → Type 0
  IsProbed v = (k : ℕ) × ((env k).vmid_is_free v ≡ true)

  probe-IsProbed :
      (k : ℕ) (vs checked_free : List ℕ) (occupancy : Occupancy)
      → All IsProbed checked_free
      → All IsProbed
          (probe codec x payload host token_hash checked_at
            (env k).vmid_is_free
            vs
            checked_free
            occupancy).0
  unfolding probe
  probe-IsProbed k [] checked_free occupancy h = h
  probe-IsProbed k (v ∷ vs) checked_free occupancy h =
      let later = probe-IsProbed k vs checked_free occupancy h in
      elim (Bool-cases ((env k).vmid_is_free v)) [
        | inl free ↦ rw free ((k, free), later)
        | inr taken ↦ rw taken later
      ]

  -- What the inventory reports stays in what later rounds avoid.
  pub record Covers (start later : Occupancy) : Type 0 where
    pub vmids : (v : ℕ) → contains start.vmids v ≡ true → contains later.vmids v ≡ true
    pub addresses : later.addresses ≡ start.addresses

  probe-Covers :
      (is_free : ℕ → Bool) (vs checked_free : List ℕ) (occupancy : Occupancy)
      → Covers occupancy
          (probe codec x payload host token_hash checked_at is_free vs checked_free occupancy).1
  unfolding probe
  probe-Covers is_free [] checked_free occupancy = record { vmids = λ v h. h; addresses = refl }
  probe-Covers is_free (v ∷ vs) checked_free occupancy =
      let c = probe-Covers is_free vs checked_free occupancy in
      elim (Bool-cases (is_free v)) [
        | inl free ↦ rw free c
        | inr taken ↦
            rw taken
              (record { vmids = λ u h. ground (arith, c.vmids u h); addresses = c.addresses })
      ]

  -- The transaction that has saved.
  pub record Saved (start : Occupancy) (row : AllocationReservation) (after : Ledger) : Type 0 where
    pub i : ℕ
    pub checked_free : List ℕ
    pub occupancy : Occupancy
    pub committed :
        transact codec x payload host token_hash checked_at occupancy checked_free (env i)
        ≡ ok (Outcome.saved row after)
    pub probed : All IsProbed checked_free
    pub covers : Covers start occupancy

  rounds-Saved :
      (start : Occupancy) (row : AllocationReservation) (after : Ledger) (fuel i probes : ℕ)
      (checked_free : List ℕ) (occupancy : Occupancy)
      → All IsProbed checked_free
      → Covers start occupancy
      → rounds codec x payload host token_hash checked_at fuel env i probes checked_free occupancy
        ≡ some (ok (row, after))
      → Saved start row after
  unfolding rounds
  rounds-Saved start row after zero i probes checked_free occupancy h c e = absurd (ground arith)
  rounds-Saved start row after (suc fuel) i probes checked_free occupancy h c e =
      elim (ended
        (transact codec x payload host token_hash checked_at occupancy checked_free (env i))) [
          | Ended.raised _ t ↦ absurd (ground arith)
          | Ended.saved row' after' t ↦ record {
            i = i;
            checked_free = checked_free;
            occupancy = occupancy;
            committed = ground arith;
            probed = h;
            covers = c;
          }
          | Ended.probing v vs t ↦ elim (Bool-cases (ltb max_probes (probes + length (v ∷ vs)))) [
            | inl many ↦ absurd (ground arith)
            | inr few ↦
                let next = probe-Covers (env i).vmid_is_free (v ∷ vs) checked_free occupancy in
                rounds-Saved start row after fuel (i + 1) (probes + length (v ∷ vs)) _ _
                  (probe-IsProbed i (v ∷ vs) checked_free occupancy h)
                  (record {
                    vmids = λ u among. next.vmids u (c.vmids u among);
                    addresses = next.addresses ∙ c.addresses;
                  })
                  (ground arith)
          ]
        ]

-- A reservation always answers: each round that goes on has probed at least one more VMID, and the
-- loop stops at 4096 probes, before the fuel is used up.
pub reserve-answers :
    (codec : Codec) (x : Ipv4) (host : TargetHost) (payload : AllocationRequest) (token : String)
    (reserved : Option Occupancy) (tables : Ledger) (now : ℕ) (inventory : Result Occupancy)
    (checked_at : ℕ) (env : ℕ → Round)
    → (r : Result (AllocationReservation × Ledger)) × (reserve codec x host payload token reserved
          tables now inventory checked_at env
        ≡ some r)
unfolding reserve
reserve-answers codec x host payload token reserved tables now inventory checked_at env =
    elim (Result-cases (token_digest codec token)) [
      | inl (e, h) ↦ (raise e, ground arith)
      | inr (digest, h) ↦ elim (Result-cases (first_owner codec payload host tables now digest)) [
        | inl (e, h₁) ↦ (raise e, ground arith)
        | inr (u, h₁) ↦ elim (Result-cases inventory) [
          | inl (e, h₂) ↦ (raise e, ground arith)
          | inr (occupancy, h₂) ↦
              let (r, same) =
                rounds-answers codec x payload host digest checked_at env (max_probes + 2) 0 0 []
                  (merged reserved occupancy) (omega arith) (omega arith) in
              (r, ground arith)
        ]
      ]
    ]

-- The same for a reservation that has saved a row.
pub reserve-Saved :
    (codec : Codec) (x : Ipv4) (host : TargetHost) (payload : AllocationRequest) (token : String)
    (reserved : Option Occupancy) (tables : Ledger) (now : ℕ) (inventory : Result Occupancy)
    (checked_at : ℕ) (env : ℕ → Round) (row : AllocationReservation) (after : Ledger)
    → reserve codec x host payload token reserved tables now inventory checked_at env
      ≡ some (ok (row, after))
    → (digest : String) × (occupancy : Occupancy) × (token_digest codec token ≡ ok digest)
      × (inventory ≡ ok occupancy)
      × Saved codec x payload host digest checked_at env (merged reserved occupancy) row after
unfolding reserve
reserve-Saved codec x host payload token reserved tables now inventory checked_at env row after e =
    elim (Result-cases (token_digest codec token)) [
      | inl (_, h) ↦ absurd (ground arith)
      | inr (digest, h) ↦ elim (Result-cases (first_owner codec payload host tables now digest)) [
        | inl (_, h₁) ↦ absurd (ground arith)
        | inr (u, h₁) ↦ elim (Result-cases inventory) [
          | inl (_, h₂) ↦ absurd (ground arith)
          | inr (occupancy, h₂) ↦ (
            digest,
            occupancy,
            h,
            h₂,
            rounds-Saved codec x payload host digest checked_at env (merged reserved occupancy) row
                after (max_probes + 2) 0 0 [] (merged reserved occupancy) tt
                (record { vmids = λ v a. a; addresses = refl }) (ground arith),
          )
        ]
      ]
    ]
