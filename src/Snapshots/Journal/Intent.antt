-- ===== src/Snapshots/Journal/Intent.antt =====
-- The intent to write is durable before the write: a crash at any point leaves a journal that does
-- not disown a native task.
use range42_backend_api.Prelude.{
  ℕ, ◌+◌, ◌≡◌, refl, ap, Bool, true, false, List, [], ◌∷◌, ◌++◌, map, arith, contains, All, nat_eq,
  Bool-cases, Option-cases, inl, inr,
}
use range42_backend_api.Models.{JournalRow, MemberState}
use range42_backend_api.Snapshots.Journal.{
  Effect, commit, native_write, stale, dispatching, accepted, unconfirmed, not_started, Native,
  dispatch_members,
}

-- What the journal says of a member on which no native write was issued.
abbrev pub disowns : MemberState → Bool
disowns MemberState.planned = true
disowns MemberState.not_started = true
disowns _ = false

-- The members of these rows are not among the written ones.
abbrev pub Fresh : List ℕ → List JournalRow → Type 0
Fresh written rows = All (λ r. contains written r.vm_id ≡ false) rows

-- A row that disowns a native write is of a member that was not written.
abbrev pub Honest : List ℕ → List JournalRow → Type 0
Honest written rows = All (λ r. disowns r.state ≡ true → contains written r.vm_id ≡ false) rows

-- The stored journal is honest at every point of the effects: `written` are the members written so
-- far and `stored` is the journal of the last commit.
abbrev pub HonestThroughout : List ℕ → List JournalRow → List Effect → Type 0
HonestThroughout written stored [] = Honest written stored
HonestThroughout written stored (commit rows _ ∷ es) =
    Honest written stored × HonestThroughout written rows es
HonestThroughout written stored (native_write v ∷ es) =
    Honest written stored × HonestThroughout (v ∷ written) stored es

-- No two rows are of one member.
abbrev pub Distinct : List JournalRow → Type 0
Distinct [] = Unit
Distinct (r ∷ rs) = Fresh (r.vm_id ∷ []) rs × Distinct rs

abbrev Owned : List JournalRow → Type 0
Owned rows = All (λ r. disowns r.state ≡ false) rows

Honest-append :
    (w : List ℕ) (xs ys : List JournalRow) → Owned xs → Honest w ys → Honest w (xs ++ ys)
Honest-append w [] ys o h = h
Honest-append w (x ∷ xs) ys o h = (λ d. ground arith, Honest-append w xs ys o.1 h)

Honest-Fresh : (w : List ℕ) (xs : List JournalRow) → Fresh w xs → Honest w xs
Honest-Fresh w [] f = tt
Honest-Fresh w (x ∷ xs) f = (λ _. f.0, Honest-Fresh w xs f.1)

Fresh-cons :
    (v : ℕ) (w : List ℕ) (xs : List JournalRow) → Fresh (v ∷ []) xs → Fresh w xs → Fresh (v ∷ w) xs
Fresh-cons v w [] a b = tt
Fresh-cons v w (x ∷ xs) a b = (ground arith, Fresh-cons v w xs a.1 b.1)

Fresh-map :
    (f : JournalRow → JournalRow) (w : List ℕ) (xs : List JournalRow)
    → ((r : JournalRow) → (f r).vm_id ≡ r.vm_id)
    → Fresh w xs
    → Fresh w (map f xs)
Fresh-map f w [] same h = tt
Fresh-map f w (x ∷ xs) same h = (rw (same x) h.0, Fresh-map f w xs same h.1)

Owned-append :
    (xs : List JournalRow) (r : JournalRow)
    → Owned xs
    → disowns r.state ≡ false
    → Owned (xs ++ r ∷ [])
Owned-append [] r o h = (h, tt)
Owned-append (x ∷ xs) r o h = (o.0, Owned-append xs r o.1 h)

module _ (n : Native) where
  HonestThroughout-dispatch :
      (rows : List JournalRow) (i : ℕ) (before : List JournalRow) (w : List ℕ)
      (stored : List JournalRow)
      → Owned before
      → Fresh w rows
      → Distinct rows
      → Honest w stored
      → HonestThroughout w stored (dispatch_members n i before rows)
  unfolding dispatch_members
  HonestThroughout-dispatch [] i before w stored o f d h = h
  HonestThroughout-dispatch (row ∷ rest) i before w stored o f d h =
      let w' = row.vm_id ∷ w in
      let f' = Fresh-cons row.vm_id w rest d.0 f.1 in
      let at_hand =
        λ (g : JournalRow) (e : disowns g.state ≡ false) (u : List ℕ) (fr : Fresh u rest).
          Honest-append u before (g ∷ rest) o ((λ x. ground arith), Honest-Fresh u rest fr) in
      let first = at_hand (dispatching row) refl w f.1 in
      let second = at_hand (dispatching row) refl w' f' in
      elim (Bool-cases (n.unchanged i)) [
        | inr e ↦ rw e (
          h,
          Honest-append w before (map stale (row ∷ rest)) o (
              Honest-Fresh w (map stale (row ∷ rest))
                (Fresh-map stale w (row ∷ rest) (λ r. refl) f)),
        )
        | inl e ↦ elim (Option-cases (n.task i)) [
          | inl t ↦
              rw (e, t)
                (
                  h,
                  (
                    first,
                    (
                      second,
                      Honest-append w' before (unconfirmed row ∷ map not_started rest) o (
                        (λ x. ground arith),
                        Honest-Fresh w' (map not_started rest)
                            (Fresh-map not_started w' rest (λ r. refl) f'),
                      ),
                    ),
                  ),
                )
          | inr (upid, t) ↦
              rw (e, t)
                (
                  h,
                  (
                    first,
                    (
                      second,
                      HonestThroughout-dispatch rest (i + 1) (before ++ accepted upid row ∷ []) w'
                          (before ++ accepted upid row ∷ rest)
                          (Owned-append before (accepted upid row) o refl) f' d.1
                          (at_hand (accepted upid row) refl w' f'),
                    ),
                  ),
                )
        ]
      ]

  Fresh-nil : (rows : List JournalRow) → Fresh [] rows
  Fresh-nil [] = tt
  Fresh-nil (r ∷ rs) = (refl, Fresh-nil rs)

  -- At every point of the execution of a plan over different members, a member that the stored
  -- journal calls planned or not started has seen no native write.
  pub dispatch_members-honest :
      (rows : List JournalRow)
      → Distinct rows
      → HonestThroughout [] rows (dispatch_members n 0 [] rows)
  dispatch_members-honest rows d =
      HonestThroughout-dispatch rows 0 [] [] rows tt (Fresh-nil rows) d
        (Honest-Fresh [] rows (Fresh-nil rows))

-- The members that are written, in order.
abbrev pub writes : List Effect → List ℕ
writes [] = []
writes (commit _ _ ∷ es) = writes es
writes (native_write v ∷ es) = v ∷ writes es

-- The members that are written are an initial part of the plan's list, in its order.
pub writes-dispatch_members :
    (n : Native) (i : ℕ) (before rows : List JournalRow)
    → (unwritten : List ℕ) × (writes (dispatch_members n i before rows) ++ unwritten
        ≡ map (λ r. r.vm_id) rows)
unfolding dispatch_members
writes-dispatch_members n i before [] = ([], refl)
writes-dispatch_members n i before (row ∷ rest) = elim (Bool-cases (n.unchanged i)) [
  | inr e ↦ (map (λ r. r.vm_id) (row ∷ rest), rw e)
  | inl e ↦ elim (Option-cases (n.task i)) [
    | inl t ↦ (map (λ r. r.vm_id) rest, rw (e, t))
    | inr (upid, t) ↦
        let (unwritten, same) =
          writes-dispatch_members n (i + 1) (before ++ accepted upid row ∷ []) rest in
        (unwritten, rw (e, t) (ap (λ l. row.vm_id ∷ l) same))
  ]
]
