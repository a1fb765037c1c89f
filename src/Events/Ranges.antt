-- ===== src/Events/Ranges.antt =====
-- What a reader of a range yields.
use mathlib.Core.Path.{subst}
use range42_backend_api.Prelude.{
  ℕ, ◌≤◌, String, ◌≡◌, inl, inr, false, Option, some, List, [], ◌∷◌, ltb, All, Bool-cases,
  Option-cases, arith,
}
use range42_backend_api.Prelude.Result.{Result, ok, >>=-eq-ok, ◌>>=◌}
use range42_backend_api.Json.{Json, Fields}
use range42_backend_api.Events.{
  File, Text, lines, parsed, seq_of, beyond, read_value, read_lines, read_range,
}

-- An event whose number is in the range.
abbrev pub InRange : ℕ → Option ℕ → Json → Type 0
InRange from_seq to_seq v =
    (n : ℕ) × (seq_of v ≡ some n) × (from_seq ≤ n) × (beyond to_seq n ≡ false)

module _ (from_seq : ℕ) (to_seq : Option ℕ) where
  cons-InRange :
      (fs : Fields) (n : ℕ) (later : Result (List Json)) (vs : List Json)
      → seq_of (Json.object fs) ≡ some n
      → ltb n from_seq ≡ false
      → beyond to_seq n ≡ false
      → ((ws : List Json) → later ≡ ok ws → All (InRange from_seq to_seq) ws)
      → (later >>= λ ws. ok (Json.object fs ∷ ws)) ≡ ok vs
      → All (InRange from_seq to_seq) vs
  cons-InRange fs n later vs e low high ih h =
      let (ws, l, h₁) = >>=-eq-ok later (λ ws. ok (Json.object fs ∷ ws)) h in
      let whole : Json.object fs ∷ ws ≡ vs = ground arith in
      subst (All (InRange from_seq to_seq)) whole ((n, e, ground arith, high), ih ws l)

  read_value-InRange :
      (v : Json) (later : Result (List Json)) (vs : List Json)
      → ((ws : List Json) → later ≡ ok ws → All (InRange from_seq to_seq) ws)
      → read_value from_seq to_seq v later ≡ ok vs
      → All (InRange from_seq to_seq) vs
  unfolding read_value
  read_value-InRange (Json.object fs) later vs ih h =
      elim (Option-cases (seq_of (Json.object fs))) [
        | inl e ↦ ih vs (ground arith)
        | inr (n, e) ↦ elim (Bool-cases (ltb n from_seq)) [
          | inl low ↦ ih vs (ground arith)
          | inr low ↦ elim (Bool-cases (beyond to_seq n)) [
            | inl high ↦ subst (All (InRange from_seq to_seq)) {x = []} (ground arith) tt
            | inr high ↦ cons-InRange fs n later vs e low high ih (ground arith)
          ]
        ]
      ]
  read_value-InRange (Json.array xs) later vs ih h = absurd (ground arith)
  read_value-InRange (Json.string s) later vs ih h = absurd (ground arith)
  read_value-InRange (Json.number n) later vs ih h = absurd (ground arith)
  read_value-InRange (Json.float s) later vs ih h = absurd (ground arith)
  read_value-InRange (Json.boolean b) later vs ih h = absurd (ground arith)
  read_value-InRange Json.null later vs ih h = absurd (ground arith)

  read_lines-InRange :
      (t : Text) (raws : List String) (vs : List Json)
      → read_lines t from_seq to_seq raws ≡ ok vs
      → All (InRange from_seq to_seq) vs
  unfolding read_lines
  read_lines-InRange t [] vs h = subst (All (InRange from_seq to_seq)) {x = []} (ground arith) tt
  read_lines-InRange t (raw ∷ rest) vs h = elim (Option-cases (parsed t raw)) [
    | inl e ↦ read_lines-InRange t rest vs (ground arith)
    | inr (v, e) ↦
        read_value-InRange v (read_lines t from_seq to_seq rest) vs (read_lines-InRange t rest)
          (ground arith)
  ]

-- Every event that a reader of a range yields has a number from the first to the last of the range.
pub read_range-InRange :
    (t : Text) (f : File) (from_seq : ℕ) (to_seq : Option ℕ) (vs : List Json)
    → read_range t f from_seq to_seq ≡ ok vs
    → All (InRange from_seq to_seq) vs
unfolding read_range
read_range-InRange t f from_seq to_seq vs h = read_lines-InRange from_seq to_seq t (lines f) vs h
