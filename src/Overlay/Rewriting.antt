-- ===== src/Overlay/Rewriting.antt =====
-- Two stores of secrets ask for the same rewrites, and what the walk of a field makes.
use range42_backend_api.Prelude.{
  String, ◌≡◌, refl, inl, inr, Option, some, List, [], ◌∷◌, ◌++◌, string_eq, contains,
  if◌then◌else◌, arith, Option-cases,
}
use range42_backend_api.Json.{Json, Fields}
use range42_backend_api.Overlay.{
  References, Rewrite, targets, rewrite_of, rewrites, walk, walk_fields,
}
use range42_backend_api.Overlay.Sealing.{sources}

-- The same keys, with other secrets.
abbrev pub SameRewrites : List Rewrite → List Rewrite → Type 0
SameRewrites xs ys = (sources xs ≡ sources ys) × (targets xs ≡ targets ys)

sources-append : (xs ys : List Rewrite) → sources (xs ++ ys) ≡ sources xs ++ sources ys
sources-append [] ys = refl
sources-append (x ∷ xs) ys = ground (arith, sources-append xs ys)

targets-append : (xs ys : List Rewrite) → targets (xs ++ ys) ≡ targets xs ++ targets ys
targets-append [] ys = refl
targets-append (x ∷ xs) ys = ground (arith, targets-append xs ys)

module _ (refs : References) (lookup : String → Option String) (over : List String) where
  -- What the walk of a field and the fields after it has made of them
  pub walk_fields-inv :
      (k : String) (v : Json) (rest ws : Fields)
      → walk_fields refs lookup over (Fields.field k v rest) ≡ some ws
      → (w : Json) × (r : Fields) × ((if contains over k then some v else walk refs lookup v)
          ≡ some w)
        × (walk_fields refs lookup over rest ≡ some r)
        × (Fields.field k w r ≡ ws)
  unfolding walk_fields
  walk_fields-inv k v rest ws h =
      elim (Option-cases (if contains over k then some v else walk refs lookup v)) [
        | inl bad ↦ absurd (ground arith)
        | inr (w, e) ↦ elim (Option-cases (walk_fields refs lookup over rest)) [
          | inl bad ↦ absurd (ground arith)
          | inr (r, e') ↦ (w, r, e, e', ground arith)
        ]
      ]

module _ (refs : References) (l m : String → Option String) where
  rewrite_of-SameRewrites :
      (k : String) (v : Json) (xs ys : List Rewrite)
      → rewrite_of refs l k v ≡ some xs
      → rewrite_of refs m k v ≡ some ys
      → SameRewrites xs ys
  unfolding rewrite_of
  rewrite_of-SameRewrites k (Json.string s) xs ys h h' = elim (Option-cases (refs.stem k)) [
    | inl e ↦ ground arith
    | inr (stem, e) ↦ elim (Option-cases (refs.secret_name s)) [
      | inl e' ↦ ground arith
      | inr (name, e') ↦ elim (Option-cases (l name)) [
        | inl bad ↦ absurd (ground arith)
        | inr (val, found) ↦ elim (Option-cases (m name)) [
          | inl bad ↦ absurd (ground arith)
          | inr (val', found') ↦ ground arith
        ]
      ]
    ]
  ]
  rewrite_of-SameRewrites k (Json.object fs) xs ys h h' = ground arith
  rewrite_of-SameRewrites k (Json.array fs) xs ys h h' = ground arith
  rewrite_of-SameRewrites k Json.null xs ys h h' = ground arith
  rewrite_of-SameRewrites k (Json.boolean b) xs ys h h' = ground arith
  rewrite_of-SameRewrites k (Json.number n) xs ys h h' = ground arith
  rewrite_of-SameRewrites k (Json.float n) xs ys h h' = ground arith

  pub rewrites-SameRewrites :
      (fs : Fields) (xs ys : List Rewrite)
      → rewrites refs l fs ≡ some xs
      → rewrites refs m fs ≡ some ys
      → SameRewrites xs ys
  unfolding rewrites
  rewrites-SameRewrites Fields.end xs ys h h' = ground arith
  rewrites-SameRewrites (Fields.field k v rest) xs ys h h' =
      elim (Option-cases (rewrite_of refs l k v)) [
        | inl bad ↦ absurd (ground arith)
        | inr (a, e) ↦ elim (Option-cases (rewrite_of refs m k v)) [
          | inl bad ↦ absurd (ground arith)
          | inr (b, e') ↦ elim (Option-cases (rewrites refs l rest)) [
            | inl bad ↦ absurd (ground arith)
            | inr (c, e2) ↦ elim (Option-cases (rewrites refs m rest)) [
              | inl bad ↦ absurd (ground arith)
              | inr (d, e2') ↦ ground (
                arith,
                rewrite_of-SameRewrites k v a b,
                rewrites-SameRewrites rest c d,
                sources-append a c,
                sources-append b d,
                targets-append a c,
                targets-append b d,
              )
            ]
          ]
        ]
      ]
