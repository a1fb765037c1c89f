-- ===== src/Overlay/Secrecy.antt =====
-- What the vault layer leaves of a resolved document does not depend on the secrets.
use mathlib.Core.Path.{subst}
use range42_backend_api.Prelude.{
  String, ◌≡◌, refl, ap, inl, inr, Bool, true, false, Option, some, List, string_eq, contains,
  if◌then◌else◌, arith, Option-cases,
}
use range42_backend_api.Json.{Json, Items, Fields}
use range42_backend_api.Redaction.{Step, vault_walk}
use range42_backend_api.Overlay.{
  References, Rewrite, put_all, pop_all, targets, rewrites, walk, walk_fields, walk_items,
  resolve_secrets,
}
use range42_backend_api.Overlay.Sealing.{
  sources, Alike, AlikeFields, AlikeItems, Alike-object, Alike-array, put_all-AlikeFields,
  pop_all-AlikeFields,
}
use range42_backend_api.Overlay.Rewriting.{SameRewrites, rewrites-SameRewrites, walk_fields-inv}

module _ (inline : String → Bool) (refs : References) (l m : String → Option String) where
  moved : (a' a b' b : Json) → a' ≡ a → b' ≡ b → Alike inline a' b' → Alike inline a b
  moved a' a b' b e e' h = subst (λ t. Alike inline t b) e (subst (λ t. Alike inline a' t) e' h)

  same-Alike : (v a b : Json) → v ≡ a → v ≡ b → Alike inline a b
  same-Alike v a b e e' = moved v a v b e e' (λ path. refl, refl)

  cons-AlikeFields :
      (k : String) (v w : Json) (r s fs gs : Fields)
      → Fields.field k v r ≡ fs
      → Fields.field k w s ≡ gs
      → Alike inline v w
      → AlikeFields inline r s
      → AlikeFields inline fs gs
  unfolding AlikeFields
  cons-AlikeFields k v w r s fs gs e e' h rest =
      subst (λ t. AlikeFields inline t gs) e
        (subst (λ t. AlikeFields inline (Fields.field k v r) t) e' (refl, h, rest))

  cons-AlikeItems :
      (v w : Json) (r s xs ys : Items)
      → Items.item v r ≡ xs
      → Items.item w s ≡ ys
      → Alike inline v w
      → AlikeItems inline r s
      → AlikeItems inline xs ys
  unfolding AlikeItems
  cons-AlikeItems v w r s xs ys e e' h rest =
      subst (λ t. AlikeItems inline t ys) e
        (subst (λ t. AlikeItems inline (Items.item v r) t) e' (h, rest))

  end-AlikeFields : (fs gs : Fields) → Fields.end ≡ fs → Fields.end ≡ gs → AlikeFields inline fs gs
  unfolding AlikeFields
  end-AlikeFields fs gs e e' =
      subst (λ t. AlikeFields inline t gs) e (subst (λ t. AlikeFields inline Fields.end t) e' tt)

  nil-AlikeItems : (xs ys : Items) → Items.nil ≡ xs → Items.nil ≡ ys → AlikeItems inline xs ys
  unfolding AlikeItems
  nil-AlikeItems xs ys e e' =
      subst (λ t. AlikeItems inline t ys) e (subst (λ t. AlikeItems inline Items.nil t) e' tt)

  rewritten-Alike :
      (xs ys : List Rewrite) (fs gs : Fields)
      → SameRewrites xs ys
      → AlikeFields inline fs gs
      → Alike inline
          (Json.object (pop_all xs (put_all xs fs)))
          (Json.object (pop_all ys (put_all ys gs)))
  rewritten-Alike xs ys fs gs (sources, targets) h = Alike-object inline _ _ (
      pop_all-AlikeFields inline xs ys _ _ sources
        (put_all-AlikeFields inline xs ys fs gs targets h))

  if-Alike :
      (b b' : Bool) (v w w' : Json) (p q : Option Json)
      → b ≡ b'
      → (if b then some v else p) ≡ some w
      → (if b' then some v else q) ≡ some w'
      → (p ≡ some w → q ≡ some w' → Alike inline w w')
      → Alike inline w w'
  if-Alike true true v w w' p q e h h' f = same-Alike v w w' (ground arith) (ground arith)
  if-Alike true false v w w' p q e h h' f = absurd (ground arith)
  if-Alike false true v w w' p q e h h' f = absurd (ground arith)
  if-Alike false false v w w' p q e h h' f = f h h'

  mutual
    unfolding walk walk_fields walk_items

    walk-Alike : (v a b : Json) → walk refs l v ≡ some a → walk refs m v ≡ some b → Alike inline a b
    walk-Alike (Json.object fs) a b h h' = elim (Option-cases (rewrites refs l fs)) [
      | inl bad ↦ absurd (ground arith)
      | inr (xs, e) ↦ elim (Option-cases (rewrites refs m fs)) [
        | inl bad ↦ absurd (ground arith)
        | inr (ys, e') ↦ elim (Option-cases (walk_fields refs l (targets xs) fs)) [
          | inl bad ↦ absurd (ground arith)
          | inr (ws, f) ↦ elim (Option-cases (walk_fields refs m (targets ys) fs)) [
            | inl bad ↦ absurd (ground arith)
            | inr (us, f') ↦
                let same = rewrites-SameRewrites refs l m fs xs ys e e' in
                moved _ a _ b (ground arith) (ground arith) (
                  rewritten-Alike xs ys ws us same
                    (walk_fields-AlikeFields fs (targets xs) (targets ys) ws us same.1 f f'))
          ]
        ]
      ]
    ]
    walk-Alike (Json.array items) a b h h' = elim (Option-cases (walk_items refs l items)) [
      | inl bad ↦ absurd (ground arith)
      | inr (xs, e) ↦ elim (Option-cases (walk_items refs m items)) [
        | inl bad ↦ absurd (ground arith)
        | inr (ys, e') ↦
            moved (Json.array xs) a (Json.array ys) b (ground arith) (ground arith)
              (Alike-array inline xs ys (walk_items-AlikeItems items xs ys e e'))
      ]
    ]
    walk-Alike Json.null a b h h' = same-Alike Json.null a b (ground arith) (ground arith)
    walk-Alike (Json.boolean t) a b h h' =
        same-Alike (Json.boolean t) a b (ground arith) (ground arith)
    walk-Alike (Json.number t) a b h h' =
        same-Alike (Json.number t) a b (ground arith) (ground arith)
    walk-Alike (Json.float t) a b h h' = same-Alike (Json.float t) a b (ground arith) (ground arith)
    walk-Alike (Json.string t) a b h h' =
        same-Alike (Json.string t) a b (ground arith) (ground arith)

    walk_fields-AlikeFields :
        (fs : Fields) (over over' : List String) (ws us : Fields)
        → over ≡ over'
        → walk_fields refs l over fs ≡ some ws
        → walk_fields refs m over' fs ≡ some us
        → AlikeFields inline ws us
    walk_fields-AlikeFields Fields.end over over' ws us e h h' =
        end-AlikeFields ws us (ground arith) (ground arith)
    walk_fields-AlikeFields (Fields.field k v rest) over over' ws us e h h' =
        let (w, r, kept, later, same) = walk_fields-inv refs l over k v rest ws h in
        let (w', r', kept', later', same') = walk_fields-inv refs m over' k v rest us h' in
        cons-AlikeFields k w w' r r' ws us same same'
          (if-Alike (contains over k) (contains over' k) v w w' (walk refs l v) (walk refs m v)
            (ap (λ o. contains o k) e) kept kept' (walk-Alike v w w'))
          (walk_fields-AlikeFields rest over over' r r' e later later')

    walk_items-AlikeItems :
        (items xs ys : Items)
        → walk_items refs l items ≡ some xs
        → walk_items refs m items ≡ some ys
        → AlikeItems inline xs ys
    walk_items-AlikeItems Items.nil xs ys h h' = nil-AlikeItems xs ys (ground arith) (ground arith)
    walk_items-AlikeItems (Items.item v rest) xs ys h h' = elim (Option-cases (walk refs l v)) [
      | inl bad ↦ absurd (ground arith)
      | inr (a, g) ↦ elim (Option-cases (walk refs m v)) [
        | inl bad ↦ absurd (ground arith)
        | inr (b, g') ↦ elim (Option-cases (walk_items refs l rest)) [
          | inl bad ↦ absurd (ground arith)
          | inr (r, f) ↦ elim (Option-cases (walk_items refs m rest)) [
            | inl bad ↦ absurd (ground arith)
            | inr (s, f') ↦
                cons-AlikeItems a b r s xs ys (ground arith) (ground arith) (walk-Alike v a b g g')
                  (walk_items-AlikeItems rest r s f f')
          ]
        ]
      ]
    ]

  -- Where a document is resolved with two stores of secrets, the vault layer makes the same of both
  -- results, with the same rows for the audit, wherever they stand in an event: nothing of a secret
  -- is left.
  pub resolve_secrets-vault_walk :
      (document : Fields) (a b : Json) (path : List Step)
      → resolve_secrets refs l document ≡ some a
      → resolve_secrets refs m document ≡ some b
      → vault_walk inline a path ≡ vault_walk inline b path
  unfolding resolve_secrets
  resolve_secrets-vault_walk document a b path h h' =
      (walk-Alike (Json.object document) a b h h').0 path
