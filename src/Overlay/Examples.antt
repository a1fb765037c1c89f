-- ===== src/Overlay/Examples.antt =====
-- A document with one reference to a secret.
use range42_backend_api.Prelude.{
  String, false, ◌≡◌, refl, Option, none, some, [], ◌∷◌, ◌==◌, string_eq, if◌then◌else◌,
}
use range42_backend_api.Json.{Json, Items, Fields}
use range42_backend_api.Events.{set_field}
use range42_backend_api.Redaction.{key, vault_walk}
use range42_backend_api.Overlay.{
  References, sealed, pop_field, put_all, pop_all, rewrite_of, rewrites, walk, walk_fields,
  walk_items, resolve_secrets,
}
use range42_backend_api.Overlay.Secrecy.{resolve_secrets-vault_walk}

abbrev refs : References
refs = record {
  stem = λ k. if k == "password_from" then some "password" else none;
  secret_name = λ s. if s == "env.secret.root" then some "root" else none;
}

abbrev document : Fields
document = Fields.field "role" (Json.string "web") (
    Fields.field "vars"
      (Json.array (
        Items.item
          (Json.object (
            Fields.field "password_from" (Json.string "env.secret.root")
              (Fields.field "user" (Json.string "root") Fields.end)))
          Items.nil))
      Fields.end)

-- The document with the secret in its place: the new key is appended.
abbrev resolved : String → Json
resolved secret = Json.object (
    Fields.field "role" (Json.string "web") (
      Fields.field "vars"
        (Json.array (
          Items.item
            (Json.object (
              Fields.field "user" (Json.string "root")
                (Fields.field "password" (sealed secret) Fields.end)))
            Items.nil))
        Fields.end))

abbrev store : String → String → Option String
store secret name = if name == "root" then some secret else none

resolves : resolve_secrets refs (store "hunter2") document ≡ some (resolved "hunter2")
unfolding resolve_secrets walk walk_fields walk_items rewrites rewrite_of put_all pop_all pop_field
    set_field string_eq
resolves = refl

resolves_other : resolve_secrets refs (store "swordfish") document ≡ some (resolved "swordfish")
unfolding resolves
resolves_other = refl

-- A secret that the store does not have is a `KeyError`.
misses : resolve_secrets refs (λ _. none) document ≡ none
unfolding resolves
misses = refl

resolve_secrets-vault_walk_example :
    vault_walk (λ _. false) (resolved "hunter2") (key "payload" ∷ [])
    ≡ vault_walk (λ _. false) (resolved "swordfish") (key "payload" ∷ [])
resolve_secrets-vault_walk_example =
    resolve_secrets-vault_walk (λ _. false) refs (store "hunter2") (store "swordfish") document
      (resolved "hunter2") (resolved "swordfish") (key "payload" ∷ []) resolves resolves_other
