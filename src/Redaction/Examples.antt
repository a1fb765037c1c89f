-- ===== src/Redaction/Examples.antt =====
-- An event with a password, a secret variable and two vault values.
use range42_backend_api.Prelude.{
  String, ◌≡◌, refl, Bool, true, false, Option, some, [], ◌∷◌, ◌==◌, string_eq,
}
use range42_backend_api.Models.{ℤ}
use range42_backend_api.Json.{Json, Items, Fields, get_field}
use range42_backend_api.Redaction.{
  Texts, hard_layers, service_layers, run_pipeline, denylist_redact, denylist_walk, is_secret,
  has_field, secret_fired, denylist_entry, vault_redact, vault_walk, is_marked, tainted_redact,
  tainted_fields, redact_string,
}
use range42_backend_api.Redaction.Denylist.{is_clean}
use range42_backend_api.Redaction.Vault.{run_pipeline-hides}
use range42_backend_api.Redaction.Sealing.{is_sealed}
use range42_backend_api.Redaction.Coverage.{CoveredFields}
use range42_backend_api.Redaction.Accounts.{InAudit, run_pipeline-accounts}

abbrev matches : String → Bool
matches k = k == "password"

abbrev inline : String → Bool
inline s = s == "!vault x"

abbrev seq : Option Json → ℤ
seq (some (Json.number n)) = n
seq _ = ℤ.pos 0

abbrev event : Fields
event = Fields.field "event_seq" (Json.number (ℤ.pos 7)) (
    Fields.field "password" (Json.string "hunter2") (
      Fields.field "env"
        (Json.array (
          Items.item
            (Json.object (
              Fields.field "secret" (Json.boolean true)
                (Fields.field "value" (Json.string "s3") Fields.end)))
            (Items.item (Json.string "!vault x") Items.nil)))
        (Fields.field "origin"
          (Json.object (Fields.field "__range42_vault_origin__" (Json.boolean true) Fields.end))
          Fields.end)))

abbrev stored : Fields
stored = Fields.field "event_seq" (Json.number (ℤ.pos 7)) (
    Fields.field "password" (Json.string "[REDACTED:config_denylist]") (
      Fields.field "env"
        (Json.array (
          Items.item
            (Json.object (
              Fields.field "secret" (Json.boolean true)
                (Fields.field "value" (Json.string "[REDACTED:config_denylist]") Fields.end)))
            (Items.item (Json.string "[REDACTED:vault_tagged]") Items.nil)))
        (Fields.field "origin" (Json.string "[REDACTED:vault_tagged]") Fields.end)))

redacts : (run_pipeline seq event (hard_layers matches inline)).0 ≡ stored
unfolding run_pipeline denylist_redact denylist_walk denylist_entry secret_fired is_secret has_field
    get_field vault_redact vault_walk is_marked string_eq
redacts = refl

-- A list under a denied key keeps its texts: the deny list replaces neither a tree nor an element.
keeps_lists :
    (denylist_redact matches (
      Fields.field "password"
        (Json.array (Items.item (Json.string "hunter2") Items.nil))
        Fields.end)).0
    ≡ Fields.field "password" (Json.array (Items.item (Json.string "hunter2") Items.nil)) Fields.end
unfolding denylist_redact denylist_walk denylist_entry secret_fired is_secret has_field get_field
    string_eq
keeps_lists = refl

plain : inline "[REDACTED:vault_tagged]" ≡ false
unfolding string_eq
plain = refl

unmarked : is_marked event ≡ false
unfolding is_marked get_field string_eq
unmarked = refl

run_pipeline-hides_example :
    (is_clean matches (Json.object (run_pipeline seq event (hard_layers matches inline)).0) ≡ true)
    × (is_sealed inline (Json.object (run_pipeline seq event (hard_layers matches inline)).0)
        ≡ true)
run_pipeline-hides_example = run_pipeline-hides matches inline seq event plain unmarked

abbrev texts : Texts
texts = record { occurs = λ t s. t == s; replace = λ s t new. new }

abbrev harmless : Fields
harmless = Fields.field "msg" (Json.string "ok") Fields.end

nothing_fired :
    (run_pipeline seq harmless (service_layers matches inline texts ("hunter2" ∷ []))).1 ≡ []
unfolding run_pipeline denylist_redact denylist_walk denylist_entry secret_fired is_secret has_field
    get_field vault_redact vault_walk is_marked tainted_redact tainted_fields redact_string
    string_eq
nothing_fired = refl

run_pipeline-accounts_example :
    CoveredFields
      (InAudit (run_pipeline seq event (service_layers matches inline texts ("hunter2" ∷ []))).1)
      []
      event
      (run_pipeline seq event (service_layers matches inline texts ("hunter2" ∷ []))).0
run_pipeline-accounts_example =
    run_pipeline-accounts matches inline texts ("hunter2" ∷ []) seq event
