-- ===== src/Redaction.antt =====
-- core/redaction.py: the layers that take secrets out of an event, and the pipeline that runs them.
-- A layer returns the new event and what it redacted, in the order of its walk. The text
-- `path.key[index]` of a field is the list of its steps here. The match of a key against the
-- patterns, the test for an inline vault tag, and the search and replacement within a text are
-- parameters.
mod Denylist
mod Sealing
mod Vault
mod Coverage
mod Reporting
mod Accounts
mod Examples
use range42_backend_api.Prelude.{
  ℕ, ◌+◌, String, ◌<>◌, Bool, true, false, ◌&&◌, Option, none, some, List, [], ◌∷◌, ◌++◌, map, ◌==◌,
  ◌!=◌, string_eq, if◌then◌else◌,
}
use range42_backend_api.Models.{ℤ}
use range42_backend_api.Json.{Json, Items, Fields, get_field}

pub data Step : Type 0 where
  key : String → Step
  index : ℕ → Step

-- `{"rule_id": ..., "field_path": ...}`
pub record Fired : Type 0 where
  pub rule_id : String
  pub field_path : List Step

-- The result of a walk: the new value and what fired.
abbrev pub Walked : Type 0 → Type 0
Walked A = A × List Fired

-- `value is True`
abbrev pub is_true : Option Json → Bool
is_true (some (Json.boolean true)) = true
is_true _ = false

unfoldable pub is_secret : Fields → Bool
unfolding get_field
is_secret fields = is_true (get_field "secret" fields)

-- `isinstance(v, (dict, list))`
abbrev pub is_tree : Json → Bool
is_tree (Json.array _) = true
is_tree (Json.object _) = true
is_tree _ = false

abbrev pub denied : Json
denied = Json.string "[REDACTED:config_denylist]"

-- What becomes of the value of a key, given the walk into it. A value that `secret` hides has been
-- replaced before, and may match a pattern as well.
unfoldable pub denylist_entry :
    (String → Bool) → Bool → String → Json → Walked Json → List Step → Walked Json
denylist_entry matches secret k v walked sub =
    let hit = record { rule_id = "denylist:" <> k; field_path = sub } ∷ [] in
    if secret && k == "value"
    then (denied, if matches k then hit else [])
    else if is_tree v
    then walked
    else if matches k
    then (denied, hit)
    else (v, [])

has_field : String → Fields → Bool
unfolding get_field
has_field k fields = elim (get_field k fields) [ none ↦ false | some _ ↦ true ]

-- The rows of `env.secret=true`
secret_fired : Fields → List Step → List Fired
unfolding has_field
secret_fired fields path =
    if is_secret fields && has_field "value" fields
    then record { rule_id = "denylist:env.secret-true"; field_path = path ++ key "value" ∷ [] } ∷ []
    else []

-- `ConfigDenylistLayer`, its `walk`
unfoldable mutual
  unfolding secret_fired

  pub denylist_walk : (String → Bool) → Json → List Step → Walked Json
  denylist_walk matches (Json.object fields) path =
      let (new, fired) = denylist_fields matches (is_secret fields) fields path in
      (Json.object new, secret_fired fields path ++ fired)
  denylist_walk matches (Json.array items) path =
      let (new, fired) = denylist_items matches items path 0 in (Json.array new, fired)
  denylist_walk matches v path = (v, [])

  pub denylist_fields : (String → Bool) → Bool → Fields → List Step → Walked Fields
  denylist_fields matches secret Fields.end path = (Fields.end, [])
  denylist_fields matches secret (Fields.field k v rest) path =
      let sub = path ++ key k ∷ [] in
      let walked = denylist_walk matches v sub in
      let (new, fired) = denylist_entry matches secret k v walked sub in
      let (later, more) = denylist_fields matches secret rest path in
      (Fields.field k new later, fired ++ more)

  pub denylist_items : (String → Bool) → Items → List Step → ℕ → Walked Items
  denylist_items matches Items.nil path i = (Items.nil, [])
  denylist_items matches (Items.item v rest) path i =
      let (new, fired) = denylist_walk matches v (path ++ index i ∷ []) in
      let (later, more) = denylist_items matches rest path (i + 1) in
      (Items.item new later, fired ++ more)

-- `ConfigDenylistLayer.redact`, on the fields of an event
unfoldable pub denylist_redact : (String → Bool) → Fields → Walked Fields
unfolding secret_fired
denylist_redact matches event =
    let (new, fired) = denylist_fields matches (is_secret event) event [] in
    (new, secret_fired event [] ++ fired)

abbrev pub vaulted : Json
vaulted = Json.string "[REDACTED:vault_tagged]"

-- `obj.get(VAULT_MARKER) is True`
unfoldable pub is_marked : Fields → Bool
unfolding get_field
is_marked fields = is_true (get_field "__range42_vault_origin__" fields)

abbrev vault_hit : String → List Step → Walked Json
vault_hit rule sub = (vaulted, record { rule_id = rule; field_path = sub } ∷ [])

-- `VaultTaggedLayer`, its `walk` below the event, with the replacement by the caller
unfoldable mutual
  pub vault_walk : (String → Bool) → Json → List Step → Walked Json
  vault_walk inline (Json.string s) sub =
      if inline s then vault_hit "vault:ansible-vault-inline" sub else (Json.string s, [])
  vault_walk inline (Json.object fields) sub =
      let (new, fired) = vault_fields inline fields sub in
      if is_marked fields then vault_hit "vault:tagged-value" sub else (Json.object new, fired)
  vault_walk inline (Json.array items) sub =
      let (new, fired) = vault_items inline items sub 0 in (Json.array new, fired)
  vault_walk inline v sub = (v, [])

  pub vault_fields : (String → Bool) → Fields → List Step → Walked Fields
  vault_fields inline Fields.end path = (Fields.end, [])
  vault_fields inline (Fields.field k v rest) path =
      let (new, fired) = vault_walk inline v (path ++ key k ∷ []) in
      let (later, more) = vault_fields inline rest path in (Fields.field k new later, fired ++ more)

  pub vault_items : (String → Bool) → Items → List Step → ℕ → Walked Items
  vault_items inline Items.nil path i = (Items.nil, [])
  vault_items inline (Items.item v rest) path i =
      let (new, fired) = vault_walk inline v (path ++ index i ∷ []) in
      let (later, more) = vault_items inline rest path (i + 1) in
      (Items.item new later, fired ++ more)

-- `VaultTaggedLayer.redact`: an event that is itself marked is returned as it is.
unfoldable pub vault_redact : (String → Bool) → Fields → Walked Fields
vault_redact inline event =
    let walked = vault_fields inline event [] in if is_marked event then (event, []) else walked

-- `t in s` and `s.replace(t, ...)`
pub record Texts : Type 0 where
  pub occurs : String → String → Bool
  pub replace : String → String → String → String

-- `TaintedStringLayer._redact_string`
unfoldable pub redact_string : Texts → List String → String → List Step → Walked String
redact_string texts [] s path = (s, [])
redact_string texts (t ∷ tainted) s path =
    let kept = redact_string texts tainted s path in
    let (out, fired) =
      redact_string texts tainted (texts.replace s t "[REDACTED:tainted_string]") path in
    if t != "" && texts.occurs t s
    then (out, record { rule_id = "tainted_string:known-secret"; field_path = path } ∷ fired)
    else kept

-- `TaintedStringLayer._walk`
unfoldable mutual
  pub tainted_walk : Texts → List String → Json → List Step → Walked Json
  tainted_walk texts tainted (Json.string s) sub =
      let (new, fired) = redact_string texts tainted s sub in (Json.string new, fired)
  tainted_walk texts tainted (Json.object fields) sub =
      let (new, fired) = tainted_fields texts tainted fields sub in (Json.object new, fired)
  tainted_walk texts tainted (Json.array items) sub =
      let (new, fired) = tainted_items texts tainted items sub 0 in (Json.array new, fired)
  tainted_walk texts tainted v sub = (v, [])

  pub tainted_fields : Texts → List String → Fields → List Step → Walked Fields
  tainted_fields texts tainted Fields.end path = (Fields.end, [])
  tainted_fields texts tainted (Fields.field k v rest) path =
      let (new, fired) = tainted_walk texts tainted v (path ++ key k ∷ []) in
      let (later, more) = tainted_fields texts tainted rest path in
      (Fields.field k new later, fired ++ more)

  pub tainted_items : Texts → List String → Items → List Step → ℕ → Walked Items
  tainted_items texts tainted Items.nil path i = (Items.nil, [])
  tainted_items texts tainted (Items.item v rest) path i =
      let (new, fired) = tainted_walk texts tainted v (path ++ index i ∷ []) in
      let (later, more) = tainted_items texts tainted rest path (i + 1) in
      (Items.item new later, fired ++ more)

unfoldable pub tainted_redact : Texts → List String → Fields → Walked Fields
tainted_redact texts [] event = (event, [])
tainted_redact texts (t ∷ tainted) event = tainted_fields texts (t ∷ tainted) event []

-- A layer by its name, and a row of the audit file without time, deployment and attempt, which are
-- the same for all rows. `event_seq` is `int(event.get("event_seq") or 0)`.
pub record Layer : Type 0 where
  pub name : String
  pub redact : Fields → Walked Fields

pub record AuditRow : Type 0 where
  pub layer : String
  pub rule_id : String
  pub event_seq : ℤ
  pub field_path : List Step

abbrev pub audit_row : (Option Json → ℤ) → String → Fields → Fired → AuditRow
audit_row seq name event f = record {
  layer = name;
  rule_id = f.rule_id;
  event_seq = seq (get_field "event_seq" event);
  field_path = f.field_path;
}

-- `run_pipeline`: the last event, and the rows written.
unfoldable pub run_pipeline : (Option Json → ℤ) → Fields → List Layer → Fields × List AuditRow
run_pipeline seq event [] = (event, [])
run_pipeline seq event (layer ∷ layers) =
    let (current, fired) = layer.redact event in
    let (last, rows) = run_pipeline seq current layers in
    (last, map (audit_row seq layer.name current) fired ++ rows)

-- The two layers that must hold whatever the patterns and secrets of a deployment are.
abbrev pub hard_layers : (String → Bool) → (String → Bool) → List Layer
hard_layers matches inline =
    record { name = "config_denylist"; redact = denylist_redact matches }
    ∷ record { name = "vault_tagged"; redact = vault_redact inline }
    ∷ []

-- core/deploy_trigger.py: the layers of an attempt, in their order
abbrev pub service_layers : (String → Bool) → (String → Bool) → Texts → List String → List Layer
service_layers matches inline texts tainted =
    hard_layers matches inline
    ++ record { name = "tainted_string"; redact = tainted_redact texts tainted } ∷ []
