-- ===== src/Scenario.antt =====
-- core/scenario.py: which actions a deployment admits, and when another revision may be used. With
-- `NATIVE_ACTIONS` and `DESTRUCTIVE_ACTIONS` of core/native_scenarios.py.
use range42_backend_api.Prelude.{
  String, Bool, false, not, ◌&&◌, ◌||◌, Option, none, some, List, [], ◌∷◌, ◌==◌, ◌!=◌, contains,
  option_eq, string_eq,
}
use range42_backend_api.Prelude.Result.{Result, error, raise_if, ◌>>◌}
use range42_backend_api.Models.{Deployment, Native}

-- the keys of `NATIVE_ACTIONS`
abbrev pub native_actions : List String
native_actions =
    "full" ∷ "configure" ∷ "deploy_vms" ∷ "teardown" ∷ "delete_vms" ∷ "reset" ∷ "deploy_networks"
    ∷ "delete_networks" ∷ []

abbrev pub destructive_actions : List String
destructive_actions = "teardown" ∷ "delete_vms" ∷ "delete_networks" ∷ "reset" ∷ []

abbrev pub concrete_scopes : List String
concrete_scopes = "full" ∷ "configure" ∷ "teardown" ∷ "runtime" ∷ []

-- Python's truth of an optional text: present and not empty.
abbrev pub truthy : Option String → Bool
truthy none = false
truthy (some s) = s != ""

unfoldable pub declared_actions : Native → List String
declared_actions n = elim n.actions [ none ↦ native_actions | some actions ↦ actions ]

unfoldable pub validate_concrete_scope : Deployment → String → Result (Unit {0})
unfolding declared_actions
validate_concrete_scope dep scope = elim dep.native [
  | some native ↦
      raise_if
        (not (contains (declared_actions native) scope) || not (contains native_actions scope))
        (error 409 "NATIVE_ACTION_UNAVAILABLE")
  | none ↦
      raise_if (dep.scenario_label == "_universal") (error 400 "SCENARIO_RETIRED")
      >> raise_if (truthy dep.project_sha && not (contains concrete_scopes scope))
          (error 400 "PROJECT_SCENARIO_SCOPE_UNSUPPORTED")
]

-- `x or ""`
abbrev pub or_empty : Option String → String
or_empty none = ""
or_empty (some s) = s

-- `lower` is Python's `str.lower`.
unfoldable pub validate_project_revision :
    (String → String) → Deployment → String → Option String → Result (Unit {0})
validate_project_revision lower dep scope project_sha = elim dep.native [
  | some _ ↦
      raise_if
        (truthy project_sha && lower (or_empty project_sha) != lower (or_empty dep.project_sha))
        (error 409 "NATIVE_REVISION_CHANGED")
  | none ↦
      raise_if
        (project_sha != none
          && (scope != "configure"
              || not (truthy dep.project_sha)
              || dep.scenario_label == "_universal"))
        (error 400 "PROJECT_SCENARIO_REVISION_UNSUPPORTED")
]
