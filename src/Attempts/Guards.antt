-- ===== src/Attempts/Guards.antt =====
-- The guards of a reservation, one by one.
use range42_backend_api.Prelude.{
  ℕ, ◌≤◌, String, ◌≡◌, ◌≢◌, ◌⊎◌, inl, inr, Bool, true, false, not, ◌&&◌, Option, none, some, [],
  ◌∷◌, contains, arith, ◌!=◌, string_eq, option_eq, Option-cases,
}
use range42_backend_api.Prelude.Result.{ok, error, raise_if, >>=-eq-ok, raise_if-eq-ok}
use range42_backend_api.Models.{AttemptState, Deployment, Native, ℤ, pos, negsuc, state_eq}
use range42_backend_api.Scenario.{
  validate_concrete_scope, validate_project_revision, native_actions, declared_actions,
  concrete_scopes, destructive_actions, truthy, or_empty,
}
use range42_backend_api.Attempts.{
  Request, AttemptCreate, check_request, attempt_scope, destructive, bad_team, in_team_range,
  is_none,
}

-- What the actions and the revision of a native or a concrete scenario have to be.
pub record ScenarioAllows (r : Request) (dep : Deployment) (payload : AttemptCreate)
    (scope : String) : Type 0 where
  pub native_action :
      (n : Native)
      → dep.native ≡ some n
      → (contains (declared_actions n) scope ≡ true) × (contains native_actions scope ≡ true)
  pub native_revision :
      (n : Native)
      → dep.native ≡ some n
      → truthy payload.project_sha ≡ true
      → r.lower (or_empty payload.project_sha) ≡ r.lower (or_empty dep.project_sha)
  pub not_retired : dep.native ≡ none → dep.scenario_label ≢ "_universal"
  pub concrete_scope :
      dep.native ≡ none → truthy dep.project_sha ≡ true → contains concrete_scopes scope ≡ true
  pub concrete_revision :
      dep.native ≡ none
      → payload.project_sha ≢ none
      → (scope ≡ "configure") × (truthy dep.project_sha ≡ true)

-- A request that tears down, or a destructive action of a native scenario.
abbrev pub IsDestructive : Deployment → AttemptCreate → Type 0
IsDestructive dep payload =
    (payload.scope ≡ "teardown")
    ⊎ ((dep.native ≢ none) × (contains destructive_actions payload.scope ≡ true))

-- The guards, on the scope that the attempt gets.
pub record IsGuarded (r : Request) (dep : Deployment) (payload : AttemptCreate) (scope : String)
    : Type 0 where
  pub scenario : ScenarioAllows r dep payload scope
  pub has_vars : (scope ≡ "rollback_all") ⊎ (scope ≡ "rollback_team") → r.has_legacy_vars ≡ true
  pub in_range :
      (t : ℤ) → payload.team_id ≡ some t → (n : ℕ) × (t ≡ pos n) × (1 ≤ n) × (n ≤ dep.team_count)
  pub has_team :
      (scope ≡ "team_reset") ⊎ ((scope ≡ "rollback_team") ⊎ (scope ≡ "snapshot_team"))
      → payload.team_id ≢ none
  pub confirmed : IsDestructive dep payload → payload.confirm_codename ≡ some dep.codename
  pub known : IsDestructive dep payload → dep.state ≢ AttemptState.unknown

validate_concrete_scope-eq-ok :
    (dep : Deployment) (scope : String) (u : Unit {0})
    → validate_concrete_scope dep scope ≡ ok u
    → ((n : Native)
        → dep.native ≡ some n
        → (contains (declared_actions n) scope ≡ true) × (contains native_actions scope ≡ true))
      × (dep.native ≡ none → dep.scenario_label ≢ "_universal")
      × (dep.native ≡ none → truthy dep.project_sha ≡ true → contains concrete_scopes scope ≡ true)
unfolding validate_concrete_scope declared_actions
validate_concrete_scope-eq-ok dep scope u h =
    (λ n e. ground arith, λ e q. absurd (ground arith), λ e t. ground arith)

validate_project_revision-eq-ok :
    (r : Request) (dep : Deployment) (payload : AttemptCreate) (scope : String) (u : Unit {0})
    → validate_project_revision r.lower dep scope payload.project_sha ≡ ok u
    → ((n : Native)
        → dep.native ≡ some n
        → truthy payload.project_sha ≡ true
        → r.lower (or_empty payload.project_sha) ≡ r.lower (or_empty dep.project_sha))
      × (dep.native ≡ none
          → payload.project_sha ≢ none
          → (scope ≡ "configure") × (truthy dep.project_sha ≡ true))
unfolding validate_project_revision
validate_project_revision-eq-ok r dep payload scope u h =
    (λ n e t. ground arith, λ e q. (ground arith, ground arith))

bad_team-range :
    (team : Option ℤ) (count : ℕ) (t : ℤ)
    → bad_team team count ≡ false
    → team ≡ some t
    → (n : ℕ) × (t ≡ pos n) × (1 ≤ n) × (n ≤ count)
unfolding bad_team in_team_range
bad_team-range none count t h e = absurd (ground arith)
bad_team-range (some (pos n)) count t h e = (n, ground arith, ground arith, ground arith)
bad_team-range (some (negsuc n)) count t h e = absurd (ground arith)

needs_vars :
    (scope : String) (vars : Bool)
    → (contains ("rollback_all" ∷ "rollback_team" ∷ []) scope && not vars) ≡ false
    → (scope ≡ "rollback_all") ⊎ (scope ≡ "rollback_team")
    → vars ≡ true
needs_vars scope vars h (inl e) = ground arith
needs_vars scope vars h (inr e) = ground arith

needs_team :
    (scope : String) (team : Option ℤ)
    → (contains ("team_reset" ∷ "rollback_team" ∷ "snapshot_team" ∷ []) scope && is_none team)
      ≡ false
    → (scope ≡ "team_reset") ⊎ ((scope ≡ "rollback_team") ⊎ (scope ≡ "snapshot_team"))
    → team ≢ none
unfolding is_none
needs_team scope none h (inl e) q = absurd (ground arith)
needs_team scope none h (inr (inl e)) q = absurd (ground arith)
needs_team scope none h (inr (inr e)) q = absurd (ground arith)
needs_team scope (some t) h e q = absurd (ground arith)

IsDestructive-destructive :
    (dep : Deployment) (payload : AttemptCreate)
    → IsDestructive dep payload
    → destructive dep payload ≡ true
unfolding is_none
IsDestructive-destructive dep payload (inl e) = ground arith
IsDestructive-destructive dep payload (inr (n, e)) = elim (Option-cases dep.native) [
  | inl q ↦ absurd (n q)
  | inr (x, q) ↦ ground arith
]

pub check_request-IsGuarded :
    (r : Request) (dep : Deployment) (payload : AttemptCreate)
    → check_request r dep payload ≡ ok tt
    → IsGuarded r dep payload (attempt_scope r payload)
unfolding check_request
check_request-IsGuarded r dep payload h =
    let scope = attempt_scope r payload in
    let rollback =
      contains ("rollback_all" ∷ "rollback_team" ∷ []) scope && not r.has_legacy_vars in
    let team = bad_team payload.team_id dep.team_count in
    let teamless =
      contains ("team_reset" ∷ "rollback_team" ∷ "snapshot_team" ∷ []) scope
      && is_none payload.team_id in
    let unconfirmed = destructive dep payload && payload.confirm_codename != some dep.codename in
    let (u, a, h₁) = >>=-eq-ok (validate_concrete_scope dep scope) _ h in
    let (v, b, h₂) =
      >>=-eq-ok (validate_project_revision r.lower dep scope payload.project_sha) _ h₁ in
    let (_, c, h₃) = >>=-eq-ok (raise_if rollback (error 400 "USE_SCOPED_ENDPOINT")) _ h₂ in
    let (_, d, h₄) = >>=-eq-ok (raise_if team (error 400 "TEAM_OUT_OF_RANGE")) _ h₃ in
    let (_, e, h₅) = >>=-eq-ok (raise_if teamless (error 400 "TEAM_REQUIRED")) _ h₄ in
    let (_, f, h₆) =
      >>=-eq-ok (raise_if unconfirmed (error 400 "TEARDOWN_CONFIRM_MISMATCH")) _ h₅ in
    let (action, retired, concrete) = validate_concrete_scope-eq-ok dep scope u a in
    let (revision, configured) = validate_project_revision-eq-ok r dep payload scope v b in
    record {
      scenario = record {
        native_action = action;
        native_revision = revision;
        not_retired = retired;
        concrete_scope = concrete;
        concrete_revision = configured;
      };
      has_vars = needs_vars scope r.has_legacy_vars (raise_if-eq-ok rollback _ c);
      in_range = λ t. bad_team-range payload.team_id dep.team_count t (raise_if-eq-ok team _ d);
      has_team = needs_team scope payload.team_id (raise_if-eq-ok teamless _ e);
      confirmed = λ q.
          ground (arith, IsDestructive-destructive dep payload q, raise_if-eq-ok unconfirmed _ f);
      known = λ q s. absurd (ground (arith, IsDestructive-destructive dep payload q));
    }
