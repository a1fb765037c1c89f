-- ===== src/Snapshots/Observation/Identity.antt =====
-- What an observation vouches for.
use mathlib.Core.Path.{subst}
use range42_backend_api.Prelude.{
  ℕ, String, ◌≡◌, refl, sym, ap, ◌∙◌, inl, inr, Option-cases, Bool, true, not, Option, none, some,
  List, [], ◌∷◌, string_eq, nat_eq, option_eq, arith,
}
use range42_backend_api.Prelude.Table.{select}
use range42_backend_api.Prelude.Result.{ok, error, raise_if, >>=-eq-ok, raise_if-eq-ok}
use range42_backend_api.Models.{Member}
use range42_backend_api.Json.{Fields, get_field}
use range42_backend_api.Vmids.{assert_vmid_safe}
use range42_backend_api.Snapshots.Observation.{
  Reader, Answers, text_of, is_vmid, restore_digest, is_placed, the_row, is_settled_guest,
  running_of, identity_of, named, report, with_status, settled_member, member_of, observe_guest,
  observe_guests, inventory, observe,
}
use range42_backend_api.Snapshots.Observation.Settled.{
  IsPlaced, IsSettled, is_placed-IsPlaced, is_settled_guest-IsSettled,
}

-- A guest as observed: its VMID is not protected, its one row is on the node, and its name, UUID
-- and digests are read from a configuration that is settled and carries the deployment's mark.
pub record Observed (r : Reader) (a : Answers) (host_overrides : Option (List (List ℕ)))
    (node deployment_id : String) (roster : List Fields) (request : ℕ × Option String) (m : Member)
    : Type 0 where
  pub row : Fields
  pub config : Fields
  pub pending : List Fields
  pub same_vmid : m.vm_id ≡ request.0
  pub safe : assert_vmid_safe request.0 host_overrides ≡ ok tt
  pub single : select (λ x. is_vmid request.0 (get_field "vmid" x)) roster ≡ row ∷ []
  pub placed : IsPlaced node row
  pub configured : a.config request.0 ≡ ok (some config)
  pub asked : a.pending request.0 ≡ ok (some pending)
  pub settled : IsSettled r deployment_id request.1 row config pending
  pub identity : identity_of r config ≡ ok m.uuid
  pub name : text_of (get_field "name" config) ≡ some m.vm_name
  pub digest : m.restore_digest ≡ restore_digest r config

the_row-eq-ok :
    (node : String) (rows : List Fields) (row : Fields)
    → the_row node rows ≡ ok row
    → (rows ≡ row ∷ []) × (is_placed node row ≡ true)
unfolding the_row
the_row-eq-ok node [] row h = absurd (ground arith)
the_row-eq-ok node (x ∷ []) row h = ground arith
the_row-eq-ok node (x ∷ y ∷ rest) row h = absurd (ground arith)

inventory-eq-ok :
    (o : Option (List Fields)) (rows : List Fields) → inventory o ≡ ok rows → o ≡ some rows
unfolding inventory
inventory-eq-ok none rows h = absurd (ground arith)
inventory-eq-ok (some r) rows h = ground arith

named-eq-ok : (o : Option String) (name : String) → named o ≡ ok name → o ≡ some name
unfolding named
named-eq-ok none name h = absurd (ground arith)
named-eq-ok (some n) name h = ground arith

module _ (r : Reader) (deployment_id : String) (vmid : ℕ) (expected : Option String) (row : Fields)
    (m : Member) where
  record Reported (config : Option Fields) (pending : Option (List Fields)) : Type 0 where
    config_is : Fields
    pending_is : List Fields
    has_config : config ≡ some config_is
    has_pending : pending ≡ some pending_is
    vm_id_is : m.vm_id ≡ vmid
    settled_is : IsSettled r deployment_id expected row config_is pending_is
    identity_is : identity_of r config_is ≡ ok m.uuid
    name_is : text_of (get_field "name" config_is) ≡ some m.vm_name
    digest_is : m.restore_digest ≡ restore_digest r config_is

  settled_member-Reported :
      (config : Fields) (pending : List Fields) (running : Bool)
      → settled_member r deployment_id vmid expected row config pending running ≡ ok m
      → Reported (some config) (some pending)
  unfolding settled_member
  settled_member-Reported config pending running h =
      let whole = is_settled_guest r deployment_id expected row config pending in
      let refusal = error 409 "SNAPSHOT_OWNERSHIP_CHANGED" in
      let (_, e, h₁) = >>=-eq-ok (raise_if (not whole) refusal) _ h in
      let (uuid, i, h₂) = >>=-eq-ok (identity_of r config) _ h₁ in
      let (name, n, h₃) = >>=-eq-ok (named (text_of (get_field "name" config))) _ h₂ in
      let sound = raise_if-eq-ok (not whole) refusal e in
      let named_so = named-eq-ok (text_of (get_field "name" config)) name n in
      let made : member_of r vmid config running uuid name ≡ m = ground arith in
      record {
        config_is = config;
        pending_is = pending;
        has_config = refl;
        has_pending = refl;
        vm_id_is = ap (λ y. y.vm_id) (sym made);
        settled_is =
            is_settled_guest-IsSettled r deployment_id expected row config pending
              (ground (arith, sound));
        identity_is = i ∙ ap (λ y. ok y.uuid) made;
        name_is = named_so ∙ ap (λ y. some y.vm_name) made;
        digest_is = ap (λ y. y.restore_digest) (sym made);
      }

  report-Reported :
      (config : Option Fields) (pending : Option (List Fields)) (status : Option Fields)
      → report r deployment_id vmid expected row config pending status ≡ ok m
      → Reported config pending
  unfolding report with_status
  report-Reported (some config) (some pending) (some status) h =
      elim (Option-cases (running_of (text_of (get_field "status" status)))) [
        | inl e ↦ absurd (ground arith)
        | inr (running, e) ↦ settled_member-Reported config pending running (ground arith)
      ]
  report-Reported none p s h = absurd (ground arith)
  report-Reported (some c) none s h = absurd (ground arith)
  report-Reported (some c) (some p) none h = absurd (ground arith)

module _ (r : Reader) (a : Answers) (host_overrides : Option (List (List ℕ)))
    (node deployment_id : String) (roster : List Fields) where
  observe_guest-Observed :
      (request : ℕ × Option String) (m : Member)
      → observe_guest r a host_overrides node deployment_id roster request ≡ ok m
      → Observed r a host_overrides node deployment_id roster request m
  unfolding observe_guest
  observe_guest-Observed (vmid, expected) m h =
      let (_, safe, h₁) = >>=-eq-ok (assert_vmid_safe vmid host_overrides) _ h in
      let rows = select (λ row. is_vmid vmid (get_field "vmid" row)) roster in
      let (row, one, h₂) = >>=-eq-ok (the_row node rows) _ h₁ in
      let (config, c, h₃) = >>=-eq-ok (a.config vmid) _ h₂ in
      let (pending, q, h₄) = >>=-eq-ok (a.pending vmid) _ h₃ in
      let (status, _, h₅) = >>=-eq-ok (a.status vmid) _ h₄ in
      let (single, placed) = the_row-eq-ok node rows row one in
      let p = report-Reported r deployment_id vmid expected row m config pending status h₅ in
      record {
        row = row;
        config = p.config_is;
        pending = p.pending_is;
        same_vmid = p.vm_id_is;
        safe = safe;
        single = single;
        placed = is_placed-IsPlaced node row placed;
        configured = c ∙ ap ok p.has_config;
        asked = q ∙ ap ok p.has_pending;
        settled = p.settled_is;
        identity = p.identity_is;
        name = p.name_is;
        digest = p.digest_is;
      }

  -- Requests and results agree one by one.
  abbrev pub AllObserved : List (ℕ × Option String) → List Member → Type 0
  AllObserved [] [] = Unit
  AllObserved [] (m ∷ ms) = ⊥
  AllObserved (q ∷ qs) [] = ⊥
  AllObserved (q ∷ qs) (m ∷ ms) =
      Observed r a host_overrides node deployment_id roster q m × AllObserved qs ms

  observe_guests-Observed :
      (requests : List (ℕ × Option String)) (members : List Member)
      → observe_guests r a host_overrides node deployment_id roster requests ≡ ok members
      → AllObserved requests members
  unfolding observe_guests
  observe_guests-Observed [] [] h = tt
  observe_guests-Observed [] (m ∷ ms) h = absurd (ground arith)
  observe_guests-Observed (q ∷ qs) members h =
      let (first, e, h₁) =
        >>=-eq-ok (observe_guest r a host_overrides node deployment_id roster q) _ h in
      let (rest, f, h₂) =
        >>=-eq-ok (observe_guests r a host_overrides node deployment_id roster qs) _ h₁ in
      let whole : first ∷ rest ≡ members = ground arith in
      subst (AllObserved (q ∷ qs)) whole
        (observe_guest-Observed q first e, observe_guests-Observed qs rest f)

-- An observation that succeeds returns the requested guests in their order. The VMID of each is not
-- protected and has one row on the cluster, a QEMU guest of the node that is no template; its name,
-- UUID and restore digest are those of its configuration, which carries the deployment's mark and
-- the name of the row and of the request, and has no template mark and no lock; and none of its
-- pending entries, as the cluster lists them, is a change or a deletion.
pub observe-Observed :
    (r : Reader) (a : Answers) (host_overrides : Option (List (List ℕ)))
    (node deployment_id : String) (requests : List (ℕ × Option String)) (members : List Member)
    → observe r a host_overrides node deployment_id requests ≡ ok members
    → (roster : List Fields) × (a.roster ≡ ok (some roster))
      × AllObserved r a host_overrides node deployment_id roster requests members
unfolding observe
observe-Observed r a host_overrides node deployment_id requests members h =
    let (answer, e, h₁) = >>=-eq-ok a.roster _ h in
    let (roster, f, h₂) = >>=-eq-ok (inventory answer) _ h₁ in
    (
      roster,
      e ∙ ap ok (inventory-eq-ok answer roster f),
      observe_guests-Observed r a host_overrides node deployment_id roster requests members h₂,
    )
