-- ===== src/Snapshots/Planning.antt =====
-- core/snapshot_sets.py: the reviewed plans. `_snapshot` (the proof of a native snapshot),
-- `_operation`, `plan_create` after its checkout, `plan_existing`, and the retention candidates.
mod Candidates
pub mod Plans
mod Proofs
mod Reviewed
mod Examples
use range42_backend_api.Prelude.{
  ℕ, ◌+◌, ◌*◌, String, ◌<>◌, Bool, true, false, not, ◌&&◌, ◌||◌, Option, none, some, List, [], ◌∷◌,
  ltb, leb, map, any, length, ◌==◌, ◌!=◌, contains, nat_eq, string_eq, option_eq, if◌then◌else◌,
  suc,
}
use range42_backend_api.Prelude.Table.{select}
use range42_backend_api.Prelude.Result.{Result, ok, raise, error, raise_if, ◌>>=◌, ◌>>◌}
use range42_backend_api.Models.{
  Db, Deployment, JournalRow, MemberState, Member, SetMember, Plan, RetentionPolicy, SnapshotKind,
  SnapshotOperation, SnapshotProof, SnapshotSet, OperationState, SetState, deployment?, snapshot?,
}
use range42_backend_api.Snapshots.Admission.{Host, blocked, hosted, binding}
use range42_backend_api.Snapshots.Recovery.{proof_eq}

-- A row of the snapshot list and the configuration of a snapshot, as the cluster answers. A
-- `snaptime` that is no positive integer is `none`; `is_changing` is a `snapstate` or a `vmstate`.
pub record NativeRow : Type 0 where
  pub name : String
  pub description : Option String
  pub snaptime : Option ℕ

pub record NativeConfig : Type 0 where
  pub is_changing : Bool
  pub config_digest : String

-- The last checks of `_snapshot`, on the one row of the set's name.
proof_of : SnapshotSet → Option NativeConfig → NativeRow → Result (Option SnapshotProof)
proof_of s none row =
    if row.description != some ("range42-snapshot-set:" <> s.id)
    then blocked "SNAPSHOT_OWNERSHIP_CHANGED"
    else blocked "SNAPSHOT_PLAN_STALE"
proof_of s (some config) row =
    if row.description != some ("range42-snapshot-set:" <> s.id)
    then blocked "SNAPSHOT_OWNERSHIP_CHANGED"
    else if config.is_changing
    then blocked "SNAPSHOT_PLAN_STALE"
    else elim row.snaptime [
      | none ↦ blocked "SNAPSHOT_PLAN_STALE"
      | some t ↦ ok (some (record { snaptime = t; config_digest = config.config_digest }))
    ]

matching : SnapshotSet → Option NativeConfig → List NativeRow → Result (Option SnapshotProof)
unfolding proof_of
matching s config [] = ok none
matching s config (row ∷ []) = proof_of s config row
matching s config (row ∷ other ∷ rest) = blocked "SNAPSHOT_OWNERSHIP_CHANGED"

-- `_snapshot`, from the list of a guest's snapshots and the configuration of the set's one.
unfoldable pub owned_snapshot :
    SnapshotSet → Option (List NativeRow) → Option NativeConfig → Result (Option SnapshotProof)
unfolding matching
owned_snapshot s none config = blocked "SNAPSHOT_PLAN_STALE"
owned_snapshot s (some rows) config =
    if ltb 4096 (length rows)
    then blocked "SNAPSHOT_PLAN_STALE"
    else matching s config (select (λ r. r.name == s.native_name) rows)

-- What a review reads: the hosts, the clock, new identifiers, the digest of a plan, the guests as
-- `observe` reports them, the native snapshots of a guest, and the order of identifiers in SQL.
pub record Review : Type 0 where
  pub hosts : String → Option Host
  pub now : ℕ
  pub new_id : String
  pub digest : String → SnapshotSet → SnapshotKind → Plan → String
  pub observe : List SetMember → Result (List Member)
  pub observe_new : List (ℕ × String) → Result (List Member)
  pub rows : ℕ → Option (List NativeRow)
  pub config : ℕ → Option NativeConfig
  pub id_before : String → String → Bool

-- `_operation`, with the plan that its caller completes
abbrev first_row : Member → JournalRow
first_row m = record {
  vm_id = m.vm_id;
  state = MemberState.planned;
  code = none;
  upid = none;
  snapshot = none;
}

abbrev pub new_operation : Review → SnapshotSet → SnapshotKind → Plan → SnapshotOperation
new_operation x s kind plan = record {
  id = x.new_id;
  set_id = s.id;
  kind = kind;
  state = OperationState.planned;
  plan_digest = x.digest x.new_id s kind plan;
  plan = plan;
  members = map first_row plan.members;
  attempt_id = none;
  created_at = x.now;
  expires_at = x.now + 300;
}

-- `order_by(created_at.desc(), id.desc())`
abbrev older : Review → SnapshotSet → SnapshotSet → Bool
older x a b = ltb a.created_at b.created_at || a.created_at == b.created_at && x.id_before a.id b.id

place : Review → SnapshotSet → List SnapshotSet → List SnapshotSet
place x s [] = s ∷ []
place x s (y ∷ ys) = let later = place x s ys in if older x s y then y ∷ later else s ∷ y ∷ ys

newest_first : Review → List SnapshotSet → List SnapshotSet
newest_first x [] = []
newest_first x (s ∷ rest) = place x s (newest_first x rest)

abbrev is_complete : SetState → Bool
is_complete SetState.complete = true
is_complete _ = false

-- The complete sets of a deployment, newest first.
unfoldable pub complete_sets : Review → Db → String → List SnapshotSet
unfolding newest_first place
complete_sets x db d =
    newest_first x (select (λ s. s.deployment_id == d && is_complete s.state) db.snapshots)

-- `created_at <= now - keep_days`
abbrev pub is_old : ℕ → RetentionPolicy → SnapshotSet → Bool
is_old now policy s = leb (s.created_at + policy.keep_days * 86400) now

-- `index >= keep_count and created_at <= cutoff`
unfoldable pub expired : ℕ → RetentionPolicy → ℕ → List SnapshotSet → List SnapshotSet
expired now policy index [] = []
expired now policy index (s ∷ rest) =
    let later = expired now policy (suc index) rest in
    if leb policy.keep_count index && is_old now policy s then s ∷ later else later

unfoldable pub retention_candidates :
    Review → Db → String → RetentionPolicy → Result (List SnapshotSet)
retention_candidates x db d policy =
    let sets = complete_sets x db d in
    if ltb 1000 (length sets)
    then blocked "SNAPSHOT_PLAN_STALE"
    else ok (expired x.now policy 0 sets)

-- `_check_retention`: the policy in force is the reviewed one and the set is still a candidate.
unfoldable pub check_retention :
    Review → Db → SnapshotSet → RetentionPolicy → RetentionPolicy → Result (Unit {0})
check_retention x db s current reviewed = do
  raise_if (current.keep_count != reviewed.keep_count || current.keep_days != reviewed.keep_days)
      (error 409 "SNAPSHOT_PLAN_STALE")
  candidates ← retention_candidates x db s.deployment_id reviewed
  raise_if (not (any (λ row. row.id == s.id) candidates)) (error 409 "SNAPSHOT_PLAN_STALE")
