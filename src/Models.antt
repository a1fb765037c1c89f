-- ===== src/Models.antt =====
-- core/models.py, core/snapshot_models.py and core/allocation_models.py: the rows that the modelled
-- operations read or write. A column that holds one of a fixed set of texts is a data type with a
-- constructor for each text; a time is a number of seconds; a column that no modelled operation
-- reads (names, descriptions, URLs of other domains) is left out.
mod Ownership
unfoldable pub use Ownership.*
use range42_backend_api.Prelude.{ℕ, String, Bool, Option, List, Eq}
use range42_backend_api.Prelude.Table.{get}

-- An exit status of a process; `negsuc n` is -(n + 1), a death by a signal.
pub data ℤ : Type 0 where
  pos : ℕ → ℤ
  negsuc : ℕ → ℤ

-- The texts of `Attempt.state` and `Deployment.state`.
pub data AttemptState : Type 0 where
  pending running deploying : AttemptState
  succeeded completed partial failed cancelled unknown : AttemptState

AttemptState-discrete : Discrete AttemptState
AttemptState-discrete = hlevel

instance unfoldable pub state_eq : Eq AttemptState
unfolding AttemptState-discrete
state_eq = record { dec = AttemptState-discrete }

-- `Deployment.native`: the actions of its descriptor, where the descriptor lists them.
pub record Native : Type 0 where
  pub actions : Option (List String)

pub record Deployment : Type 0 where
  pub id : String
  pub codename : String
  pub scenario_label : String
  pub target_host_id : String
  pub project_sha : Option String
  pub native : Option Native
  pub team_count : ℕ
  pub state : AttemptState
  pub current_attempt_id : Option String
  pub workspace_path : String

pub record Attempt : Type 0 where
  pub id : String
  pub deployment_id : String
  pub scope : String
  pub project_sha : Option String
  pub team_id : Option ℤ
  pub state : AttemptState
  pub sub_reason : Option String
  pub rc : Option ℤ
  pub started_at : Option ℕ
  pub ended_at : Option ℕ
  pub event_cursor_tip : ℕ
  pub pid : Option ℕ
  pub artifact_dir : Option String

pub record WorkspaceLock : Type 0 where
  pub deployment_id : String
  pub owner : Owner
  pub acquired_at : ℕ
  pub heartbeat_at : ℕ
  pub heartbeat_interval_s : ℕ

-- The texts of `SnapshotOperation.kind`.
pub data SnapshotKind : Type 0 where
  create rollback delete : SnapshotKind

-- The texts of `SnapshotOperation.state`.
pub data OperationState : Type 0 where
  planned running needs_review succeeded partial failed cancelled superseded : OperationState

-- The texts of `SnapshotSet.state`.
pub data SetState : Type 0 where
  planned creating rolling_back deleting : SetState
  complete partial failed deleted needs_review : SetState

-- The texts of a member's `state` in the journal of an operation.
pub data MemberState : Type 0 where
  planned dispatching accepted unconfirmed not_started succeeded failed : MemberState

-- The result of `_snapshot`: what a native snapshot is recognised by.
pub record SnapshotProof : Type 0 where
  pub snaptime : ℕ
  pub config_digest : String

-- A row of `SnapshotOperation.members`.
pub record JournalRow : Type 0 where
  pub vm_id : ℕ
  pub state : MemberState
  pub code : Option String
  pub upid : Option String
  pub snapshot : Option SnapshotProof

-- A guest as `observe` reports it, and as a set or a plan stores it.
pub record Member : Type 0 where
  pub vm_id : ℕ
  pub vm_name : String
  pub uuid : String
  pub config_digest : String
  pub restore_digest : String
  pub running : Bool

-- A row of `SnapshotSet.members`: the guest at the creation, and the snapshot once it is verified.
pub record SetMember : Type 0 where
  pub member : Member
  pub snapshot : Option SnapshotProof

pub record RetentionPolicy : Type 0 where
  pub keep_count : ℕ
  pub keep_days : ℕ

pub record SnapshotSet : Type 0 where
  pub id : String
  pub deployment_id : String
  pub project_sha : Option String
  pub host_id : String
  pub target_digest : String
  pub native_name : String
  pub state : SetState
  pub members : List SetMember
  pub created_at : ℕ

-- `SnapshotOperation.plan`, in the fields that execution reads.
pub record Plan : Type 0 where
  pub members : List Member
  pub snapshots : List (ℕ × SnapshotProof)
  pub retention : Option RetentionPolicy

pub record SnapshotOperation : Type 0 where
  pub id : String
  pub set_id : String
  pub kind : SnapshotKind
  pub state : OperationState
  pub plan_digest : String
  pub plan : Plan
  pub members : List JournalRow
  pub attempt_id : Option String
  pub created_at : ℕ
  pub expires_at : ℕ

-- The tables that the attempts of a deployment live in.
pub record Db : Type 0 where
  pub deployments : List Deployment
  pub attempts : List Attempt
  pub locks : List WorkspaceLock
  pub operations : List SnapshotOperation
  pub snapshots : List SnapshotSet

abbrev pub deployment? : Db → String → Option Deployment
deployment? db k = get (λ d. d.id) k db.deployments

abbrev pub attempt? : Db → String → Option Attempt
attempt? db k = get (λ a. a.id) k db.attempts

abbrev pub lock? : Db → String → Option WorkspaceLock
lock? db k = get (λ l. l.deployment_id) k db.locks

abbrev pub operation? : Db → String → Option SnapshotOperation
operation? db k = get (λ o. o.id) k db.operations

abbrev pub snapshot? : Db → String → Option SnapshotSet
snapshot? db k = get (λ s. s.id) k db.snapshots
