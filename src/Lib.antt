-- ===== src/Lib.antt =====
-- Models of the Range42 backend API, a FastAPI service that deploys training ranges on Proxmox. The
-- service keeps its state in SQL tables; a request or a background task is a sequence of short
-- transactions on them. Here the tables are the record `Models.Db`, and a transaction is a function
-- from the tables to the tables, with a `Result` where the code raises `Range42Error`. A raise
-- leaves the tables as they were, because the session is rolled back.
--
-- Prelude      notation, tests, results and keyed tables (`select`, `update`, `delete` by primary
--              key), with their lemmas
-- Models       app/core/models.py, app/core/snapshot_models.py: the rows of the tables and the
--              lookups by primary key. A text column with a fixed set of values is a data type.
--              An owner `attempt-<id>` of a lock is `Owner.attempt id`, any other text
--              `Owner.other`.
-- Processes    app/core/runner_detached.py: the identity of a process, read from a `Machine` that
--              stands for the file system and for /proc
-- Locks        app/core/locks.py: workspace locks with heartbeats, their takeover and their sweep.
--              Locks/Refinement reads the table as a map from deployments to leases
-- Lifecycle    app/core/attempt_lifecycle.py: start, heartbeat, progress and end of an attempt
-- Scenario     app/core/scenario.py and the action names of app/core/native_scenarios.py: which
--              action a deployment admits
-- Attempts     app/routes/v1/deployments/attempts.py (`reserve_attempt`) and
--              app/routes/v1/deployments/snapshots.py (`cancel_current_attempt`). Attempts/Steps
--              collects the transactions on attempts and locks, with the two of Snapshots that
--              begin and end an attempt, in one relation `Step`, whose closure `Reach` stands for
--              every interleaving of them.
-- Orphans      app/core/orphans.py: `reconcile_once`, the pass over the attempts that were left when
--              the service stopped. What it reads of the machine and of files is `Restart`.
-- Maintenance  app/core/maintenance_guard.py: `assert_idle`, the audit before the container is
--              replaced. The file system is `Disk` beside the machine.
-- Json         JSON values of events
-- Events       app/core/events.py: the numbered event file, its recovery and its reader. A file is
--              its complete lines and what is left unfinished at its end.
-- Redaction    app/core/redaction.py: the layers that take secrets out of events, and the pipeline
-- Overlay      app/overlay/resolve_secrets.py: references to secrets in a document become values
--              with the marker of the vault, which Redaction looks for. Overlay/Templates and
--              Overlay/Teams are app/overlay/expand_replication.py: a copy of each replicated node
--              for each team. Regular expressions, floats and printed numbers are `Python`.
-- Vmids        app/core/vmid_guard.py and app/core/allocation.py: protected ranges and the scan
--              for free VMIDs
-- Allocations  app/core/deployment_allocations.py, app/core/allocation_reservations.py and their
--              tables in app/core/allocation_models.py, as the record `Ledger`: claims of
--              deployments on VMIDs and addresses, and the leases of drafts. A row's `assignments`
--              stand as they are stored; fields that only drafts store are optional. Request and
--              Retained, Planning and Planning/Assigning are `_plan`, and Reserving is `reserve`,
--              with app/schemas/v1/allocation.py. `ipaddress` is the parameter `Ipv4`.
-- Capacity     app/core/host_capacity.py (`read_host_capacity`), and app/core/scenario_capacity.py in
--              Plans and Admission (`check_plan_capacity`), with the aggregate of checks of
--              app/core/preflight.py
-- Snapshots    app/core/snapshot_sets.py. Observation: `observe`. Planning: `plan_create`,
--              `plan_existing` and the retention candidates. Admission: `execute` up to its first
--              commit, and `cancel_plan`. Journal: the loop of `execute` over the members, as the
--              list of its commits and native writes, in order. Recovery: `reconcile_operation`
--              for one member. Closing: `reconcile_operation` for the operation, its attempt and
--              its lock.
--
-- How the parts interact: Attempts and Snapshots reserve a deployment for one attempt at a time.
-- Attempts does so with a guarded update of the deployment after a sweep of Locks, Snapshots with
-- `acquire_lock`; Lifecycle and Closing end the attempt and release its lock, and Orphans calls both
-- for attempts that nobody observes any more. Locks asks Processes whether the process of the
-- holder lives, and the journal of Snapshots for a snapshot operation. Maintenance reads the tables
-- of all of them before the service may be replaced.
--
-- Times are seconds on one clock that an operation receives as `now`. SQL statements that share a
-- transaction run without another in between, as SQLite guarantees. New identifiers, digests, the
-- lower case of a revision, tracked processes and signals, and the answers of the Proxmox API are
-- parameters of the operations that use them. The scan for VMIDs takes `scan_end - start` rounds as
-- its fuel; that is every candidate below the limit, so that the fuel never ends it early. The loop
-- of `reserve` has fuel for 4098 rounds: each round that goes on adds a probe, of which it allows
-- 4096. A search for a free value counts its candidates down. All other loops run over a list.
--
-- Columns that no modelled operation reads are left out of the rows, such as names, descriptions
-- and the JSON of an operation and of its result. Not modelled: the HTTP layer, schemas, logging,
-- Ansible and Git runs, the file layout of a workspace, the composition of a scenario, the
-- runtime operations, the single preflight checks and the proxying of
-- single Proxmox calls: they are input and output, or wait for a model of their own.
pub mod Prelude
pub mod Models
pub mod Json
pub mod Redaction
pub mod Events
pub mod Vmids
pub mod Processes
pub mod Locks
pub mod Lifecycle
pub mod Scenario
pub mod Attempts
pub mod Allocations
pub mod Snapshots
pub mod Capacity
pub mod Orphans
pub mod Maintenance
pub mod Overlay
