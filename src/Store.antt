-- ===== src/Store.antt =====
-- backend/internal/store/memory.go: the store in memory, and its counters. Each method is a
-- function on the record; the readings of the clock that it makes are arguments, in order. A
-- method holds the store's lock throughout, or where it does not (`CreateJob`, `AddAudit`,
-- `RecordIncident`, `CreateAgentTask`), what it does outside the lock is local to the call or an
-- atomic counter; so calls are taken one after another.
pub mod Initial
pub mod Jobs
pub mod Tasks
pub mod Cluster
pub mod Backup
pub mod Specs
pub mod Mode
pub mod Listings
pub mod Ledger
use proxmaster.Prelude.{ℕ, ◌+◌, ◌%◌, String, ◌<>◌, List}
use proxmaster.Prelude.Int.{word_limit}
use proxmaster.Prelude.Text.{show_nat, show_padded}
use proxmaster.Prelude.Dict.{Dict}
use proxmaster.Models.{
  Job, AuditEvent, Incident, ClusterState, BackupPolicy, BackupTarget, BackupDecisionLog,
  StorageRebuildPlan, RestorePlan, AgentTask, ResourceSpec, BlueprintDefinition,
  ServiceBlueprintSpec, PolicyModeState,
}

pub record MemoryStore : Type 0 where
  pub jobs : Dict Job
  pub by_idem_key : Dict String
  pub audits : List AuditEvent
  pub incidents : List Incident
  pub state : ClusterState
  pub backup_policies : Dict BackupPolicy
  pub backup_targets : Dict BackupTarget
  pub decision_logs : List BackupDecisionLog
  pub rebuild_plans : Dict StorageRebuildPlan
  pub restore_plans : Dict RestorePlan
  pub agent_tasks : Dict AgentTask
  pub specs : Dict (Dict ResourceSpec)
  pub blueprints : Dict BlueprintDefinition
  pub blueprint_specs : Dict ServiceBlueprintSpec
  pub policy_mode : PolicyModeState
  pub seq : ℕ  -- uint64
  pub vm_id_seq : ℕ  -- uint64
  pub rollback_id_seq : ℕ  -- uint64

-- atomic.AddUint64(p, 1)
abbrev pub next : ℕ → ℕ
next n = (n + 1) % word_limit

abbrev pub next_id : String → MemoryStore → String × MemoryStore
next_id prefix s = let n = next s.seq in (prefix <> "-" <> show_padded n, record s { seq = n })

abbrev pub next_vm_id : MemoryStore → String × MemoryStore
next_vm_id s =
    let n = next s.vm_id_seq in (show_nat ((200 + n) % word_limit), record s { vm_id_seq = n })

abbrev pub next_rollback_plan_id : MemoryStore → String × MemoryStore
next_rollback_plan_id s =
    let n = next s.rollback_id_seq in
    ("rollback-" <> show_padded n, record s { rollback_id_seq = n })
