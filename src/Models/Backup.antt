-- ===== src/Models/Backup.antt =====
-- Backup policies, the log of the choices between them, and the two kinds of plan.
use proxmaster.Prelude.{ℕ, String, Bool, List}
use proxmaster.Prelude.Int.{ℤ}

pub record BackupPolicy : Type 0 where
  pub id : String
  pub workload_id : String
  pub workload_kind : String
  pub priority : ℤ
  pub override : Bool
  pub schedule : String
  pub target_id : String
  pub rpo : String
  pub retention : String
  pub encryption : Bool
  pub immutability : Bool
  pub verify_restore : Bool
  pub updated_at : ℕ

pub record BackupDecisionLog : Type 0 where
  pub id : String
  pub workload_id : String
  pub policy_id : String
  pub reason : String
  pub created_at : ℕ

pub record StorageRebuildPlan : Type 0 where
  pub id : String
  pub pool_names : List String
  pub affected_workloads : List String
  pub estimated_downtime : String
  pub canary_pool : String
  pub guardrail_summary : String
  pub rollback_steps : List String
  pub dry_run_passed : Bool
  pub created_at : ℕ

pub record RestorePlan : Type 0 where
  pub id : String
  pub workload_id : String
  pub backup_target_id : String
  pub snapshot_ref : String
  pub dry_run_passed : Bool
  pub created_at : ℕ
