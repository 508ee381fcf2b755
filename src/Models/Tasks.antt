-- ===== src/Models/Tasks.antt =====
-- Tasks of the autonomy queue, declarative specs and blueprints.
use proxmaster.Prelude.{ℕ, String, Bool, Option, List}
use proxmaster.Prelude.Int.{ℤ}
use proxmaster.Prelude.Dict.{Dict}
use proxmaster.Models.Any.{Params}

pub data AgentTaskStatus : Type 0 where
  unset queued running completed failed : AgentTaskStatus

pub record AgentTask : Type 0 where
  pub id : String
  pub task_type : String
  pub payload : Option Params  -- none is a nil map
  pub status : AgentTaskStatus
  pub requested_by : String
  pub priority : ℤ
  pub max_attempts : ℤ
  pub dead_letter : Bool
  pub result : Params
  pub error : String
  pub attempts : ℤ
  pub created_at : ℕ
  pub updated_at : ℕ
  pub started_at : Option ℕ
  pub finished_at : Option ℕ

pub data DriftStatus : Type 0 where
  unset in_sync pending drifted error : DriftStatus

pub record ResourceSpec : Type 0 where
  pub desired : Params
  pub observed : Params
  pub drift_status : DriftStatus
  pub last_reconcile_job_id : String
  pub spec_version : ℤ
  pub updated_at : ℕ

pub record WorkloadSpec : Type 0 where
  pub id : String
  pub name : String
  pub kind : String
  pub node_id : String
  pub cpu : ℤ
  pub memory_mb : ℤ
  pub disk_gb : ℤ
  pub desired_power : String
  pub template_id : String
  pub cloud_init : Dict String
  pub tags : List String

pub record ServiceBlueprintSpec : Type 0 where
  pub name : String
  pub version : String
  pub workload : WorkloadSpec
  pub parameters : Params

pub record DesiredStateBundle : Type 0 where
  pub cluster : ResourceSpec
  pub storage : ResourceSpec
  pub network : ResourceSpec
  pub backup : ResourceSpec
  pub workloads : ResourceSpec
  pub blueprints : ResourceSpec

pub record BlueprintDefinition : Type 0 where
  pub name : String
  pub version : String
  pub description : String
  pub provision_kind : String
  pub default_cpu : ℤ
  pub default_mem_mb : ℤ
  pub default_disk_gb : ℤ
  pub ansible_roles : List String
  pub health_checks : List String
  pub rollback_steps : List String
  pub parameters : Params
