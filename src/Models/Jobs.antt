-- ===== src/Models/Jobs.antt =====
-- Jobs, audit events and incidents. `unset` is the zero value of an enumerated text.
use proxmaster.Prelude.{ℕ, String, Bool, List}
use proxmaster.Prelude.Int.{ℤ}
use proxmaster.Models.Any.{Params}

pub data RiskLevel : Type 0 where
  unset low medium high : RiskLevel

pub data JobStatus : Type 0 where
  unset planned approved running verified completed aborted rolled_back failed blocked
        pending_approval :
      JobStatus

pub data DecisionType : Type 0 where
  unset auto_run requires_approval blocked : DecisionType

abbrev pub status_text : JobStatus → String
status_text JobStatus.unset = ""
status_text JobStatus.planned = "PLANNED"
status_text JobStatus.approved = "APPROVED"
status_text JobStatus.running = "RUNNING"
status_text JobStatus.verified = "VERIFIED"
status_text JobStatus.completed = "COMPLETED"
status_text JobStatus.aborted = "ABORTED"
status_text JobStatus.rolled_back = "ROLLED_BACK"
status_text JobStatus.failed = "FAILED"
status_text JobStatus.blocked = "BLOCKED"
status_text JobStatus.pending_approval = "PENDING_APPROVAL"

abbrev pub decision_text : DecisionType → String
decision_text DecisionType.unset = ""
decision_text DecisionType.auto_run = "AUTO_RUN"
decision_text DecisionType.requires_approval = "REQUIRES_APPROVAL"
decision_text DecisionType.blocked = "BLOCKED"

pub JobStatus-discrete : Discrete JobStatus
JobStatus-discrete = hlevel

pub record Job : Type 0 where
  pub id : String
  pub idempotency_key : String
  pub tool : String
  pub input : Params
  pub risk : RiskLevel
  pub decision : DecisionType
  pub required_approvals : ℤ
  pub rollback_plan_id : String
  pub status : JobStatus
  pub status_history : List JobStatus
  pub result : Params
  pub error : String
  pub created_at : ℕ
  pub updated_at : ℕ

pub record AuditEvent : Type 0 where
  pub id : String
  pub action : String
  pub actor : String
  pub risk : RiskLevel
  pub approved : Bool
  pub metadata : Params
  pub created_at : ℕ

pub record Incident : Type 0 where
  pub id : String
  pub kind : String
  pub severity : String
  pub message : String
  pub created_at : ℕ

pub record McpCallRequest : Type 0 where
  pub tool : String
  pub params : Params
  pub actor : String
  pub approve_now : Bool
  pub idempotency_key : String
  pub reauth_token : String
  pub second_approver : String
  pub hardware_mfa : Bool
  pub metadata : Params

pub record McpCallResponse : Type 0 where
  pub job : Job
  pub job_id : String
  pub risk_level : RiskLevel
  pub decision : DecisionType
  pub required_approvals : ℤ
  pub rollback_plan_id : String
  pub hard_blocked : Bool
  pub needs_approve : Bool
  pub audit_event : AuditEvent
  pub output : Params
  pub drift_delta : Params

pub record PolicySimulationRequest : Type 0 where
  pub tool : String
  pub params : Params
  pub approve_now : Bool
  pub health_state : String

pub record PolicySimulationResponse : Type 0 where
  pub risk_level : RiskLevel
  pub decision : DecisionType
  pub reason : String
  pub required_approvals : ℤ
  pub hard_blocked : Bool
