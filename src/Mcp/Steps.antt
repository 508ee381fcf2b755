-- ===== src/Mcp/Steps.antt =====
-- The parts of a call (backend/internal/mcp/service.go): what is known of it, its job, and the
-- changes of the store on the way to each of its ends.
use proxmaster.Prelude.{
  ℕ, String, ◌==◌, ◌≡◌, Bool, true, false, not, Option, none, some, [], ◌∷◌, if◌then◌else◌,
}
use proxmaster.Prelude.Int.{pos}
use proxmaster.Prelude.Text.{default_text, trim_space}
use proxmaster.Models.{
  Params, bool, str, map_value, RiskLevel, JobStatus, DecisionType, Job, AuditEvent, McpCallRequest,
  McpCallResponse,
}
use proxmaster.Risk.{classify, hard_block_reason}
use proxmaster.Health.{GateEvaluator, Snapshot, snapshot_from_state, validate_for_write, explain}
use proxmaster.Policy.{Decision, evaluate}
use proxmaster.Store.{MemoryStore}
use proxmaster.Store.Jobs.{
  create_job, update_job, get_job_by_idempotency_key, add_audit, record_incident,
}
use proxmaster.Store.Cluster.{cluster_state}
use proxmaster.Store.Mode.{get_policy_mode}

abbrev pub Clock : Type 0
Clock = ℕ → ℕ

-- `(map[string]any, error)`
pub data Result : Type 0 where
  ok : Params → Result
  err : String → Result

-- How a tool ends: with an answer, or with a panic, which nothing in the program recovers.
pub data Ending : Type 0 where
  answered : Result → Ending
  panicked : Ending

abbrev pub is_panic : Ending → Bool
is_panic (answered res) = false
is_panic panicked = true

-- The calls that the store keeps a record of.
pub record SameRecords (s t : MemoryStore) : Type 0 where
  pub jobs_same : t.jobs ≡ s.jobs
  pub keys_same : t.by_idem_key ≡ s.by_idem_key
  pub audits_same : t.audits ≡ s.audits
  pub incidents_same : t.incidents ≡ s.incidents

-- orchestrator.Execute
pub record Executor (R : Type 0) : Type 0 where
  pub run : Clock → String → Params → MemoryStore → R → Ending × MemoryStore × R
  pub run_same :
      (clock : Clock) (tool : String) (params : Params) (s : MemoryStore) (r : R)
      → SameRecords s (run clock tool params s r).1

abbrev pub blank_job : Job
blank_job = record {
  id = "";
  idempotency_key = "";
  tool = "";
  input = [];
  risk = RiskLevel.unset;
  decision = DecisionType.unset;
  required_approvals = pos 0;
  rollback_plan_id = "";
  status = JobStatus.unset;
  status_history = [];
  result = [];
  error = "";
  created_at = 0;
  updated_at = 0;
}

abbrev pub blank_audit : AuditEvent
blank_audit = record {
  id = "";
  action = "";
  actor = "";
  risk = RiskLevel.unset;
  approved = false;
  metadata = [];
  created_at = 0;
}

abbrev pub waits : JobStatus → Bool
waits JobStatus.pending_approval = true
waits JobStatus.blocked = true
waits _ = false

-- The answer to a call whose idempotency key is known.
abbrev pub recorded : Job → McpCallResponse
recorded job = record {
  job = job;
  job_id = job.id;
  risk_level = job.risk;
  decision = job.decision;
  required_approvals = job.required_approvals;
  rollback_plan_id = job.rollback_plan_id;
  hard_blocked = false;
  needs_approve = waits job.status;
  audit_event = blank_audit;
  output = [];
  drift_delta = [];
}

-- What is known of a call before anything is recorded.
pub record Assessment : Type 0 where
  pub risk : RiskLevel
  pub hard_blocked : Bool
  pub snapshot : Snapshot
  pub decision : Decision

abbrev pub is_low : RiskLevel → Bool
is_low RiskLevel.low = true
is_low _ = false

-- Only calls that are not a low risk go through the health gates.
abbrev pub gate_for : GateEvaluator → RiskLevel → Snapshot → Bool × String
gate_for gate risk snapshot =
    if not (is_low risk) then validate_for_write gate snapshot else (true, "")

-- Readings 0 to 3.
unfoldable pub assess :
    GateEvaluator → Clock → McpCallRequest → MemoryStore → Assessment × MemoryStore
assess gate clock req s =
    let risk = classify req.tool req.params in
    let (hard_blocked, hard_reason) = hard_block_reason req.tool req.params risk in
    let snapshot = snapshot_from_state gate (clock 0) (cluster_state s) in
    let (gate_ok, gate_reason) = gate_for gate risk snapshot in
    let (mode, s') = get_policy_mode (clock 1) (clock 2) s in
    let decision =
      evaluate risk hard_blocked hard_reason req.approve_now gate_ok gate_reason req.hardware_mfa
        (trim_space req.second_approver) mode (clock 3) in
    (
      record { risk = risk; hard_blocked = hard_blocked; snapshot = snapshot; decision = decision },
      s',
    )

abbrev pub planned_job : McpCallRequest → Assessment → Job
planned_job req a = record blank_job {
  idempotency_key = req.idempotency_key;
  tool = req.tool;
  input = req.params;
  risk = a.risk;
  decision = a.decision.decision_type;
  required_approvals = a.decision.required_approvals;
  status = JobStatus.planned;
}

abbrev pub audit_metadata : GateEvaluator → McpCallRequest → Assessment → Params
audit_metadata gate req a =
    ("decision_reason", str a.decision.reason)
    ∷ ("metadata", map_value req.metadata)
    ∷ ("health_gate", map_value (explain gate a.snapshot))
    ∷ ("second_approver", str req.second_approver)
    ∷ ("hardware_mfa", bool req.hardware_mfa)
    ∷ ("idempotency_key_set", bool (not (req.idempotency_key == "")))
    ∷ []

-- Readings 4 and 5: the job and the audit event.
unfoldable pub register :
    GateEvaluator
    → Clock
    → McpCallRequest
    → Assessment
    → MemoryStore
    → Job × AuditEvent × MemoryStore
register gate clock req a s =
    let (job, s₁) = create_job (clock 4) (planned_job req a) s in
    let (audit, s₂) =
      add_audit (clock 5) req.tool req.actor a.risk req.approve_now (audit_metadata gate req a)
        s₁ in
    (job, audit, s₂)

abbrev pub response : Job → AuditEvent → Assessment → McpCallResponse
response job audit a = record {
  job = job;
  job_id = job.id;
  risk_level = a.risk;
  decision = a.decision.decision_type;
  required_approvals = a.decision.required_approvals;
  rollback_plan_id = job.rollback_plan_id;
  hard_blocked = a.hard_blocked;
  needs_approve = a.decision.needs_review;
  audit_event = audit;
  output = [];
  drift_delta = [];
}

abbrev pub is_blocked : DecisionType → Bool
is_blocked DecisionType.blocked = true
is_blocked _ = false

abbrev pub held_status : DecisionType → JobStatus
held_status DecisionType.requires_approval = JobStatus.pending_approval
held_status _ = JobStatus.blocked

-- The job of a call that may not run.
abbrev pub held : Decision → Job → Job
held d job = record job { status = held_status d.decision_type; error = d.reason }

-- Readings 6 and 7.
unfoldable pub hold : Clock → Decision → Job → MemoryStore → MemoryStore
hold clock d job s = update_job (clock 7) (held d job) (
    if is_blocked d.decision_type
    then (record_incident (clock 6) "policy_block" "warning" d.reason s).1
    else s)

abbrev pub or_empty : Option Params → Params
or_empty none = []
or_empty (some m) = m

abbrev pub with_status : JobStatus → Job → Job
with_status status job = record job { status = status }

abbrev pub failed_job : String → Job → Job
failed_job reason job = record job { status = JobStatus.failed; error = reason }

abbrev pub completed_job : Params → Job → Job
completed_job out job = record job { status = JobStatus.completed; result = out }

-- Readings 8 and 9: the job is approved and running.
unfoldable pub start : Clock → Job → MemoryStore → MemoryStore
start clock job s =
    update_job (clock 9) (with_status JobStatus.running job)
      (update_job (clock 8) (with_status JobStatus.approved job) s)

-- Readings 10 and 11.
unfoldable pub fail : Clock → String → Job → MemoryStore → MemoryStore
fail clock reason job s =
    update_job (clock 11) (failed_job reason job)
      (record_incident (clock 10) "job_failed" "critical" reason s).1

-- Readings 12 and 13.
unfoldable pub complete : Clock → Params → Job → MemoryStore → MemoryStore
complete clock out job s =
    update_job (clock 13) (completed_job out job)
      (update_job (clock 12) (with_status JobStatus.verified job) s)

abbrev pub with_actor : McpCallRequest → McpCallRequest
with_actor req = record req { actor = default_text "android-admin" req.actor }

abbrev pub known_job : McpCallRequest → MemoryStore → Option Job
known_job req s =
    if not (req.idempotency_key == "")
    then get_job_by_idempotency_key req.idempotency_key s
    else none
