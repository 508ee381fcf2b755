-- ===== src/Models/Reports.antt =====
-- The JSON objects of jobs, events, tasks and the answers to calls (backend/internal/models/types.go).
use proxmaster.Prelude.{ℕ, String, Option, none, some, List, [], ◌∷◌, ◌++◌}
use proxmaster.Models.Any.{Params, Value, str, int, bool, time, map_value}
use proxmaster.Models.Jobs.{
  RiskLevel, Job, AuditEvent, Incident, McpCallResponse, PolicySimulationResponse, status_text,
  decision_text,
}
use proxmaster.Models.Tasks.{AgentTask, AgentTaskStatus}
use proxmaster.Models.Json.{array, text_field, map_field}

abbrev risk_text : RiskLevel → String
risk_text RiskLevel.unset = ""
risk_text RiskLevel.low = "LOW"
risk_text RiskLevel.medium = "MEDIUM"
risk_text RiskLevel.high = "HIGH"

abbrev task_status_text : AgentTaskStatus → String
task_status_text AgentTaskStatus.unset = ""
task_status_text AgentTaskStatus.queued = "QUEUED"
task_status_text AgentTaskStatus.running = "RUNNING"
task_status_text AgentTaskStatus.completed = "COMPLETED"
task_status_text AgentTaskStatus.failed = "FAILED"

abbrev list_field : {A : Type 0} → String → (A → Value) → List A → Params
list_field name f [] = []
list_field name f (x ∷ xs) = (name, array f (x ∷ xs)) ∷ []

abbrev time_field : String → Option ℕ → Params
time_field name none = []
time_field name (some t) = (name, time t) ∷ []

abbrev or_empty : Option Params → Params
or_empty none = []
or_empty (some m) = m

unfoldable pub job_value : Job → Value
job_value j = map_value (
    ("id", str j.id)
    ∷ (text_field "idempotency_key" j.idempotency_key
        ++ ("tool", str j.tool)
          ∷ ("input", map_value j.input)
          ∷ ("risk", str (risk_text j.risk))
          ∷ ("decision", str (decision_text j.decision))
          ∷ ("required_approvals", int j.required_approvals)
          ∷ (text_field "rollback_plan_id" j.rollback_plan_id
              ++ ("status", str (status_text j.status))
                ∷ (list_field "status_history" (λ st. str (status_text st)) j.status_history
                    ++ (map_field "result" j.result
                        ++ (text_field "error" j.error
                            ++ ("created_at", time j.created_at)
                              ∷ ("updated_at", time j.updated_at)
                              ∷ []))))))

unfoldable pub audit_value : AuditEvent → Value
audit_value a = map_value (
    ("id", str a.id)
    ∷ ("action", str a.action)
    ∷ ("actor", str a.actor)
    ∷ ("risk", str (risk_text a.risk))
    ∷ ("approved", bool a.approved)
    ∷ ("metadata", map_value a.metadata)
    ∷ ("created_at", time a.created_at)
    ∷ [])

unfoldable pub incident_value : Incident → Value
incident_value i = map_value (
    ("id", str i.id)
    ∷ ("kind", str i.kind)
    ∷ ("severity", str i.severity)
    ∷ ("message", str i.message)
    ∷ ("created_at", time i.created_at)
    ∷ [])

unfoldable pub task_value : AgentTask → Value
task_value t = map_value (
    ("id", str t.id)
    ∷ ("type", str t.task_type)
    ∷ (map_field "payload" (or_empty t.payload)
        ++ ("status", str (task_status_text t.status))
          ∷ ("requested_by", str t.requested_by)
          ∷ ("priority", int t.priority)
          ∷ ("max_attempts", int t.max_attempts)
          ∷ ("dead_letter", bool t.dead_letter)
          ∷ (map_field "result" t.result
              ++ (text_field "error" t.error
                  ++ ("attempts", int t.attempts)
                    ∷ ("created_at", time t.created_at)
                    ∷ ("updated_at", time t.updated_at)
                    ∷ (time_field "started_at" t.started_at
                        ++ time_field "finished_at" t.finished_at)))))

unfoldable pub response_value : McpCallResponse → Value
unfolding job_value audit_value
response_value r = map_value (
    ("job", job_value r.job)
    ∷ ("job_id", str r.job_id)
    ∷ ("risk_level", str (risk_text r.risk_level))
    ∷ ("decision", str (decision_text r.decision))
    ∷ ("required_approvals", int r.required_approvals)
    ∷ (text_field "rollback_plan_id" r.rollback_plan_id
        ++ ("hard_blocked", bool r.hard_blocked)
          ∷ ("needs_approval", bool r.needs_approve)
          ∷ ("audit_event", audit_value r.audit_event)
          ∷ (map_field "output" r.output ++ map_field "drift_delta" r.drift_delta)))

unfoldable pub simulation_value : PolicySimulationResponse → Value
simulation_value r = map_value (
    ("risk_level", str (risk_text r.risk_level))
    ∷ ("decision", str (decision_text r.decision))
    ∷ ("reason", str r.reason)
    ∷ ("required_approvals", int r.required_approvals)
    ∷ ("hard_blocked", bool r.hard_blocked)
    ∷ [])
