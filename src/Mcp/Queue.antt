-- ===== src/Mcp/Queue.antt =====
-- The autonomy queue over a call (backend/internal/mcp/service.go).
use mathlib.Core.Path.{subst}
use proxmaster.Prelude.{◌+◌, String, ◌≡◌, sym, ◌∙◌, arith, Bool-cases, inl, inr, Option-cases}
use proxmaster.Prelude.Dict.{Dict}
use proxmaster.Models.{Params, AgentTask, Job, AuditEvent, McpCallRequest, McpCallResponse}
use proxmaster.Health.{GateEvaluator}
use proxmaster.Policy.{Decision}
use proxmaster.Store.{MemoryStore}
use proxmaster.Store.Mode.{get_policy_mode}
use proxmaster.Store.Jobs.{create_job, update_job, add_audit, record_incident}
use proxmaster.Mcp.{
  Clock, ok, err, Ending, answered, panicked, Executor, Assessment, assess, register, hold, start,
  fail, complete, settle, run_job, carry_out, handle_new, handle_call, response, known_job,
  with_actor,
}

pub hold-tasks :
    (clock : Clock) (d : Decision) (job : Job) (s : MemoryStore)
    → (hold clock d job s).agent_tasks ≡ s.agent_tasks
unfolding hold update_job record_incident
hold-tasks clock d job s = ground arith

pub register-tasks :
    (gate : GateEvaluator) (clock : Clock) (req : McpCallRequest) (a : Assessment) (s : MemoryStore)
    → (register gate clock req a s).2.agent_tasks ≡ s.agent_tasks
unfolding register create_job add_audit
register-tasks gate clock req a s = ground arith

pub assess-tasks :
    (gate : GateEvaluator) (clock : Clock) (req : McpCallRequest) (s : MemoryStore)
    → (assess gate clock req s).1.agent_tasks ≡ s.agent_tasks
unfolding assess get_policy_mode
assess-tasks gate clock req s = ground arith

module _ {R : Type 0} (executor : Executor R) (gate : GateEvaluator) (Q : Dict AgentTask → Type 0)
    (run_keeps : (clock : Clock) (tool : String) (params : Params) (s : MemoryStore) (r : R)
      → Q s.agent_tasks
      → Q (executor.run clock tool params s r).1.agent_tasks) where
  settle_keeps :
      (clock : Clock) (job : Job) (resp : McpCallResponse) (out : Ending × MemoryStore × R)
      → Q out.1.agent_tasks
      → Q (settle executor gate clock job resp out).1.agent_tasks
  unfolding complete fail update_job record_incident
  settle_keeps clock job resp (answered (ok out), s, r) q = q
  settle_keeps clock job resp (answered (err reason), s, r) q = q
  settle_keeps clock job resp (panicked, s, r) q = q

  run_job_keeps :
      (clock : Clock) (req : McpCallRequest) (job : Job) (resp : McpCallResponse) (s : MemoryStore)
      (r : R)
      → Q s.agent_tasks
      → Q (run_job executor gate clock req job resp s r).1.agent_tasks
  unfolding run_job start update_job
  run_job_keeps clock req job resp s r q =
      let later : Clock = λ n. clock (14 + n) in
      settle_keeps clock job resp (executor.run later req.tool req.params (start clock job s) r)
        (run_keeps later req.tool req.params (start clock job s) r q)

  carry_out_keeps :
      (clock : Clock) (req : McpCallRequest) (a : Assessment) (job : Job) (audit : AuditEvent)
      (s : MemoryStore) (r : R)
      → Q s.agent_tasks
      → Q (carry_out executor gate clock req a (job, audit, s) r).1.agent_tasks
  carry_out_keeps clock req a job audit s r q = elim (Bool-cases a.decision.allow) [
    | inl allowed ↦ simp allowed (run_job_keeps clock req job (response job audit a) s r q)
    | inr refused ↦ simp refused (subst Q (sym (hold-tasks clock a.decision job s)) q)
  ]

  handle_new_keeps :
      (clock : Clock) (req : McpCallRequest) (s : MemoryStore) (r : R)
      → Q s.agent_tasks
      → Q (handle_new executor gate clock req s r).1.agent_tasks
  unfolding handle_new
  handle_new_keeps clock req s r q =
      let (a, s') = assess gate clock req s in
      let (job, audit, t) = register gate clock req a s' in
      carry_out_keeps clock req a job audit t r
        (subst Q (sym (register-tasks gate clock req a s' ∙ assess-tasks gate clock req s)) q)

  -- What the orchestrator keeps of the queue is kept by the whole call.
  pub handle_call_keeps :
      (clock : Clock) (req : McpCallRequest) (s : MemoryStore) (r : R)
      → Q s.agent_tasks
      → Q (handle_call executor gate clock req s r).1.agent_tasks
  unfolding handle_call
  handle_call_keeps clock req s r q = elim (Option-cases (known_job req s)) [
    | inl fresh ↦ rw (fresh, handle_call) (handle_new_keeps clock (with_actor req) s r q)
    | inr (job, known) ↦ rw (known, handle_call) q
  ]
