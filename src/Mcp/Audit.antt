-- ===== src/Mcp/Audit.antt =====
-- The audit events of a call with no recorded answer (backend/internal/mcp/service.go).
use proxmaster.Prelude.{◌+◌, ◌≡◌, refl, sym, ap, ◌∙◌, List, [], ◌∷◌, ◌++◌, arith}
use proxmaster.Models.{Job, AuditEvent, McpCallRequest, McpCallResponse}
use proxmaster.Health.{GateEvaluator}
use proxmaster.Store.{MemoryStore}
use proxmaster.Store.Mode.{get_policy_mode}
use proxmaster.Store.Jobs.{create_job, update_job, add_audit, record_incident}
use proxmaster.Mcp.{
  Clock, ok, err, Ending, answered, panicked, Executor, Assessment, assess, register, hold, start,
  fail, complete, settle, run_job, carry_out, handle_new, response,
}

module _ {R : Type 0} (executor : Executor R) (gate : GateEvaluator) where
  -- A later part of the call keeps the events and the answer's own event.
  abbrev Keeps : AuditEvent → List AuditEvent → McpCallResponse × MemoryStore × R → Type 0
  Keeps event events (resp, t, r) = (t.audits ≡ events) × (resp.audit_event ≡ event)

  settle-Keeps :
      (clock : Clock) (job : Job) (resp : McpCallResponse) (out : Ending × MemoryStore × R)
      → Keeps resp.audit_event out.1.audits (settle executor gate clock job resp out)
  unfolding complete fail update_job record_incident
  settle-Keeps clock job resp (answered (ok out), s, r) = (refl, refl)
  settle-Keeps clock job resp (answered (err reason), s, r) = (refl, refl)
  settle-Keeps clock job resp (panicked, s, r) = (refl, refl)

  run_job-Keeps :
      (clock : Clock) (req : McpCallRequest) (job : Job) (resp : McpCallResponse) (s : MemoryStore)
      (r : R)
      → Keeps resp.audit_event s.audits (run_job executor gate clock req job resp s r)
  unfolding run_job start update_job
  run_job-Keeps clock req job resp s r =
      let later : Clock = λ n. clock (14 + n) in
      let kept =
        settle-Keeps clock job resp
          (executor.run later req.tool req.params (start clock job s) r) in
      (
        kept.0 ∙ (executor.run_same later req.tool req.params (start clock job s) r).audits_same,
        kept.1,
      )

  carry_out-Keeps :
      (clock : Clock) (req : McpCallRequest) (a : Assessment) (job : Job) (audit : AuditEvent)
      (s : MemoryStore) (r : R)
      → Keeps audit s.audits (carry_out executor gate clock req a (job, audit, s) r)
  unfolding hold update_job record_incident
  carry_out-Keeps clock req a job audit s r =
      ground (arith, run_job-Keeps clock req job (response job audit a) s r)

  register-audits :
      (clock : Clock) (req : McpCallRequest) (a : Assessment) (s : MemoryStore)
      → let (job, audit, t) = register gate clock req a s in t.audits ≡ s.audits ++ audit ∷ []
  unfolding register create_job add_audit
  register-audits clock req a s = ground arith

  assess-audits :
      (clock : Clock) (req : McpCallRequest) (s : MemoryStore)
      → (assess gate clock req s).1.audits ≡ s.audits
  unfolding assess get_policy_mode
  assess-audits clock req s = ground arith

  -- A call with no recorded answer adds one audit event, the one of its answer, behind those that
  -- were there; none is changed or lost.
  pub handle_new-audits :
      (clock : Clock) (req : McpCallRequest) (s : MemoryStore) (r : R)
      → let (resp, t, r') = handle_new executor gate clock req s r in
        t.audits ≡ s.audits ++ resp.audit_event ∷ []
  unfolding handle_new
  handle_new-audits clock req s r =
      let (a, s') = assess gate clock req s in
      let (job, audit, t) = register gate clock req a s' in
      let kept = carry_out-Keeps clock req a job audit t r in
      kept.0
      ∙ register-audits clock req a s'
      ∙ ap (λ l. l ++ audit ∷ []) (assess-audits clock req s)
      ∙ ap (λ e. s.audits ++ e ∷ []) (sym kept.1)
