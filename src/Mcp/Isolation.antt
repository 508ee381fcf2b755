-- ===== src/Mcp/Isolation.antt =====
-- The jobs of the other calls over a call (backend/internal/mcp/service.go).
use proxmaster.Prelude.{
  ◌+◌, ◌<◌, String, ◌≡◌, refl, sym, ap, ◌∙◌, ◌≢◌, some, arith, Bool-cases, inl, inr,
}
use proxmaster.Prelude.Int.{word_limit}
use proxmaster.Prelude.Dict.{lookup}
use proxmaster.Models.{Params, Job, AuditEvent, McpCallRequest, McpCallResponse}
use proxmaster.Health.{GateEvaluator}
use proxmaster.Policy.{Decision}
use proxmaster.Store.{MemoryStore}
use proxmaster.Store.Mode.{get_policy_mode}
use proxmaster.Store.Jobs.{create_job, add_audit, record_incident}
use proxmaster.Store.Jobs.Laws.{lookup-create_job_ne, lookup-update_job_ne}
use proxmaster.Store.Jobs.Fresh.{IsNumbered, unused}
use proxmaster.Mcp.{
  Clock, ok, err, Ending, answered, panicked, Executor, Assessment, assess, register, held, hold,
  start, fail, complete, failed_job, completed_job, settle, run_job, carry_out, handle_new,
  planned_job, response,
}

module _ (clock : Clock) (job : Job) (s : MemoryStore) (k : String) (other : job.id ≢ k) where
  hold_others : (d : Decision) → lookup k (hold clock d job s).jobs ≡ lookup k s.jobs
  unfolding hold record_incident
  hold_others d =
      lookup-update_job_ne (clock 7) (held d job) _ k other ∙ ap (lookup k) (ground arith)

  start_others : lookup k (start clock job s).jobs ≡ lookup k s.jobs
  unfolding start
  start_others =
      lookup-update_job_ne (clock 9) _ _ k other ∙ lookup-update_job_ne (clock 8) _ s k other

  complete_others : (out : Params) → lookup k (complete clock out job s).jobs ≡ lookup k s.jobs
  unfolding complete
  complete_others out =
      lookup-update_job_ne (clock 13) (completed_job out job) _ k other
      ∙ lookup-update_job_ne (clock 12) _ s k other

  fail_others : (reason : String) → lookup k (fail clock reason job s).jobs ≡ lookup k s.jobs
  unfolding fail record_incident
  fail_others reason = lookup-update_job_ne (clock 11) (failed_job reason job) _ k other

module _ {R : Type 0} (executor : Executor R) (gate : GateEvaluator) where
  settle_others :
      (clock : Clock) (job : Job) (resp : McpCallResponse) (out : Ending × MemoryStore × R)
      (k : String)
      → job.id ≢ k
      → lookup k (settle executor gate clock job resp out).1.jobs ≡ lookup k out.1.jobs
  settle_others clock job resp (answered (ok out), s, r) k other =
      complete_others clock job s k other out
  settle_others clock job resp (answered (err reason), s, r) k other =
      fail_others clock job s k other reason
  settle_others clock job resp (panicked, s, r) k other = refl

  run_job_others :
      (clock : Clock) (req : McpCallRequest) (job : Job) (resp : McpCallResponse) (s : MemoryStore)
      (r : R) (k : String)
      → job.id ≢ k
      → lookup k (run_job executor gate clock req job resp s r).1.jobs ≡ lookup k s.jobs
  unfolding run_job
  run_job_others clock req job resp s r k other =
      settle_others clock job resp _ k other
      ∙ ap (lookup k)
          (executor.run_same (λ n. clock (14 + n)) req.tool req.params (start clock job s)
            r).jobs_same
      ∙ start_others clock job s k other

  carry_out_others :
      (clock : Clock) (req : McpCallRequest) (a : Assessment) (job : Job) (audit : AuditEvent)
      (s : MemoryStore) (r : R) (k : String)
      → job.id ≢ k
      → lookup k (carry_out executor gate clock req a (job, audit, s) r).1.jobs ≡ lookup k s.jobs
  carry_out_others clock req a job audit s r k other = elim (Bool-cases a.decision.allow) [
    | inl allowed ↦ simp allowed (run_job_others clock req job (response job audit a) s r k other)
    | inr refused ↦ simp refused (hold_others clock job s k other a.decision)
  ]

  register_others :
      (clock : Clock) (req : McpCallRequest) (a : Assessment) (s : MemoryStore) (k : String)
      → (create_job (clock 4) (planned_job req a) s).0.id ≢ k
      → lookup k (register gate clock req a s).2.jobs ≡ lookup k s.jobs
  unfolding register add_audit
  register_others clock req a s k other =
      lookup-create_job_ne (clock 4) (planned_job req a) s k other

  -- The assessment leaves the jobs and the counter of identifiers.
  assess-jobs :
      (clock : Clock) (req : McpCallRequest) (s : MemoryStore)
      → ((assess gate clock req s).1.jobs ≡ s.jobs) × ((assess gate clock req s).1.seq ≡ s.seq)
  unfolding assess get_policy_mode
  assess-jobs clock req s = ground arith

  assess-IsNumbered :
      (clock : Clock) (req : McpCallRequest) (s : MemoryStore)
      → IsNumbered s
      → IsNumbered (assess gate clock req s).1
  assess-IsNumbered clock req s numbered k j found =
      let (jobs, seq) = assess-jobs clock req s in
      let (n, is_n, le) = numbered k j (ap (lookup k) (sym jobs) ∙ found) in
      (n, is_n, omega (arith, le, seq))

  -- Where every stored job has a number that the counter has passed, and the counter has not come to
  -- its end: after a call with no recorded answer, every job that was stored is stored as it was.
  pub handle_new_keeps_jobs :
      (clock : Clock) (req : McpCallRequest) (s : MemoryStore) (r : R)
      → IsNumbered s
      → s.seq + 1 < word_limit
      → let (resp, t, r') = handle_new executor gate clock req s r in
        (k : String) (j : Job) → lookup k s.jobs ≡ some j → lookup k t.jobs ≡ some j
  unfolding handle_new register
  handle_new_keeps_jobs clock req s r numbered room k j found =
      let (a, s') = assess gate clock req s in
      let (job, audit, t) = register gate clock req a s' in
      let (jobs, seq) = assess-jobs clock req s in
      let stored = ap (lookup k) jobs ∙ found in
      let other =
        unused (clock 4) (planned_job req a) s' (assess-IsNumbered clock req s numbered)
          (omega (arith, room, seq)) k j stored in
      carry_out_others clock req a job audit t r k other
      ∙ register_others clock req a s' k other
      ∙ stored
