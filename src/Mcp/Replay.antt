-- ===== src/Mcp/Replay.antt =====
-- Idempotency keys, and the calls that are repeated (backend/internal/mcp/service.go).
use mathlib.Core.Path.{subst}
use proxmaster.Prelude.{
  ℕ, ◌+◌, String, ◌≡◌, refl, sym, ap, ◌∙◌, ◌≢◌, ◌==◌, eq_iff, none, some, arith, Bool-cases, inl,
  inr,
}
use proxmaster.Prelude.Dict.{lookup}
use proxmaster.Models.{Job, AuditEvent, McpCallRequest, McpCallResponse}
use proxmaster.Health.{GateEvaluator}
use proxmaster.Store.{MemoryStore}
use proxmaster.Store.Jobs.{update_job, add_audit, record_incident, get_job_by_idempotency_key}
use proxmaster.Store.Jobs.Laws.{key-create_job}
use proxmaster.Mcp.{
  Clock, ok, err, Ending, answered, panicked, Executor, Assessment, assess, register, hold, start,
  fail, complete, settle, run_job, carry_out, handle_new, handle_call, known_job, with_actor,
  planned_job, response, recorded,
}
use proxmaster.Mcp.Outcome.{handle_new-Recorded, settled}

start-keys :
    (clock : Clock) (job : Job) (s : MemoryStore) → (start clock job s).by_idem_key ≡ s.by_idem_key
unfolding start update_job
start-keys clock job s = refl

pub known_job-fresh :
    (req : McpCallRequest) (s : MemoryStore)
    → get_job_by_idempotency_key req.idempotency_key s ≡ none
    → known_job req s ≡ none
known_job-fresh req s h = ground arith

known_job-entry :
    (req : McpCallRequest) (s : MemoryStore) {id : String} {job : Job}
    → req.idempotency_key ≢ ""
    → lookup req.idempotency_key s.by_idem_key ≡ some id
    → lookup id s.jobs ≡ some job
    → known_job req s ≡ some job
unfolding get_job_by_idempotency_key
known_job-entry req s named key entry = elim (Bool-cases (req.idempotency_key == "")) [
  | inl empty ↦ absurd (named ((eq_iff _ _).0 empty))
  | inr other ↦ rw other (rw (key, get_job_by_idempotency_key) entry)
]

module _ {R : Type 0} (executor : Executor R) (gate : GateEvaluator) where
  settle-keys :
      (clock : Clock) (job : Job) (resp : McpCallResponse) (out : Ending × MemoryStore × R)
      → (settle executor gate clock job resp out).1.by_idem_key ≡ out.1.by_idem_key
  unfolding complete fail update_job record_incident
  settle-keys clock job resp (answered (ok out), s, r) = refl
  settle-keys clock job resp (answered (err reason), s, r) = refl
  settle-keys clock job resp (panicked, s, r) = refl

  run_job-keys :
      (clock : Clock) (req : McpCallRequest) (job : Job) (resp : McpCallResponse) (s : MemoryStore)
      (r : R)
      → (run_job executor gate clock req job resp s r).1.by_idem_key ≡ s.by_idem_key
  unfolding run_job
  run_job-keys clock req job resp s r =
      settle-keys clock job resp _
      ∙ (executor.run_same (λ n. clock (14 + n)) req.tool req.params (start clock job s)
          r).keys_same
      ∙ start-keys clock job s

  carry_out-keys :
      (clock : Clock) (req : McpCallRequest) (a : Assessment) (job : Job) (audit : AuditEvent)
      (s : MemoryStore) (r : R)
      → (carry_out executor gate clock req a (job, audit, s) r).1.by_idem_key ≡ s.by_idem_key
  unfolding hold update_job record_incident
  carry_out-keys clock req a job audit s r =
      ground (arith, run_job-keys clock req job (response job audit a) s r)

  register-keys :
      (clock : Clock) (req : McpCallRequest) (a : Assessment) (s : MemoryStore)
      → req.idempotency_key ≢ ""
      → let (job, audit, t) = register gate clock req a s in
        lookup req.idempotency_key t.by_idem_key ≡ some job.id
  unfolding register add_audit
  register-keys clock req a s h = key-create_job (clock 4) (planned_job req a) s h

  settle-id :
      (clock : Clock) (job : Job) (resp : McpCallResponse) (out : Ending × MemoryStore × R)
      → (settle executor gate clock job resp out).0.job_id ≡ resp.job_id
  settle-id clock job resp (answered (ok out), s, r) = refl
  settle-id clock job resp (answered (err reason), s, r) = refl
  settle-id clock job resp (panicked, s, r) = refl

  run_job-id :
      (clock : Clock) (req : McpCallRequest) (job : Job) (resp : McpCallResponse) (s : MemoryStore)
      (r : R)
      → (run_job executor gate clock req job resp s r).0.job_id ≡ resp.job_id
  unfolding run_job
  run_job-id clock req job resp s r = settle-id clock job resp _

  carry_out-id :
      (clock : Clock) (req : McpCallRequest) (a : Assessment) (job : Job) (audit : AuditEvent)
      (s : MemoryStore) (r : R)
      → (carry_out executor gate clock req a (job, audit, s) r).0.job_id ≡ job.id
  carry_out-id clock req a job audit s r =
      ground (arith, run_job-id clock req job (response job audit a) s r)

  pub handle_new-keys :
      (clock : Clock) (req : McpCallRequest) (s : MemoryStore) (r : R)
      → req.idempotency_key ≢ ""
      → let (resp, t, r') = handle_new executor gate clock req s r in
        lookup req.idempotency_key t.by_idem_key ≡ some resp.job_id
  unfolding handle_new
  handle_new-keys clock req s r h =
      let (a, s') = assess gate clock req s in
      let (job, audit, t) = register gate clock req a s' in
      ap (lookup req.idempotency_key) (carry_out-keys clock req a job audit t r)
      ∙ register-keys clock req a s' h
      ∙ ap some (sym (carry_out-id clock req a job audit t r))

  -- What is said of the second call, for the first call's outcome.
  abbrev pub IsReplayed : Clock → McpCallRequest → McpCallResponse × MemoryStore × R → Type 0
  IsReplayed clock req (resp, t, r) =
      (at : ℕ) × (handle_call executor gate clock req t r ≡ (recorded (settled at resp.job), t, r))

  handle_new-replay :
      (clock clock' : Clock) (req req' : McpCallRequest) (s : MemoryStore) (r : R)
      → req.idempotency_key ≢ ""
      → req'.idempotency_key ≡ req.idempotency_key
      → IsReplayed clock' req' (handle_new executor gate clock req s r)
  unfolding handle_call
  handle_new-replay clock clock' req req' s r named same =
      let (resp, t, r') = handle_new executor gate clock req s r in
      let rec = handle_new-Recorded executor gate clock req s r in
      let named' : req'.idempotency_key ≢ "" = λ e. named (sym same ∙ e) in
      let key : lookup req'.idempotency_key t.by_idem_key ≡ some resp.job_id =
        ap (λ k. lookup k t.by_idem_key) same ∙ handle_new-keys clock req s r named in
      (rec.at, rw (known_job-entry req' t named' key rec.entry, handle_call))

  pub handle_call-fresh :
      (clock : Clock) (req : McpCallRequest) (s : MemoryStore) (r : R)
      → get_job_by_idempotency_key req.idempotency_key s ≡ none
      → handle_call executor gate clock req s r
        ≡ handle_new executor gate clock (with_actor req) s r
  unfolding handle_call
  handle_call-fresh clock req s r fresh = rw (known_job-fresh req s fresh, handle_call)

  -- After a call with an idempotency key that is set and not yet known, any call with the same key
  -- is answered with the job that the first one left in the table, and changes neither the store
  -- nor the rest of the process.
  pub handle_call-replay :
      (clock clock' : Clock) (req req' : McpCallRequest) (s : MemoryStore) (r : R)
      → req.idempotency_key ≢ ""
      → req'.idempotency_key ≡ req.idempotency_key
      → get_job_by_idempotency_key req.idempotency_key s ≡ none
      → IsReplayed clock' req' (handle_call executor gate clock req s r)
  handle_call-replay clock clock' req req' s r named same fresh =
      subst (IsReplayed clock' req') (sym (handle_call-fresh clock req s r fresh))
        (handle_new-replay clock clock' (with_actor req) req' s r named same)
