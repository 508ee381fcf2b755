-- ===== src/Mcp/Outcome.antt =====
-- The job table after a call with no recorded answer (backend/internal/mcp/service.go).
use mathlib.Core.Path.{subst}
use proxmaster.Prelude.{
  ℕ, ◌+◌, Bool, true, false, ◌&&◌, String, ◌≡◌, refl, sym, ap, ◌∙◌, ◌≢◌, some, List, [], ◌∷◌, arith,
  Bool-cases, inl, inr, ◌⊎◌, if◌then◌else◌,
}
use proxmaster.Prelude.Dict.{lookup}
use proxmaster.Models.{
  Params, JobStatus, DecisionType, Job, AuditEvent, McpCallRequest, McpCallResponse,
}
use proxmaster.Health.{GateEvaluator}
use proxmaster.Policy.{Decision}
use proxmaster.Store.{MemoryStore}
use proxmaster.Store.Jobs.{
  update_job, create_job, add_audit, record_incident, merged_job, extended_history,
}
use proxmaster.Store.Jobs.Laws.{extended_history-one, lookup-update_job, lookup-create_job}
use proxmaster.Mcp.{
  Clock, ok, err, Ending, answered, panicked, Executor, Assessment, assess, register, held, hold,
  start, fail, complete, with_status, failed_job, completed_job, settle, run_job, carry_out,
  handle_new, new_panics, is_panic, held_status, is_blocked, planned_job, response,
}

-- A job as the table keeps it at the end of a call: the history names the first status and the
-- last one.
abbrev pub settled : ℕ → Job → Job
settled now job = record job {
  status_history = JobStatus.planned ∷ job.status ∷ [];
  updated_at = now;
}

abbrev pub IsFinal : JobStatus → Type 0
IsFinal st =
    (st ≡ JobStatus.completed)
    ⊎ ((st ≡ JobStatus.failed) ⊎ ((st ≡ JobStatus.pending_approval) ⊎ (st ≡ JobStatus.blocked)))

final-ne_planned : (st : JobStatus) → IsFinal st → st ≢ JobStatus.planned
final-ne_planned st h e = ground arith

-- The table has an entry of the job, whose own copy has the history of a new job.
record Tracked (id : String) (history : List JobStatus) (s : MemoryStore) : Type 0 where
  fresh : history ≡ JobStatus.planned ∷ []
  prev : Job
  found : lookup id s.jobs ≡ some prev

abbrev IsTracked : Job → MemoryStore → Type 0
IsTracked job s = Tracked job.id job.status_history s

merged_job-settled :
    (prev job : Job) (now : ℕ)
    → job.status_history ≡ JobStatus.planned ∷ []
    → job.status ≢ JobStatus.planned
    → merged_job (some prev) (record job { updated_at = now }) ≡ settled now job
unfolding merged_job
merged_job-settled prev job now e h =
    let same : extended_history prev.status_history job.status_history job.status
        ≡ JobStatus.planned ∷ job.status ∷ [] =
      rw e
        (extended_history-one prev.status_history JobStatus.planned job.status (λ p. h (sym p))) in
    λ i. record job { status_history = same i; updated_at = now }

update_job-settled :
    (now : ℕ) (job : Job) (s : MemoryStore)
    → IsTracked job s
    → job.status ≢ JobStatus.planned
    → lookup job.id (update_job now job s).jobs ≡ some (settled now job)
update_job-settled now job s t h =
    lookup-update_job now job s t.found ∙ ap some (merged_job-settled t.prev job now t.fresh h)

-- An update of the same job, under any status, keeps the entry.
update_job-IsTracked :
    (now : ℕ) (job : Job) (st : JobStatus) (s : MemoryStore)
    → IsTracked job s
    → IsTracked job (update_job now (with_status st job) s)
update_job-IsTracked now job st s t = record {
  fresh = t.fresh;
  prev = merged_job (some t.prev) (record job { status = st; updated_at = now });
  found = lookup-update_job now (with_status st job) s t.found;
}

move-IsTracked :
    (job : Job) (s t : MemoryStore) → t.jobs ≡ s.jobs → IsTracked job s → IsTracked job t
move-IsTracked job s t same tr = record {
  fresh = tr.fresh;
  prev = tr.prev;
  found = rw same tr.found;
}

held_status-IsFinal : (d : DecisionType) → IsFinal (held_status d)
held_status-IsFinal DecisionType.requires_approval = inr (inr (inl refl))
held_status-IsFinal DecisionType.unset = inr (inr (inr refl))
held_status-IsFinal _ = inr (inr (inr refl))

module _ (clock : Clock) (job : Job) (s : MemoryStore) (t : IsTracked job s) where
  start-IsTracked : IsTracked job (start clock job s)
  unfolding start
  start-IsTracked = update_job-IsTracked _ job _ _ (update_job-IsTracked _ job _ s t)

  lookup-start :
      lookup job.id (start clock job s).jobs
      ≡ some (settled (clock 9) (with_status JobStatus.running job))
  unfolding start
  lookup-start =
      update_job-settled (clock 9) (with_status JobStatus.running job) _
        (update_job-IsTracked (clock 8) job JobStatus.approved s t) (λ e. cc)

  lookup-complete :
      (out : Params)
      → lookup job.id (complete clock out job s).jobs
        ≡ some (settled (clock 13) (completed_job out job))
  unfolding complete
  lookup-complete out =
      update_job-settled (clock 13) (completed_job out job) _
        (update_job-IsTracked (clock 12) job JobStatus.verified s t)
        (final-ne_planned JobStatus.completed (inl refl))

  lookup-fail :
      (reason : String)
      → lookup job.id (fail clock reason job s).jobs
        ≡ some (settled (clock 11) (failed_job reason job))
  unfolding fail record_incident
  lookup-fail reason =
      update_job-settled (clock 11) (failed_job reason job) _
        (move-IsTracked job s (record_incident (clock 10) "job_failed" "critical" reason s).1 refl
          t)
        (final-ne_planned JobStatus.failed (inr (inl refl)))

  incident_if_blocked-jobs :
      (d : Decision)
      → (if is_blocked d.decision_type
          then (record_incident (clock 6) "policy_block" "warning" d.reason s).1
          else s).jobs
        ≡ s.jobs
  unfolding record_incident
  incident_if_blocked-jobs d = ground arith

  lookup-hold :
      (d : Decision)
      → lookup job.id (hold clock d job s).jobs ≡ some (settled (clock 7) (held d job))
  unfolding hold
  lookup-hold d =
      update_job-settled (clock 7) (held d job) _
        (move-IsTracked job s _ (incident_if_blocked-jobs d) t)
        (final-ne_planned (held_status d.decision_type) (held_status-IsFinal d.decision_type))

-- How the job of a call ends: after a panic of its tool, which gives no answer, it stays running.
abbrev pub IsEnd : Bool → JobStatus → Type 0
IsEnd true st = st ≡ JobStatus.running
IsEnd false st = IsFinal st

-- What a call, whose tool panics or does not, leaves of its job in the table.
pub record Recorded (key : String) (panics : Bool) (resp : McpCallResponse) (t : MemoryStore)
    : Type 0 where
  pub at : ℕ
  pub entry : lookup resp.job_id t.jobs ≡ some (settled at resp.job)
  pub final : IsEnd panics resp.job.status
  pub same_id : resp.job.id ≡ resp.job_id
  pub same_key : resp.job.idempotency_key ≡ key

module _ {R : Type 0} (executor : Executor R) (gate : GateEvaluator) where
  settle-Recorded :
      (clock : Clock) (job : Job) (resp : McpCallResponse) (out : Ending × MemoryStore × R)
      → resp.job_id ≡ job.id
      → IsTracked job out.1
      → lookup job.id out.1.jobs ≡ some (settled (clock 9) (with_status JobStatus.running job))
      → let (resp', t, r) = settle executor gate clock job resp out in
        Recorded job.idempotency_key (is_panic out.0) resp' t
  settle-Recorded clock job resp (answered (ok out), s, r) e t started = record {
    at = clock 13;
    entry = rw e (lookup-complete clock job s t out);
    final = inl refl;
    same_id = sym e;
    same_key = refl;
  }
  settle-Recorded clock job resp (answered (err reason), s, r) e t started = record {
    at = clock 11;
    entry = rw e (lookup-fail clock job s t reason);
    final = inr (inl refl);
    same_id = sym e;
    same_key = refl;
  }
  settle-Recorded clock job resp (panicked, s, r) e t started = record {
    at = clock 9;
    entry = rw e started;
    final = refl;
    same_id = sym e;
    same_key = refl;
  }

  register-IsTracked :
      (clock : Clock) (req : McpCallRequest) (a : Assessment) (s : MemoryStore)
      → let (job, audit, t) = register gate clock req a s in IsTracked job t
  unfolding register create_job add_audit
  register-IsTracked clock req a s = record {
    fresh = refl;
    prev = (create_job (clock 4) (planned_job req a) s).0;
    found = lookup-create_job (clock 4) (planned_job req a) s;
  }

  run_job-Recorded :
      (clock : Clock) (req : McpCallRequest) (job : Job) (resp : McpCallResponse) (s : MemoryStore)
      (r : R)
      → resp.job_id ≡ job.id
      → IsTracked job s
      → let (resp', t, r') = run_job executor gate clock req job resp s r in
        Recorded job.idempotency_key
          (is_panic
            (executor.run (λ n. clock (14 + n)) req.tool req.params (start clock job s) r).0)
          resp'
          t
  unfolding run_job
  run_job-Recorded clock req job resp s r e t =
      let out = executor.run (λ n. clock (14 + n)) req.tool req.params (start clock job s) r in
      let same =
        (executor.run_same (λ n. clock (14 + n)) req.tool req.params (start clock job s)
          r).jobs_same in
      settle-Recorded clock job resp out e
        (move-IsTracked job (start clock job s) out.1 same (start-IsTracked clock job s t))
        (ap (lookup job.id) same ∙ lookup-start clock job s t)

  carry_out-Recorded :
      (clock : Clock) (req : McpCallRequest) (a : Assessment) (job : Job) (audit : AuditEvent)
      (s : MemoryStore) (r : R)
      → IsTracked job s
      → let (resp, t, r') = carry_out executor gate clock req a (job, audit, s) r in
        Recorded job.idempotency_key
          (a.decision.allow
            && is_panic
                (executor.run (λ n. clock (14 + n)) req.tool req.params (start clock job s) r).0)
          resp
          t
  unfolding hold
  carry_out-Recorded clock req a job audit s r t = elim (Bool-cases a.decision.allow) [
    | inl yes_run ↦ rw yes_run (run_job-Recorded clock req job (response job audit a) s r refl t)
    | inr held_back ↦ rw held_back (record {
      at = clock 7;
      entry = lookup-hold clock job s t a.decision;
      final = held_status-IsFinal a.decision.decision_type;
      same_id = refl;
      same_key = refl;
    })
  ]

  register-key :
      (clock : Clock) (req : McpCallRequest) (a : Assessment) (s : MemoryStore)
      → (register gate clock req a s).0.idempotency_key ≡ req.idempotency_key
  unfolding register create_job
  register-key clock req a s = refl

  -- A call with no recorded answer ends with its job completed, failed, waiting for approval or
  -- blocked; unless its tool panics, and then the job stays running. The job table then has the job
  -- under its identifier, as `settled` says: its history is the first status and the last one, and no
  -- status in between.
  pub handle_new-Recorded :
      (clock : Clock) (req : McpCallRequest) (s : MemoryStore) (r : R)
      → let (resp, t, r') = handle_new executor gate clock req s r in
        Recorded req.idempotency_key (new_panics executor gate clock req s r) resp t
  unfolding handle_new new_panics
  handle_new-Recorded clock req s r =
      let (a, s') = assess gate clock req s in
      let (job, audit, t) = register gate clock req a s' in
      subst
        (λ k.
          Recorded k (new_panics executor gate clock req s r)
            (carry_out executor gate clock req a (job, audit, t) r).0
            (carry_out executor gate clock req a (job, audit, t) r).1)
        (register-key clock req a s')
        (carry_out-Recorded clock req a job audit t r (register-IsTracked clock req a s'))
