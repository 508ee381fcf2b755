-- ===== src/Store/Jobs.antt =====
-- Jobs, audit events and incidents of the store (backend/internal/store/memory.go).
pub mod Laws
pub mod Fresh
use proxmaster.Prelude.{
  ℕ, String, ◌==◌, Bool, true, false, not, ◌||◌, Option, none, some, List, [], ◌∷◌, ◌++◌, ltb,
  is_empty, last?, sort_by, if◌then◌else◌,
}
use proxmaster.Prelude.Dict.{lookup, insert, values}
use proxmaster.Models.{Params, RiskLevel, JobStatus, JobStatus-discrete, Job, AuditEvent, Incident}
use proxmaster.Store.{MemoryStore, next_id, next_rollback_plan_id}

abbrev status_or_planned : JobStatus → JobStatus
status_or_planned JobStatus.unset = JobStatus.planned
status_or_planned st = st

-- The identifiers that `CreateJob` hands out; the rollback plan's only if there is none yet.
abbrev job_rollback_id : Job → MemoryStore → String × MemoryStore
job_rollback_id job s =
    if job.rollback_plan_id == "" then next_rollback_plan_id s else (job.rollback_plan_id, s)

-- The job as `CreateJob` completes it.
abbrev fill_job : ℕ → String → String → Job → Job
fill_job now id rollback_id job =
    let status = status_or_planned job.status in
    record job {
      id = id;
      created_at = now;
      updated_at = now;
      status = status;
      status_history = if is_empty job.status_history then status ∷ [] else job.status_history;
      rollback_plan_id = rollback_id;
    }

-- The two writes under the lock.
abbrev put_new_job : Job → MemoryStore → MemoryStore
put_new_job job s = record s {
  jobs = insert job.id job s.jobs;
  by_idem_key =
      if not (job.idempotency_key == "")
      then insert job.idempotency_key job.id s.by_idem_key
      else s.by_idem_key;
}

unfoldable pub create_job : ℕ → Job → MemoryStore → Job × MemoryStore
create_job now job s =
    let (id, s₁) = next_id "job" s in
    let (rollback_id, s₂) = job_rollback_id job s₁ in
    let created = fill_job now id rollback_id job in (created, put_new_job created s₂)

-- `job.StatusHistory` is empty, or its last entry is not the job's status.
abbrev lacks_status : Option JobStatus → JobStatus → Bool
lacks_status none st = true
lacks_status (some l) st = elim (JobStatus-discrete l st) [ yes e ↦ false | no ne ↦ true ]

-- The history that `UpdateJob` stores for a job that is known: the caller's, or the stored one if
-- the caller has none, with the status added unless it is the last.
unfoldable pub extended_history : List JobStatus → List JobStatus → JobStatus → List JobStatus
extended_history stored given status =
    let base = if is_empty given then stored else given in
    if lacks_status (last? base) status then base ++ status ∷ [] else base

unfoldable pub merged_job : Option Job → Job → Job
merged_job none job = job
merged_job (some prev) job = record job {
  status_history = extended_history prev.status_history job.status_history job.status;
}

unfoldable pub update_job : ℕ → Job → MemoryStore → MemoryStore
update_job now job s =
    let stamped = record job { updated_at = now } in
    record s { jobs = insert job.id (merged_job (lookup job.id s.jobs) stamped) s.jobs }

unfoldable pub get_job : String → MemoryStore → Option Job
get_job id s = lookup id s.jobs

unfoldable pub get_job_by_idempotency_key : String → MemoryStore → Option Job
get_job_by_idempotency_key key s = elim (lookup key s.by_idem_key) [
  | none ↦ none
  | some id ↦ lookup id s.jobs
]

-- The newest first.
unfoldable pub list_jobs : MemoryStore → List Job
list_jobs s = sort_by (λ a b. ltb b.created_at a.created_at) (values s.jobs)

unfoldable pub add_audit :
    ℕ → String → String → RiskLevel → Bool → Params → MemoryStore → AuditEvent × MemoryStore
add_audit now action actor risk approved meta s =
    let (id, s₁) = next_id "audit" s in
    let event : AuditEvent = record {
      id = id;
      action = action;
      actor = actor;
      risk = risk;
      approved = approved;
      metadata = meta;
      created_at = now;
    } in
    (event, record s₁ { audits = s₁.audits ++ event ∷ [] })

unfoldable pub list_audit : MemoryStore → List AuditEvent
list_audit s = sort_by (λ a b. ltb b.created_at a.created_at) s.audits

unfoldable pub record_incident : ℕ → String → String → String → MemoryStore → Incident × MemoryStore
record_incident now kind severity message s =
    let (id, s₁) = next_id "incident" s in
    let incident : Incident = record {
      id = id;
      kind = kind;
      severity = severity;
      message = message;
      created_at = now;
    } in
    (incident, record s₁ { incidents = s₁.incidents ++ incident ∷ [] })

unfoldable pub list_incidents : MemoryStore → List Incident
list_incidents s = sort_by (λ a b. ltb b.created_at a.created_at) s.incidents
