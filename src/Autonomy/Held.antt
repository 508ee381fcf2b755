-- ===== src/Autonomy/Held.antt =====
-- The worker's run of a task of a high risk (backend/internal/autonomy/service.go).
use proxmaster.Prelude.{String, ◌≡◌, some, ◌⊎◌}
use proxmaster.Prelude.Dict.{Dict, lookup}
use proxmaster.Models.{ClusterState, AgentTask, AgentTaskStatus, Job, JobStatus}
use proxmaster.Store.{MemoryStore}
use proxmaster.Store.Jobs.{get_job_by_idempotency_key}

-- The task of an identifier is there, as failed or as one that waits to be tried again.
abbrev NotDone : String → Dict AgentTask → Type 0
NotDone id m =
    (t : AgentTask) × (lookup id m ≡ some t)
    × ((t.status ≡ AgentTaskStatus.failed) ⊎ (t.status ≡ AgentTaskStatus.queued))

abbrev pub IsNotDone : String → MemoryStore → Type 0
IsNotDone id s = NotDone id s.agent_tasks

-- The job that a key stands for waits for approval, or is blocked.
abbrev pub HasWaitingJob : String → MemoryStore → Type 0
HasWaitingJob key s =
    (j : Job) × (get_job_by_idempotency_key key s ≡ some j)
    × ((j.status ≡ JobStatus.pending_approval) ⊎ (j.status ≡ JobStatus.blocked))

-- What the worker writes at the end of a task leaves the rest of the store.
abbrev Rest : MemoryStore → ClusterState × Dict Job × Dict String
Rest s = (s.state, s.jobs, s.by_idem_key)

abbrev Waits : JobStatus → Type 0
Waits st = (st ≡ JobStatus.pending_approval) ⊎ (st ≡ JobStatus.blocked)
