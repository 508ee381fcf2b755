-- ===== src/Autonomy.antt =====
-- backend/internal/autonomy/service.go: the scheduler that files recurring tasks, and the worker
-- that runs the tasks of the queue as tool calls. The two loops and their tickers are a schedule of
-- ticks, each with its clock. A panic of a tool that the worker runs ends the process: the task's
-- call is the last thing that is done. The worker's write of "reconcile_job_id" goes into the map that the
-- stored task shares; that the retries of a task and the inputs of its jobs share the map too is
-- not modelled.
pub mod Retries
pub mod Held
use proxmaster.Prelude.{
  ℕ, ◌+◌, ◌*◌, String, ◌<>◌, ◌==◌, Bool, true, false, not, ◌||◌, ◌&&◌, Option, none, some, List, [],
  ◌∷◌, ltb, eqb, if◌then◌else◌,
}
use proxmaster.Prelude.Int.{ℤ, pos, ltb_ℤ, leb_ℤ, scale}
use proxmaster.Prelude.Text.{has_prefix}
use proxmaster.Prelude.Dict.{Dict, lookup, insert}
use proxmaster.Models.{
  Params, Value, bool, str, null, map_value, JobStatus, status_text, decision_text, AgentTask,
  AgentTaskStatus, McpCallRequest, McpCallResponse,
}
use proxmaster.Health.{GateEvaluator, second}
use proxmaster.Store.{MemoryStore}
use proxmaster.Store.Tasks.{
  blank_task, create_agent_task, claim_next_agent_task, complete_agent_task,
}
use proxmaster.Mcp.{Clock, Executor, handle_call, call_panics}

pub record Service : Type 0 where
  pub poll_every : ℤ  -- a duration
  pub last_scheduled : Dict ℕ

unfoldable pub new_service : ℤ → Service
new_service poll_every_sec = record {
  poll_every = scale (if ltb_ℤ poll_every_sec (pos 5) then pos 5 else poll_every_sec) second;
  last_scheduled = [];
}

abbrev minute : ℕ
minute = 60000000000

abbrev or_zero : Option ℕ → ℕ
or_zero none = 0
or_zero (some t) = t

abbrev recurring_task : String → AgentTask
recurring_task tool = record blank_task {
  task_type = tool;
  status = AgentTaskStatus.queued;
  payload = some [];
  requested_by = "autonomy-scheduler";
  priority = pos 50;
  max_attempts = pos 3;
}

-- The task was filed before, and less than `interval` ago.
abbrev is_recent : ℕ → ℕ → ℕ → Bool
is_recent now last interval = not (eqb last 0) && ltb now (last + interval)

-- `now` is compared and kept, and `later` stamps the task.
unfoldable pub schedule_once : ℕ → ℕ → String → ℕ → Service → MemoryStore → Service × MemoryStore
schedule_once now later tool interval svc s =
    if is_recent now (or_zero (lookup tool svc.last_scheduled)) interval then (svc, s) else (
      record svc { last_scheduled = insert tool now svc.last_scheduled },
      (create_agent_task later (recurring_task tool) s).1,
    )

unfoldable pub ensure_recurring_tasks : Clock → Service → MemoryStore → Service × MemoryStore
ensure_recurring_tasks clock svc s =
    let (svc₁, s₁) =
      schedule_once (clock 0) (clock 1) "storage.inventory.sync" (2 * minute) svc s in
    let (svc₂, s₂) =
      schedule_once (clock 2) (clock 3) "backup.verify.sample" (15 * minute) svc₁ s₁ in
    schedule_once (clock 4) (clock 5) "spec.reconcile.all" (1 * minute) svc₂ s₂

-- A lookup that misses gives the zero task.
abbrev or_blank : Option AgentTask → AgentTask
or_blank none = blank_task
or_blank (some t) = t

abbrev attempts_allowed : AgentTask → ℤ
attempts_allowed t = if leb_ℤ t.max_attempts (pos 0) then pos 3 else t.max_attempts

abbrev retry_of : AgentTask → AgentTask
retry_of t = record blank_task {
  task_type = t.task_type;
  payload = t.payload;
  requested_by = t.requested_by;
  priority = t.priority;
  max_attempts = attempts_allowed t;
}

abbrev dead_letter_of : AgentTask → String → Value → AgentTask
dead_letter_of t err result = record blank_task {
  task_type = "deadletter." <> t.task_type;
  payload = some (("origin_task_id", str t.id) ∷ ("error", str err) ∷ ("result", result) ∷ []);
  requested_by = "autonomy-worker";
  priority = pos 10;
  max_attempts = pos 1;
  dead_letter = true;
}

-- What is filed after a failed attempt.
abbrev successor : AgentTask → String → Value → AgentTask
successor t err result =
    if ltb_ℤ t.attempts (attempts_allowed t) then retry_of t else dead_letter_of t err result

-- `now` stamps the attempt, and `later` its successor.
unfoldable pub complete_with_retry : ℕ → ℕ → AgentTask → Params → String → MemoryStore → MemoryStore
complete_with_retry now later task result err s =
    let (updated, s₁) = complete_agent_task now task.id result err s in
    (create_agent_task later (successor (or_blank updated) err (map_value result)) s₁).1

abbrev or_empty : Option Params → Params
or_empty none = []
or_empty (some m) = m

-- The parameters of the call.
abbrev pub task_params : AgentTask → Params
task_params t = insert "reconcile_job_id" (str t.id) (or_empty t.payload)

-- The same write seen in the stored task, if its payload is not nil.
abbrev share_params : AgentTask → MemoryStore → MemoryStore
share_params t s = elim t.payload [
  | none ↦ s
  | some m ↦ record s {
    agent_tasks = insert t.id (record t { payload = some (task_params t) }) s.agent_tasks;
  }
]

abbrev task_call : AgentTask → McpCallRequest
task_call t = record {
  tool = t.task_type;
  params = task_params t;
  actor = "autonomy-worker";
  approve_now = false;
  idempotency_key = t.id;
  reauth_token = "";
  second_approver = "";
  hardware_mfa = false;
  metadata = ("source", str "autonomy-task") ∷ [];
}

abbrev task_result : McpCallResponse → Params
task_result resp =
    ("job_id", str resp.job_id)
    ∷ ("decision", str (decision_text resp.decision))
    ∷ ("status", str (status_text resp.job.status))
    ∷ ("output", map_value resp.output)
    ∷ []

abbrev stopped : JobStatus → Bool
stopped JobStatus.blocked = true
stopped JobStatus.pending_approval = true
stopped JobStatus.failed = true
stopped _ = false

abbrev or_default : String → String
or_default e = if e == "" then "task not completed automatically" else e

-- Empty if the job was completed.
abbrev task_error : McpCallResponse → String
task_error resp = if stopped resp.job.status then or_default resp.job.error else ""

-- Readings 1 and 2; `HandleCall` returns no error.
unfoldable pub conclude : Clock → AgentTask → McpCallResponse → MemoryStore → MemoryStore
conclude clock t resp s =
    let err = task_error resp in
    if not (err == "")
    then complete_with_retry (clock 1) (clock 2) t (task_result resp) err s
    else (complete_agent_task (clock 1) t.id (task_result resp) "" s).1

-- One tick of either loop.
pub data Tick : Type 0 where
  schedule : Clock → Tick
  work : Clock → Tick

module _ {R : Type 0} (executor : Executor R) (gate : GateEvaluator) where
  -- The task's call panics.
  unfoldable pub task_panics : Clock → AgentTask → MemoryStore → R → Bool
  task_panics clock t s r =
      not (has_prefix t.task_type "deadletter.")
      && call_panics executor gate (λ n. clock (3 + n)) (task_call t) (share_params t s) r

  -- The readings from 3 on are the call's.
  unfoldable pub run_task : Clock → AgentTask → MemoryStore → R → MemoryStore × R
  run_task clock t s r =
      if has_prefix t.task_type "deadletter."
      then ((complete_agent_task (clock 1) t.id (("dead_letter_ack", bool true) ∷ []) "" s).1, r)
      else let (resp, s', r') =
          handle_call executor gate (λ n. clock (3 + n)) (task_call t) (share_params t s) r in
        (if task_panics clock t s r then s' else conclude clock t resp s', r')

  abbrev run_claimed : Clock → Option AgentTask × MemoryStore → R → MemoryStore × R
  run_claimed clock (none, s) r = (s, r)
  run_claimed clock (some t, s) r = run_task clock t s r

  unfoldable pub run_once : Clock → MemoryStore → R → MemoryStore × R
  run_once clock s r = run_claimed clock (claim_next_agent_task (clock 0) s) r

  unfoldable pub tick : Tick → Service × MemoryStore × R → Service × MemoryStore × R
  tick (schedule clock) (svc, s, r) =
      let (svc', s') = ensure_recurring_tasks clock svc s in (svc', s', r)
  tick (work clock) (svc, s, r) = let (s', r') = run_once clock s r in (svc, s', r')

  abbrev claimed_panics : Clock → Option AgentTask × MemoryStore → R → Bool
  claimed_panics clock (none, s) r = false
  claimed_panics clock (some t, s) r = task_panics clock t s r

  -- A tick that ends the process.
  unfoldable pub is_last : Tick → Service × MemoryStore × R → Bool
  is_last (schedule clock) st = false
  is_last (work clock) (svc, s, r) = claimed_panics clock (claim_next_agent_task (clock 0) s) r

  unfoldable pub ticks : List Tick → Service × MemoryStore × R → Service × MemoryStore × R
  ticks [] st = st
  ticks (t ∷ ts) st = let rest = ticks ts (tick t st) in if is_last t st then tick t st else rest
