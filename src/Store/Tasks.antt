-- ===== src/Store/Tasks.antt =====
-- The autonomy queue of the store (backend/internal/store/memory.go).
pub mod Laws
use proxmaster.Prelude.{
  ℕ, String, ◌==◌, Bool, true, false, not, ◌||◌, ◌&&◌, Option, none, some, List, [], ◌∷◌, ltb,
  sort_by, if◌then◌else◌,
}
use proxmaster.Prelude.Int.{ℤ, pos, ltb_ℤ, eqb_ℤ, incr}
use proxmaster.Prelude.Text.{has_prefix}
use proxmaster.Prelude.Dict.{lookup, insert, values}
use proxmaster.Models.{Params, AgentTaskStatus, AgentTask}
use proxmaster.Store.{MemoryStore, next_id}

-- A task with every field at its zero value.
abbrev pub blank_task : AgentTask
blank_task = record {
  id = "";
  task_type = "";
  payload = none;
  status = AgentTaskStatus.unset;
  requested_by = "";
  priority = pos 0;
  max_attempts = pos 0;
  dead_letter = false;
  result = [];
  error = "";
  attempts = pos 0;
  created_at = 0;
  updated_at = 0;
  started_at = none;
  finished_at = none;
}

abbrev status_or_queued : AgentTaskStatus → AgentTaskStatus
status_or_queued AgentTaskStatus.unset = AgentTaskStatus.queued
status_or_queued st = st

abbrev pub fill_task : ℕ → String → AgentTask → AgentTask
fill_task now id task = record task {
  id = id;
  status = status_or_queued task.status;
  requested_by = if task.requested_by == "" then "android-admin" else task.requested_by;
  priority = if eqb_ℤ task.priority (pos 0) then pos 50 else task.priority;
  max_attempts = if eqb_ℤ task.max_attempts (pos 0) then pos 3 else task.max_attempts;
  created_at = now;
  updated_at = now;
}

unfoldable pub create_agent_task : ℕ → AgentTask → MemoryStore → AgentTask × MemoryStore
create_agent_task now task s =
    let (id, s₁) = if task.id == "" then next_id "task" s else (task.id, s) in
    let created = fill_task now id task in
    (created, record s₁ { agent_tasks = insert created.id created s₁.agent_tasks })

-- The newest first.
unfoldable pub list_agent_tasks : MemoryStore → List AgentTask
list_agent_tasks s = sort_by (λ a b. ltb b.created_at a.created_at) (values s.agent_tasks)

unfoldable pub get_agent_task : String → MemoryStore → Option AgentTask
get_agent_task id s = lookup id s.agent_tasks

abbrev pub is_queued : AgentTaskStatus → Bool
is_queued AgentTaskStatus.queued = true
is_queued _ = false

-- A higher priority, or the same one and an earlier creation.
abbrev pub goes_before : AgentTask → AgentTask → Bool
goes_before t picked =
    ltb_ℤ picked.priority t.priority
    || (eqb_ℤ t.priority picked.priority && ltb t.created_at picked.created_at)

-- The loop of `ClaimNextAgentTask`; `none` while nothing is found.
abbrev better : Option AgentTask → AgentTask → Option AgentTask
better none t = some t
better (some picked) t = if goes_before t picked then some t else some picked

unfoldable pub pick : Option AgentTask → List AgentTask → Option AgentTask
pick picked [] = picked
pick picked (t ∷ ts) = pick (if is_queued t.status then better picked t else picked) ts

abbrev pub claimed : ℕ → AgentTask → AgentTask
claimed now t = record t {
  status = AgentTaskStatus.running;
  attempts = incr t.attempts;
  updated_at = now;
  started_at = some now;
}

unfoldable pub claim_next_agent_task : ℕ → MemoryStore → Option AgentTask × MemoryStore
claim_next_agent_task now s = elim (pick none (values s.agent_tasks)) [
  | none ↦ (none, s)
  | some t ↦
      (some (claimed now t), record s { agent_tasks = insert t.id (claimed now t) s.agent_tasks })
]

abbrev pub finished : ℕ → Params → String → AgentTask → AgentTask
finished now result err t = record t {
  updated_at = now;
  finished_at = some now;
  result = result;
  error = err;
  dead_letter = if has_prefix t.task_type "deadletter." then true else t.dead_letter;
  status = if not (err == "") then AgentTaskStatus.failed else AgentTaskStatus.completed;
}

unfoldable pub complete_agent_task :
    ℕ → String → Params → String → MemoryStore → Option AgentTask × MemoryStore
complete_agent_task now id result err s = elim (lookup id s.agent_tasks) [
  | none ↦ (none, s)
  | some t ↦ (
    some (finished now result err t),
    record s { agent_tasks = insert id (finished now result err t) s.agent_tasks },
  )
]
