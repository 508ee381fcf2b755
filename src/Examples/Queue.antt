-- ===== src/Examples/Queue.antt =====
-- The autonomy queue on concrete inputs.
use proxmaster.Prelude.{String}
use proxmaster.Prelude.Int.{pos}
use proxmaster.Models.{AgentTask}
use proxmaster.Store.{MemoryStore}
use proxmaster.Store.Initial.{new_memory_store}
use proxmaster.Store.Tasks.{blank_task, fill_task, create_agent_task, claim_next_agent_task}
use proxmaster.Store.Tasks.Laws.{IsNextTask, claim_next_agent_task-IsNextTask}
use proxmaster.Autonomy.Retries.{QueueIsRetryable}
use proxmaster.Examples.{store}

abbrev task : String → AgentTask
task tool = record blank_task { task_type = tool; max_attempts = pos 3 }

abbrev two_tasks : MemoryStore
two_tasks =
    (create_agent_task 2 (record (task "spec.reconcile.all") { priority = pos 90 })
      (create_agent_task 1 (task "storage.inventory.sync") store).1).1

claim_next_agent_task-IsNextTask_example :
    IsNextTask 7 two_tasks (claim_next_agent_task 7 two_tasks)
claim_next_agent_task-IsNextTask_example = claim_next_agent_task-IsNextTask 7 two_tasks

pub starts_empty : QueueIsRetryable store
unfolding new_memory_store
starts_empty = tt

abbrev shutdown_task : AgentTask
shutdown_task = record (task "cluster.shutdown") { id = "task-000001" }

abbrev with_shutdown : MemoryStore
with_shutdown = (create_agent_task 1 shutdown_task store).1

abbrev claimed_shutdown : AgentTask
claimed_shutdown = fill_task 1 "task-000001" shutdown_task
