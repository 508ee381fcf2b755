-- ===== src/Examples.antt =====
-- Runs of the model on concrete inputs: a store at its start, an orchestrator that answers every
-- call, and a clock.
pub mod Calls
pub mod Queue
pub mod Gates
pub mod Storage
pub mod Services
pub mod Runners
pub mod Tools
pub mod Requests
pub mod Tunnels
use proxmaster.Prelude.{ℕ, ◌+◌, String, ◌==◌, Bool, true, false, refl, [], ◌∷◌, if◌then◌else◌}
use proxmaster.Prelude.Int.{pos}
use proxmaster.Models.{Params, str, Node, McpCallRequest, AgentTask}
use proxmaster.Health.{GateEvaluator, new_gate_evaluator}
use proxmaster.Store.{MemoryStore}
use proxmaster.Store.Initial.{new_memory_store}
use proxmaster.Store.Jobs.Fresh.{IsNumbered}
use proxmaster.Prelude.Dict.{lookup}
use proxmaster.Store.Tasks.{blank_task}
use proxmaster.Mcp.{Clock, Result, ok, err, answered, Executor}

-- One second after the other, from the start of the store.
abbrev pub clock : Clock
clock n = 1700000000000000000 + n

abbrev pub store : MemoryStore
store = new_memory_store 1700000000000000000

abbrev pub gate : GateEvaluator
gate = new_gate_evaluator true (pos 30)

abbrev answer : String → Result
answer tool = if tool == "vm.unknown" then err "unknown tool" else ok (("tool", str tool) ∷ [])

-- It counts its calls, and knows every tool but one.
abbrev pub counter : Executor ℕ
counter = record {
  run = λ c tool params s n. (answered (answer tool), s, n + 1);
  run_same = λ c tool params s n. record {
    jobs_same = refl;
    keys_same = refl;
    audits_same = refl;
    incidents_same = refl;
  };
}

abbrev pub request : String → Bool → String → McpCallRequest
request tool approve key = record {
  tool = tool;
  params = [];
  actor = "";
  approve_now = approve;
  idempotency_key = key;
  reauth_token = "";
  second_approver = "bob";
  hardware_mfa = true;
  metadata = [];
}

-- No job is stored at the start.
pub store-IsNumbered : IsNumbered store
unfolding new_memory_store lookup
store-IsNumbered k j found = cc
