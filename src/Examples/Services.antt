-- ===== src/Examples/Services.antt =====
-- The control plane, GitOps and the simulation of the policy on concrete inputs.
use proxmaster.Prelude.{none, ℕ, ◌+◌, ◌==◌, ◌≡◌, refl, Bool, true, false, [], ◌∷◌, All}
use proxmaster.Prelude.Int.{pos, scale}
use proxmaster.Prelude.Text.{trim_space, to_lower}
use proxmaster.Models.{DecisionType, McpCallRequest}
use proxmaster.Risk.{classify, hard_block_reason}
use proxmaster.Health.{
  validate_for_write, new_gate_evaluator, snapshot_from_state, observe, observe_all,
}
use proxmaster.Policy.{simulate}
use proxmaster.Store.Cluster.{cluster_state}
use proxmaster.Store.Initial.{new_memory_store}
use proxmaster.Mcp.{handle_call, call_panics, known_job, simulate_policy}
use proxmaster.Mcp.Simulation.{simulation_of, IsRun, simulate-IsRun}
use proxmaster.Gitops.{Config, Service, answered, Host, sync_now, rollback_last_stable}
use proxmaster.Gitops.Stable.{Reported, sync_now-outcome}
use proxmaster.Gitops.Rollback.{RolledBack, rollback_last_stable-outcome}
use proxmaster.Controlplane.{Manager, new_manager, endpoint}
use proxmaster.Controlplane.Switching.{switch_all, IsChain, IsTruthful, switch_all-IsChain}
use proxmaster.Examples.{clock, store, gate, counter, request}

abbrev cfg : Config
cfg = record {
  repo_dir = "/srv/proxmaster";
  branch = "main";
  compose_file = "compose.yml";
  env_file = "";
  health_url = "http://127.0.0.1:8080/healthz";
  rollback_on_fail = true;
}

-- It counts its commands, and prints their name.
abbrev host : Bool → Host ℕ
host fails = record {
  exec = λ name args n. (record { stdout = name; combined = name; failed = fails }, n + 1);
  http_get = λ url n. (answered 200, n);
}

abbrev idle : Service
idle = record {
  cfg = cfg;
  running = false;
  last_run_at = 0;
  last_result = "success";
  last_error = "";
  last_commit = "abc123";
  last_stable_commit = "abc123";
  last_health = "healthy";
}

sync_now-outcome_example :
    let (report, err, t, h) = sync_now (host false) 9 idle 0 in
    (t.running ≡ false) × (t.last_run_at ≡ 9) × Reported "abc123" err t
sync_now-outcome_example = sync_now-outcome (host false) 9 idle 0 refl

commit_named : (trim_space idle.last_stable_commit == "") ≡ false
unfolding trim_space
commit_named = refl

rollback_last_stable-outcome_example :
    let (report, err, t, h) = rollback_last_stable (host false) 9 idle 0 in
    (t.running ≡ false) × (t.last_stable_commit ≡ "abc123") × RolledBack "abc123" err t
rollback_last_stable-outcome_example =
    rollback_last_stable-outcome (host false) 9 idle 0 refl commit_named

abbrev manager : Manager
manager =
    new_manager
      (record { mode = ""; vip = ""; dns_name = ""; api_port = pos 0; initial_node = "node-1" })

switch_all-IsChain_example :
    let (results, m) = switch_all ((1, "node-2") ∷ (2, "node-2") ∷ []) manager in
    (endpoint m ≡ endpoint manager)
    × All (IsTruthful (endpoint manager)) results
    × IsChain "node-1" results m.current_node
unfolding new_manager
switch_all-IsChain_example = switch_all-IsChain ((1, "node-2") ∷ (2, "node-2") ∷ []) manager

abbrev listing : McpCallRequest
listing = request "backup.target.list" false ""

simulated :
    (simulate_policy gate clock (simulation_of listing "") store).0.decision ≡ DecisionType.auto_run
unfolding simulate_policy simulate validate_for_write snapshot_from_state observe_all observe
    cluster_state new_memory_store new_gate_evaluator scale hard_block_reason classify to_lower
simulated = refl

unrecorded : known_job listing store ≡ none
unrecorded = refl

simulate-IsRun_example :
    IsRun
      (call_panics counter gate clock listing store 0)
      (handle_call counter gate clock listing store 0).0
simulate-IsRun_example = simulate-IsRun counter gate clock listing "" store 0 unrecorded simulated
