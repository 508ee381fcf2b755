-- ===== src/Api/Trail.antt =====
-- What a request leaves in the records (backend/internal/api/server.go).
use proxmaster.Prelude.{
  ℕ, ◌+◌, String, ◌==◌, ◌≡◌, refl, ◌⊎◌, inl, inr, Option, none, some, [], ◌∷◌, ◌++◌, arith,
  Bool-cases, Option-cases,
}
use proxmaster.Models.{AuditEvent, McpCallRequest, PolicySimulationRequest, AgentTask, BackupPolicy}
use proxmaster.Health.{GateEvaluator}
use proxmaster.Store.{MemoryStore}
use proxmaster.Store.Cluster.{mark_node_heartbeat, sync_storage_inventory}
use proxmaster.Store.Mode.{get_policy_mode}
use proxmaster.Store.Tasks.{create_agent_task}
use proxmaster.Store.Ledger.{policy-ledger}
use proxmaster.Mcp.{
  Clock, Executor, SameRecords, handle_call, known_job, with_actor, simulate_policy,
}
use proxmaster.Mcp.Audit.{handle_new-audits}
use proxmaster.Orchestrator.Ledger.{ledger-Keeps}
use proxmaster.Api.Requests.{Request, struct_of, text, ◌>>=◌}
use proxmaster.Api.Calls.{Wanted, refused, call, make_call}
use proxmaster.Api.Writes.{
  beat, put_policy, put_task, simulated, policy_of, task_of, simulation_of, heartbeat, post_policy,
  post_task, simulate,
}

-- The jobs, idempotency keys, audit events and incidents are the same, or one audit event is added.
abbrev pub IsTraced : MemoryStore → MemoryStore → Type 0
IsTraced s t = SameRecords s t ⊎ ((e : AuditEvent) × (t.audits ≡ s.audits ++ e ∷ []))

pub unchanged : (s : MemoryStore) → IsTraced s s
unchanged s =
    inl (record { jobs_same = refl; keys_same = refl; audits_same = refl; incidents_same = refl })

beat-IsTraced :
    (clock : Clock) (s : MemoryStore) (o : Option String) → IsTraced s (beat clock s o).1
unfolding mark_node_heartbeat
beat-IsTraced clock s none = unchanged s
beat-IsTraced clock s (some id) = inl (record {
  jobs_same = ground arith;
  keys_same = ground arith;
  audits_same = ground arith;
  incidents_same = ground arith;
})

policy-IsTraced :
    (now : ℕ) (s : MemoryStore) (o : Option BackupPolicy) → IsTraced s (put_policy now s o).1
policy-IsTraced now s none = unchanged s
policy-IsTraced now s (some p) = elim (Bool-cases (p.workload_id == "")) [
  | inl blank ↦ rw (blank, put_policy) (unchanged s)
  | inr filled ↦ rw (filled, put_policy) (inl (ledger-Keeps (policy-ledger now s p)).0)
]

task-IsTraced : (now : ℕ) (s : MemoryStore) (o : Option AgentTask) → IsTraced s (put_task now s o).1
unfolding create_agent_task
task-IsTraced now s none = unchanged s
task-IsTraced now s (some t) = inl (record {
  jobs_same = ground arith;
  keys_same = ground arith;
  audits_same = ground arith;
  incidents_same = ground arith;
})

pub post_policy-IsTraced :
    (now : ℕ) (req : Request) (s : MemoryStore) → IsTraced s (post_policy now req s).1
unfolding post_policy
post_policy-IsTraced now req s = policy-IsTraced now s (do m ← struct_of req.body; policy_of m)

pub post_task-IsTraced :
    (clock : Clock) (req : Request) (s : MemoryStore) → IsTraced s (post_task clock req s).1
unfolding post_task
post_task-IsTraced clock req s =
    task-IsTraced (clock 1) s (do m ← struct_of req.body; task_of (clock 0) m)

pub heartbeat-IsTraced :
    (clock : Clock) (req : Request) (s : MemoryStore) → IsTraced s (heartbeat clock req s).1
unfolding heartbeat
heartbeat-IsTraced clock req s = beat-IsTraced clock s (do m ← struct_of req.body; text "node_id" m)

pub mode-SameRecords :
    (now later : ℕ) (s : MemoryStore) → SameRecords s (get_policy_mode now later s).1
unfolding get_policy_mode
mode-SameRecords now later s = record {
  jobs_same = ground arith;
  keys_same = ground arith;
  audits_same = ground arith;
  incidents_same = ground arith;
}

simulated-IsTraced :
    (gate : GateEvaluator) (clock : Clock) (s : MemoryStore) (o : Option PolicySimulationRequest)
    → IsTraced s (simulated gate clock s o).1
unfolding simulate_policy
simulated-IsTraced gate clock s none = unchanged s
simulated-IsTraced gate clock s (some q) = inl (mode-SameRecords _ _ s)

pub simulate-IsTraced :
    (gate : GateEvaluator) (clock : Clock) (req : Request) (s : MemoryStore)
    → IsTraced s (simulate gate clock req s).1
unfolding simulate
simulate-IsTraced gate clock req s =
    simulated-IsTraced gate clock s (do m ← struct_of req.body; simulation_of m)

pub inventory-SameRecords :
    (now : ℕ) (s : MemoryStore) → SameRecords s (sync_storage_inventory now s).1
unfolding sync_storage_inventory
inventory-SameRecords now s = record {
  jobs_same = refl;
  keys_same = refl;
  audits_same = refl;
  incidents_same = refl;
}

module _ {R : Type 0} (executor : Executor R) (gate : GateEvaluator) where
  call-IsTraced :
      (clock : Clock) (c : McpCallRequest) (s : MemoryStore) (r : R)
      → IsTraced s (handle_call executor gate clock c s r).1
  unfolding handle_call
  call-IsTraced clock c s r = elim (Option-cases (known_job c s)) [
    | inl missing ↦
        rw (missing, handle_call)
          (inr (_, handle_new-audits executor gate clock (with_actor c) s r))
    | inr (job, known) ↦ rw (known, handle_call) (unchanged s)
  ]

  pub make_call-IsTraced :
      (method : String) (clock : Clock) (req : Request) (w : Wanted) (s : MemoryStore) (r : R)
      → IsTraced s (make_call executor gate method clock req w s r).1
  unfolding make_call
  make_call-IsTraced method clock req (refused e) s r = unchanged s
  make_call-IsTraced method clock req (call c) s r = elim (Bool-cases (req.method == method)) [
    | inl same ↦ rw (same, make_call) (call-IsTraced (λ n. clock (1 + n)) c s r)
    | inr other ↦ rw (other, make_call) (unchanged s)
  ]
