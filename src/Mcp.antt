-- ===== src/Mcp.antt =====
-- backend/internal/mcp/service.go: the one way in for tool calls. A call is classified, held
-- against the health gates and the policy, recorded as a job, and run by the orchestrator if it
-- may run.
--
-- `Clock` gives the readings of the clock that one call makes, each at a place of its own. The
-- orchestrator is an interface: what it does to the store and to the rest of the process (of type
-- `R`: control plane, GitOps, break-glass access) is for its implementation to say. No part of the
-- orchestrator writes jobs, idempotency keys, audit events or incidents.
pub mod Steps
pub mod Outcome
pub mod Gating
pub mod Replay
pub mod Audit
pub mod Queue
pub mod Simulation
pub mod Isolation
use proxmaster.Prelude.{◌+◌, Bool, false, ◌&&◌, not, none, some, if◌then◌else◌}
use proxmaster.Models.{
  get, as_map, Job, JobStatus, AuditEvent, McpCallRequest, McpCallResponse, PolicySimulationRequest,
  PolicySimulationResponse,
}
use proxmaster.Risk.{classify, hard_block_reason}
use proxmaster.Health.{GateEvaluator, snapshot_from_state}
use proxmaster.Policy.{simulate}
use proxmaster.Store.{MemoryStore}
use proxmaster.Store.Cluster.{cluster_state}
use proxmaster.Store.Mode.{get_policy_mode}
unfoldable pub use Steps.*

module _ {R : Type 0} (executor : Executor R) (gate : GateEvaluator) where
  open executor use {run}

  abbrev settle :
      Clock → Job → McpCallResponse → Ending × MemoryStore × R → McpCallResponse × MemoryStore × R
  settle clock job resp (answered (ok out), s, r) = (
    record resp {
      job = completed_job out job;
      output = out;
      drift_delta = or_empty (as_map (get "drift_delta" out));
    },
    complete clock out job s,
    r,
  )
  settle clock job resp (answered (err reason), s, r) =
      (record resp { job = failed_job reason job }, fail clock reason job s, r)
  settle clock job resp (panicked, s, r) =
      (record resp { job = with_status JobStatus.running job }, s, r)

  -- The readings from 14 on are the orchestrator's.
  unfoldable pub run_job :
      Clock
      → McpCallRequest
      → Job
      → McpCallResponse
      → MemoryStore
      → R
      → McpCallResponse × MemoryStore × R
  run_job clock req job resp s r =
      settle clock job resp (run (λ n. clock (14 + n)) req.tool req.params (start clock job s) r)

  abbrev carry_out :
      Clock
      → McpCallRequest
      → Assessment
      → Job × AuditEvent × MemoryStore
      → R
      → McpCallResponse × MemoryStore × R
  carry_out clock req a (job, audit, s) r =
      let resp = response job audit a in
      if not a.decision.allow
      then (record resp { job = held a.decision job }, hold clock a.decision job s, r)
      else run_job clock req job resp s r

  -- A call with no recorded answer.
  unfoldable pub handle_new :
      Clock → McpCallRequest → MemoryStore → R → McpCallResponse × MemoryStore × R
  handle_new clock req s r =
      let (a, s') = assess gate clock req s in
      carry_out clock req a (register gate clock req a s') r

  unfoldable pub handle_call :
      Clock → McpCallRequest → MemoryStore → R → McpCallResponse × MemoryStore × R
  handle_call clock req s r = elim (known_job req s) [
    | some job ↦ (recorded job, s, r)
    | none ↦ handle_new clock (with_actor req) s r
  ]

  -- The tool of the call panics: there is no answer, and what `handle_new` and `handle_call` give as
  -- one is the job as it was at the panic. The store is left as it was then, the job running.
  unfoldable pub new_panics : Clock → McpCallRequest → MemoryStore → R → Bool
  new_panics clock req s r =
      let (a, s₁) = assess gate clock req s in
      let (job, audit, s₂) = register gate clock req a s₁ in
      a.decision.allow
      && is_panic (run (λ n. clock (14 + n)) req.tool req.params (start clock job s₂) r).0

  unfoldable pub call_panics : Clock → McpCallRequest → MemoryStore → R → Bool
  call_panics clock req s r = elim (known_job req s) [
    | some job ↦ false
    | none ↦ new_panics clock (with_actor req) s r
  ]

-- Readings 0 to 3, as in a call; nothing is recorded.
unfoldable pub simulate_policy :
    GateEvaluator
    → Clock
    → PolicySimulationRequest
    → MemoryStore
    → PolicySimulationResponse × MemoryStore
simulate_policy gate clock req s =
    let risk = classify req.tool req.params in
    let (hard_blocked, hard_reason) = hard_block_reason req.tool req.params risk in
    let snapshot = snapshot_from_state gate (clock 0) (cluster_state s) in
    let (mode, s') = get_policy_mode (clock 1) (clock 2) s in
    let decision = simulate risk hard_blocked hard_reason req.approve_now snapshot mode (clock 3) in
    (
      record {
        risk_level = risk;
        decision = decision.decision_type;
        reason = decision.reason;
        required_approvals = decision.required_approvals;
        hard_blocked = hard_blocked;
      },
      s',
    )
