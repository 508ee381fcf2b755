-- ===== src/Mcp/Simulation.antt =====
-- What a simulation of the policy says of the call itself (backend/internal/mcp/service.go).
use proxmaster.Prelude.{
  ℕ, String, ◌≡◌, refl, ◌⊎◌, inl, inr, Bool, true, false, ◌&&◌, ◌+◌, none, arith,
}
use proxmaster.Prelude.Int.{pos}
use proxmaster.Prelude.Text.{trim_space}
use proxmaster.Models.{
  RiskLevel, JobStatus, DecisionType, Job, AuditEvent, McpCallRequest, McpCallResponse,
  PolicySimulationRequest, PolicyModeState,
}
use proxmaster.Risk.{classify, hard_block_reason}
use proxmaster.Health.{
  GateEvaluator, Snapshot, new_gate_evaluator, validate_for_write, snapshot_from_state,
}
use proxmaster.Policy.{evaluate, simulate}
use proxmaster.Policy.Laws.{Cleared, evaluate-allow_iff}
use proxmaster.Store.{MemoryStore}
use proxmaster.Store.Cluster.{cluster_state}
use proxmaster.Store.Mode.{get_policy_mode}
use proxmaster.Mcp.{
  Clock, ok, err, Ending, answered, panicked, Executor, Assessment, assess, register, settle,
  run_job, carry_out, handle_new, gate_for, simulate_policy, response, is_panic, new_panics,
  call_panics, start, handle_call, known_job, with_actor,
}

auto_run-allows :
    (risk : RiskLevel) (blocked : Bool) (why : String) (approve gate : Bool) (gate_why : String)
    (mfa : Bool) (second : String) (mode : PolicyModeState) (now : ℕ)
    → let d = evaluate risk blocked why approve gate gate_why mfa second mode now in
      d.decision_type ≡ DecisionType.auto_run → d.allow ≡ true
unfolding evaluate
auto_run-allows RiskLevel.low b w a g gw m s mode now h = ground arith
auto_run-allows RiskLevel.medium b w a g gw m s mode now h = ground arith
auto_run-allows RiskLevel.high b w a g gw m s mode now h = ground arith
auto_run-allows RiskLevel.unset b w a g gw m s mode now h = ground arith

-- The simulation's own evaluator is the strictest one.
strictest :
    (gate : GateEvaluator) (risk : RiskLevel) (snapshot : Snapshot)
    → (validate_for_write (new_gate_evaluator true (pos 120)) snapshot).0 ≡ true
    → (gate_for gate risk snapshot).0 ≡ true
unfolding validate_for_write new_gate_evaluator
strictest gate risk snapshot h = ground arith

Cleared-without_mfa :
    (risk : RiskLevel) (approve mfa : Bool) (second : String) (mode : PolicyModeState) (now : ℕ)
    → Cleared risk approve false "" mode now
    → Cleared risk approve mfa second mode now
Cleared-without_mfa RiskLevel.low a m s mode now c = c
Cleared-without_mfa RiskLevel.medium a m s mode now c = c
Cleared-without_mfa RiskLevel.high a m s mode now (inl active) = inl active
Cleared-without_mfa RiskLevel.high a m s mode now (inr (_, no_mfa, _)) = cc
Cleared-without_mfa RiskLevel.unset a m s mode now c = c

-- The simulation of a call.
abbrev pub simulation_of : McpCallRequest → String → PolicySimulationRequest
simulation_of req health_state = record {
  tool = req.tool;
  params = req.params;
  approve_now = req.approve_now;
  health_state = health_state;
}

simulate-assess :
    (gate : GateEvaluator) (clock : Clock) (req : McpCallRequest) (health_state : String)
    (s : MemoryStore)
    → (simulate_policy gate clock (simulation_of req health_state) s).0.decision
      ≡ DecisionType.auto_run
    → (assess gate clock req s).0.decision.allow ≡ true
unfolding simulate_policy simulate assess
simulate-assess gate clock req health_state s h =
    let risk = classify req.tool req.params in
    let (blocked, why) = hard_block_reason req.tool req.params risk in
    let snapshot = snapshot_from_state gate (clock 0) (cluster_state s) in
    let (strict_ok, strict_why) = validate_for_write (new_gate_evaluator true (pos 120)) snapshot in
    let (gate_ok, gate_why) = gate_for gate risk snapshot in
    let mode = (get_policy_mode (clock 1) (clock 2) s).0 in
    let (open_gate, if_blocked, cleared) =
      (evaluate-allow_iff risk blocked why req.approve_now strict_ok strict_why false "" mode
          (clock 3)).0
        (auto_run-allows risk blocked why req.approve_now strict_ok strict_why false "" mode
          (clock 3) h) in
    (evaluate-allow_iff risk blocked why req.approve_now gate_ok gate_why req.hardware_mfa
        (trim_space req.second_approver) mode (clock 3)).1
      (
        strictest gate risk snapshot open_gate,
        if_blocked,
        Cleared-without_mfa risk _ req.hardware_mfa (trim_space req.second_approver) mode _ cleared,
      )

-- The tool of a call was run: it panics, or the job of the answer is completed or failed.
abbrev pub IsRun : Bool → McpCallResponse → Type 0
IsRun true resp = resp.job.status ≡ JobStatus.running
IsRun false resp = (resp.job.status ≡ JobStatus.completed) ⊎ (resp.job.status ≡ JobStatus.failed)

module _ {R : Type 0} (executor : Executor R) (gate : GateEvaluator) where
  settle-IsRun :
      (clock : Clock) (job : Job) (resp : McpCallResponse) (out : Ending × MemoryStore × R)
      → IsRun (is_panic out.0) (settle executor gate clock job resp out).0
  settle-IsRun clock job resp (answered (ok out), s, r) = inl refl
  settle-IsRun clock job resp (answered (err reason), s, r) = inr refl
  settle-IsRun clock job resp (panicked, s, r) = refl

  carry_out-IsRun :
      (clock : Clock) (req : McpCallRequest) (a : Assessment) (job : Job) (audit : AuditEvent)
      (s : MemoryStore) (r : R)
      → a.decision.allow ≡ true
      → IsRun
          (a.decision.allow
            && is_panic
                (executor.run (λ n. clock (14 + n)) req.tool req.params (start clock job s) r).0)
          (carry_out executor gate clock req a (job, audit, s) r).0
  unfolding run_job
  carry_out-IsRun clock req a job audit s r allowed =
      simp allowed (settle-IsRun clock job (response job audit a) _)

  new-IsRun :
      (clock : Clock) (req : McpCallRequest) (health_state : String) (s : MemoryStore) (r : R)
      → (simulate_policy gate clock (simulation_of req health_state) s).0.decision
        ≡ DecisionType.auto_run
      → IsRun (new_panics executor gate clock req s r) (handle_new executor gate clock req s r).0
  unfolding handle_new new_panics
  new-IsRun clock req health_state s r h =
      let (a, s') = assess gate clock req s in
      let (job, audit, t) = register gate clock req a s' in
      carry_out-IsRun clock req a job audit t r (simulate-assess gate clock req health_state s h)

  -- A call that has no recorded answer, and whose simulation on the same store and by the same clock
  -- decides to run it automatically, runs its tool, whatever its MFA and second approver are: the
  -- call ends with its job completed or failed, or the tool panics.
  pub simulate-IsRun :
      (clock : Clock) (req : McpCallRequest) (health_state : String) (s : MemoryStore) (r : R)
      → known_job req s ≡ none
      → (simulate_policy gate clock (simulation_of req health_state) s).0.decision
        ≡ DecisionType.auto_run
      → IsRun (call_panics executor gate clock req s r) (handle_call executor gate clock req s r).0
  unfolding handle_call call_panics
  simulate-IsRun clock req health_state s r fresh h =
      rw (fresh, handle_call, call_panics) (new-IsRun clock (with_actor req) health_state s r h)
