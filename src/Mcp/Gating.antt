-- ===== src/Mcp/Gating.antt =====
-- When a call reaches the orchestrator (backend/internal/mcp/service.go).
use proxmaster.Prelude.{
  ℕ, String, ◌≡◌, refl, sym, ◌∙◌, ◌≢◌, Bool, true, false, [], arith, Bool-cases, inl, inr, ◌⊎◌,
}
use proxmaster.Prelude.Text.{trim_space}
use proxmaster.Models.{
  RiskLevel, JobStatus, DecisionType, Job, AuditEvent, McpCallRequest, McpCallResponse,
  PolicyModeState,
}
use proxmaster.Risk.{classify, hard_block_reason}
use proxmaster.Risk.Laws.{hard_block-iff_high}
use proxmaster.Health.{GateEvaluator, Snapshot, snapshot_from_state, validate_for_write}
use proxmaster.Policy.{Decision, aggressive_active}
use proxmaster.Policy.Laws.{evaluate-allow_iff, Cleared}
use proxmaster.Store.{MemoryStore}
use proxmaster.Store.Cluster.{cluster_state}
use proxmaster.Store.Mode.{get_policy_mode}
use proxmaster.Store.Jobs.{create_job, update_job, add_audit, record_incident}
use proxmaster.Mcp.Queue.{hold-tasks, register-tasks, assess-tasks}
use proxmaster.Mcp.{
  Clock, Executor, Assessment, assess, register, hold, carry_out, handle_new, gate_for, held_status,
}

-- What a call of a given risk needs before it may run.
pub record IsCleared (gate : GateEvaluator) (clock : Clock) (req : McpCallRequest) (s : MemoryStore)
    : Type 0 where
  pub healthy :
      classify req.tool req.params ≢ RiskLevel.low
      → (validate_for_write gate (snapshot_from_state gate (clock 0) s.state)).0 ≡ true
  pub approved : classify req.tool req.params ≡ RiskLevel.high → req.approve_now ≡ true
  pub confirmed :
      classify req.tool req.params ≡ RiskLevel.high
      → (aggressive_active (get_policy_mode (clock 1) (clock 2) s).0 (clock 3) ≡ true)
        ⊎ ((req.hardware_mfa ≡ true) × (trim_space req.second_approver ≢ ""))

gate_for-healthy :
    (gate : GateEvaluator) (risk : RiskLevel) (snapshot : Snapshot)
    → (gate_for gate risk snapshot).0 ≡ true
    → risk ≢ RiskLevel.low
    → (validate_for_write gate snapshot).0 ≡ true
gate_for-healthy gate risk snapshot h ne = ground arith

confirmed-of_Cleared :
    (risk : RiskLevel) (approve mfa : Bool) (second : String) (mode : PolicyModeState) (now : ℕ)
    → Cleared risk approve mfa second mode now
    → risk ≡ RiskLevel.high
    → (aggressive_active mode now ≡ true) ⊎ ((mfa ≡ true) × (second ≢ ""))
confirmed-of_Cleared RiskLevel.high _ _ _ _ _ (inl active) e = inl active
confirmed-of_Cleared RiskLevel.high _ _ _ _ _ (inr (a, m, s)) e = inr (m, s)
confirmed-of_Cleared RiskLevel.unset _ _ _ _ _ c e = absurd c
confirmed-of_Cleared _ _ _ _ _ _ c e = cc

assess-IsCleared :
    (gate : GateEvaluator) (clock : Clock) (req : McpCallRequest) (s : MemoryStore)
    → (assess gate clock req s).0.decision.allow ≡ true
    → IsCleared gate clock req s
unfolding assess cluster_state
assess-IsCleared gate clock req s h =
    let risk = classify req.tool req.params in
    let (blocked, why) = hard_block_reason req.tool req.params risk in
    let (gate_ok, ok_why) = gate_for gate risk (snapshot_from_state gate (clock 0) s.state) in
    let (open_gate, if_blocked, cleared) =
      (evaluate-allow_iff risk blocked why req.approve_now gate_ok ok_why req.hardware_mfa
          (trim_space req.second_approver) (get_policy_mode (clock 1) (clock 2) s).0 (clock 3)).0
        h in
    record {
      healthy = gate_for-healthy gate risk (snapshot_from_state gate (clock 0) s.state) open_gate;
      approved = λ high. if_blocked ((hard_block-iff_high req.tool req.params risk).1 high);
      confirmed = confirmed-of_Cleared risk _ _ _ _ _ cleared;
    }

-- The call was not run: the process, the cluster and the tasks are as they were, and the job waits.
pub record IsHeld {R : Type 0} (s t : MemoryStore) (r r' : R) (resp : McpCallResponse)
    : Type 0 where
  pub process_same : r' ≡ r
  pub cluster_same : t.state ≡ s.state
  pub tasks_same : t.agent_tasks ≡ s.agent_tasks
  pub no_output : resp.output ≡ []
  pub waits : (resp.job.status ≡ JobStatus.pending_approval) ⊎ (resp.job.status ≡ JobStatus.blocked)

held_status-waits :
    (d : DecisionType)
    → (held_status d ≡ JobStatus.pending_approval) ⊎ (held_status d ≡ JobStatus.blocked)
held_status-waits DecisionType.requires_approval = inl refl
held_status-waits DecisionType.unset = inr refl
held_status-waits _ = inr refl

mode-state : (now later : ℕ) (s : MemoryStore) → (get_policy_mode now later s).1.state ≡ s.state
unfolding get_policy_mode
mode-state now later s = ground arith

hold-state :
    (clock : Clock) (d : Decision) (job : Job) (s : MemoryStore)
    → (hold clock d job s).state ≡ s.state
unfolding hold update_job record_incident
hold-state clock d job s = ground arith

register-state :
    (gate : GateEvaluator) (clock : Clock) (req : McpCallRequest) (a : Assessment) (s : MemoryStore)
    → (register gate clock req a s).2.state ≡ s.state
unfolding register create_job add_audit
register-state gate clock req a s = ground arith

assess-state :
    (gate : GateEvaluator) (clock : Clock) (req : McpCallRequest) (s : MemoryStore)
    → (assess gate clock req s).1.state ≡ s.state
unfolding assess
assess-state gate clock req s = mode-state (clock 1) (clock 2) s

module _ {R : Type 0} (executor : Executor R) (gate : GateEvaluator) where
  carry_out-IsHeld :
      (clock : Clock) (req : McpCallRequest) (a : Assessment) (job : Job) (audit : AuditEvent)
      (s : MemoryStore) (r : R)
      → a.decision.allow ≡ false
      → let (resp, t, r') = carry_out executor gate clock req a (job, audit, s) r in
        IsHeld s t r r' resp
  carry_out-IsHeld clock req a job audit s r refused = simp refused (record {
    process_same = refl;
    cluster_same = hold-state clock a.decision job s;
    tasks_same = hold-tasks clock a.decision job s;
    no_output = refl;
    waits = held_status-waits a.decision.decision_type;
  })

  -- Every call with no recorded answer is either held, or it meets the conditions of its risk: a
  -- call that is not a low risk finds the health gates open, and a high risk is approved and, unless
  -- the aggressive mode is active, comes with hardware MFA and a second approver.
  pub handle_new-gated :
      (clock : Clock) (req : McpCallRequest) (s : MemoryStore) (r : R)
      → let (resp, t, r') = handle_new executor gate clock req s r in
        IsHeld s t r r' resp ⊎ IsCleared gate clock req s
  unfolding handle_new
  handle_new-gated clock req s r = elim (Bool-cases (assess gate clock req s).0.decision.allow) [
    | inl allowed ↦ inr (assess-IsCleared gate clock req s allowed)
    | inr refused ↦
        let (a, s') = assess gate clock req s in
        let (job, audit, t) = register gate clock req a s' in
        let same = register-state gate clock req a s' ∙ assess-state gate clock req s in
        let kept = carry_out-IsHeld clock req a job audit t r refused in
        inl (record {
          process_same = kept.process_same;
          cluster_same = kept.cluster_same ∙ same;
          tasks_same =
              kept.tasks_same ∙ register-tasks gate clock req a s' ∙ assess-tasks gate clock req s;
          no_output = kept.no_output;
          waits = kept.waits;
        })
  ]

  -- A call with no recorded answer, of a high risk and not approved, is held in every policy mode.
  pub unapproved-IsHeld :
      (clock : Clock) (req : McpCallRequest) (s : MemoryStore) (r : R)
      → classify req.tool req.params ≡ RiskLevel.high
      → req.approve_now ≡ false
      → let (resp, t, r') = handle_new executor gate clock req s r in IsHeld s t r r' resp
  unapproved-IsHeld clock req s r high no_approval = elim (handle_new-gated clock req s r) [
    | inl held ↦ held
    | inr cleared ↦ let e : true ≡ false = sym (cleared.approved high) ∙ no_approval in cc
  ]
