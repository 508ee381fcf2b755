-- ===== src/Policy.antt =====
-- backend/internal/policy/gate.go: whether a call runs now, waits for approval, or is blocked.
pub mod Laws
use proxmaster.Prelude.{
  ℕ, String, ◌==◌, Bool, true, false, not, ◌||◌, ◌&&◌, ltb, eqb, if◌then◌else◌,
}
use proxmaster.Prelude.Int.{ℤ, pos}
use proxmaster.Models.{RiskLevel, DecisionType, PolicyMode, PolicyModeState}
use proxmaster.Health.{Snapshot, new_gate_evaluator, validate_for_write}

pub record Decision : Type 0 where
  pub allow : Bool
  pub needs_review : Bool
  pub reason : String
  pub decision_type : DecisionType
  pub required_approvals : ℤ

abbrev auto_run : ℤ → String → Decision
auto_run approvals reason = record {
  allow = true;
  needs_review = false;
  reason = reason;
  decision_type = DecisionType.auto_run;
  required_approvals = approvals;
}

abbrev requires_approval : String → Decision
requires_approval reason = record {
  allow = false;
  needs_review = true;
  reason = reason;
  decision_type = DecisionType.requires_approval;
  required_approvals = pos 2;
}

abbrev refuse : String → Decision
refuse reason = record {
  allow = false;
  needs_review = true;
  reason = reason;
  decision_type = DecisionType.blocked;
  required_approvals = pos 0;
}

abbrev is_aggressive : PolicyMode → Bool
is_aggressive PolicyMode.aggressive = true
is_aggressive _ = false

-- Aggressive mode, with no end or before its end.
abbrev pub aggressive_active : PolicyModeState → ℕ → Bool
aggressive_active mode now =
    is_aggressive mode.mode && (eqb mode.aggressive_until 0 || ltb now mode.aggressive_until)

evaluate_risk : RiskLevel → Bool → Bool → String → PolicyModeState → ℕ → Decision
evaluate_risk RiskLevel.low approve_now hardware_mfa second_approver mode now = auto_run (pos 0) ""
evaluate_risk RiskLevel.medium approve_now hardware_mfa second_approver mode now =
    auto_run (pos 0) ""
evaluate_risk RiskLevel.high approve_now hardware_mfa second_approver mode now =
    if aggressive_active mode now
    then auto_run (pos 0) "aggressive auto mode active"
    else if approve_now && hardware_mfa && not (second_approver == "")
    then auto_run (pos 2) ""
    else requires_approval "high-risk action requires reauth + hardware MFA + second approver"
evaluate_risk RiskLevel.unset approve_now hardware_mfa second_approver mode now =
    refuse "unknown risk level"

-- `now` is the instant at which the end of the aggressive mode is compared.
unfoldable pub evaluate :
    RiskLevel
    → Bool
    → String
    → Bool
    → Bool
    → String
    → Bool
    → String
    → PolicyModeState
    → ℕ
    → Decision
unfolding evaluate_risk
evaluate risk hard_blocked block_reason approve_now gate_ok gate_reason hardware_mfa second_approver
      mode now =
    if not gate_ok
    then refuse gate_reason
    else if hard_blocked && not approve_now
    then requires_approval block_reason
    else evaluate_risk risk approve_now hardware_mfa second_approver mode now

unfoldable pub simulate :
    RiskLevel → Bool → String → Bool → Snapshot → PolicyModeState → ℕ → Decision
unfolding evaluate
simulate risk hard_blocked block_reason approve_now snapshot mode now =
    let gate = new_gate_evaluator true (pos 120) in
    let (gate_ok, gate_reason) = validate_for_write gate snapshot in
    evaluate risk hard_blocked block_reason approve_now gate_ok gate_reason false "" mode now
