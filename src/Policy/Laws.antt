-- ===== src/Policy/Laws.antt =====
-- What the policy gate guarantees (backend/internal/policy/gate.go).
use proxmaster.Prelude.{ℕ, String, ◌≡◌, ◌↔◌, ◌≢◌, eq_iff, ◌⊎◌, Bool, true, arith}
use proxmaster.Models.{RiskLevel, PolicyModeState}
use proxmaster.Policy.{evaluate, aggressive_active}

-- What a call of the given risk needs in order to run.
abbrev pub Cleared : RiskLevel → Bool → Bool → String → PolicyModeState → ℕ → Type 0
Cleared RiskLevel.low approve mfa second mode now = Unit
Cleared RiskLevel.medium approve mfa second mode now = Unit
Cleared RiskLevel.high approve mfa second mode now =
    (aggressive_active mode now ≡ true) ⊎ ((approve ≡ true) × (mfa ≡ true) × (second ≢ ""))
Cleared RiskLevel.unset approve mfa second mode now = ⊥

-- A call is allowed exactly when the health gate is open, a hard block was approved, and its risk
-- is cleared.
pub evaluate-allow_iff :
    (risk : RiskLevel) (blocked : Bool) (why : String) (approve gate : Bool) (gate_why : String)
    (mfa : Bool) (second : String) (mode : PolicyModeState) (now : ℕ)
    → ((evaluate risk blocked why approve gate gate_why mfa second mode now).allow ≡ true) ↔ (
        (gate ≡ true)
        × (blocked ≡ true → approve ≡ true)
        × Cleared risk approve mfa second mode now)
unfolding evaluate
evaluate-allow_iff RiskLevel.low b w a g gw m s mode now = (ground arith, ground arith)
evaluate-allow_iff RiskLevel.medium b w a g gw m s mode now = (ground arith, ground arith)
evaluate-allow_iff RiskLevel.high b w a g gw m s mode now =
    (ground (arith, eq_iff s ""), ground (arith, eq_iff s ""))
evaluate-allow_iff RiskLevel.unset b w a g gw m s mode now = (ground arith, ground arith)
