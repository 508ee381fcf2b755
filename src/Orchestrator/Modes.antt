-- ===== src/Orchestrator/Modes.antt =====
-- What it takes to set the aggressive mode (backend/internal/risk/engine.go, and the tool
-- policy.mode.set of backend/internal/orchestrator/service.go and
-- backend/internal/proxmox/client.go).
use proxmaster.Prelude.{
  String, ◌≡◌, refl, sym, ◌∙◌, true, not, Option, none, some, Bool-cases, inl, inr,
}
use proxmaster.Prelude.Text.{to_upper, one_of}
use proxmaster.Models.{
  Params, Value, null, obj, arr, bool, str, int, float64, time, get, as_string, RiskLevel,
  PolicyMode,
}
use proxmaster.Risk.{classify}
use proxmaster.Risk.Laws.{none_of, passes_one_of, asks_aggressive, classify_mode_set}
use proxmaster.Store.{MemoryStore}
use proxmaster.Store.Mode.{set_policy_mode}
use proxmaster.Mcp.{Clock}
use proxmaster.Proxmox.Workloads.{aggressive_names, mode_named, set_mode}
use proxmaster.Proxmox.Blueprints.{or_empty}
use proxmaster.Orchestrator.Names.{StoreTool}
use proxmaster.Orchestrator.StoreTools.{run_store_tool}

-- Every name of the mode has the word that the classification looks for.
aggressive_names_ask : none_of (λ t. not (asks_aggressive t)) aggressive_names ≡ true
unfolding to_upper
aggressive_names_ask = refl

named-aggressive : (m : String) → mode_named m ≡ PolicyMode.aggressive → asks_aggressive m ≡ true
named-aggressive m e = elim (Bool-cases (one_of m aggressive_names)) [
  | inl listed ↦ passes_one_of asks_aggressive m aggressive_names aggressive_names_ask listed
  | inr other ↦
      let guarded : mode_named m ≡ PolicyMode.guarded_sre = rw (other, mode_named) refl in
      let absurd_eq : PolicyMode.guarded_sre ≡ PolicyMode.aggressive = sym guarded ∙ e in cc
]

read-aggressive :
    (params : Params) (v : Option Value)
    → get "mode" params ≡ v
    → mode_named (or_empty (as_string v)) ≡ PolicyMode.aggressive
    → classify "policy.mode.set" params ≡ RiskLevel.high
read-aggressive params (some (str m)) h e = classify_mode_set params h (named-aggressive m e)
read-aggressive params none h e = cc
read-aggressive params (some null) h e = cc
read-aggressive params (some (obj m)) h e = cc
read-aggressive params (some (arr xs)) h e = cc
read-aggressive params (some (bool b)) h e = cc
read-aggressive params (some (int n)) h e = cc
read-aggressive params (some (float64 n)) h e = cc
read-aggressive params (some (time t)) h e = cc

-- Where the tool policy.mode.set leaves the aggressive mode set, its call is a high risk; so no call
-- of a lower risk can set that mode, whatever its parameters name.
pub mode_set-aggressive :
    (clock : Clock) (params : Params) (s : MemoryStore)
    → (run_store_tool StoreTool.mode_set clock params s).1.policy_mode.mode ≡ PolicyMode.aggressive
    → classify "policy.mode.set" params ≡ RiskLevel.high
unfolding run_store_tool set_mode set_policy_mode
mode_set-aggressive clock params s e = read-aggressive params (get "mode" params) refl e
