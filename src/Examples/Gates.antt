-- ===== src/Examples/Gates.antt =====
-- Risk, health, policy and break-glass access on concrete inputs.
use proxmaster.Prelude.{ℕ, ◌*◌, ◌<◌, ◌≡◌, refl, ◌↔◌, ◌==◌, true, [], ◌∷◌, length, if◌then◌else◌}
use proxmaster.Prelude.Int.{pos}
use proxmaster.Prelude.Dict.{lookup}
use proxmaster.Prelude.Text.{trim_space}
use proxmaster.Models.{Params, str, RiskLevel, PolicyMode, PolicyModeState}
use proxmaster.Risk.{classify}
use proxmaster.Health.{snapshot_from_state, validate_for_write, new_gate_evaluator}
use proxmaster.Health.Quorum.{online, all_fresh, validate_iff}
use proxmaster.Policy.{evaluate}
use proxmaster.Policy.Laws.{Cleared, evaluate-allow_iff}
use proxmaster.Breakglass.{
  Shell, success, failure, new_service, enable, status, run_hook, auto_disable_if_expired,
}
use proxmaster.Breakglass.Timebox.{enable_for, serve, Grants, Any, serve_all, open_needs_grant}
use proxmaster.Store.Mode.{set_policy_mode}
use proxmaster.Proxmox.Workloads.{set_mode}
use proxmaster.Orchestrator.Names.{StoreTool}
use proxmaster.Orchestrator.StoreTools.{run_store_tool}
use proxmaster.Orchestrator.Modes.{mode_set-aggressive}
use proxmaster.Examples.{store, gate}

abbrev now : ℕ
now = 1700000000000000005

closed : gate.fail_closed ≡ true
unfolding new_gate_evaluator
closed = refl

validate_iff_example :
    ((validate_for_write gate (snapshot_from_state gate now store.state)).0 ≡ true) ↔ (
      (length store.state.nodes < 2 * online store.state.nodes)
      × (all_fresh gate now store.state.nodes ≡ true))
validate_iff_example = validate_iff gate now store.state closed

abbrev guarded : PolicyModeState
guarded = record {
  mode = PolicyMode.guarded_sre;
  aggressive_until = 0;
  last_changed_by = "";
  updated_at = 0;
}

evaluate-allow_iff_example :
    ((evaluate RiskLevel.high true "why" true true "" true "bob" guarded now).allow ≡ true) ↔ (
      (true ≡ true)
      × (true ≡ true → true ≡ true)
      × Cleared RiskLevel.high true true "bob" guarded now)
evaluate-allow_iff_example =
    evaluate-allow_iff RiskLevel.high true "why" true true "" true "bob" guarded now

abbrev shell : Shell
shell cmd = if cmd == "open" then success else failure "no such command" "exit status 127"

opened :
    (status shell 40 41 (
      serve_all shell
        (enable_for (pos 50) "ann" 5 ∷ [])
        (new_service "open" "close" (pos 60)))).1.enabled
    ≡ true
unfolding status serve_all serve enable run_hook auto_disable_if_expired new_service trim_space
opened = refl

open_needs_grant_example :
    let s = new_service "open" "close" (pos 60) in
    let t = serve_all shell (enable_for (pos 50) "ann" 5 ∷ []) s in
    (40 < t.enabled_until)
    × Any (Grants s.default_duration t.enabled_until) (enable_for (pos 50) "ann" 5 ∷ [])
open_needs_grant_example =
    open_needs_grant shell "open" "close" (pos 60) (enable_for (pos 50) "ann" 5 ∷ []) 40 41 opened

abbrev switch : Params
switch = ("mode", str "aggressive") ∷ []

switched :
    (run_store_tool StoreTool.mode_set (λ n. 7) switch store).1.policy_mode.mode
    ≡ PolicyMode.aggressive
unfolding run_store_tool set_mode set_policy_mode lookup
switched = refl

mode_set-aggressive_example : classify "policy.mode.set" switch ≡ RiskLevel.high
mode_set-aggressive_example = mode_set-aggressive (λ n. 7) switch store switched
