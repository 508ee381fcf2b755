-- ===== src/Risk.antt =====
-- backend/internal/risk/engine.go: how risky a tool call is, and why a risky one is held back.
pub mod Laws
use proxmaster.Prelude.{
  ℕ, String, ◌<>◌, ◌==◌, Bool, true, false, not, ◌||◌, ◌&&◌, Option, none, some, List, [], ◌∷◌,
  if◌then◌else◌,
}
use proxmaster.Prelude.Int.{ℤ, pos, negsuc, leb_ℤ, pos_part}
use proxmaster.Prelude.Text.{to_lower, to_upper, equal_fold, contains, has_prefix, one_of, show_nat}
use proxmaster.Models.{Params, Value, null, float64, str, get, as_string, RiskLevel}
use proxmaster.Models.Sprint.{sprint}

abbrev pub low_tools : List String
low_tools =
    "cluster.get_state" ∷ "proxmox.connection.test" ∷ "connectivity.status" ∷ "gitops.status"
    ∷ "ssh.breakglass.status" ∷ "vpn.wireguard.status" ∷ "state.get.all" ∷ "workload.spec.explain"
    ∷ "backup.policy.simulate" ∷ "blueprint.list" ∷ "blueprint.plan" ∷ "blueprint.verify"
    ∷ "spec.reconcile" ∷ "spec.reconcile.all" ∷ []

abbrev pub medium_tools : List String
medium_tools =
    "node.set_maintenance" ∷ "vm.migrate" ∷ "vm.migration.plan" ∷ "updates.rollout_pause"
    ∷ "updates.plan" ∷ "policy.simulate" ∷ "policy.explain" ∷ "vm.create" ∷ "vm.clone_from_template"
    ∷ "lxc.create" ∷ "storage.inventory.sync" ∷ "storage.health.explain" ∷ "backup.policy.explain"
    ∷ "backup.policy.list" ∷ "backup.target.list" ∷ "gitops.sync.now" ∷ "gitops.rollback"
    ∷ "ssh.breakglass.disable" ∷ "vpn.wireguard.plan" ∷ "workload.spec.apply"
    ∷ "service.wireguard.vm.deploy" ∷ []

abbrev pub high_tools : List String
high_tools =
    "storage.pool.apply" ∷ "storage.plan_apply" ∷ "storage.pool.rebuild_all.plan"
    ∷ "storage.pool.rebuild_all.execute" ∷ "storage.replication.plan_apply" ∷ "network.apply"
    ∷ "network.plan_apply" ∷ "updates.rollout_start" ∷ "updates.canary_start"
    ∷ "updates.rollout_continue" ∷ "updates.rollout_abort" ∷ "node.runner.exec"
    ∷ "proxmaster.self_migrate" ∷ "backup.policy.upsert" ∷ "backup.run.now" ∷ "backup.restore.plan"
    ∷ "backup.restore.execute" ∷ "backup.verify.sample" ∷ "ssh.breakglass.enable"
    ∷ "vpn.wireguard.apply" ∷ "blueprint.deploy" ∷ "blueprint.update" ∷ "blueprint.rollback" ∷ []

-- `fmt.Sprint(params["mode"])`: a missing key is nil.
mode_text : Option Value → String
mode_text none = sprint null
mode_text (some v) = sprint v

scope_is_wide : Option String → Bool
scope_is_wide none = false
scope_is_wide (some s) = one_of (to_lower s) ("cluster" ∷ "all_nodes" ∷ [])

command_stops_node : Option String → Bool
command_stops_node none = false
command_stops_node (some c) = contains (to_lower c) "reboot" || contains (to_lower c) "shutdown"

-- What follows the switch of `Classify`; `tool` is in lower case.
classify_rest : String → Params → RiskLevel
classify_rest tool params =
    if tool == "policy.mode.set"
    then if contains (to_upper (mode_text (get "mode" params))) "AGGRESSIVE"
      then RiskLevel.high
      else RiskLevel.medium
    else if contains tool "shutdown" || contains tool "quorum"
    then RiskLevel.high
    else if scope_is_wide (as_string (get "scope" params))
    then RiskLevel.high
    else if command_stops_node (as_string (get "command" params))
    then RiskLevel.high
    else RiskLevel.medium

classify_lower : String → Params → RiskLevel
classify_lower tool params =
    if one_of tool low_tools
    then RiskLevel.low
    else if one_of tool medium_tools
    then RiskLevel.medium
    else if one_of tool high_tools
    then RiskLevel.high
    else classify_rest tool params

unfoldable pub classify : String → Params → RiskLevel
unfolding classify_lower classify_rest mode_text scope_is_wide command_stops_node
classify tool params = classify_lower (to_lower tool) params

is_high : RiskLevel → Bool
is_high RiskLevel.high = true
is_high _ = false

-- `scope, ok := params["scope"].(string); ok && strings.EqualFold(scope, "cluster")`
is_cluster_scope : Option String → Bool
is_cluster_scope none = false
is_cluster_scope (some s) = equal_fold s "cluster"

-- `count, ok := params["node_count"].(float64); ok && count >= 2`
rollout_reason : Option Value → String
rollout_reason (some (float64 count)) =
    if leb_ℤ (pos 2) count
    then "rolling update affecting " <> show_nat (pos_part count) <> " nodes is hard-blocked"
    else "rolling updates require explicit approval"
rollout_reason _ = "rolling updates require explicit approval"

-- The reasons of `HardBlockReason`, in the order of its tests.
block_reason : String → Params → String
block_reason tool params =
    if contains tool "shutdown"
    then "cluster shutdown is always hard-blocked"
    else if one_of tool ("network.apply" ∷ "network.plan_apply" ∷ [])
    then "network changes may impact quorum and are hard-blocked"
    else if one_of tool ("storage.pool.apply" ∷ "storage.plan_apply" ∷ [])
    then if is_cluster_scope (as_string (get "scope" params))
      then "cluster-wide storage change is hard-blocked"
      else "storage pool mutations require explicit approval"
    else if tool == "storage.pool.rebuild_all.plan"
    then "rebuild-all planning is guarded and requires explicit approval"
    else if tool == "storage.pool.rebuild_all.execute"
    then "rebuild-all execution always requires explicit dual approval"
    else if tool == "storage.replication.plan_apply"
    then "replication policy changes require explicit approval"
    else if one_of tool
        ("updates.rollout_start" ∷ "updates.canary_start" ∷ "updates.rollout_continue" ∷ [])
    then rollout_reason (get "node_count" params)
    else if tool == "updates.rollout_abort"
    then "rollout abort can cause inconsistent state and is hard-blocked"
    else if tool == "proxmaster.self_migrate"
    then "control-plane migration requires explicit dual approval"
    else if tool == "ssh.breakglass.enable"
    then "break-glass ssh enable requires explicit dual approval"
    else if tool == "vpn.wireguard.apply"
    then "wireguard apply touches host network and requires explicit approval"
    else if tool == "policy.mode.set"
    then "switching to aggressive auto mode requires explicit approval"
    else if tool == "node.runner.exec"
    then "host-level runner execution requires explicit approval"
    else if has_prefix tool "backup."
    then "backup and restore mutations require explicit approval"
    else "high-risk action requires second approval"

unfoldable pub hard_block_reason : String → Params → RiskLevel → Bool × String
unfolding is_high block_reason rollout_reason is_cluster_scope
hard_block_reason tool params risk =
    if not (is_high risk) then (false, "") else (true, block_reason (to_lower tool) params)
