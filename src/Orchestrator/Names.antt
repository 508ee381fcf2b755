-- ===== src/Orchestrator/Names.antt =====
-- The names of the tools that the switch of `Execute` knows
-- (backend/internal/orchestrator/service.go), and how it reads parameters.
use proxmaster.Prelude.{String, Bool, false, Option, none, some, [], ◌∷◌}
use proxmaster.Prelude.Int.{ℤ}
use proxmaster.Prelude.Dict.{Dict, lookup}
use proxmaster.Models.{Params, Value, bool, int, float64, get, as_map}

-- Tools that work on the store alone.
pub data StoreTool : Type 0 where
  node_set_maintenance spec_apply spec_explain spec_reconcile spec_reconcile_all
        policy_simulate_backup blueprint_list blueprint_plan blueprint_verify blueprint_update
        blueprint_rollback mode_set vm_create vm_clone lxc_create pool_apply pool_plan
        inventory_sync rebuild_plan rebuild_execute replication_apply network_apply updates_plan
        canary_start rollout_continue rollout_abort policy_simulate policy_explain backup_upsert
        backup_explain backup_run restore_plan restore_execute backup_verify policy_list
        target_list :
      StoreTool

-- Tools that use other parts of the program, or the world outside.
pub data ServiceTool : Type 0 where
  get_state get_all connectivity_status wireguard_status wireguard_plan wireguard_apply
        connection_test gitops_status gitops_sync gitops_rollback breakglass_status
        breakglass_enable breakglass_disable vm_migrate vm_migration_plan blueprint_deploy
        wireguard_vm_deploy self_migrate runner_exec :
      ServiceTool

pub data Tool : Type 0 where
  store_tool : StoreTool → Tool
  service_tool : ServiceTool → Tool

abbrev pub service_names : Dict Tool
service_names =
    ("cluster.get_state", service_tool ServiceTool.get_state)
    ∷ ("state.get.all", service_tool ServiceTool.get_all)
    ∷ ("connectivity.status", service_tool ServiceTool.connectivity_status)
    ∷ ("vpn.wireguard.status", service_tool ServiceTool.wireguard_status)
    ∷ ("vpn.wireguard.plan", service_tool ServiceTool.wireguard_plan)
    ∷ ("vpn.wireguard.apply", service_tool ServiceTool.wireguard_apply)
    ∷ ("proxmox.connection.test", service_tool ServiceTool.connection_test)
    ∷ ("gitops.status", service_tool ServiceTool.gitops_status)
    ∷ ("gitops.sync.now", service_tool ServiceTool.gitops_sync)
    ∷ ("gitops.rollback", service_tool ServiceTool.gitops_rollback)
    ∷ ("ssh.breakglass.status", service_tool ServiceTool.breakglass_status)
    ∷ ("ssh.breakglass.enable", service_tool ServiceTool.breakglass_enable)
    ∷ ("ssh.breakglass.disable", service_tool ServiceTool.breakglass_disable)
    ∷ ("vm.migrate", service_tool ServiceTool.vm_migrate)
    ∷ ("vm.migration.plan", service_tool ServiceTool.vm_migration_plan)
    ∷ ("blueprint.deploy", service_tool ServiceTool.blueprint_deploy)
    ∷ ("service.wireguard.vm.deploy", service_tool ServiceTool.wireguard_vm_deploy)
    ∷ ("proxmaster.self_migrate", service_tool ServiceTool.self_migrate)
    ∷ ("node.runner.exec", service_tool ServiceTool.runner_exec)
    ∷ []

abbrev pub cluster_names : Dict Tool
cluster_names =
    ("node.set_maintenance", store_tool StoreTool.node_set_maintenance)
    ∷ ("workload.spec.apply", store_tool StoreTool.spec_apply)
    ∷ ("workload.spec.explain", store_tool StoreTool.spec_explain)
    ∷ ("spec.reconcile", store_tool StoreTool.spec_reconcile)
    ∷ ("spec.reconcile.all", store_tool StoreTool.spec_reconcile_all)
    ∷ ("blueprint.list", store_tool StoreTool.blueprint_list)
    ∷ ("blueprint.plan", store_tool StoreTool.blueprint_plan)
    ∷ ("blueprint.verify", store_tool StoreTool.blueprint_verify)
    ∷ ("blueprint.update", store_tool StoreTool.blueprint_update)
    ∷ ("blueprint.rollback", store_tool StoreTool.blueprint_rollback)
    ∷ ("policy.mode.set", store_tool StoreTool.mode_set)
    ∷ ("vm.create", store_tool StoreTool.vm_create)
    ∷ ("vm.clone_from_template", store_tool StoreTool.vm_clone)
    ∷ ("lxc.create", store_tool StoreTool.lxc_create)
    ∷ ("network.apply", store_tool StoreTool.network_apply)
    ∷ ("network.plan_apply", store_tool StoreTool.network_apply)
    ∷ ("updates.plan", store_tool StoreTool.updates_plan)
    ∷ ("updates.canary_start", store_tool StoreTool.canary_start)
    ∷ ("updates.rollout_start", store_tool StoreTool.canary_start)
    ∷ ("updates.rollout_continue", store_tool StoreTool.rollout_continue)
    ∷ ("updates.rollout_pause", store_tool StoreTool.rollout_continue)
    ∷ ("updates.abort", store_tool StoreTool.rollout_abort)
    ∷ ("updates.rollout_abort", store_tool StoreTool.rollout_abort)
    ∷ ("policy.simulate", store_tool StoreTool.policy_simulate)
    ∷ ("policy.explain", store_tool StoreTool.policy_explain)
    ∷ []

abbrev pub storage_names : Dict Tool
storage_names =
    ("storage.pool.apply", store_tool StoreTool.pool_apply)
    ∷ ("storage.plan_apply", store_tool StoreTool.pool_plan)
    ∷ ("storage.inventory.sync", store_tool StoreTool.inventory_sync)
    ∷ ("storage.health.explain", store_tool StoreTool.inventory_sync)
    ∷ ("storage.pool.rebuild_all.plan", store_tool StoreTool.rebuild_plan)
    ∷ ("storage.pool.rebuild_all.execute", store_tool StoreTool.rebuild_execute)
    ∷ ("storage.replication.plan_apply", store_tool StoreTool.replication_apply)
    ∷ ("backup.policy.simulate", store_tool StoreTool.policy_simulate_backup)
    ∷ ("backup.policy.upsert", store_tool StoreTool.backup_upsert)
    ∷ ("backup.policy.explain", store_tool StoreTool.backup_explain)
    ∷ ("backup.run.now", store_tool StoreTool.backup_run)
    ∷ ("backup.restore.plan", store_tool StoreTool.restore_plan)
    ∷ ("backup.restore.execute", store_tool StoreTool.restore_execute)
    ∷ ("backup.verify.sample", store_tool StoreTool.backup_verify)
    ∷ ("backup.policy.list", store_tool StoreTool.policy_list)
    ∷ ("backup.target.list", store_tool StoreTool.target_list)
    ∷ []

abbrev pub or_else : Option Tool → Option Tool → Option Tool
or_else none o = o
or_else (some t) o = some t

-- The switch on the name.
unfoldable pub tool_named : String → Option Tool
unfolding lookup
tool_named name =
    or_else (lookup name service_names)
      (or_else (lookup name cluster_names) (lookup name storage_names))

-- `b, _ := params[key].(bool)` and its likes
abbrev as_flag : Option Value → Bool
as_flag (some (bool b)) = b
as_flag _ = false

abbrev pub flag_at : String → Params → Bool
flag_at key params = as_flag (get key params)

abbrev int_from : ℤ → Option Value → ℤ
int_from fallback (some (float64 n)) = n
int_from fallback (some (int n)) = n
int_from fallback _ = fallback

abbrev pub int_at : String → ℤ → Params → ℤ
int_at key fallback params = int_from fallback (get key params)

abbrev or_empty : Option Params → Params
or_empty none = []
or_empty (some m) = m

abbrev pub map_at : String → Params → Params
map_at key params = or_empty (as_map (get key params))
