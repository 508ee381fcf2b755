-- ===== src/Orchestrator/StoreTools.antt =====
-- The tools that work on the store alone (backend/internal/orchestrator/service.go): the guards on
-- their parameters, and the call of the client.
use proxmaster.Prelude.{ℕ, String, ◌==◌, ◌||◌, Option, none, some, if◌then◌else◌}
use proxmaster.Prelude.Int.{pos}
use proxmaster.Models.{Params, BackupPolicy, ReplicationPolicy}
use proxmaster.Store.{MemoryStore}
use proxmaster.Mcp.{Clock, Result, err}
use proxmaster.Proxmox.Moves.{set_maintenance}
use proxmaster.Proxmox.Specs.{apply_spec, explain_spec, reconcile_spec, reconcile_all_specs}
use proxmaster.Proxmox.Workloads.{
  Created, created_result, make_vm, make_lxc, make_clone, apply_storage_pool, sync_inventory,
  plan_apply_pool, plan_rebuild, execute_rebuild, apply_replication, apply_net, updates_plan,
  canary_start, rollout_continue, rollout_abort, say_policy, explain_policy, set_mode,
}
use proxmaster.Proxmox.Backups.{
  upsert_policy, run_now, restore_plan, restore, verify_sample, list_policies, list_targets,
  simulate_policy,
}
use proxmaster.Proxmox.Blueprints.{
  text_at, list_all, plan_blueprint, verify_blueprint, update_blueprint, rollback_blueprint,
}
use proxmaster.Orchestrator.Names.{StoreTool, flag_at, int_at, map_at}
use proxmaster.Mcp.{Ending, answered, panicked}
use proxmaster.Proxmox.Backups

abbrev told : Result × MemoryStore → Ending × MemoryStore
told (res, s) = (answered res, s)

abbrev looked : Result → MemoryStore → Ending × MemoryStore
looked res s = (answered res, s)

abbrev refused : String → MemoryStore → Ending × MemoryStore
refused e s = (answered (err e), s)

abbrev made : Created × MemoryStore → Ending × MemoryStore
made (c, s) = (answered (created_result c), s)

abbrev pub planned : Option Result × MemoryStore → Ending × MemoryStore
planned (none, s) = (panicked, s)
planned (some res, s) = (answered res, s)

abbrev set_node : ℕ → Params → MemoryStore → Ending × MemoryStore
set_node now params s =
    if text_at "node_id" params == ""
    then refused "missing node_id" s
    else told (set_maintenance now (text_at "node_id" params) (flag_at "maintenance" params) s)

abbrev clone_template : ℕ → Params → MemoryStore → Ending × MemoryStore
clone_template now params s =
    let template_id = text_at "template_id" params in
    let target = text_at "target_node" params in
    if (template_id == "") || (target == "")
    then refused "missing template_id or target_node" s
    else made
        (make_clone now template_id (text_at "new_id" params) target (text_at "name" params) s)

-- Both tools of storage pools make the same checks.
abbrev with_pool :
    (String → String → Ending × MemoryStore) → Params → MemoryStore → Ending × MemoryStore
with_pool f params s =
    let name = text_at "name" params in
    let kind = text_at "type" params in
    if (name == "") || (kind == "") then refused "missing name or type" s else f name kind

abbrev rebuild : ℕ → Params → MemoryStore → Ending × MemoryStore
rebuild now params s =
    if text_at "plan_id" params == ""
    then refused "missing plan_id" s
    else told (execute_rebuild now (text_at "plan_id" params) s)

abbrev wanted_replication : Params → ReplicationPolicy
wanted_replication params = record {
  id = text_at "id" params;
  name = text_at "name" params;
  source_pool = text_at "source_pool" params;
  target_pool = text_at "target_pool" params;
  schedule = text_at "schedule" params;
  compression = text_at "compression" params;
  verify_after = flag_at "verify_after" params;
  status = "active";
}

abbrev network : ℕ → Params → MemoryStore → Ending × MemoryStore
network now params s =
    let name = text_at "name" params in
    let kind = text_at "kind" params in
    let cidr = text_at "cidr" params in
    if (name == "") || (kind == "") || (cidr == "")
    then refused "missing name, kind, or cidr" s
    else told (apply_net now name kind cidr s)

abbrev wanted_policy : Params → BackupPolicy
wanted_policy params = record {
  id = text_at "id" params;
  workload_id = text_at "workload_id" params;
  workload_kind = text_at "workload_kind" params;
  priority = int_at "priority" (pos 100) params;
  override = flag_at "override" params;
  schedule = text_at "schedule" params;
  target_id = text_at "target_id" params;
  rpo = text_at "rpo" params;
  retention = text_at "retention" params;
  encryption = flag_at "encryption" params;
  immutability = flag_at "immutability" params;
  verify_restore = flag_at "verify_restore" params;
  updated_at = 0;
}

unfoldable pub run_store_tool : StoreTool → Clock → Params → MemoryStore → Ending × MemoryStore
run_store_tool StoreTool.node_set_maintenance clock params s = set_node (clock 0) params s
run_store_tool StoreTool.spec_apply clock params s = told (
    apply_spec (clock 0) (clock 1) (text_at "scope" params) (text_at "key" params)
      (map_at "spec" params) s)
run_store_tool StoreTool.spec_explain clock params s =
    told (explain_spec (clock 0) (text_at "scope" params) (text_at "key" params) s)
run_store_tool StoreTool.spec_reconcile clock params s = told (
    reconcile_spec (clock 0) (text_at "scope" params) (text_at "key" params)
      (text_at "reconcile_job_id" params) s)
run_store_tool StoreTool.spec_reconcile_all clock params s =
    told (reconcile_all_specs clock (text_at "reconcile_job_id" params) s)
run_store_tool StoreTool.policy_simulate_backup clock params s =
    told (simulate_policy (clock 0) (text_at "workload_id" params) s)
run_store_tool StoreTool.blueprint_list clock params s = looked (list_all s) s
run_store_tool StoreTool.blueprint_plan clock params s = looked (plan_blueprint params s) s
run_store_tool StoreTool.blueprint_verify clock params s = looked (verify_blueprint params s) s
run_store_tool StoreTool.blueprint_update clock params s = looked (update_blueprint params s) s
run_store_tool StoreTool.blueprint_rollback clock params s = looked (rollback_blueprint params s) s
run_store_tool StoreTool.mode_set clock params s = told (
    set_mode (clock 0) (text_at "mode" params) (text_at "actor" params)
      (int_at "duration_minutes" (pos 0) params) s)
run_store_tool StoreTool.vm_create clock params s = made (
    make_vm (clock 0) (text_at "name" params) (text_at "node_id" params)
      (int_at "cpu" (pos 2) params) (int_at "memory_mb" (pos 2048) params)
      (int_at "disk_gb" (pos 20) params) s)
run_store_tool StoreTool.vm_clone clock params s = clone_template (clock 0) params s
run_store_tool StoreTool.lxc_create clock params s = made (
    make_lxc (clock 0) (text_at "name" params) (text_at "node_id" params)
      (int_at "cpu" (pos 2) params) (int_at "memory_mb" (pos 1024) params)
      (int_at "disk_gb" (pos 8) params) s)
run_store_tool StoreTool.pool_apply clock params s =
    with_pool (λ name kind. told (apply_storage_pool (clock 0) name kind s)) params s
run_store_tool StoreTool.pool_plan clock params s =
    with_pool (λ name kind. looked (plan_apply_pool name kind) s) params s
run_store_tool StoreTool.inventory_sync clock params s = told (sync_inventory (clock 0) s)
run_store_tool StoreTool.rebuild_plan clock params s = planned (plan_rebuild (clock 0) s)
run_store_tool StoreTool.rebuild_execute clock params s = rebuild (clock 0) params s
run_store_tool StoreTool.replication_apply clock params s =
    told (apply_replication (clock 0) (wanted_replication params) s)
run_store_tool StoreTool.network_apply clock params s = network (clock 0) params s
run_store_tool StoreTool.updates_plan clock params s =
    looked (updates_plan (text_at "strategy" params)) s
run_store_tool StoreTool.canary_start clock params s =
    looked (canary_start (clock 0) (text_at "node_id" params)) s
run_store_tool StoreTool.rollout_continue clock params s = looked rollout_continue s
run_store_tool StoreTool.rollout_abort clock params s =
    looked (rollout_abort (text_at "reason" params)) s
run_store_tool StoreTool.policy_simulate clock params s =
    looked (say_policy (text_at "tool" params) "MEDIUM") s
run_store_tool StoreTool.policy_explain clock params s =
    looked (explain_policy (text_at "tool" params)) s
run_store_tool StoreTool.backup_upsert clock params s =
    told (upsert_policy (clock 0) (wanted_policy params) s)
run_store_tool StoreTool.backup_explain clock params s =
    told (Backups.explain_policy (clock 0) (text_at "workload_id" params) s)
run_store_tool StoreTool.backup_run clock params s =
    told (run_now (clock 0) (clock 1) (text_at "workload_id" params) s)
run_store_tool StoreTool.restore_plan clock params s =
    told (restore_plan (clock 0) (text_at "workload_id" params) (text_at "target_id" params) s)
run_store_tool StoreTool.restore_execute clock params s =
    looked (restore (text_at "plan_id" params) s) s
run_store_tool StoreTool.backup_verify clock params s = looked (verify_sample (clock 0) s) s
run_store_tool StoreTool.policy_list clock params s = looked (list_policies s) s
run_store_tool StoreTool.target_list clock params s = looked (list_targets s) s
