-- ===== src/Proxmox/Workloads.antt =====
-- New machines, storage pools, networks and rolling updates, and what is said of the policy
-- (backend/internal/proxmox/client.go).
use proxmaster.Prelude.{
  List, ℕ, String, ◌<>◌, ◌==◌, true, false, ◌||◌, Option, none, some, [], ◌∷◌, if◌then◌else◌,
}
use proxmaster.Prelude.Int.{ℤ, pos, ltb_ℤ, scale}
use proxmaster.Prelude.Text.{default_text, one_of}
use proxmaster.Prelude.Dict.{insert}
use proxmaster.Models.{
  Params, bool, str, time, Vm, ClusterState, StorageRebuildPlan, ReplicationPolicy, PolicyMode,
  PolicyModeState,
}
use proxmaster.Models.Json.{
  array, vm_value, pool_value, datastore_value, tier_value, replication_value, target_value,
  rebuild_plan_value, mode_state_value,
}
use proxmaster.Store.{MemoryStore}
use proxmaster.Store.Cluster.{
  create_vm, create_lxc, clone_vm, apply_pool, apply_network, sync_storage_inventory,
  plan_rebuild_all_pools, execute_rebuild_all_pools, apply_replication_policy,
}
use proxmaster.Store.Mode.{set_policy_mode, is_aggressive}
use proxmaster.Mcp.{Result, ok, err}

-- A result that tells the machine by its record, which `DeployBlueprint` reads back.
pub data Created : Type 0 where
  vm_created : Vm → Created
  lxc_created : Vm → Created
  not_created : String → Created

abbrev pub created_fields : Created → Params
created_fields (vm_created v) = ("changed", bool true) ∷ ("vm", vm_value v) ∷ []
created_fields (lxc_created v) = ("changed", bool true) ∷ ("lxc", vm_value v) ∷ []
created_fields (not_created e) = []

abbrev pub created_result : Created → Result
created_result (not_created e) = err e
created_result c = ok (created_fields c)

abbrev wanted_vm : String → String → ℤ → ℤ → ℤ → ℤ → String → Vm
wanted_vm name node_id cpu memory_mb disk_gb priority kind = record {
  id = "";
  node_id = node_id;
  name = name;
  power = "";
  priority = priority;
  cpu = cpu;
  memory_mb = memory_mb;
  disk_gb = disk_gb;
  kind = kind;
}

unfoldable pub make_vm : ℕ → String → String → ℤ → ℤ → ℤ → MemoryStore → Created × MemoryStore
make_vm now name node_id cpu memory_mb disk_gb s =
    if (name == "") || (node_id == "")
    then (not_created "missing name or node_id", s)
    else (let (v, s') =
          create_vm now (wanted_vm name node_id cpu memory_mb disk_gb (pos 80) "vm") s in
        (vm_created v, s'))

unfoldable pub make_lxc : ℕ → String → String → ℤ → ℤ → ℤ → MemoryStore → Created × MemoryStore
make_lxc now name node_id cpu memory_mb disk_gb s =
    if (name == "") || (node_id == "")
    then (not_created "missing name or node_id", s)
    else (let (v, s') =
          create_lxc now (wanted_vm name node_id cpu memory_mb disk_gb (pos 70) "lxc") s in
        (lxc_created v, s'))

abbrev cloned : Option Vm → Created
cloned none = not_created "template vm not found"
cloned (some v) = vm_created v

unfoldable pub make_clone :
    ℕ → String → String → String → String → MemoryStore → Created × MemoryStore
make_clone now template_id new_id target name s =
    let (found, s') = clone_vm now template_id new_id target name s in (cloned found, s')

unfoldable pub apply_storage_pool : ℕ → String → String → MemoryStore → Result × MemoryStore
apply_storage_pool now name kind s = (
  ok (("changed", bool true) ∷ ("pool_name", str name) ∷ ("pool_type", str kind) ∷ []),
  apply_pool now name kind s,
)

abbrev pub inventory : ClusterState → Params
inventory state =
    ("pools", array pool_value state.pools)
    ∷ ("datastores", array datastore_value state.datastores)
    ∷ ("snapshot_tiers", array tier_value state.snapshot_tiers)
    ∷ ("replication_policies", array replication_value state.replication_policies)
    ∷ ("backup_targets", array target_value state.backup_targets)
    ∷ ("updated_at", time state.updated_at)
    ∷ []

unfoldable pub sync_inventory : ℕ → MemoryStore → Result × MemoryStore
sync_inventory now s =
    let (state, s') = sync_storage_inventory now s in
    (ok (insert "changed" (bool false) (inventory state)), s')

unfoldable pub plan_apply_pool : String → String → Result
plan_apply_pool name kind =
    if (name == "") || (kind == "")
    then err "missing name or type"
    else ok (
        ("changed", bool false)
        ∷ ("action", str "storage_pool_plan_apply")
        ∷ ("name", str name)
        ∷ ("type", str kind)
        ∷ ("dry_run_passed", bool true)
        ∷ ("impact_summary", str "pool metadata update only")
        ∷ ("requires_approval", bool true)
        ∷ [])

abbrev rebuild_planned : StorageRebuildPlan → Result
rebuild_planned plan =
    ok (("changed", bool false) ∷ ("plan", rebuild_plan_value plan) ∷ ("phase", str "plan") ∷ [])

-- `none` is the panic of the store on a cluster without pools.
unfoldable pub plan_rebuild : ℕ → MemoryStore → Option Result × MemoryStore
plan_rebuild now s =
    let (plan, s') = plan_rebuild_all_pools now s in
    (elim plan [ none ↦ none | some p ↦ some (rebuild_planned p) ], s')

abbrev rebuild_started : Option StorageRebuildPlan → Result
rebuild_started none = err "rebuild plan not found"
rebuild_started (some plan) = ok (
    ("changed", bool true)
    ∷ ("phase", str "execute")
    ∷ ("plan", rebuild_plan_value plan)
    ∷ ("execution_mode", str "canary_then_rolling")
    ∷ ("post_verify", str "scheduled")
    ∷ ("reconcile_state", str "pending")
    ∷ [])

unfoldable pub execute_rebuild : ℕ → String → MemoryStore → Result × MemoryStore
execute_rebuild now plan_id s =
    let (plan, s') = execute_rebuild_all_pools now plan_id s in (rebuild_started plan, s')

unfoldable pub apply_replication : ℕ → ReplicationPolicy → MemoryStore → Result × MemoryStore
apply_replication now policy s =
    let (updated, s') = apply_replication_policy now policy s in
    (ok (("changed", bool true) ∷ ("replication_policy", replication_value updated) ∷ []), s')

unfoldable pub apply_net : ℕ → String → String → String → MemoryStore → Result × MemoryStore
apply_net now name kind cidr s = (
  ok (("changed", bool true) ∷ ("name", str name) ∷ ("kind", str kind) ∷ ("cidr", str cidr) ∷ []),
  apply_network now name kind cidr s,
)

unfoldable pub updates_plan : String → Result
updates_plan strategy = ok (
    ("changed", bool false)
    ∷ ("strategy", str (default_text "canary_then_rolling" strategy))
    ∷ ("canary_node", str "node-1")
    ∷ ("estimated_duration", str "45m")
    ∷ [])

unfoldable pub canary_start : ℕ → String → Result
canary_start now node_id = ok (
    ("changed", bool true)
    ∷ ("status", str "canary_started")
    ∷ ("node_id", str (default_text "node-1" node_id))
    ∷ ("started_at_utc", time now)
    ∷ [])

unfoldable pub rollout_continue : Result
rollout_continue = ok (("changed", bool true) ∷ ("status", str "rolling_update_continued") ∷ [])

unfoldable pub rollout_abort : String → Result
rollout_abort reason = ok (
    ("changed", bool true)
    ∷ ("status", str "rolling_update_aborted")
    ∷ ("reason", str (default_text "manual abort" reason))
    ∷ [])

unfoldable pub say_policy : String → String → Result
say_policy tool risk = ok (
    ("tool", str tool)
    ∷ ("risk_level", str risk)
    ∷ ("recommended_action", str "require gate check and approval for high risk")
    ∷ [])

unfoldable pub explain_policy : String → Result
explain_policy tool = ok (
    ("tool", str tool)
    ∷ ("policy_scope", str "SRE-mode guarded autonomy")
    ∷ (
      "details",
      str ("tool " <> tool <> " is evaluated by risk + hard blocks + fail-closed health gates"),
    )
    ∷ [])

abbrev pub aggressive_names : List String
aggressive_names = "AGGRESSIVE_AUTO" ∷ "aggressive" ∷ "aggressive_auto" ∷ []

abbrev pub mode_named : String → PolicyMode
mode_named raw =
    if one_of raw aggressive_names then PolicyMode.aggressive else PolicyMode.guarded_sre

abbrev minute : ℕ
minute = 60000000000

abbrev mode_report : PolicyModeState → Params
mode_report st =
    ("changed", bool true)
    ∷ ("policy_mode", mode_state_value st)
    ∷ ("aggressive", bool (is_aggressive st.mode))
    ∷ ("auto_expires", time st.aggressive_until)
    ∷ []

unfoldable pub set_mode : ℕ → String → String → ℤ → MemoryStore → Result × MemoryStore
set_mode now raw actor duration_min s =
    let minutes = if ltb_ℤ duration_min (pos 0) then pos 0 else duration_min in
    let (st, s') = set_policy_mode now (mode_named raw) actor (scale minutes minute) s in
    (ok (mode_report st), s')
