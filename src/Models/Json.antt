-- ===== src/Models/Json.antt =====
-- The JSON objects of the data that results carry (the `json` tags of
-- backend/internal/models/types.go). A struct in a result stands by its object, whose fields are
-- the tagged ones; a field marked `omitempty` is left out where its value is the empty one.
use proxmaster.Prelude.{String, ◌==◌, if◌then◌else◌, List, [], ◌∷◌, ◌++◌, map}
use proxmaster.Prelude.Dict.{Dict}
use proxmaster.Models.Any.{Params, Value, str, int, bool, time, arr, items, map_value}
use proxmaster.Models.Cluster.{
  Node, Vm, StoragePool, Datastore, SnapshotTier, ReplicationPolicy, BackupTarget, NetworkObject,
  ClusterState,
}
use proxmaster.Models.Backup.{BackupPolicy, BackupDecisionLog, StorageRebuildPlan, RestorePlan}
use proxmaster.Models.Tasks.{
  DriftStatus, ResourceSpec, WorkloadSpec, ServiceBlueprintSpec, DesiredStateBundle,
  BlueprintDefinition,
}
use proxmaster.Models.Policy.{PolicyMode, PolicyModeState}

abbrev pub array : {A : Type 0} → (A → Value) → List A → Value
array f xs = arr (items (map f xs))

abbrev pub texts : List String → Value
texts ss = array str ss

-- A text field and a map field that are left out where they are empty.
abbrev pub text_field : String → String → Params
text_field name s = if s == "" then [] else (name, str s) ∷ []

abbrev pub map_field : String → Params → Params
map_field name [] = []
map_field name (f ∷ m) = (name, map_value (f ∷ m)) ∷ []

abbrev texts_field : String → List String → Params
texts_field name [] = []
texts_field name (s ∷ ss) = (name, texts (s ∷ ss)) ∷ []

abbrev str_fields : Dict String → Params
str_fields [] = []
str_fields ((k, s) ∷ m) = (k, str s) ∷ str_fields m

unfoldable pub node_value : Node → Value
node_value n = map_value (
    ("id", str n.id)
    ∷ ("name", str n.name)
    ∷ ("status", str n.status)
    ∷ ("maintenance", bool n.maintenance)
    ∷ ("last_heartbeat", time n.last_heartbeat)
    ∷ ("runner_healthy", bool n.runner_healthy)
    ∷ [])

unfoldable pub vm_value : Vm → Value
vm_value v = map_value (
    ("id", str v.id)
    ∷ ("node_id", str v.node_id)
    ∷ ("name", str v.name)
    ∷ ("power", str v.power)
    ∷ ("priority", int v.priority)
    ∷ ("cpu", int v.cpu)
    ∷ ("memory_mb", int v.memory_mb)
    ∷ ("disk_gb", int v.disk_gb)
    ∷ ("kind", str v.kind)
    ∷ [])

unfoldable pub pool_value : StoragePool → Value
pool_value p = map_value (
    ("name", str p.name)
    ∷ ("type", str p.pool_type)
    ∷ ("backend", str p.backend)
    ∷ ("status", str p.status)
    ∷ ("capacity_gb", int p.capacity_gb)
    ∷ ("used_gb", int p.used_gb)
    ∷ ("tier", str p.tier)
    ∷ [])

unfoldable pub datastore_value : Datastore → Value
datastore_value d = map_value (
    ("id", str d.id)
    ∷ ("name", str d.name)
    ∷ ("kind", str d.kind)
    ∷ ("pool_name", str d.pool_name)
    ∷ ("path", str d.path)
    ∷ ("status", str d.status)
    ∷ [])

unfoldable pub tier_value : SnapshotTier → Value
tier_value t = map_value (
    ("name", str t.name)
    ∷ ("frequency", str t.frequency)
    ∷ ("retention", str t.retention)
    ∷ ("immutable", bool t.immutable)
    ∷ ("target_datastore", str t.target_datastore)
    ∷ [])

unfoldable pub replication_value : ReplicationPolicy → Value
replication_value p = map_value (
    ("id", str p.id)
    ∷ ("name", str p.name)
    ∷ ("source_pool", str p.source_pool)
    ∷ ("target_pool", str p.target_pool)
    ∷ ("schedule", str p.schedule)
    ∷ ("compression", str p.compression)
    ∷ ("verify_after", bool p.verify_after)
    ∷ ("status", str p.status)
    ∷ [])

unfoldable pub target_value : BackupTarget → Value
target_value t = map_value (
    ("id", str t.id)
    ∷ ("name", str t.name)
    ∷ ("kind", str t.kind)
    ∷ ("uri", str t.uri)
    ∷ ("healthy", bool t.healthy)
    ∷ [])

unfoldable pub network_value : NetworkObject → Value
network_value n = map_value (
    ("name", str n.name)
    ∷ ("kind", str n.kind)
    ∷ ("cidr", str n.cidr)
    ∷ ("status", str n.status)
    ∷ [])

unfoldable pub state_value : ClusterState → Value
unfolding node_value vm_value pool_value datastore_value tier_value replication_value target_value
    network_value
state_value s = map_value (
    ("nodes", array node_value s.nodes)
    ∷ ("vms", array vm_value s.vms)
    ∷ ("pools", array pool_value s.pools)
    ∷ ("datastores", array datastore_value s.datastores)
    ∷ ("snapshot_tiers", array tier_value s.snapshot_tiers)
    ∷ ("replication_policies", array replication_value s.replication_policies)
    ∷ ("backup_targets", array target_value s.backup_targets)
    ∷ ("networks", array network_value s.networks)
    ∷ ("ha_enabled", bool s.ha_enabled)
    ∷ ("updated_at", time s.updated_at)
    ∷ [])

unfoldable pub policy_value : BackupPolicy → Value
policy_value p = map_value (
    ("id", str p.id)
    ∷ ("workload_id", str p.workload_id)
    ∷ ("workload_kind", str p.workload_kind)
    ∷ ("priority", int p.priority)
    ∷ ("override", bool p.override)
    ∷ ("schedule", str p.schedule)
    ∷ ("target_id", str p.target_id)
    ∷ ("rpo", str p.rpo)
    ∷ ("retention", str p.retention)
    ∷ ("encryption", bool p.encryption)
    ∷ ("immutability", bool p.immutability)
    ∷ ("verify_restore", bool p.verify_restore)
    ∷ ("updated_at", time p.updated_at)
    ∷ [])

unfoldable pub decision_log_value : BackupDecisionLog → Value
decision_log_value l = map_value (
    ("id", str l.id)
    ∷ ("workload_id", str l.workload_id)
    ∷ ("policy_id", str l.policy_id)
    ∷ ("reason", str l.reason)
    ∷ ("created_at", time l.created_at)
    ∷ [])

unfoldable pub rebuild_plan_value : StorageRebuildPlan → Value
rebuild_plan_value p = map_value (
    ("id", str p.id)
    ∷ ("pool_names", texts p.pool_names)
    ∷ ("affected_workloads", texts p.affected_workloads)
    ∷ ("estimated_downtime", str p.estimated_downtime)
    ∷ ("canary_pool", str p.canary_pool)
    ∷ ("guardrail_summary", str p.guardrail_summary)
    ∷ ("rollback_steps", texts p.rollback_steps)
    ∷ ("dry_run_passed", bool p.dry_run_passed)
    ∷ ("created_at", time p.created_at)
    ∷ [])

unfoldable pub restore_plan_value : RestorePlan → Value
restore_plan_value p = map_value (
    ("id", str p.id)
    ∷ ("workload_id", str p.workload_id)
    ∷ ("backup_target_id", str p.backup_target_id)
    ∷ ("snapshot_ref", str p.snapshot_ref)
    ∷ ("dry_run_passed", bool p.dry_run_passed)
    ∷ ("created_at", time p.created_at)
    ∷ [])

abbrev pub drift_text : DriftStatus → String
drift_text DriftStatus.unset = ""
drift_text DriftStatus.in_sync = "IN_SYNC"
drift_text DriftStatus.pending = "PENDING"
drift_text DriftStatus.drifted = "DRIFTED"
drift_text DriftStatus.error = "ERROR"

unfoldable pub spec_value : ResourceSpec → Value
spec_value s = map_value (
    ("desired", map_value s.desired)
    ∷ ("observed", map_value s.observed)
    ∷ ("drift_status", str (drift_text s.drift_status))
    ∷ (text_field "last_reconcile_job_id" s.last_reconcile_job_id
        ++ ("spec_version", int s.spec_version) ∷ ("updated_at", time s.updated_at) ∷ []))

unfoldable pub bundle_value : DesiredStateBundle → Value
unfolding spec_value
bundle_value b = map_value (
    ("cluster", spec_value b.cluster)
    ∷ ("storage", spec_value b.storage)
    ∷ ("network", spec_value b.network)
    ∷ ("backup", spec_value b.backup)
    ∷ ("workloads", spec_value b.workloads)
    ∷ ("blueprints", spec_value b.blueprints)
    ∷ [])

unfoldable pub workload_value : WorkloadSpec → Value
workload_value w = map_value (
    ("id", str w.id)
    ∷ ("name", str w.name)
    ∷ ("kind", str w.kind)
    ∷ ("node_id", str w.node_id)
    ∷ ("cpu", int w.cpu)
    ∷ ("memory_mb", int w.memory_mb)
    ∷ ("disk_gb", int w.disk_gb)
    ∷ ("desired_power", str w.desired_power)
    ∷ (text_field "template_id" w.template_id
        ++ (map_field "cloud_init" (str_fields w.cloud_init) ++ texts_field "tags" w.tags)))

unfoldable pub blueprint_spec_fields : ServiceBlueprintSpec → Params
unfolding workload_value
blueprint_spec_fields b =
    ("name", str b.name)
    ∷ ("version", str b.version)
    ∷ ("workload", workload_value b.workload)
    ∷ map_field "parameters" b.parameters

unfoldable pub blueprint_value : BlueprintDefinition → Value
blueprint_value b = map_value (
    ("name", str b.name)
    ∷ ("version", str b.version)
    ∷ ("description", str b.description)
    ∷ ("provision_kind", str b.provision_kind)
    ∷ ("default_cpu", int b.default_cpu)
    ∷ ("default_memory_mb", int b.default_mem_mb)
    ∷ ("default_disk_gb", int b.default_disk_gb)
    ∷ ("ansible_roles", texts b.ansible_roles)
    ∷ ("health_checks", texts b.health_checks)
    ∷ ("rollback_steps", texts b.rollback_steps)
    ∷ ("parameters", map_value b.parameters)
    ∷ [])

abbrev pub policy_mode_text : PolicyMode → String
policy_mode_text PolicyMode.unset = ""
policy_mode_text PolicyMode.guarded_sre = "GUARDED_SRE"
policy_mode_text PolicyMode.aggressive = "AGGRESSIVE_AUTO"

unfoldable pub mode_state_value : PolicyModeState → Value
mode_state_value m = map_value (
    ("mode", str (policy_mode_text m.mode))
    ∷ ("aggressive_until", time m.aggressive_until)
    ∷ (text_field "last_changed_by" m.last_changed_by ++ ("updated_at", time m.updated_at) ∷ []))
