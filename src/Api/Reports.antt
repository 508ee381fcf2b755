-- ===== src/Api/Reports.antt =====
-- The handlers that report (backend/internal/api/server.go). Three of them write as they read: an
-- inventory is stamped, a policy mode that has run out is set back, and break-glass access that has
-- run out is closed.
use proxmaster.Prelude.{ℕ, String, ◌==◌, not, Option, none, some, List, [], ◌∷◌, if◌then◌else◌}
use proxmaster.Prelude.Text.{trim_prefix}
use proxmaster.Prelude.Dict.{Dict}
use proxmaster.Models.{Params, Value, str, time, map_value, ResourceSpec, AgentTask, Job}
use proxmaster.Models.Json.{
  array, texts, state_value, node_value, vm_value, network_value, policy_value, target_value,
  spec_value, bundle_value, blueprint_value, blueprint_spec_fields, mode_state_value,
}
use proxmaster.Models.Reports.{job_value, audit_value, incident_value, task_value}
use proxmaster.Health.{GateEvaluator, snapshot_from_state, explain}
use proxmaster.Controlplane.{Manager, endpoint}
use proxmaster.Store.{MemoryStore}
use proxmaster.Store.Cluster.{cluster_state, sync_storage_inventory}
use proxmaster.Store.Backup.{list_backup_policies, list_backup_targets}
use proxmaster.Store.Jobs.{list_jobs, get_job, list_audit, list_incidents}
use proxmaster.Store.Tasks.{list_agent_tasks, get_agent_task}
use proxmaster.Store.Specs.{
  get_spec, list_specs, desired_state_bundle, list_blueprints, list_blueprint_specs,
}
use proxmaster.Store.Mode.{get_policy_mode}
use proxmaster.Mcp.{Clock}
use proxmaster.Proxmox.Workloads.{inventory}
use proxmaster.Api.Requests.{Response, json, reply, error, not_found}

-- The open endpoints that say what the service is.
unfoldable pub index : String → Response
index path =
    if not (path == "/")
    then not_found
    else reply 200 (
        ("service", str "proxmaster-api")
        ∷ ("status", str "ok")
        ∷ (
          "hint",
          str "API reachable. Use /healthz for liveness and authenticated endpoints for control.",
        )
        ∷ (
          "endpoints",
          map_value (
              ("health", str "/healthz")
              ∷ ("overview", str "/cluster/overview")
              ∷ ("webui", str "/webui")
              ∷ ("connectivity", str "/connectivity/status")
              ∷ ("wireguard", str "/vpn/wireguard/status")
              ∷ ("gitops_status", str "/gitops/status")
              ∷ []),
        )
        ∷ [])

unfoldable pub place : Manager → Params
unfolding endpoint
place m =
    ("mode", str m.cfg.mode)
    ∷ ("endpoint", str (endpoint m))
    ∷ ("current_node", str m.current_node)
    ∷ []

unfoldable pub control_plane : Manager → Response
control_plane m = reply 200 (place m)

abbrev gate_report : GateEvaluator → ℕ → MemoryStore → Params
gate_report gate now s = explain gate (snapshot_from_state gate now (cluster_state s))

unfoldable pub health : GateEvaluator → Clock → MemoryStore → Manager → Response
health gate clock s m = reply 200 (
    ("status", str "ok")
    ∷ ("time", time (clock 1))
    ∷ ("health_gate", map_value (gate_report gate (clock 0) s))
    ∷ ("controlplane", map_value (place m))
    ∷ [])

unfoldable pub overview : GateEvaluator → Clock → MemoryStore → Manager → Response
overview gate clock s m = reply 200 (
    ("cluster", state_value (cluster_state s))
    ∷ ("health_gate", map_value (gate_report gate (clock 0) s))
    ∷ ("controlplane", map_value (place m))
    ∷ [])

unfoldable pub nodes : MemoryStore → Response
nodes s = reply 200 (("nodes", array node_value (cluster_state s).nodes) ∷ [])

unfoldable pub vms : MemoryStore → Response
vms s = reply 200 (("vms", array vm_value (cluster_state s).vms) ∷ [])

unfoldable pub one_spec : String → String → MemoryStore → Response
one_spec scope key s = elim (get_spec scope key s) [
  | none ↦ error 404 "spec not found"
  | some spec ↦ reply 200 (("scope", str scope) ∷ ("key", str key) ∷ ("spec", spec_value spec) ∷ [])
]

abbrev specs_fields : Dict ResourceSpec → Params
specs_fields [] = []
specs_fields ((k, spec) ∷ m) = (k, spec_value spec) ∷ specs_fields m

abbrev specs_of : String → MemoryStore → Value
specs_of scope s = map_value (specs_fields (list_specs scope s))

abbrev observed : Value → String → MemoryStore → Response
observed seen scope s = reply 200 (("observed", seen) ∷ ("spec", specs_of scope s) ∷ [])

unfoldable pub state_cluster : MemoryStore → Response
state_cluster s = observed (state_value (cluster_state s)) "cluster" s

unfoldable pub state_storage : ℕ → MemoryStore → Response × MemoryStore
state_storage now s =
    let (state, s') = sync_storage_inventory now s in
    (observed (map_value (inventory state)) "storage" s', s')

unfoldable pub storage_inventory : ℕ → MemoryStore → Response × MemoryStore
storage_inventory now s =
    let (state, s') = sync_storage_inventory now s in (reply 200 (inventory state), s')

unfoldable pub state_network : MemoryStore → Response
state_network s = observed (array network_value (cluster_state s).networks) "network" s

abbrev backups : MemoryStore → Params
backups s =
    ("policies", array policy_value (list_backup_policies s))
    ∷ ("targets", array target_value (list_backup_targets s))
    ∷ []

unfoldable pub state_backup : MemoryStore → Response
state_backup s = observed (map_value (backups s)) "backup" s

unfoldable pub state_workloads : MemoryStore → Response
state_workloads s = observed (array vm_value (cluster_state s).vms) "workloads" s

unfoldable pub state_all : Clock → MemoryStore → Response × MemoryStore
state_all clock s =
    let (mode, s') = get_policy_mode (clock 0) (clock 1) s in
    (
      reply 200 (
          ("cluster", state_value (cluster_state s))
          ∷ ("desired", bundle_value (desired_state_bundle s))
          ∷ ("workloads", specs_of "workloads" s)
          ∷ ("policy", mode_state_value mode)
          ∷ []),
      s',
    )

unfoldable pub policy_mode : Clock → MemoryStore → Response × MemoryStore
policy_mode clock s =
    let (mode, s') = get_policy_mode (clock 0) (clock 1) s in (json 200 (mode_state_value mode), s')

abbrev guarded : List String
guarded =
    "storage.plan_apply" ∷ "network.plan_apply" ∷ "updates.canary_start" ∷ "node.runner.exec"
    ∷ "proxmaster.self_migrate" ∷ "ssh.breakglass.enable" ∷ "vpn.wireguard.apply" ∷ []

unfoldable pub explain_policy : GateEvaluator → Clock → MemoryStore → Response × MemoryStore
explain_policy gate clock s =
    let (mode, s') = get_policy_mode (clock 1) (clock 2) s in
    (
      reply 200 (
          ("mode", str "SRE_MODE_FAIL_CLOSED")
          ∷ ("policy_mode", mode_state_value mode)
          ∷ ("guarded", texts guarded)
          ∷ ("health_gate", map_value (gate_report gate (clock 0) s))
          ∷ []),
      s',
    )

unfoldable pub blueprints : MemoryStore → Response
blueprints s = reply 200 (
    ("catalog", array blueprint_value (list_blueprints s))
    ∷ ("deployed_specs", array (λ b. map_value (blueprint_spec_fields b)) (list_blueprint_specs s))
    ∷ [])

unfoldable pub policies : MemoryStore → Response
policies s = reply 200 (("policies", array policy_value (list_backup_policies s)) ∷ [])

unfoldable pub targets : MemoryStore → Response
targets s = reply 200 (("targets", array target_value (list_backup_targets s)) ∷ [])

unfoldable pub jobs : MemoryStore → Response
jobs s = reply 200 (("jobs", array job_value (list_jobs s)) ∷ [])

abbrev found_job : Option Job → Response
found_job none = error 404 "job not found"
found_job (some j) = json 200 (job_value j)

unfoldable pub one_job : String → MemoryStore → Response
one_job path s =
    let id = trim_prefix path "/jobs/" in
    if id == "" then error 400 "missing job id" else found_job (get_job id s)

unfoldable pub audits : MemoryStore → Response
audits s = reply 200 (("events", array audit_value (list_audit s)) ∷ [])

unfoldable pub incidents : MemoryStore → Response
incidents s = reply 200 (("incidents", array incident_value (list_incidents s)) ∷ [])

-- `now` is the text of the instant.
unfoldable pub timeline : String → MemoryStore → Response
timeline now s = reply 200 (
    ("jobs", array job_value (list_jobs s))
    ∷ ("tasks", array task_value (list_agent_tasks s))
    ∷ ("audit", array audit_value (list_audit s))
    ∷ ("incidents", array incident_value (list_incidents s))
    ∷ ("generated_at_utc", str now)
    ∷ [])

unfoldable pub tasks : MemoryStore → Response
tasks s = reply 200 (("tasks", array task_value (list_agent_tasks s)) ∷ [])

abbrev found_task : Option AgentTask → Response
found_task none = error 404 "task not found"
found_task (some t) = reply 200 (("task", task_value t) ∷ [])

unfoldable pub one_task : String → MemoryStore → Response
one_task path s =
    let id = trim_prefix path "/autonomy/tasks/" in
    if id == "" then error 400 "missing task id" else found_task (get_agent_task id s)
