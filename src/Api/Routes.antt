-- ===== src/Api/Routes.antt =====
-- The paths of the service (backend/internal/api/server.go). A path is taken as clean: the
-- multiplexer redirects any other before a handler sees it.
use proxmaster.Prelude.{String, Option, none, some, [], ◌∷◌, if◌then◌else◌}
use proxmaster.Prelude.Text.{has_prefix}
use proxmaster.Prelude.Dict.{Dict, lookup}

-- Endpoints that ask for no token.
pub data Open : Type 0 where
  index webui health login mfa_verify reauth : Open

-- Endpoints that ask for the token.
pub data Guarded : Type 0 where
  overview nodes heartbeat vms spec_workload state_cluster state_storage state_network state_backup
        state_workloads state_all blueprints storage_inventory rebuild_plan backup_policies
        backup_targets jobs job timeline audit incidents tasks task policy_simulate policy_explain
        policy_mode control_plane connectivity gitops_status gitops_sync gitops_rollback
        breakglass_status breakglass_enable breakglass_disable wireguard_status wireguard_plan
        wireguard_apply mcp_call mcp_approve terminal :
      Guarded
  spec : String → Guarded
  blueprint : String → Guarded

pub data Endpoint : Type 0 where
  open_to_all : Open → Endpoint
  guarded : Guarded → Endpoint
  redirected : Endpoint

abbrev open_paths : Dict Endpoint
open_paths =
    ("/webui", open_to_all Open.webui)
    ∷ ("/healthz", open_to_all Open.health)
    ∷ ("/auth/login", open_to_all Open.login)
    ∷ ("/auth/mfa/verify", open_to_all Open.mfa_verify)
    ∷ ("/auth/reauth", open_to_all Open.reauth)
    ∷ []

abbrev guarded_paths : Dict Endpoint
guarded_paths =
    ("/cluster/overview", guarded Guarded.overview)
    ∷ ("/nodes", guarded Guarded.nodes)
    ∷ ("/nodes/heartbeat", guarded Guarded.heartbeat)
    ∷ ("/vms", guarded Guarded.vms)
    ∷ ("/spec/cluster", guarded (Guarded.spec "cluster"))
    ∷ ("/spec/storage", guarded (Guarded.spec "storage"))
    ∷ ("/spec/network", guarded (Guarded.spec "network"))
    ∷ ("/spec/backup", guarded (Guarded.spec "backup"))
    ∷ ("/spec/workloads", redirected)
    ∷ ("/state/cluster", guarded Guarded.state_cluster)
    ∷ ("/state/storage", guarded Guarded.state_storage)
    ∷ ("/state/network", guarded Guarded.state_network)
    ∷ ("/state/backup", guarded Guarded.state_backup)
    ∷ ("/state/workloads", guarded Guarded.state_workloads)
    ∷ ("/state/all", guarded Guarded.state_all)
    ∷ ("/blueprints", guarded Guarded.blueprints)
    ∷ ("/blueprints/plan", guarded (Guarded.blueprint "blueprint.plan"))
    ∷ ("/blueprints/deploy", guarded (Guarded.blueprint "blueprint.deploy"))
    ∷ ("/blueprints/verify", guarded (Guarded.blueprint "blueprint.verify"))
    ∷ ("/blueprints/update", guarded (Guarded.blueprint "blueprint.update"))
    ∷ ("/blueprints/rollback", guarded (Guarded.blueprint "blueprint.rollback"))
    ∷ ("/storage/inventory", guarded Guarded.storage_inventory)
    ∷ ("/storage/rebuild/plan", guarded Guarded.rebuild_plan)
    ∷ ("/backup/policies", guarded Guarded.backup_policies)
    ∷ ("/backup/targets", guarded Guarded.backup_targets)
    ∷ ("/jobs", guarded Guarded.jobs)
    ∷ ("/jobs/timeline", guarded Guarded.timeline)
    ∷ ("/audit", guarded Guarded.audit)
    ∷ ("/incidents", guarded Guarded.incidents)
    ∷ ("/autonomy/tasks", guarded Guarded.tasks)
    ∷ ("/policy/simulate", guarded Guarded.policy_simulate)
    ∷ ("/policy/explain", guarded Guarded.policy_explain)
    ∷ ("/policy/mode", guarded Guarded.policy_mode)
    ∷ ("/controlplane/endpoint", guarded Guarded.control_plane)
    ∷ ("/connectivity/status", guarded Guarded.connectivity)
    ∷ ("/gitops/status", guarded Guarded.gitops_status)
    ∷ ("/gitops/sync", guarded Guarded.gitops_sync)
    ∷ ("/gitops/rollback", guarded Guarded.gitops_rollback)
    ∷ ("/access/breakglass", guarded Guarded.breakglass_status)
    ∷ ("/access/breakglass/enable", guarded Guarded.breakglass_enable)
    ∷ ("/access/breakglass/disable", guarded Guarded.breakglass_disable)
    ∷ ("/vpn/wireguard/status", guarded Guarded.wireguard_status)
    ∷ ("/vpn/wireguard/plan", guarded Guarded.wireguard_plan)
    ∷ ("/vpn/wireguard/apply", guarded Guarded.wireguard_apply)
    ∷ ("/mcp/call", guarded Guarded.mcp_call)
    ∷ ("/mcp/approve", guarded Guarded.mcp_approve)
    ∷ ("/terminal/exec", guarded Guarded.terminal)
    ∷ []

-- The patterns that end in a slash.
abbrev below : String → Endpoint
below path =
    if has_prefix path "/spec/workloads/"
    then guarded Guarded.spec_workload
    else if has_prefix path "/jobs/"
    then guarded Guarded.job
    else if has_prefix path "/autonomy/tasks/"
    then guarded Guarded.task
    else open_to_all Open.index

abbrev first_of : Option Endpoint → Option Endpoint → Endpoint → Endpoint
first_of (some e) o d = e
first_of none (some e) d = e
first_of none none d = d

unfoldable pub endpoint_of : String → Endpoint
unfolding lookup
endpoint_of path = first_of (lookup path open_paths) (lookup path guarded_paths) (below path)
