-- ===== src/Orchestrator/Executor.antt =====
-- The orchestrator as the tool-call service and the worker use it
-- (backend/internal/orchestrator/service.go): an `Executor`.
use proxmaster.Prelude.{ℕ, String, ◌<>◌, ◌≡◌, refl, ◌∙◌, Bool, List, arith, Option-cases, inl, inr}
use proxmaster.Prelude.Text.{default_text}
use proxmaster.Models.{Params, BlueprintDefinition}
use proxmaster.Proxmoxapi.{Api, Answer, got, failed}
use proxmaster.Controlplane.{Manager}
use proxmaster.Store.{MemoryStore}
use proxmaster.Store.Specs.{upsert_blueprint}
use proxmaster.Store.Ledger.{ledger, move-ledger, clone-ledger}
use proxmaster.Mcp.{Clock, Executor}
use proxmaster.Health.{GateEvaluator}
use proxmaster.Autonomy.{Tick, ticks}
use proxmaster.Autonomy
use proxmaster.Autonomy.Retries.{QueueIsRetryable, ticks-IsRetryable}
use proxmaster.Proxmox.Moves.{migrate, self_migrate_proxmaster}
use proxmaster.Proxmox.Workloads.{Created, vm_created, lxc_created, not_created, make_clone}
use proxmaster.Proxmox.Blueprints.{
  Programs, text_at, target_node, provision, deployed, deploy_found, find_blueprint,
  deploy_blueprint,
}
use proxmaster.Orchestrator.{
  Services, Runtime, ServiceTool, execute, run_tool, run_service_tool, wireguard_payload,
}
use proxmaster.Orchestrator.Names.{Tool, store_tool, service_tool, ServiceTool, tool_named, flag_at}
use proxmaster.Orchestrator.Ledger.{
  Keeps, ledger-Keeps, run_store_tool-Keeps, make_vm-ledger, make_lxc-ledger,
}

module _ {W : Type 0} (api : Api W) where
  migrate-ledger :
      (clock : Clock) (vm_id target : String) (s : MemoryStore) (w : W)
      → ledger (migrate api clock vm_id target s w).1 ≡ ledger s
  unfolding migrate
  migrate-ledger clock vm_id target s w = ground (arith, move-ledger (clock 0) s vm_id target)

  self_migrate-ledger :
      (clock : Clock) (vm_id target : String) (restart : Bool) (s : MemoryStore) (m : Manager)
      (w : W)
      → ledger (self_migrate_proxmaster api clock vm_id target restart s m w).1 ≡ ledger s
  unfolding self_migrate_proxmaster
  self_migrate-ledger clock vm_id target restart s m w =
      let id = default_text "100" vm_id in ground (arith, migrate-ledger clock id target s w)

provision-ledger :
    (now : ℕ) (params : Params) (name : String) (bp : BlueprintDefinition) (s : MemoryStore)
    → ledger (provision now params name bp s).1 ≡ ledger s
unfolding provision make_clone
provision-ledger now params name bp s =
    let node = target_node params in
    ground (
      arith,
      clone-ledger now s (text_at "template_id" params) "" node name,
      make_vm-ledger now s name node bp.default_cpu bp.default_mem_mb bp.default_disk_gb,
      make_lxc-ledger now s name node bp.default_cpu bp.default_mem_mb bp.default_disk_gb,
    )

module _ {W : Type 0} (programs : Programs W) where
  deployed-ledger :
      (params : Params) (name workload_name : String) (bp : BlueprintDefinition) (c : Created)
      (s : MemoryStore) (w : W)
      → ledger (deployed programs params name workload_name bp (c, s) w).1 ≡ ledger s
  unfolding upsert_blueprint
  deployed-ledger params name workload_name bp (vm_created v) s w = refl
  deployed-ledger params name workload_name bp (lxc_created v) s w = refl
  deployed-ledger params name workload_name bp (not_created e) s w = refl

  found-ledger :
      (now : ℕ) (params : Params) (a : Answer BlueprintDefinition) (s : MemoryStore) (w : W)
      → ledger (deploy_found programs now params a s w).1 ≡ ledger s
  found-ledger now params (failed e) s w = refl
  found-ledger now params (got bp) s w =
      let workload_name =
        default_text ("svc-" <> text_at "name" params) (text_at "workload_name" params) in
      let (c, s') = provision now params workload_name bp s in
      deployed-ledger params _ workload_name bp c s' w
      ∙ provision-ledger now params workload_name bp s

  deploy-ledger :
      (now : ℕ) (params : Params) (s : MemoryStore) (w : W)
      → ledger (deploy_blueprint programs now params s w).1 ≡ ledger s
  unfolding deploy_blueprint
  deploy-ledger now params s w = found-ledger now params (find_blueprint params s) s w

module _ {W : Type 0} (services : Services W) where
  open services use {api, programs}

  service_tool-ledger :
      (t : ServiceTool) (clock : Clock) (params : Params) (s : MemoryStore) (r : Runtime W)
      → ledger (run_service_tool services t clock params s r).1 ≡ ledger s
  unfolding run_service_tool
  service_tool-ledger ServiceTool.get_state clock params s r = refl
  service_tool-ledger ServiceTool.get_all clock params s r = refl
  service_tool-ledger ServiceTool.connectivity_status clock params s r = ground arith
  service_tool-ledger ServiceTool.wireguard_status clock params s r = ground arith
  service_tool-ledger ServiceTool.wireguard_plan clock params s r = ground arith
  service_tool-ledger ServiceTool.wireguard_apply clock params s r = ground arith
  service_tool-ledger ServiceTool.connection_test clock params s r = refl
  service_tool-ledger ServiceTool.gitops_status clock params s r = ground arith
  service_tool-ledger ServiceTool.gitops_sync clock params s r = ground arith
  service_tool-ledger ServiceTool.gitops_rollback clock params s r = ground arith
  service_tool-ledger ServiceTool.breakglass_status clock params s r = ground arith
  service_tool-ledger ServiceTool.breakglass_enable clock params s r = ground arith
  service_tool-ledger ServiceTool.breakglass_disable clock params s r = ground arith
  service_tool-ledger ServiceTool.vm_migrate clock params s r =
      let vm_id = text_at "vm_id" params in
      let target = text_at "target_node" params in
      ground (arith, migrate-ledger api clock vm_id target s r.outside)
  service_tool-ledger ServiceTool.vm_migration_plan clock params s r = refl
  service_tool-ledger ServiceTool.blueprint_deploy clock params s r =
      deploy-ledger programs (clock 0) params s r.outside
  service_tool-ledger ServiceTool.wireguard_vm_deploy clock params s r =
      deploy-ledger programs (clock 0) (wireguard_payload params) s r.outside
  service_tool-ledger ServiceTool.self_migrate clock params s r =
      let target = text_at "target_node" params in
      ground (
        arith,
        self_migrate-ledger api clock (text_at "vm_id" params) target
            (flag_at "restart_after_migrate" params) s r.manager r.outside,
      )
  service_tool-ledger ServiceTool.runner_exec clock params s r = ground arith

  run_tool-Keeps :
      (t : Tool) (clock : Clock) (params : Params) (s : MemoryStore) (r : Runtime W)
      → Keeps s (run_tool services t clock params s r).1
  unfolding run_tool
  run_tool-Keeps (store_tool t) clock params s r = run_store_tool-Keeps t clock params s
  run_tool-Keeps (service_tool t) clock params s r =
      ledger-Keeps (service_tool-ledger t clock params s r)

  -- No tool changes a job, an idempotency key, an audit event or an incident; after every tool a
  -- queue of tasks that may be retried is one still, and a cluster with storage pools has some.
  pub execute-Keeps :
      (clock : Clock) (tool : String) (params : Params) (s : MemoryStore) (r : Runtime W)
      → Keeps s (execute services clock tool params s r).1
  unfolding execute
  execute-Keeps clock tool params s r = elim (Option-cases (tool_named tool)) [
    | inl unknown ↦ rw (unknown, execute) (ledger-Keeps refl)
    | inr (t, known) ↦ rw (known, execute) (run_tool-Keeps t clock params s r)
  ]

  -- The interface that the tool-call service takes.
  abbrev pub orchestrator : Executor (Runtime W)
  orchestrator = record {
    run = λ clock tool params s r. execute services clock tool params s r;
    run_same = λ clock tool params s r. (execute-Keeps clock tool params s r).0;
  }

  -- In whatever order the scheduler and the worker tick, and whatever the tools come to: from a
  -- queue of tasks that may be retried only such tasks come about, none of which is a dead letter.
  pub orchestrated-IsRetryable :
      (gate : GateEvaluator) (ts : List Tick) (svc : Autonomy.Service) (s : MemoryStore)
      (r : Runtime W)
      → QueueIsRetryable s
      → QueueIsRetryable (ticks orchestrator gate ts (svc, s, r)).1
  orchestrated-IsRetryable gate ts svc s r q =
      ticks-IsRetryable orchestrator gate
        (λ clock tool params s r. (execute-Keeps clock tool params s r).1) ts svc s r q
