-- ===== src/Orchestrator.antt =====
-- backend/internal/orchestrator/service.go: which part of the program carries out a tool. The
-- switch on the tool's name is a table of names (`tool_named`) and one function by cases for the
-- tools that work on the store alone and one for those that use other parts of the program.
-- `Services` holds those parts and what lies behind them; connectivity and WireGuard are
-- interfaces.
pub mod Names
pub mod StoreTools
pub mod Ledger
pub mod Totality
pub mod Aliases
pub mod LowRisk
pub mod Executor
pub mod Modes
use proxmaster.Prelude.{
  ℕ, ◌+◌, String, ◌<>◌, ◌==◌, Bool, true, ◌||◌, Option, none, some, [], ◌∷◌, if◌then◌else◌,
}
use proxmaster.Prelude.Int.{ℤ, pos, ltb_ℤ, scale}
use proxmaster.Prelude.Text.{default_text}
use proxmaster.Models.{Params, str}
use proxmaster.Models.Json.{state_value, bundle_value}
use proxmaster.Store.{MemoryStore}
use proxmaster.Controlplane.{Manager}
use proxmaster.Proxmoxapi.{Api}
use proxmaster.Proxmox.State.{get_state, desired_state, connection_test}
use proxmaster.Proxmox.Moves.{migrate, plan_vm_migration, self_migrate_proxmaster}
use proxmaster.Proxmox.Blueprints.{Programs, text_at, deploy_blueprint}
use proxmaster.Mcp.{Clock, Result, ok, err}
use proxmaster.Orchestrator.Names.{
  Tool, store_tool, service_tool, ServiceTool, tool_named, flag_at, int_at, map_at,
}
use proxmaster.Mcp.{Ending, answered, panicked}
use proxmaster.Orchestrator.StoreTools.{run_store_tool}
use proxmaster.Gitops
use proxmaster.Breakglass
use proxmaster.Runner

pub record Connectivity (W : Type 0) : Type 0 where
  pub status : Clock → W → Params × W

pub record WireGuard (W : Type 0) : Type 0 where
  pub status : ℕ → W → Result × W
  pub plan : Params → W → Result × W
  pub apply : ℕ → Params → W → Result × W

-- What does not change while the program runs. `rfc3339` is the text of an instant.
pub record Services (W : Type 0) : Type 0 where
  pub api : Api W
  pub programs : Programs W
  pub host : Gitops.Host W
  pub shell : Breakglass.Shell
  pub mac : Runner.Mac
  pub network : Runner.Network W
  pub runner : Runner.Controller
  pub rfc3339 : ℕ → String
  pub connectivity : Option (Connectivity W)
  pub wireguard : Option (WireGuard W)

-- What changes, apart from the store.
pub record Runtime (W : Type 0) : Type 0 where
  pub manager : Manager
  pub gitops : Option Gitops.Service
  pub breakglass : Option Breakglass.Service
  pub outside : W

abbrev gitops_missing : Result
gitops_missing = err "gitops service not configured"

abbrev breakglass_missing : Result
breakglass_missing = err "breakglass service not configured"

-- An answer with an error, whose report is dropped by the caller.
abbrev result_of : Params → Option String → Result
result_of report none = ok report
result_of report (some e) = err e

abbrev pub runner_outcome : Runner.Result → Ending
runner_outcome (Runner.Result.ok out) = answered (ok out)
runner_outcome (Runner.Result.err e) = answered (err e)
runner_outcome Runner.Result.panicked = panicked

abbrev minute : ℕ
minute = 60000000000

abbrev grant_duration : Params → ℤ
grant_duration params =
    let minutes = int_at "duration_minutes" (pos 60) params in
    scale (if ltb_ℤ minutes (pos 1) then pos 1 else minutes) minute

-- The parameters that a WireGuard machine is deployed with.
abbrev pub wireguard_payload : Params → Params
wireguard_payload params =
    ("name", str "wireguard-server")
    ∷ ("node_id", str (default_text "node-2" (text_at "node_id" params)))
    ∷ ("workload_name", str (default_text "wg-server" (text_at "workload_name" params)))
    ∷ ("template_id", str (text_at "template_id" params))
    ∷ []

module _ {W : Type 0} (services : Services W) where
  open services use {
    api, programs, host, shell, mac, network, runner, rfc3339, connectivity, wireguard,
  }

  abbrev Answer : Type 0
  Answer = Ending × MemoryStore × Runtime W

  abbrev told : Result → MemoryStore → Runtime W → Answer
  told res s r = (answered res, s, r)

  -- A result that leaves the store alone.
  abbrev looked : Result × W → MemoryStore → Runtime W → Answer
  looked (res, w) s r = told res s (record r { outside = w })

  abbrev worked : Result × MemoryStore × W → Runtime W → Answer
  worked (res, s, w) r = told res s (record r { outside = w })

  abbrev connectivity_status : Clock → MemoryStore → Runtime W → Answer
  connectivity_status clock s r = elim connectivity [
    | none ↦ told (err "connectivity service not configured") s r
    | some c ↦
        let (report, w) = c.status clock r.outside in told (ok report) s (record r { outside = w })
  ]

  abbrev with_wireguard : (WireGuard W → W → Result × W) → MemoryStore → Runtime W → Answer
  with_wireguard f s r = elim wireguard [
    | none ↦ told (err "wireguard service not configured") s r
    | some v ↦ looked (f v r.outside) s r
  ]

  abbrev gitops_answer : Gitops.Answer W → MemoryStore → Runtime W → Answer
  gitops_answer (report, error, g, w) s r =
      told (result_of report error) s (record r { gitops = some g; outside = w })

  abbrev with_gitops : (Gitops.Service → W → Gitops.Answer W) → MemoryStore → Runtime W → Answer
  with_gitops f s r = elim r.gitops [
    | none ↦ told gitops_missing s r
    | some g ↦ gitops_answer (f g r.outside) s r
  ]

  -- The report of a change is read by the clock after it.
  abbrev breakglass_answer :
      ℕ → Option String × Breakglass.Service → MemoryStore → Runtime W → Answer
  breakglass_answer now (error, b) s r =
      told (result_of (Breakglass.status_locked now b) error) s (record r { breakglass = some b })

  abbrev with_breakglass :
      ℕ
      → (Breakglass.Service → Option String × Breakglass.Service)
      → MemoryStore
      → Runtime W
      → Answer
  with_breakglass now f s r = elim r.breakglass [
    | none ↦ told breakglass_missing s r
    | some b ↦ breakglass_answer now (f b) s r
  ]

  abbrev runner_exec : Clock → Params → MemoryStore → Runtime W → Answer
  runner_exec clock params s r =
      let node_id = text_at "node_id" params in
      let command = text_at "command" params in
      if (node_id == "") || (command == "")
      then told (err "missing node_id or command") s r
      else (let (res, w) =
            Runner.execute mac network runner (rfc3339 (clock 0)) (clock 1) (clock 2) node_id
              command (map_at "args" params) r.outside in
          (runner_outcome res, s, record r { outside = w }))

  abbrev self_migrate : Clock → Params → MemoryStore → Runtime W → Answer
  self_migrate clock params s r =
      let target = text_at "target_node" params in
      if target == ""
      then told (err "missing target_node") s r
      else (let (res, s', m, w) =
            self_migrate_proxmaster api clock (text_at "vm_id" params) target
              (flag_at "restart_after_migrate" params) s r.manager r.outside in
          told res s' (record r { manager = m; outside = w }))

  abbrev move_vm : Clock → Params → MemoryStore → Runtime W → Answer
  move_vm clock params s r =
      let vm_id = text_at "vm_id" params in
      let target = text_at "target_node" params in
      if (vm_id == "") || (target == "")
      then told (err "missing vm_id or target_node") s r
      else worked (migrate api clock vm_id target s r.outside) r

  unfoldable pub run_service_tool : ServiceTool → Clock → Params → MemoryStore → Runtime W → Answer
  run_service_tool ServiceTool.get_state clock params s r =
      let (state, w) = get_state api clock s r.outside in
      told (ok (("state", state_value state) ∷ [])) s (record r { outside = w })
  run_service_tool ServiceTool.get_all clock params s r =
      let (state, w) = get_state api clock s r.outside in
      told (ok (("state", state_value state) ∷ ("specs", bundle_value (desired_state s)) ∷ [])) s
        (record r { outside = w })
  run_service_tool ServiceTool.connectivity_status clock params s r = connectivity_status clock s r
  run_service_tool ServiceTool.wireguard_status clock params s r =
      with_wireguard (λ v. v.status (clock 0)) s r
  run_service_tool ServiceTool.wireguard_plan clock params s r =
      with_wireguard (λ v. v.plan params) s r
  run_service_tool ServiceTool.wireguard_apply clock params s r =
      with_wireguard (λ v. v.apply (clock 0) params) s r
  run_service_tool ServiceTool.connection_test clock params s r =
      looked (connection_test api r.outside) s r
  run_service_tool ServiceTool.gitops_status clock params s r =
      with_gitops (λ g w. (Gitops.status_locked g, none, g, w)) s r
  run_service_tool ServiceTool.gitops_sync clock params s r =
      with_gitops (Gitops.sync_now host (clock 0)) s r
  run_service_tool ServiceTool.gitops_rollback clock params s r =
      with_gitops (Gitops.rollback_last_stable host (clock 0)) s r
  run_service_tool ServiceTool.breakglass_status clock params s r =
      with_breakglass (clock 1) (λ b. (none, Breakglass.auto_disable_if_expired shell (clock 0) b))
        s r
  run_service_tool ServiceTool.breakglass_enable clock params s r =
      with_breakglass (clock 1)
        (Breakglass.enable shell (clock 0) (grant_duration params) (text_at "actor" params)) s r
  run_service_tool ServiceTool.breakglass_disable clock params s r =
      with_breakglass (clock 1) (Breakglass.disable shell (clock 0) (text_at "actor" params)) s r
  run_service_tool ServiceTool.vm_migrate clock params s r = move_vm clock params s r
  run_service_tool ServiceTool.vm_migration_plan clock params s r =
      looked
        (plan_vm_migration api clock (text_at "vm_id" params) (text_at "target_node" params) s
          r.outside)
        s r
  run_service_tool ServiceTool.blueprint_deploy clock params s r =
      worked (deploy_blueprint programs (clock 0) params s r.outside) r
  run_service_tool ServiceTool.wireguard_vm_deploy clock params s r =
      worked (deploy_blueprint programs (clock 0) (wireguard_payload params) s r.outside) r
  run_service_tool ServiceTool.self_migrate clock params s r = self_migrate clock params s r
  run_service_tool ServiceTool.runner_exec clock params s r = runner_exec clock params s r

  abbrev store_answer : Ending × MemoryStore → Runtime W → Answer
  store_answer (res, s) r = (res, s, r)

  unfoldable pub run_tool : Tool → Clock → Params → MemoryStore → Runtime W → Answer
  run_tool (store_tool t) clock params s r = store_answer (run_store_tool t clock params s) r
  run_tool (service_tool t) clock params s r = run_service_tool t clock params s r

  unfoldable pub execute : Clock → String → Params → MemoryStore → Runtime W → Answer
  execute clock tool params s r = elim (tool_named tool) [
    | none ↦ told (err ("unknown tool: " <> tool)) s r
    | some t ↦ run_tool t clock params s r
  ]
