-- ===== src/Proxmox/Moves.antt =====
-- Maintenance of nodes and moves of machines between them (backend/internal/proxmox/client.go).
-- Reading 0 of the clock is the store's, reading 1 the control plane's, reading 2 that of the
-- report; the readings from 3 on are those of `GetState`.
pub mod Laws
use proxmaster.Prelude.{
  ℕ, ◌+◌, String, ◌==◌, Bool, true, false, not, ◌&&◌, Option, none, some, List, [], ◌∷◌, ◌++◌,
  find_first, if◌then◌else◌,
}
use proxmaster.Prelude.Int.{ℤ}
use proxmaster.Prelude.Text.{default_text}
use proxmaster.Models.{Params, Value, bool, str, int, time, map_value, ClusterState, Node, Vm}
use proxmaster.Models.Json.{texts}
use proxmaster.Proxmoxapi.{Api, parse_vmid}
use proxmaster.Controlplane.{Manager, SwitchResult, switch_to}
use proxmaster.Store.{MemoryStore}
use proxmaster.Store.Cluster.{cluster_state, set_node_maintenance, migrate_vm}
use proxmaster.Mcp.{Clock, Result, ok, err}
use proxmaster.Proxmox.State.{get_state}

unfoldable pub set_maintenance : ℕ → String → Bool → MemoryStore → Result × MemoryStore
set_maintenance now node_id maintenance s =
    let (found, s') = set_node_maintenance now node_id maintenance s in
    if not found then (err "node not found", s') else (
      ok (
          ("changed", bool true)
          ∷ ("node_id", str node_id)
          ∷ ("maintenance", bool maintenance)
          ∷ []),
      s',
    )

abbrev pub vm_named : String → List Vm → Option Vm
vm_named id vms = find_first (λ v. v.id == id) vms

abbrev pub node_or_none : Option Vm → String
node_or_none none = ""
node_or_none (some v) = v.node_id

abbrev move_report : String → String → Bool → Params
move_report vm_id target found =
    ("changed", bool true)
    ∷ ("vm_id", str vm_id)
    ∷ ("target_node", str target)
    ∷ (if not found then ("live_api_only", bool true) ∷ [] else [])

abbrev pub moved_in_store : ℕ → String → String → MemoryStore → Result × MemoryStore
moved_in_store now vm_id target s =
    let (found, s') = migrate_vm now vm_id target s in (ok (move_report vm_id target found), s')

-- A node other than the machine's that is online and not in maintenance.
abbrev pub is_target : String → Node → Bool
is_target source n = not (n.id == source) && (n.status == "online") && not n.maintenance

abbrev first_target : String → List Node → String
first_target source nodes = elim (find_first (is_target source) nodes) [ none ↦ "" | some n ↦ n.id ]

abbrev migration_plan : String → String → String → Params
migration_plan vm_id source target =
    ("changed", bool false)
    ∷ ("action", str "vm_migration_plan")
    ∷ ("vm_id", str vm_id)
    ∷ ("source_node", str source)
    ∷ ("target_node", str target)
    ∷ ("live_migration", bool true)
    ∷ ("downtime_expected", str "low (<3s)")
    ∷ (
      "prechecks",
      texts (
          "target node online" ∷ "shared storage reachable" ∷ "network bridge parity"
          ∷ "ha policy compatible" ∷ []),
    )
    ∷ []

-- The checks and the choice of the target, on a state of the cluster.
unfoldable pub plan_on : ClusterState → String → String → Result
plan_on state vm_id target =
    if vm_id == "" then err "missing vm_id" else elim (vm_named vm_id state.vms) [
      | none ↦ err "vm not found"
      | some v ↦
          let chosen = if target == "" then first_target v.node_id state.nodes else target in
          if chosen == ""
          then err "no suitable target node found"
          else ok (migration_plan vm_id v.node_id chosen)
    ]

abbrev switch_value : SwitchResult → Value
switch_value r = map_value (
    ("mode", str r.mode)
      ∷ ("endpoint", str r.endpoint)
      ∷ ("from_node", str r.from_node)
      ∷ ("to_node", str r.to_node)
      ∷ ("switched", bool r.switched)
      ∷ ("reconnect_seconds", int r.reconnect_seconds)
      ∷ (if r.dns_propagation_hint == ""
          then []
          else ("dns_propagation_hint", str r.dns_propagation_hint) ∷ [])
    ++ ("completed_at", time r.completed_at) ∷ [])

abbrev handover_report : ℕ → String → String → String → Bool → SwitchResult → Params
handover_report now id source target restart_after handover =
    ("changed", bool true)
    ∷ ("action", str "proxmaster_self_migrate")
    ∷ ("management_vm_id", str id)
    ∷ ("from_node", str source)
    ∷ ("to_node", str target)
    ∷ ("live_migration", bool true)
    ∷ ("restart_after_migrate", bool restart_after)
    ∷ ("switch_mode", str "seamless_handover")
    ∷ ("client_reconnect_hint", str "reconnect API client to active control-plane endpoint")
    ∷ ("handover", switch_value handover)
    ∷ ("completed_at_utc", time now)
    ∷ []

abbrev pub is_online : String → Node → Bool
is_online id n = (n.id == id) && (n.status == "online")

-- The checks before the control plane's own machine is moved.
unfoldable pub self_migration_error : String → String → ClusterState → Option String
self_migration_error id target state = elim (vm_named id state.vms) [
  | none ↦ some "proxmaster management vm not found"
  | some v ↦
      if v.node_id == target
      then some "proxmaster already running on target node"
      else elim (find_first (is_online target) state.nodes) [
        | none ↦ some "target node is not online"
        | some n ↦ none
      ]
]

module _ {W : Type 0} (api : Api W) where
  open api use {enabled, migrate_qemu_vm}

  abbrev pub api_moved :
      Clock → String → String → Option String × W → MemoryStore → Result × MemoryStore × W
  api_moved clock vm_id target (some e, w) s = (err e, s, w)
  api_moved clock vm_id target (none, w) s =
      let (res, s') = moved_in_store (clock 0) vm_id target s in (res, s', w)

  abbrev pub api_move :
      Clock → String → String → String → Option ℤ → MemoryStore → W → Result × MemoryStore × W
  api_move clock vm_id target source none s w = (err "invalid vm_id", s, w)
  api_move clock vm_id target source (some n) s w =
      if source == ""
      then (err "source node for vm not found", s, w)
      else api_moved clock vm_id target (migrate_qemu_vm source n target true w) s

  unfoldable pub migrate : Clock → String → String → MemoryStore → W → Result × MemoryStore × W
  migrate clock vm_id target s w =
      if enabled
      then (let (state, w') = get_state api (λ n. clock (3 + n)) s w in
          api_move clock vm_id target (node_or_none (vm_named vm_id state.vms)) (parse_vmid vm_id) s
            w')
      else (let (res, s') = moved_in_store (clock 0) vm_id target s in (res, s', w))

  unfoldable pub plan_vm_migration : Clock → String → String → MemoryStore → W → Result × W
  plan_vm_migration clock vm_id target s w =
      let (state, w') = get_state api (λ n. clock (3 + n)) s w in (plan_on state vm_id target, w')

  abbrev pub handed_over :
      Clock
      → String
      → String
      → Bool
      → Result × MemoryStore × W
      → Manager
      → Result × MemoryStore × Manager × W
  handed_over clock id target restart_after (err e, s, w) m = (err e, s, m, w)
  handed_over clock id target restart_after (ok out, s, w) m =
      let (handover, m') = switch_to (clock 1) target m in
      let source = node_or_none (vm_named id (cluster_state s).vms) in
      (ok (handover_report (clock 2) id source target restart_after handover), s, m', w)

  -- The machine that was looked up is an entry of the store's own list, which the move changes in
  -- place: the node that the report takes from it is read after the move.
  unfoldable pub self_migrate_proxmaster :
      Clock
      → String
      → String
      → Bool
      → MemoryStore
      → Manager
      → W
      → Result × MemoryStore × Manager × W
  self_migrate_proxmaster clock vm_id target restart_after s m w =
      let id = default_text "100" vm_id in
      if target == ""
      then (err "missing target_node", s, m, w)
      else elim (self_migration_error id target (cluster_state s)) [
        | some e ↦ (err e, s, m, w)
        | none ↦ handed_over clock id target restart_after (migrate clock id target s w) m
      ]
