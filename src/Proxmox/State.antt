-- ===== src/Proxmox/State.antt =====
-- The cluster as the client reports it (backend/internal/proxmox/client.go): from the API where it
-- answers, else from the store. The clock is read once for each node, and once at the end.
use proxmaster.Prelude.{
  ℕ, suc, ◌==◌, true, false, not, List, [], ◌∷◌, length, is_empty, map, none, some, if◌then◌else◌,
}
use proxmaster.Prelude.Int.{pos, eqb_ℤ, quotient}
use proxmaster.Prelude.Text.{default_text, one_of}
use proxmaster.Models.{bool, str, ClusterState, Node, Vm, StoragePool, DesiredStateBundle}
use proxmaster.Models.Sprint.{show_int}
use proxmaster.Proxmoxapi.{ClusterResource, StorageEntry, Answer, got, failed, Api}
use proxmaster.Store.{MemoryStore}
use proxmaster.Store.Cluster.{cluster_state}
use proxmaster.Store.Specs.{desired_state_bundle}
use proxmaster.Mcp.{Clock, Result, ok}

abbrev mebibyte : ℕ
mebibyte = 1048576

abbrev gibibyte : ℕ
gibibyte = 1073741824

abbrev node_of : ℕ → ClusterResource → Node
node_of now r = record {
  id = r.node;
  name = r.node;
  status = r.status;
  maintenance = false;
  last_heartbeat = now;
  runner_healthy = true;
}

unfoldable pub nodes_of : Clock → ℕ → List ClusterResource → List Node
nodes_of clock n [] = []
nodes_of clock n (r ∷ rs) =
    let here = node_of (clock n) r ∷ nodes_of clock (suc n) rs in
    let others = nodes_of clock n rs in if r.resource_type == "node" then here else others

abbrev vm_of : ClusterResource → Vm
vm_of r =
    let id = show_int r.vmid in
    record {
      id = id;
      node_id = r.node;
      name = default_text id r.name;
      power = r.status;
      priority = pos 80;
      cpu = r.cpus;
      memory_mb = quotient r.max_mem mebibyte;
      disk_gb = quotient r.max_disk gibibyte;
      kind = r.resource_type;
    }

unfoldable pub vms_of : List ClusterResource → List Vm
vms_of [] = []
vms_of (r ∷ rs) =
    let rest = vms_of rs in
    if one_of r.resource_type ("qemu" ∷ "lxc" ∷ []) then vm_of r ∷ rest else rest

abbrev pool_of : StorageEntry → StoragePool
pool_of e = record {
  name = e.storage;
  pool_type = e.storage_type;
  backend = e.storage_type;
  status = if eqb_ℤ e.enabled (pos 1) then "healthy" else "unknown";
  capacity_gb = quotient e.total gibibyte;
  used_gb = quotient e.used gibibyte;
  tier = "balanced";
}

-- A list that is not empty takes the place of the store's.
abbrev or_stored : {A : Type 0} → List A → List A → List A
or_stored found stored = if is_empty found then stored else found

abbrev with_resources : Clock → List ClusterResource → ClusterState → ClusterState
with_resources clock rs state = record state {
  nodes = or_stored (nodes_of clock 0 rs) state.nodes;
  vms = or_stored (vms_of rs) state.vms;
}

-- An error of the list of storages is dropped.
abbrev with_storages : Answer (List StorageEntry) → ClusterState → ClusterState
with_storages (failed e) state = state
with_storages (got es) state = record state { pools = or_stored (map pool_of es) state.pools }

module _ {W : Type 0} (api : Api W) where
  open api use {enabled, ping, cluster_resources, storage_list}

  abbrev live_state : Clock → ClusterState → Answer (List ClusterResource) × W → ClusterState × W
  live_state clock state (failed e, w) = (state, w)
  live_state clock state (got rs, w) =
      let state' = with_resources clock rs state in
      let (storages, w') = storage_list w in
      (
        record (with_storages storages state') {
          updated_at = clock (length (nodes_of clock 0 rs));
        },
        w',
      )

  unfoldable pub get_state : Clock → MemoryStore → W → ClusterState × W
  unfolding cluster_state
  get_state clock s w =
      if enabled
      then live_state clock (cluster_state s) (cluster_resources "" w)
      else (cluster_state s, w)

  unfoldable pub connection_test : W → Result × W
  connection_test w =
      if not enabled
      then (
        ok (
            ("connected", bool false)
            ∷ ("mode", str "mock")
            ∷ (
              "message",
              str "real proxmox api disabled (set PROXMASTER_PROXMOX_USE_REAL_API=true)",
            )
            ∷ []),
        w,
      )
      else (let (err, w') = ping w in
          elim err [
            | some e ↦
                (ok (("connected", bool false) ∷ ("mode", str "real") ∷ ("error", str e) ∷ []), w')
            | none ↦ (
              ok (
                  ("connected", bool true)
                  ∷ ("mode", str "real")
                  ∷ ("message", str "proxmox api reachable and token accepted")
                  ∷ []),
              w',
            )
          ])

unfoldable pub desired_state : MemoryStore → DesiredStateBundle
unfolding desired_state_bundle
desired_state s = desired_state_bundle s
