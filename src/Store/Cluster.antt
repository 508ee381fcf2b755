-- ===== src/Store/Cluster.antt =====
-- The observed cluster of the store, and the changes made to it
-- (backend/internal/store/memory.go).
pub mod Laws
use proxmaster.Prelude.{
  ℕ, String, ◌<>◌, ◌==◌, Bool, true, false, not, Option, none, some, List, [], ◌∷◌, ◌++◌, map,
  update_first, find_first, if◌then◌else◌,
}
use proxmaster.Prelude.Int.{ℤ, pos}
use proxmaster.Prelude.Text.{default_text}
use proxmaster.Prelude.Dict.{lookup, insert}
use proxmaster.Models.{
  ClusterState, Node, Vm, StoragePool, NetworkObject, ReplicationPolicy, StorageRebuildPlan,
}
use proxmaster.Store.{MemoryStore, next_id, next_vm_id}

unfoldable pub cluster_state : MemoryStore → ClusterState
cluster_state s = s.state

-- The loops over the nodes or the machines that return at the first match.
abbrev changed_nodes : ℕ → Option (List Node) → MemoryStore → Bool × MemoryStore
changed_nodes now none s = (false, s)
changed_nodes now (some nodes) s =
    (true, record s { state = record s.state { nodes = nodes; updated_at = now } })

abbrev change_node : ℕ → String → (Node → Node) → MemoryStore → Bool × MemoryStore
change_node now id f s = changed_nodes now (update_first (λ n. n.id == id) f s.state.nodes) s

unfoldable pub set_node_maintenance : ℕ → String → Bool → MemoryStore → Bool × MemoryStore
set_node_maintenance now id maintenance s =
    change_node now id (λ n. record n { maintenance = maintenance }) s

-- `now` stamps the node, and `later` the state.
unfoldable pub mark_node_heartbeat : ℕ → ℕ → String → MemoryStore → Bool × MemoryStore
mark_node_heartbeat now later id s =
    change_node later id (λ n. record n { last_heartbeat = now; runner_healthy = true }) s

abbrev moved : ℕ → Option (List Vm) → MemoryStore → Bool × MemoryStore
moved now none s = (false, s)
moved now (some vms) s = (true, record s { state = record s.state { vms = vms; updated_at = now } })

unfoldable pub migrate_vm : ℕ → String → String → MemoryStore → Bool × MemoryStore
migrate_vm now id target s =
    moved now (update_first (λ v. v.id == id) (λ v. record v { node_id = target }) s.state.vms) s

abbrev add_vm : ℕ → Vm → MemoryStore → MemoryStore
add_vm now vm s = record s {
  state = record s.state { vms = s.state.vms ++ vm ∷ []; updated_at = now };
}

unfoldable pub create_vm : ℕ → Vm → MemoryStore → Vm × MemoryStore
create_vm now vm s =
    let (id, s₁) = if vm.id == "" then next_vm_id s else (vm.id, s) in
    let created = record vm {
      id = id;
      kind = default_text "vm" vm.kind;
      power = default_text "running" vm.power;
    } in
    (created, add_vm now created s₁)

unfoldable pub create_lxc : ℕ → Vm → MemoryStore → Vm × MemoryStore
unfolding create_vm
create_lxc now vm s = create_vm now (record vm { kind = "lxc" }) s

unfoldable pub clone_vm :
    ℕ → String → String → String → String → MemoryStore → Option Vm × MemoryStore
clone_vm now template new_id target name s = elim (find_first (λ v. v.id == template) s.state.vms) [
  | none ↦ (none, s)
  | some v ↦
      let (id, s₁) = if new_id == "" then next_vm_id s else (new_id, s) in
      let clone = record v { id = id; node_id = target; name = default_text v.name name } in
      (some clone, add_vm now clone s₁)
]

abbrev set_pools : ℕ → List StoragePool → MemoryStore → MemoryStore
set_pools now pools s = record s { state = record s.state { pools = pools; updated_at = now } }

abbrev pub new_pool : String → String → StoragePool
new_pool name kind = record {
  name = name;
  pool_type = kind;
  backend = kind;
  status = "healthy";
  capacity_gb = pos 1000;
  used_gb = pos 0;
  tier = "balanced";
}

unfoldable pub apply_pool : ℕ → String → String → MemoryStore → MemoryStore
apply_pool now name kind s =
    elim (update_first (λ p. p.name == name)
      (λ p. record p { pool_type = kind; status = "healthy" }) s.state.pools) [
        | none ↦ set_pools now (s.state.pools ++ new_pool name kind ∷ []) s
        | some pools ↦ set_pools now pools s
      ]

abbrev set_networks : ℕ → List NetworkObject → MemoryStore → MemoryStore
set_networks now networks s = record s {
  state = record s.state { networks = networks; updated_at = now };
}

unfoldable pub apply_network : ℕ → String → String → String → MemoryStore → MemoryStore
apply_network now name kind cidr s =
    let network : NetworkObject = record {
      name = name;
      kind = kind;
      cidr = cidr;
      status = "active";
    } in
    elim (update_first (λ n. n.name == name)
      (λ n. record n { kind = kind; cidr = cidr; status = "active" }) s.state.networks) [
        | none ↦ set_networks now (s.state.networks ++ network ∷ []) s
        | some networks ↦ set_networks now networks s
      ]

-- The result is the state itself, of which the method passes five lists and the stamp on.
unfoldable pub sync_storage_inventory : ℕ → MemoryStore → ClusterState × MemoryStore
sync_storage_inventory now s =
    let state = record s.state { updated_at = now } in (state, record s { state = state })

abbrev rebuild_steps : List String
rebuild_steps =
    "abort current pool operation" ∷ "restore previous pool metadata" ∷ "rebind datastore mappings"
    ∷ "resume workload IO" ∷ []

abbrev rebuild_plan : ℕ → String → String → ClusterState → StorageRebuildPlan
rebuild_plan now id canary state = record {
  id = id;
  pool_names = map (λ p. p.name) state.pools;
  affected_workloads = map (λ v. v.kind <> ":" <> v.id) state.vms;
  estimated_downtime = "per pool 2-5 min, full window 20-45 min";
  canary_pool = canary;
  guardrail_summary = "quorum >= 3 nodes, free capacity >= 20%, runner healthy all nodes";
  rollback_steps = rebuild_steps;
  dry_run_passed = true;
  created_at = now;
}

-- `none` is the panic of `pools[0]` on a cluster without pools; the counter has moved by then.
unfoldable pub plan_rebuild_all_pools : ℕ → MemoryStore → Option StorageRebuildPlan × MemoryStore
plan_rebuild_all_pools now s =
    let (id, s₁) = next_id "rebuild" s in
    elim s.state.pools [
      | [] ↦ (none, s₁)
      | p ∷ ps ↦
          let plan = rebuild_plan now id p.name s.state in
          (some plan, record s₁ { rebuild_plans = insert id plan s₁.rebuild_plans })
    ]

unfoldable pub execute_rebuild_all_pools :
    ℕ → String → MemoryStore → Option StorageRebuildPlan × MemoryStore
execute_rebuild_all_pools now id s = elim (lookup id s.rebuild_plans) [
  | none ↦ (none, s)
  | some plan ↦ (
    some plan,
    set_pools now (map {A = StoragePool} (λ p. record p { status = "healthy" }) s.state.pools) s,
  )
]

abbrev set_replications : ℕ → List ReplicationPolicy → MemoryStore → MemoryStore
set_replications now policies s = record s {
  state = record s.state { replication_policies = policies; updated_at = now };
}

unfoldable pub apply_replication_policy :
    ℕ → ReplicationPolicy → MemoryStore → ReplicationPolicy × MemoryStore
apply_replication_policy now policy s =
    let (id, s₁) = if policy.id == "" then next_id "rep" s else (policy.id, s) in
    let p = record policy { id = id; status = default_text "active" policy.status } in
    elim (update_first (λ q. q.id == id) (λ q. p) s₁.state.replication_policies) [
      | none ↦ (p, set_replications now (s₁.state.replication_policies ++ p ∷ []) s₁)
      | some policies ↦ (p, set_replications now policies s₁)
    ]
