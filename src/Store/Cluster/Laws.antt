-- ===== src/Store/Cluster/Laws.antt =====
-- What the updates of nodes and workloads do (backend/internal/store/memory.go).
use proxmaster.Prelude.{
  ℕ, String, ◌==◌, ◌≡◌, refl, Bool, true, false, Option, none, some, List, All, IsUpdate, IsUpdated,
  update_first-IsUpdated,
}
use proxmaster.Models.{Node, Vm}
use proxmaster.Store.{MemoryStore}
use proxmaster.Store.Cluster.{
  migrate_vm, mark_node_heartbeat, set_node_maintenance, changed_nodes, moved,
}

-- An update of a node: the first node of the identifier is changed, in its place, and the stamp of
-- the state; or there is none, and nothing is.
abbrev pub IsNodeUpdate : ℕ → String → (Node → Node) → MemoryStore → Bool × MemoryStore → Type 0
IsNodeUpdate now id f s (true, t) =
    (nodes : List Node) × IsUpdate (λ n. n.id == id) f s.state.nodes nodes
    × (t ≡ record s { state = record s.state { nodes = nodes; updated_at = now } })
IsNodeUpdate now id f s (false, t) = All (λ n. (n.id == id) ≡ false) s.state.nodes × (t ≡ s)

changed_nodes-IsNodeUpdate :
    (now : ℕ) (id : String) (f : Node → Node) (s : MemoryStore) (o : Option (List Node))
    → IsUpdated (λ n. n.id == id) f s.state.nodes o
    → IsNodeUpdate now id f s (changed_nodes now o s)
changed_nodes-IsNodeUpdate now id f s none h = (h, refl)
changed_nodes-IsNodeUpdate now id f s (some nodes) h = (nodes, h, refl)

-- Maintenance and a heartbeat change the first node of the identifier, in its place, and of the
-- rest of the store the stamp of the state alone: the one its maintenance mark, the other the time
-- of its heartbeat and the health of its runner. Where no node has the identifier, they answer so
-- and leave the store as it was.
pub node_calls-IsNodeUpdate :
    (now later : ℕ) (id : String) (on : Bool) (s : MemoryStore)
    → IsNodeUpdate now id (λ n. record n { maintenance = on }) s (set_node_maintenance now id on s)
      × IsNodeUpdate later id
          (λ n. record n { last_heartbeat = now; runner_healthy = true })
          s
          (mark_node_heartbeat now later id s)
unfolding set_node_maintenance mark_node_heartbeat
node_calls-IsNodeUpdate now later id on s = (
  changed_nodes-IsNodeUpdate now id _ s _
      (update_first-IsUpdated (λ n. n.id == id) (λ n. record n { maintenance = on }) s.state.nodes),
  changed_nodes-IsNodeUpdate later id _ s _ (
      update_first-IsUpdated (λ n. n.id == id)
        (λ n. record n { last_heartbeat = now; runner_healthy = true }) s.state.nodes),
)

-- A migration, by its answer.
abbrev pub IsMigration : ℕ → String → String → MemoryStore → Bool × MemoryStore → Type 0
IsMigration now id target s (true, t) =
    (vms : List Vm) × IsUpdate (λ v. v.id == id) (λ v. record v { node_id = target }) s.state.vms
      vms
    × (t ≡ record s { state = record s.state { vms = vms; updated_at = now } })
IsMigration now id target s (false, t) = All (λ v. (v.id == id) ≡ false) s.state.vms × (t ≡ s)

moved-IsMigration :
    (now : ℕ) (id target : String) (s : MemoryStore) (o : Option (List Vm))
    → IsUpdated (λ v. v.id == id) (λ v. record v { node_id = target }) s.state.vms o
    → IsMigration now id target s (moved now o s)
moved-IsMigration now id target s none h = (h, refl)
moved-IsMigration now id target s (some vms) h = (vms, h, refl)

-- A migration moves the first workload of the identifier to the target, in its place in the list,
-- and changes the stamp of the state and nothing else; where no workload has the identifier, it
-- answers so and leaves the store as it was.
pub migrate_vm-IsMigration :
    (now : ℕ) (id target : String) (s : MemoryStore)
    → IsMigration now id target s (migrate_vm now id target s)
unfolding migrate_vm
migrate_vm-IsMigration now id target s =
    moved-IsMigration now id target s _
      (update_first-IsUpdated (λ v. v.id == id) (λ v. record v { node_id = target }) s.state.vms)
