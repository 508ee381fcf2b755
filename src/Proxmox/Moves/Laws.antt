-- ===== src/Proxmox/Moves/Laws.antt =====
-- What a move of the control plane's own machine comes to (backend/internal/proxmox/client.go).
use mathlib.Core.Path.{subst}
use proxmaster.Prelude.Int.{ℤ}
use proxmaster.Prelude.Lists.{found-update_first}
use proxmaster.Prelude.{
  ℕ, ◌+◌, String, ◌≡◌, refl, sym, ap, ◌==◌, Bool, true, false, Option, none, some, Bool-cases,
  Option-cases, inl, inr, find_first, if◌then◌else◌,
}
use proxmaster.Prelude.Text.{default_text}
use proxmaster.Models.{str, get, Vm, Node, ClusterState}
use proxmaster.Prelude.Dict.{lookup}
use proxmaster.Proxmoxapi.{Api, parse_vmid}
use proxmaster.Proxmox.State.{get_state}
use proxmaster.Controlplane.{Manager, switch_to}
use proxmaster.Store.{MemoryStore}
use proxmaster.Store.Cluster.{cluster_state, migrate_vm}
use proxmaster.Mcp.{Clock, Result, ok, err}
use proxmaster.Proxmox.Moves.{
  moved_in_store, vm_named, node_or_none, is_online, api_moved, api_move, self_migration_error,
  migrate, self_migrate_proxmaster, handed_over,
}

-- A machine of the identifier is found, on another node, and the target is a node that is online.
pub record IsReady (id target : String) (state : ClusterState) : Type 0 where
  pub vm : Vm
  pub is_there : vm_named id state.vms ≡ some vm
  pub elsewhere : (vm.node_id == target) ≡ false
  pub node : Node
  pub online : find_first (is_online target) state.nodes ≡ some node

self_migration-IsReady :
    (id target : String) (state : ClusterState)
    → self_migration_error id target state ≡ none
    → IsReady id target state
unfolding self_migration_error
self_migration-IsReady id target state h = elim (Option-cases (vm_named id state.vms)) [
  | inl missing ↦
      let e : some "proxmaster management vm not found" ≡ none =
        rw (missing, self_migration_error) at h in
      cc
  | inr (v, found) ↦ elim (Bool-cases (v.node_id == target)) [
    | inl same ↦
        let e : some "proxmaster already running on target node" ≡ none =
          rw (found, same, self_migration_error) at h in
        cc
    | inr other ↦ elim (Option-cases (find_first (is_online target) state.nodes)) [
      | inl offline ↦
          let e : some "target node is not online" ≡ none =
            rw (found, other, offline, self_migration_error) at h in
          cc
      | inr (n, up) ↦ record { vm = v; is_there = found; elsewhere = other; node = n; online = up }
    ]
  ]
]

-- What a move of one machine comes to: an error with the store as it was, or the store's move.
abbrev IsMove : ℕ → String → String → MemoryStore → Result → MemoryStore → Type 0
IsMove now id target s (err e) t = t ≡ s
IsMove now id target s (ok out) t = t ≡ (migrate_vm now id target s).1

-- What a handover comes to: an error with nothing changed; or the machine moved to a node that is
-- online and that it was not on, and the control plane with it.
abbrev pub IsHandover :
    String → String → MemoryStore → Manager → Result → MemoryStore → Manager → Type 0
IsHandover id target s m (err e) t m' = (t ≡ s) × (m' ≡ m)
IsHandover id target s m (ok out) t m' =
    IsReady id target s.state
    × (node_or_none (vm_named id t.state.vms) ≡ target)
    × (m' ≡ record m { current_node = target })
    × (get "from_node" out ≡ some (str target))
    × (get "to_node" out ≡ some (str target))

moved-on_target :
    (now : ℕ) (id target : String) (s : MemoryStore) (v : Vm)
    → vm_named id s.state.vms ≡ some v
    → node_or_none (vm_named id (migrate_vm now id target s).1.state.vms) ≡ target
unfolding migrate_vm
moved-on_target now id target s v found =
    let (vms, changed, there) =
      found-update_first (λ u. u.id == id) (λ u. record u { node_id = target }) s.state.vms v
        (λ u h. h) found in
    rw (changed, migrate_vm) (rw (there, vm_named) refl)

module _ {W : Type 0} (api : Api W) (clock : Clock) (id target : String) (s : MemoryStore) where
  api_moved-IsMove :
      (o : Option String × W)
      → let (res, t, w) = api_moved api clock id target o s in IsMove (clock 0) id target s res t
  api_moved-IsMove (none, w) = refl
  api_moved-IsMove (some e, w) = refl

  api_move-IsMove :
      (source : String) (n : Option ℤ) (w : W)
      → let (res, t, w') = api_move api clock id target source n s w in
        IsMove (clock 0) id target s res t
  api_move-IsMove source none w = refl
  api_move-IsMove source (some n) w = elim (Bool-cases (source == "")) [
    | inl missing ↦ rw missing refl
    | inr known ↦ rw known (api_moved-IsMove (api.migrate_qemu_vm source n target true w))
  ]

  either-IsMove :
      (b : Bool) (x y : Result × MemoryStore × W)
      → IsMove (clock 0) id target s x.0 x.1
      → IsMove (clock 0) id target s y.0 y.1
      → let (res, t, w) = if b then x else y in IsMove (clock 0) id target s res t
  either-IsMove true x y h k = h
  either-IsMove false x y h k = k

  migrate-IsMove :
      (w : W)
      → let (res, t, w') = migrate api clock id target s w in IsMove (clock 0) id target s res t
  unfolding migrate
  migrate-IsMove w =
      let (state, w') = get_state api (λ n. clock (3 + n)) s w in
      let source = node_or_none (vm_named id state.vms) in
      let (res, t) = moved_in_store (clock 0) id target s in
      either-IsMove api.enabled (api_move api clock id target source (parse_vmid id) s w')
        (res, t, w) (api_move-IsMove source (parse_vmid id) w') refl

  handed_over-IsHandover :
      (restart : Bool) (m : Manager) (res : Result) (t : MemoryStore) (w : W)
      → IsReady id target s.state
      → IsMove (clock 0) id target s res t
      → let (res', t', m', w') = handed_over api clock id target restart (res, t, w) m in
        IsHandover id target s m res' t' m'
  unfolding switch_to cluster_state lookup
  handed_over-IsHandover restart m (err e) t w ready move = (move, refl)
  handed_over-IsHandover restart m (ok out) t w ready move =
      let there =
        subst (λ u. node_or_none (vm_named id u.state.vms) ≡ target) (sym move)
          (moved-on_target (clock 0) id target s ready.vm ready.is_there) in
      (ready, there, refl, ap (λ n. some (str n)) there, refl)

-- A move of the control plane's own machine, of the identifier 100 if none is given, comes to an
-- error with the store and the control plane as they were; or the machine was found on another node
-- than the target and the target among the nodes online, the machine and the control plane are on
-- the target, and the report names the target as the node they left too.
pub self_migrate-IsHandover :
    {W : Type 0} (api : Api W) (clock : Clock) (vm_id target : String) (restart : Bool)
    (s : MemoryStore) (m : Manager) (w : W)
    → let (res, t, m', w') = self_migrate_proxmaster api clock vm_id target restart s m w in
      IsHandover (default_text "100" vm_id) target s m res t m'
unfolding self_migrate_proxmaster cluster_state
self_migrate-IsHandover api clock vm_id target restart s m w =
    let id = default_text "100" vm_id in
    elim (Bool-cases (target == "")) [
      | inl missing ↦ rw (missing, self_migrate_proxmaster) (refl, refl)
      | inr given ↦ elim (Option-cases (self_migration_error id target s.state)) [
        | inr (e, refused) ↦ rw (given, refused, self_migrate_proxmaster) (refl, refl)
        | inl ready ↦
            let (res, t, w') = migrate api clock id target s w in
            rw (given, ready, self_migrate_proxmaster)
              (handed_over-IsHandover api clock id target s restart m res t w'
                (self_migration-IsReady id target s.state ready)
                (migrate-IsMove api clock id target s w))
      ]
    ]
