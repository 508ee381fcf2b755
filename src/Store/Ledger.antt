-- ===== src/Store/Ledger.antt =====
-- What the operations on the cluster, the backups, the specs and the mode leave alone
-- (backend/internal/store/memory.go): jobs, idempotency keys, audit events, incidents and tasks; and
-- but for two of them, the storage pools.
use proxmaster.Prelude.{
  ℕ, String, ◌≡◌, refl, ◌==◌, Bool, some, List, [], ◌∷◌, arith, Option-cases, inl, inr, map, ◌++◌,
  is_empty, false,
}
use proxmaster.Prelude.Lists.{update_first}
use proxmaster.Prelude.Dict.{Dict, lookup}
use proxmaster.Models.{
  Params, Job, StoragePool, AuditEvent, Incident, AgentTask, Vm, ReplicationPolicy, BackupPolicy,
  DriftStatus, ServiceBlueprintSpec, ClusterState, PolicyModeState, BackupTarget,
}
use proxmaster.Store.{MemoryStore}
use proxmaster.Store.Cluster.{
  set_node_maintenance, migrate_vm, create_vm, create_lxc, clone_vm, apply_pool, new_pool,
  apply_network, plan_rebuild_all_pools, execute_rebuild_all_pools, apply_replication_policy,
}
use proxmaster.Store.Backup.{upsert_backup_policy, explain_backup_policy, run_backup_now}
use proxmaster.Store.Specs.{set_spec_observed}

abbrev pub Records : Type 0
Records = Dict Job × Dict String × List AuditEvent × List Incident × Dict AgentTask

abbrev pub records : MemoryStore → Records
records s = (s.jobs, s.by_idem_key, s.audits, s.incidents, s.agent_tasks)

abbrev pub ledger : MemoryStore → Records × List StoragePool
ledger s = (records s, s.state.pools)

-- There is a storage pool.
abbrev pub HasPools : MemoryStore → Type 0
HasPools s = is_empty s.state.pools ≡ false

append_one-filled : {A : Type 0} (xs : List A) (x : A) → is_empty (xs ++ x ∷ []) ≡ false
append_one-filled [] x = refl
append_one-filled (y ∷ xs) x = refl

map-filled :
    {A : Type 0} (f : A → A) (xs : List A) → is_empty xs ≡ false → is_empty (map f xs) ≡ false
map-filled f [] h = h
map-filled f (x ∷ xs) h = refl

update-filled :
    {A : Type 0} (p : A → Bool) (f : A → A) (xs ys : List A)
    → update_first p f xs ≡ some ys
    → is_empty ys ≡ false
unfolding update_first
update-filled p f [] ys h = cc
update-filled p f (x ∷ xs) ys h = ground arith

module _ (now : ℕ) (s : MemoryStore) where
  pub node-ledger : (id : String) (b : Bool) → ledger (set_node_maintenance now id b s).1 ≡ ledger s
  unfolding set_node_maintenance
  node-ledger id b = ground arith

  pub move-ledger : (id target : String) → ledger (migrate_vm now id target s).1 ≡ ledger s
  unfolding migrate_vm
  move-ledger id target = ground arith

  pub create-ledger : (vm : Vm) → ledger (create_vm now vm s).1 ≡ ledger s
  unfolding create_vm
  create-ledger vm = ground arith

  pub lxc-ledger : (vm : Vm) → ledger (create_lxc now vm s).1 ≡ ledger s
  unfolding create_lxc create_vm
  lxc-ledger vm = ground arith

  pub clone-ledger :
      (template id target name : String)
      → ledger (clone_vm now template id target name s).1 ≡ ledger s
  unfolding clone_vm
  clone-ledger template id target name = ground arith

  pub pool-records : (name kind : String) → records (apply_pool now name kind s) ≡ records s
  unfolding apply_pool
  pool-records name kind = ground arith

  pub rebuild-records : (id : String) → records (execute_rebuild_all_pools now id s).1 ≡ records s
  unfolding execute_rebuild_all_pools lookup
  rebuild-records id = ground arith

  -- A pool that is applied is there.
  pub pool-HasPools : (name kind : String) → HasPools (apply_pool now name kind s)
  unfolding apply_pool
  pool-HasPools name kind =
      let p = λ (q : StoragePool). q.name == name in
      let f = λ (q : StoragePool). record q { pool_type = kind; status = "healthy" } in
      elim (Option-cases (update_first p f s.state.pools)) [
        | inl missing ↦
            rw (missing, apply_pool) (append_one-filled s.state.pools (new_pool name kind))
        | inr (ys, changed) ↦ rw (changed, apply_pool) (update-filled p f s.state.pools ys changed)
      ]

  pub rebuild-HasPools :
      (id : String) → HasPools s → HasPools (execute_rebuild_all_pools now id s).1
  unfolding execute_rebuild_all_pools lookup
  rebuild-HasPools id h =
      ground
        (arith, map-filled {A = StoragePool} (λ p. record p { status = "healthy" }) s.state.pools h)

  pub network-ledger :
      (name kind cidr : String) → ledger (apply_network now name kind cidr s) ≡ ledger s
  unfolding apply_network
  network-ledger name kind cidr = ground arith

  pub plan-ledger : ledger (plan_rebuild_all_pools now s).1 ≡ ledger s
  unfolding plan_rebuild_all_pools
  plan-ledger = ground arith

  pub replication-ledger :
      (p : ReplicationPolicy) → ledger (apply_replication_policy now p s).1 ≡ ledger s
  unfolding apply_replication_policy
  replication-ledger p = ground arith

  pub policy-ledger : (p : BackupPolicy) → ledger (upsert_backup_policy now p s).1 ≡ ledger s
  unfolding upsert_backup_policy
  policy-ledger p = ground arith

  pub explain-ledger : (id : String) → ledger (explain_backup_policy now id s).1 ≡ ledger s
  unfolding explain_backup_policy
  explain-ledger id = ground arith

  pub run-ledger : (later : ℕ) (id : String) → ledger (run_backup_now now later id s).1 ≡ ledger s
  unfolding run_backup_now
  run-ledger later id = explain-ledger id

  pub observed-ledger :
      (scope key : String) (observed : Params) (drift : DriftStatus) (job_id : String)
      → ledger (set_spec_observed now scope key observed drift job_id s).1 ≡ ledger s
  unfolding set_spec_observed
  observed-ledger scope key observed drift job_id = ground arith

-- What a spec is measured against, and what else a report leaves as it is.
abbrev pub Setup : Type 0
Setup =
    ClusterState
    × PolicyModeState
    × Dict BackupPolicy
    × Dict BackupTarget
    × Dict ServiceBlueprintSpec
    × Dict AgentTask

abbrev pub setup : MemoryStore → Setup
setup s =
    (s.state, s.policy_mode, s.backup_policies, s.backup_targets, s.blueprint_specs, s.agent_tasks)

pub observed-setup :
    (now : ℕ) (scope key : String) (observed : Params) (drift : DriftStatus) (job_id : String)
    (s : MemoryStore)
    → setup (set_spec_observed now scope key observed drift job_id s).1 ≡ setup s
unfolding set_spec_observed
observed-setup now scope key observed drift job_id s = ground arith
