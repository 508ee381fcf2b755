-- ===== src/Orchestrator/Ledger.antt =====
-- The store's records over the tools (backend/internal/orchestrator/service.go).
use mathlib.Core.Path.{subst}
use proxmaster.Prelude.{
  ℕ, suc, String, ◌≡◌, refl, sym, ap, ◌∙◌, ◌==◌, false, List, [], ◌∷◌, arith, All, Bool-cases,
  Option-cases, inl, inr, is_empty,
}
use proxmaster.Prelude.Dict.{keys, values}
use proxmaster.Prelude.Text.{default_text}
use proxmaster.Models.{Params, BackupPolicy}
use proxmaster.Prelude.Int.{ℤ}
use proxmaster.Store.{MemoryStore}
use proxmaster.Store.Ledger.{
  ledger, node-ledger, clone-ledger, pool-HasPools, pool-records, network-ledger, plan-ledger,
  rebuild-HasPools, rebuild-records, records, HasPools, replication-ledger, explain-ledger,
  run-ledger, observed-ledger,
}
use proxmaster.Store.Specs.{get_spec, list_specs, upsert_spec}
use proxmaster.Store.Mode.{set_policy_mode}
use proxmaster.Store.Cluster.{sync_storage_inventory, create_vm, create_lxc}
use proxmaster.Store.Backup.{plan_restore, upsert_backup_policy}
use proxmaster.Store.Tasks.{create_agent_task}
use proxmaster.Proxmox.Blueprints.{text_at}
use proxmaster.Mcp.{Clock, SameRecords}
use proxmaster.Autonomy.Retries.{IsRetryable, QueueIsRetryable, create-IsRetryable}
use proxmaster.Proxmox.Moves.{set_maintenance}
use proxmaster.Proxmox.Specs.{
  reconcile_task, apply_spec, explain_spec, reconcile_spec, reconcile_keys, reconcile_scopes,
  reconcile_all_specs, scopes,
}
use proxmaster.Proxmox.Workloads.{
  make_vm, make_lxc, make_clone, apply_storage_pool, sync_inventory, plan_rebuild, execute_rebuild,
  apply_replication, apply_net, set_mode,
}
use proxmaster.Proxmox.Backups.{
  upsert_policy, explain_policy, run_now, restore_plan, simulate_policy,
}
use proxmaster.Orchestrator.Names.{StoreTool, flag_at}
use proxmaster.Orchestrator.StoreTools.{run_store_tool}

-- The records stay, a queue of retryable tasks stays one, and so does a cluster with pools.
abbrev pub Keeps : MemoryStore → MemoryStore → Type 0
Keeps s t = SameRecords s t × (QueueIsRetryable s → QueueIsRetryable t) × (HasPools s → HasPools t)

pub records-Keeps :
    {s t : MemoryStore} → records t ≡ records s → (HasPools s → HasPools t) → Keeps s t
records-Keeps {s} {t} e pools = (
  record {
    jobs_same = ap (λ l. l.0) e;
    keys_same = ap (λ l. l.1) e;
    audits_same = ap (λ l. l.2) e;
    incidents_same = ap (λ l. l.3) e;
  },
  λ q. subst (λ tasks. All IsRetryable (values tasks)) (sym (ap (λ l. l.4) e)) q,
  pools,
)

pub ledger-Keeps : {s t : MemoryStore} → ledger t ≡ ledger s → Keeps s t
ledger-Keeps e =
    records-Keeps (ap (λ l. l.0) e)
      (λ h. subst (λ pools. is_empty pools ≡ false) (sym (ap (λ l. l.1) e)) h)

pub Keeps-trans : {s t u : MemoryStore} → Keeps s t → Keeps t u → Keeps s u
Keeps-trans h k = (
  record {
    jobs_same = k.0.jobs_same ∙ h.0.jobs_same;
    keys_same = k.0.keys_same ∙ h.0.keys_same;
    audits_same = k.0.audits_same ∙ h.0.audits_same;
    incidents_same = k.0.incidents_same ∙ h.0.incidents_same;
  },
  λ q. k.1 (h.1 q),
  λ p. k.2 (h.2 p),
)

task-Keeps :
    (now : ℕ) (scope key : String) (s : MemoryStore)
    → Keeps s (create_agent_task now (reconcile_task scope key) s).1
unfolding create_agent_task
task-Keeps now scope key s = (
  record { jobs_same = refl; keys_same = refl; audits_same = refl; incidents_same = refl },
  λ q. create-IsRetryable now (reconcile_task scope key) s (λ id. ground arith) q,
  λ h. h,
)

module _ (now : ℕ) (s : MemoryStore) where
  reconcile-ledger :
      (scope key job_id : String) → ledger (reconcile_spec now scope key job_id s).1 ≡ ledger s
  unfolding reconcile_spec
  reconcile-ledger scope key job_id = elim (Option-cases (get_spec scope key s)) [
    | inl missing ↦ rw (missing, reconcile_spec) refl
    | inr (spec, found) ↦ rw (found, reconcile_spec) (observed-ledger now s scope key _ _ job_id)
  ]

  explain_spec-ledger : (scope key : String) → ledger (explain_spec now scope key s).1 ≡ ledger s
  unfolding explain_spec
  explain_spec-ledger scope_arg key_arg =
      let scope = default_text "workloads" scope_arg in
      let key = default_text "default" key_arg in
      elim (Option-cases (get_spec scope key s)) [
        | inl missing ↦ rw (missing, explain_spec) refl
        | inr (spec, found) ↦ rw (found, explain_spec) (observed-ledger now s scope key _ _ "")
      ]

  pub make_vm-ledger :
      (name node_id : String) (cpu memory_mb disk_gb : ℤ)
      → ledger (make_vm now name node_id cpu memory_mb disk_gb s).1 ≡ ledger s
  unfolding make_vm create_vm
  make_vm-ledger name node_id cpu memory_mb disk_gb = ground arith

  pub make_lxc-ledger :
      (name node_id : String) (cpu memory_mb disk_gb : ℤ)
      → ledger (make_lxc now name node_id cpu memory_mb disk_gb s).1 ≡ ledger s
  unfolding make_lxc create_lxc create_vm
  make_lxc-ledger name node_id cpu memory_mb disk_gb = ground arith

  upsert_policy-ledger : (p : BackupPolicy) → ledger (upsert_policy now p s).1 ≡ ledger s
  unfolding upsert_policy upsert_backup_policy
  upsert_policy-ledger p = ground arith

  spec-ledger :
      (scope key : String) (desired : Params)
      → ledger (upsert_spec now scope key desired s).1 ≡ ledger s
  unfolding upsert_spec
  spec-ledger scope key desired = refl

  apply_spec-Keeps :
      (later : ℕ) (scope key : String) (desired : Params)
      → Keeps s (apply_spec now later scope key desired s).1
  unfolding apply_spec
  apply_spec-Keeps later scope key_arg desired =
      let key = default_text "default" key_arg in
      elim (Bool-cases (scope == "")) [
        | inl missing ↦ rw (missing, apply_spec) (ledger-Keeps refl)
        | inr given ↦
            rw (given, apply_spec)
              (Keeps-trans (ledger-Keeps (spec-ledger scope key desired))
                (task-Keeps later scope key (upsert_spec now scope key desired s).1))
      ]

reconcile_keys-ledger :
    (clock : Clock) (n : ℕ) (job_id scope : String) (ks : List String) (s : MemoryStore)
    → ledger (reconcile_keys clock n job_id scope ks s).1 ≡ ledger s
unfolding reconcile_keys
reconcile_keys-ledger clock n job_id scope [] s = refl
reconcile_keys-ledger clock n job_id scope (k ∷ ks) s =
    reconcile_keys-ledger clock (suc n) job_id scope ks _
    ∙ reconcile-ledger (clock n) s scope k job_id

reconcile_scopes-ledger :
    (clock : Clock) (job_id : String) (l : List String) (n : ℕ) (s : MemoryStore)
    → ledger (reconcile_scopes clock n job_id l s).1 ≡ ledger s
unfolding reconcile_scopes
reconcile_scopes-ledger clock job_id [] n s = refl
reconcile_scopes-ledger clock job_id (scope ∷ l) n s =
    reconcile_scopes-ledger clock job_id l _ _
    ∙ reconcile_keys-ledger clock n job_id scope (keys (list_specs scope s)) s

-- Every tool of the store but the one that applies a spec.
pub run_store_tool-Keeps :
    (t : StoreTool) (clock : Clock) (params : Params) (s : MemoryStore)
    → Keeps s (run_store_tool t clock params s).1
unfolding run_store_tool set_maintenance make_clone apply_storage_pool sync_inventory
    sync_storage_inventory plan_rebuild execute_rebuild apply_replication apply_net set_mode
    set_policy_mode explain_policy run_now restore_plan plan_restore simulate_policy
    reconcile_all_specs
run_store_tool-Keeps StoreTool.node_set_maintenance clock params s = ledger-Keeps (
    ground
      (arith, node-ledger (clock 0) s (text_at "node_id" params) (flag_at "maintenance" params)))
run_store_tool-Keeps StoreTool.spec_apply clock params s =
    apply_spec-Keeps (clock 0) s (clock 1) _ _ _
run_store_tool-Keeps StoreTool.spec_explain clock params s =
    ledger-Keeps (explain_spec-ledger (clock 0) s _ _)
run_store_tool-Keeps StoreTool.spec_reconcile clock params s =
    ledger-Keeps (reconcile-ledger (clock 0) s _ _ _)
run_store_tool-Keeps StoreTool.spec_reconcile_all clock params s =
    ledger-Keeps (reconcile_scopes-ledger clock _ scopes 0 s)
run_store_tool-Keeps StoreTool.policy_simulate_backup clock params s =
    ledger-Keeps (explain-ledger (clock 0) s _)
run_store_tool-Keeps StoreTool.blueprint_list clock params s = ledger-Keeps refl
run_store_tool-Keeps StoreTool.blueprint_plan clock params s = ledger-Keeps refl
run_store_tool-Keeps StoreTool.blueprint_verify clock params s = ledger-Keeps refl
run_store_tool-Keeps StoreTool.blueprint_update clock params s = ledger-Keeps refl
run_store_tool-Keeps StoreTool.blueprint_rollback clock params s = ledger-Keeps refl
run_store_tool-Keeps StoreTool.mode_set clock params s = ledger-Keeps refl
run_store_tool-Keeps StoreTool.vm_create clock params s =
    ledger-Keeps (make_vm-ledger (clock 0) s _ _ _ _ _)
run_store_tool-Keeps StoreTool.vm_clone clock params s = ledger-Keeps (
    ground (
      arith,
      clone-ledger (clock 0) s (text_at "template_id" params) (text_at "new_id" params)
          (text_at "target_node" params) (text_at "name" params),
    ))
run_store_tool-Keeps StoreTool.lxc_create clock params s =
    ledger-Keeps (make_lxc-ledger (clock 0) s _ _ _ _ _)
run_store_tool-Keeps StoreTool.pool_apply clock params s =
    let name = text_at "name" params in
    let kind = text_at "type" params in
    records-Keeps (ground (arith, pool-records (clock 0) s name kind))
      (λ h. ground (arith, pool-HasPools (clock 0) s name kind, h))
run_store_tool-Keeps StoreTool.pool_plan clock params s = ledger-Keeps (ground arith)
run_store_tool-Keeps StoreTool.inventory_sync clock params s = ledger-Keeps refl
run_store_tool-Keeps StoreTool.rebuild_plan clock params s =
    ledger-Keeps (ground (arith, plan-ledger (clock 0) s))
run_store_tool-Keeps StoreTool.rebuild_execute clock params s =
    let id = text_at "plan_id" params in
    records-Keeps (ground (arith, rebuild-records (clock 0) s id))
      (λ h. ground (arith, rebuild-HasPools (clock 0) s id h, h))
run_store_tool-Keeps StoreTool.replication_apply clock params s =
    ledger-Keeps (replication-ledger (clock 0) s _)
run_store_tool-Keeps StoreTool.network_apply clock params s =
    let name = text_at "name" params in
    let kind = text_at "kind" params in
    let cidr = text_at "cidr" params in
    ledger-Keeps (ground (arith, network-ledger (clock 0) s name kind cidr))
run_store_tool-Keeps StoreTool.updates_plan clock params s = ledger-Keeps refl
run_store_tool-Keeps StoreTool.canary_start clock params s = ledger-Keeps refl
run_store_tool-Keeps StoreTool.rollout_continue clock params s = ledger-Keeps refl
run_store_tool-Keeps StoreTool.rollout_abort clock params s = ledger-Keeps refl
run_store_tool-Keeps StoreTool.policy_simulate clock params s = ledger-Keeps refl
run_store_tool-Keeps StoreTool.policy_explain clock params s = ledger-Keeps refl
run_store_tool-Keeps StoreTool.backup_upsert clock params s =
    ledger-Keeps (upsert_policy-ledger (clock 0) s _)
run_store_tool-Keeps StoreTool.backup_explain clock params s =
    ledger-Keeps (explain-ledger (clock 0) s _)
run_store_tool-Keeps StoreTool.backup_run clock params s =
    ledger-Keeps (ground (arith, run-ledger (clock 0) s (clock 1) (text_at "workload_id" params)))
run_store_tool-Keeps StoreTool.restore_plan clock params s = ledger-Keeps (ground arith)
run_store_tool-Keeps StoreTool.restore_execute clock params s = ledger-Keeps refl
run_store_tool-Keeps StoreTool.backup_verify clock params s = ledger-Keeps refl
run_store_tool-Keeps StoreTool.policy_list clock params s = ledger-Keeps refl
run_store_tool-Keeps StoreTool.target_list clock params s = ledger-Keeps refl
