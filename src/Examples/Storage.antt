-- ===== src/Examples/Storage.antt =====
-- The store on concrete inputs.
use proxmaster.Prelude.{
  ℕ, ◌≤◌, ◌<◌, String, ◌==◌, ◌≡◌, refl, ◌↔◌, Bool, true, false, ◌&&◌, arith, none, some, [], ◌∷◌,
  if◌then◌else◌,
}
use proxmaster.Prelude.Int.{pos, incr}
use proxmaster.Prelude.Dict.{values, lookup}
use proxmaster.Models.{
  str, Job, AuditEvent, Incident, AgentTask, BackupPolicy, PolicyMode, DriftStatus,
}
use proxmaster.Policy.{aggressive_active}
use proxmaster.Store.{MemoryStore}
use proxmaster.Store.Initial.{new_memory_store}
use proxmaster.Store.Cluster.{set_node_maintenance, mark_node_heartbeat, migrate_vm}
use proxmaster.Store.Cluster.Laws.{
  IsNodeUpdate, node_calls-IsNodeUpdate, IsMigration, migrate_vm-IsMigration,
}
use proxmaster.Store.Backup.{explain_backup_policy, select_policy}
use proxmaster.Store.Backup.Laws.{IsExplained, explain-IsExplained, select-last}
use proxmaster.Store.Specs.{upsert_spec, get_spec}
use proxmaster.Store.Specs.Laws.{version, get-upsert_spec}
use proxmaster.Store.Mode.{get_policy_mode, set_policy_mode}
use proxmaster.Store.Mode.Laws.{set-active_iff}
use proxmaster.Store.Jobs.Fresh.{IsNumbered, create_job-IsNumbered}
use proxmaster.Mcp.{blank_job}
use proxmaster.Store.Jobs.{create_job, list_jobs, list_audit, list_incidents}
use proxmaster.Store.Tasks.{list_agent_tasks}
use proxmaster.Store.Listings.{IsListing, listings-IsListing}
use proxmaster.Examples.{store, store-IsNumbered}

node_calls-IsNodeUpdate_example :
    IsNodeUpdate 3 "node-2"
      (λ n. record n { maintenance = true })
      store
      (set_node_maintenance 3 "node-2" true store)
    × IsNodeUpdate 4 "node-2"
        (λ n. record n { last_heartbeat = 3; runner_healthy = true })
        store
        (mark_node_heartbeat 3 4 "node-2" store)
node_calls-IsNodeUpdate_example = node_calls-IsNodeUpdate 3 4 "node-2" true store

migrate_vm-IsMigration_example :
    IsMigration 3 "101" "node-2" store (migrate_vm 3 "101" "node-2" store)
migrate_vm-IsMigration_example = migrate_vm-IsMigration 3 "101" "node-2" store

abbrev policy : String → ℕ → Bool → BackupPolicy
policy id priority override = record {
  id = id;
  workload_id = "101";
  workload_kind = "vm";
  target_id = "target-pbs-1";
  schedule = "0 2 * * *";
  rpo = "24h";
  retention = "14d";
  encryption = true;
  immutability = false;
  verify_restore = false;
  priority = pos priority;
  override = override;
  updated_at = 0;
}

abbrev two_policies : MemoryStore
two_policies = record store {
  backup_policies = ("p", policy "p" 10 false) ∷ ("q", policy "q" 90 false) ∷ [];
}

explain-IsExplained_example :
    IsExplained "101"
      (values two_policies.backup_policies)
      (explain_backup_policy 7 "101" two_policies)
explain-IsExplained_example =
    explain-IsExplained 7 "101" two_policies ((λ _. refl), ((λ _. refl), tt))

select-last_example :
    (select_policy "101" none (policy "p" 10 true ∷ policy "q" 90 false ∷ [])
      ≡ some (policy "q" 90 false))
    × (select_policy "101" none (policy "q" 90 false ∷ policy "p" 10 true ∷ [])
        ≡ some (policy "p" 10 true))
select-last_example =
    select-last "101" (policy "p" 10 true) (policy "q" 90 false) refl refl refl (omega arith)

get-upsert_spec_example :
    let (spec, t) = upsert_spec 5 "" "web" (("cpu", str "2") ∷ []) store in
    (get_spec "cluster" "web" t ≡ (
      if ("cluster" == "cluster") && ("web" == "web")
      then some spec
      else get_spec "cluster" "web" store))
    × (spec.desired ≡ ("cpu", str "2") ∷ [])
    × (spec.drift_status ≡ DriftStatus.pending)
    × (spec.spec_version ≡ incr (version (get_spec "cluster" "web" store)))
get-upsert_spec_example = get-upsert_spec 5 "" "web" (("cpu", str "2") ∷ []) store "cluster" "web"

set-active_iff_example :
    let t = (set_policy_mode 100 PolicyMode.aggressive "ann" (pos 50) store).1 in
    (aggressive_active (get_policy_mode 120 121 t).0 122 ≡ true) ↔ ((120 ≤ 150) × (122 < 150))
set-active_iff_example = set-active_iff 100 "ann" (pos 50) store 120 121 122 (omega arith)

create_job-IsNumbered_example :
    let (created, t) = create_job 5 blank_job store in
    (lookup created.id t.jobs ≡ some created)
    × ((k : String) (j : Job) → lookup k store.jobs ≡ some j → lookup k t.jobs ≡ some j)
    × IsNumbered t
unfolding new_memory_store
create_job-IsNumbered_example =
    create_job-IsNumbered 5 blank_job store store-IsNumbered (omega arith)

listings-IsListing_example :
    IsListing {A = Job} (λ j. j.created_at) (values two_policies.jobs) (list_jobs two_policies)
    × IsListing {A = AuditEvent} (λ a. a.created_at) two_policies.audits (list_audit two_policies)
    × IsListing {A = Incident}
        (λ i. i.created_at)
        two_policies.incidents
        (list_incidents two_policies)
    × IsListing {A = AgentTask}
        (λ t. t.created_at)
        (values two_policies.agent_tasks)
        (list_agent_tasks two_policies)
listings-IsListing_example = listings-IsListing two_policies
