-- ===== src/Proxmox/Backups.antt =====
-- Backup policies, backups and restores (backend/internal/proxmox/client.go).
use proxmaster.Prelude.{ℕ, String, ◌==◌, true, false, Option, none, some, [], ◌∷◌, if◌then◌else◌}
use proxmaster.Prelude.Text.{default_text}
use proxmaster.Models.{Params, bool, str, BackupPolicy, BackupDecisionLog, RestorePlan}
use proxmaster.Models.Json.{
  array, policy_value, decision_log_value, restore_plan_value, target_value,
}
use proxmaster.Store.{MemoryStore}
use proxmaster.Store.Backup.{
  upsert_backup_policy, explain_backup_policy, run_backup_now, plan_restore, execute_restore,
  verify_backup_sample, list_backup_policies, list_backup_targets,
}
use proxmaster.Mcp.{Result, ok, err}

unfoldable pub upsert_policy : ℕ → BackupPolicy → MemoryStore → Result × MemoryStore
upsert_policy now policy s =
    if policy.workload_id == ""
    then (err "missing workload_id", s)
    else (let p = record policy { workload_kind = default_text "vm" policy.workload_kind } in
        let (updated, s') = upsert_backup_policy now p s in
        (ok (("changed", bool true) ∷ ("policy", policy_value updated) ∷ []), s'))

abbrev explanation : Option (BackupPolicy × BackupDecisionLog) → Result
explanation none = err "no policy for workload"
explanation (some (p, entry)) = ok (
    ("changed", bool false)
    ∷ ("policy", policy_value p)
    ∷ ("decision_log", decision_log_value entry)
    ∷ [])

unfoldable pub explain_policy : ℕ → String → MemoryStore → Result × MemoryStore
explain_policy now workload_id s =
    let (chosen, s') = explain_backup_policy now workload_id s in (explanation chosen, s')

-- `now` stamps the log, and `later` the report.
unfoldable pub run_now : ℕ → ℕ → String → MemoryStore → Result × MemoryStore
run_now now later workload_id s =
    if workload_id == ""
    then (err "missing workload_id", s)
    else (let (out, s') = run_backup_now now later workload_id s in (ok out, s'))

unfoldable pub restore_plan : ℕ → String → String → MemoryStore → Result × MemoryStore
restore_plan now workload_id target_id s =
    if workload_id == ""
    then (err "missing workload_id", s)
    else (let (plan, s') = plan_restore now workload_id target_id s in
        (ok (("changed", bool false) ∷ ("plan", restore_plan_value plan) ∷ []), s'))

abbrev restore_started : Option RestorePlan → Result
restore_started none = err "restore plan not found"
restore_started (some plan) = ok (
    ("changed", bool true)
    ∷ ("plan", restore_plan_value plan)
    ∷ ("status", str "restore_started")
    ∷ [])

unfoldable pub restore : String → MemoryStore → Result
restore plan_id s = restore_started (execute_restore plan_id s)

unfoldable pub verify_sample : ℕ → MemoryStore → Result
verify_sample now s = ok (verify_backup_sample now s)

unfoldable pub list_policies : MemoryStore → Result
list_policies s =
    ok (("changed", bool false) ∷ ("policies", array policy_value (list_backup_policies s)) ∷ [])

unfoldable pub list_targets : MemoryStore → Result
list_targets s =
    ok (("changed", bool false) ∷ ("targets", array target_value (list_backup_targets s)) ∷ [])

abbrev simulated : String → Option (BackupPolicy × BackupDecisionLog) → Params
simulated workload_id none =
    ("changed", bool false)
    ∷ ("workload_id", str workload_id)
    ∷ ("selected", bool false)
    ∷ ("recommendation", str "create workload specific policy")
    ∷ []
simulated workload_id (some (p, entry)) =
    ("changed", bool false)
    ∷ ("workload_id", str workload_id)
    ∷ ("selected", bool true)
    ∷ ("policy", policy_value p)
    ∷ ("decision_log", decision_log_value entry)
    ∷ []

-- The simulation writes the log as the explanation does.
unfoldable pub simulate_policy : ℕ → String → MemoryStore → Result × MemoryStore
simulate_policy now workload_id s =
    let (chosen, s') = explain_backup_policy now workload_id s in
    (ok (simulated workload_id chosen), s')
