-- ===== src/Store/Backup.antt =====
-- Backup targets, policies and plans of the store (backend/internal/store/memory.go).
pub mod Laws
use Prim.Native.String.{compare}
use text.Mathlib.Text.{is_lt}
use proxmaster.Prelude.{
  ℕ, String, ◌<>◌, ◌==◌, Bool, true, false, not, ◌||◌, ◌&&◌, Option, none, some, List, [], ◌∷◌,
  ◌++◌, sort_by, if◌then◌else◌,
}
use proxmaster.Prelude.Int.{ℤ, pos, ltb_ℤ}
use proxmaster.Prelude.Text.{default_text}
use proxmaster.Prelude.Dict.{lookup, insert, values}
use proxmaster.Models.{
  Params, Value, bool, str, int, time, arr, items, map_value, Vm, BackupTarget, BackupPolicy,
  BackupDecisionLog, RestorePlan,
}
use proxmaster.Store.{MemoryStore, next_id}

unfoldable pub upsert_backup_target : ℕ → BackupTarget → MemoryStore → BackupTarget × MemoryStore
upsert_backup_target now target s =
    let (id, s₁) = if target.id == "" then next_id "target" s else (target.id, s) in
    let t = record target { id = id } in
    let targets = insert id t s₁.backup_targets in
    (
      t,
      record s₁ {
        backup_targets = targets;
        state = record s₁.state { backup_targets = values targets; updated_at = now };
      },
    )

unfoldable pub list_backup_targets : MemoryStore → List BackupTarget
list_backup_targets s = sort_by (λ a b. is_lt (compare a.id b.id)) (values s.backup_targets)

unfoldable pub upsert_backup_policy : ℕ → BackupPolicy → MemoryStore → BackupPolicy × MemoryStore
upsert_backup_policy now policy s =
    let (id, s₁) = if policy.id == "" then next_id "policy" s else (policy.id, s) in
    let p = record policy {
      id = id;
      target_id = default_text "target-pbs-1" policy.target_id;
      schedule = default_text "0 2 * * *" policy.schedule;
      rpo = default_text "24h" policy.rpo;
      retention = default_text "14d" policy.retention;
      updated_at = now;
    } in
    (p, record s₁ { backup_policies = insert id p s₁.backup_policies })

-- By workload, and the higher priority first.
abbrev policy_before : BackupPolicy → BackupPolicy → Bool
policy_before a b =
    if a.workload_id == b.workload_id
    then ltb_ℤ b.priority a.priority
    else is_lt (compare a.workload_id b.workload_id)

unfoldable pub list_backup_policies : MemoryStore → List BackupPolicy
list_backup_policies s = sort_by policy_before (values s.backup_policies)

-- The loop of `ExplainBackupPolicy`; `none` while nothing is found.
abbrev prefer : Option BackupPolicy → BackupPolicy → Option BackupPolicy
prefer none p = some p
prefer (some selected) p =
    if ltb_ℤ selected.priority p.priority || p.override then some p else some selected

unfoldable pub select_policy :
    String → Option BackupPolicy → List BackupPolicy → Option BackupPolicy
select_policy workload selected [] = selected
select_policy workload selected (p ∷ ps) =
    select_policy workload (if p.workload_id == workload then prefer selected p else selected) ps

-- The log entry of what was selected.
abbrev explained :
    ℕ
    → String
    → Option BackupPolicy
    → MemoryStore
    → Option (BackupPolicy × BackupDecisionLog) × MemoryStore
explained now workload none s = (none, s)
explained now workload (some p) s =
    let (id, s₁) = next_id "policylog" s in
    let entry : BackupDecisionLog = record {
      id = id;
      workload_id = workload;
      policy_id = p.id;
      reason = "selected policy " <> p.id <> " by priority/override";
      created_at = now;
    } in
    (some (p, entry), record s₁ { decision_logs = s₁.decision_logs ++ entry ∷ [] })

unfoldable pub explain_backup_policy :
    ℕ → String → MemoryStore → Option (BackupPolicy × BackupDecisionLog) × MemoryStore
explain_backup_policy now workload s =
    explained now workload (select_policy workload none (values s.backup_policies)) s

abbrev backup_report : ℕ → String → Option (BackupPolicy × BackupDecisionLog) → Params
backup_report now workload none =
    ("changed", bool false) ∷ ("workload_id", str workload) ∷ ("status", str "no_policy") ∷ []
backup_report now workload (some (p, entry)) =
    ("changed", bool true)
    ∷ ("workload_id", str workload)
    ∷ ("policy_id", str p.id)
    ∷ ("target_id", str p.target_id)
    ∷ ("decision_log_id", str entry.id)
    ∷ ("status", str "backup_started")
    ∷ ("started_at_utc", time now)
    ∷ []

-- `now` stamps the log, and `later` the report.
unfoldable pub run_backup_now : ℕ → ℕ → String → MemoryStore → Params × MemoryStore
unfolding explain_backup_policy
run_backup_now now later workload s =
    let (chosen, s₁) = explain_backup_policy now workload s in
    (backup_report later workload chosen, s₁)

unfoldable pub plan_restore : ℕ → String → String → MemoryStore → RestorePlan × MemoryStore
plan_restore now workload target s =
    let (id, s₁) = next_id "restore" s in
    let plan : RestorePlan = record {
      id = id;
      workload_id = workload;
      backup_target_id = default_text "target-pbs-1" target;
      snapshot_ref = workload <> "@latest";
      dry_run_passed = true;
      created_at = now;
    } in
    (plan, record s₁ { restore_plans = insert id plan s₁.restore_plans })

unfoldable pub execute_restore : String → MemoryStore → Option RestorePlan
execute_restore id s = lookup id s.restore_plans

abbrev sample_result : Vm → Value
sample_result vm = map_value (
    ("workload_id", str vm.id) ∷ ("kind", str vm.kind) ∷ ("result", str "restore_test_passed") ∷ [])

-- The loop breaks once there are two results.
abbrev first_two : List Vm → List Value
first_two [] = []
first_two (v ∷ []) = sample_result v ∷ []
first_two (v ∷ w ∷ vs) = sample_result v ∷ sample_result w ∷ []

abbrev sample_count : List Vm → ℕ
sample_count [] = 0
sample_count (v ∷ []) = 1
sample_count (v ∷ w ∷ vs) = 2

unfoldable pub verify_backup_sample : ℕ → MemoryStore → Params
verify_backup_sample now s =
    ("changed", bool false)
    ∷ ("sample_count", int (pos (sample_count s.state.vms)))
    ∷ ("results", arr (items (first_two s.state.vms)))
    ∷ ("verified_at_utc", time now)
    ∷ []
