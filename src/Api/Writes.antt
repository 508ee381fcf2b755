-- ===== src/Api/Writes.antt =====
-- The handlers that change the store themselves, with no tool call
-- (backend/internal/api/server.go).
use proxmaster.Prelude.{
  ℕ, String, ◌==◌, Bool, true, not, Option, none, some, [], ◌∷◌, if◌then◌else◌,
}
use proxmaster.Prelude.Text.{trim_space}
use proxmaster.Models.{
  Params, Value, str, bool, null, obj, params_of, AgentTask, BackupPolicy, StorageRebuildPlan,
  PolicySimulationRequest, time,
}
use proxmaster.Models.Json.{policy_value, rebuild_plan_value}
use proxmaster.Models.Reports.{task_value, simulation_value}
use proxmaster.Health.{GateEvaluator}
use proxmaster.Store.{MemoryStore}
use proxmaster.Store.Cluster.{mark_node_heartbeat, plan_rebuild_all_pools}
use proxmaster.Store.Backup.{upsert_backup_policy}
use proxmaster.Store.Tasks.{blank_task, create_agent_task}
use proxmaster.Mcp.{Clock, simulate_policy}
use proxmaster.Api.Requests.{
  Request, Response, json, aborted, reply, error, invalid_json, struct_of, field_of, text, flag,
  number, fields_at, first_non_empty, ◌>>=◌,
}

abbrev heartbeat_reply : String → Bool → Response
heartbeat_reply id found =
    if not found
    then error 404 "node not found"
    else reply 200 (("changed", bool true) ∷ ("node_id", str id) ∷ [])

abbrev pub beat : Clock → MemoryStore → Option String → Response × MemoryStore
beat clock s none = (invalid_json, s)
beat clock s (some id) =
    if id == ""
    then (error 400 "missing node_id", s)
    else (let (found, s') = mark_node_heartbeat (clock 0) (clock 1) id s in
        (heartbeat_reply id found, s'))

unfoldable pub heartbeat : Clock → Request → MemoryStore → Response × MemoryStore
heartbeat clock req s = beat clock s (do m ← struct_of req.body; text "node_id" m)

abbrev rebuild_reply : Option StorageRebuildPlan → Response
rebuild_reply none = aborted
rebuild_reply (some p) =
    reply 200 (("plan", rebuild_plan_value p) ∷ ("requires_approval", bool true) ∷ [])

unfoldable pub plan_rebuild : ℕ → MemoryStore → Response × MemoryStore
plan_rebuild now s = let (plan, s') = plan_rebuild_all_pools now s in (rebuild_reply plan, s')

-- A body's `updated_at` is checked to be a time, and is written over by the store.
abbrev as_time : Value → Option ℕ
as_time null = some 0
as_time (time t) = some t
as_time _ = none

abbrev pub policy_of : Params → Option BackupPolicy
policy_of m = do
  id ← text "id" m
  workload_id ← text "workload_id" m
  workload_kind ← text "workload_kind" m
  priority ← number "priority" m
  override ← flag "override" m
  schedule ← text "schedule" m
  target_id ← text "target_id" m
  rpo ← text "rpo" m
  retention ← text "retention" m
  encryption ← flag "encryption" m
  immutability ← flag "immutability" m
  verify_restore ← flag "verify_restore" m
  updated_at ← as_time (field_of "updated_at" m)
  some (record {
    id = id;
    workload_id = workload_id;
    workload_kind = workload_kind;
    priority = priority;
    override = override;
    schedule = schedule;
    target_id = target_id;
    rpo = rpo;
    retention = retention;
    encryption = encryption;
    immutability = immutability;
    verify_restore = verify_restore;
    updated_at = updated_at;
  })

abbrev pub put_policy : ℕ → MemoryStore → Option BackupPolicy → Response × MemoryStore
put_policy now s none = (invalid_json, s)
put_policy now s (some p) =
    if p.workload_id == ""
    then (error 400 "workload_id is required", s)
    else (let (q, s') = upsert_backup_policy now p s in
        (reply 200 (("policy", policy_value q) ∷ []), s'))

unfoldable pub post_policy : ℕ → Request → MemoryStore → Response × MemoryStore
post_policy now req s = put_policy now s (do m ← struct_of req.body; policy_of m)

-- null is the nil map, and so is a missing field.
abbrev as_payload : Value → Option (Option Params)
as_payload null = some none
as_payload (obj m) = some (some (params_of m))
as_payload _ = none

abbrev pub task_of : ℕ → Params → Option AgentTask
task_of now m = do
  kind ← text "type" m
  payload ← as_payload (field_of "payload" m)
  requested_by ← text "requested_by" m
  some (record blank_task {
    task_type = trim_space kind;
    payload = payload;
    requested_by = first_non_empty now requested_by "android-admin";
  })

abbrev pub put_task : ℕ → MemoryStore → Option AgentTask → Response × MemoryStore
put_task now s none = (invalid_json, s)
put_task now s (some t) =
    if t.task_type == ""
    then (error 400 "missing type", s)
    else (let (created, s') = create_agent_task now t s in
        (reply 201 (("task", task_value created) ∷ []), s'))

unfoldable pub post_task : Clock → Request → MemoryStore → Response × MemoryStore
post_task clock req s = put_task (clock 1) s (do m ← struct_of req.body; task_of (clock 0) m)

abbrev pub simulation_of : Params → Option PolicySimulationRequest
simulation_of m = do
  tool ← text "tool" m
  params ← fields_at "params" m
  approve ← flag "approve_now" m
  health ← text "health_state" m
  some (record { tool = tool; params = params; approve_now = approve; health_state = health })

abbrev pub simulated :
    GateEvaluator → Clock → MemoryStore → Option PolicySimulationRequest → Response × MemoryStore
simulated gate clock s none = (invalid_json, s)
simulated gate clock s (some q) =
    let (res, s') = simulate_policy gate clock q s in (json 200 (simulation_value res), s')

unfoldable pub simulate : GateEvaluator → Clock → Request → MemoryStore → Response × MemoryStore
simulate gate clock req s = simulated gate clock s (do m ← struct_of req.body; simulation_of m)
