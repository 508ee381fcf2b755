-- ===== src/Orchestrator/Totality.antt =====
-- When a tool comes to an answer, and when it panics (backend/internal/orchestrator/service.go).
use proxmaster.Prelude.{
  ℕ, String, ◌≡◌, ◌≢◌, refl, Bool, true, false, arith, leb, Bool-cases, Option-cases, inl, inr,
}
use proxmaster.Models.{Params}
use proxmaster.Store.{MemoryStore}
use proxmaster.Store.Cluster.{plan_rebuild_all_pools}
use proxmaster.Store.Ledger.{HasPools}
use proxmaster.Mcp.{Clock}
use proxmaster.Proxmox.Workloads.{plan_rebuild}
use proxmaster.Orchestrator.{Services, Runtime, runner_outcome, execute, run_tool, run_service_tool}
use proxmaster.Orchestrator.Names.{
  Tool, store_tool, service_tool, StoreTool, ServiceTool, tool_named, map_at,
}
use proxmaster.Mcp.{Ending, answered, panicked}
use proxmaster.Orchestrator.StoreTools.{run_store_tool, planned}
use proxmaster.Orchestrator.Executor.{execute-Keeps}
use proxmaster.Proxmox.Blueprints.{text_at}
use proxmaster.Runner

abbrev is_answered : Ending → Bool
is_answered (answered res) = true
is_answered panicked = false

-- A result or an error, and no panic.
abbrev pub IsAnswered : Ending → Type 0
IsAnswered o = is_answered o ≡ true

plan-IsAnswered :
    (now : ℕ) (s : MemoryStore) → HasPools s → IsAnswered (planned (plan_rebuild now s)).0
unfolding plan_rebuild plan_rebuild_all_pools
plan-IsAnswered now s h = ground (arith, h)

store_tool-IsAnswered :
    (t : StoreTool) (clock : Clock) (params : Params) (s : MemoryStore)
    → HasPools s
    → IsAnswered (run_store_tool t clock params s).0
unfolding run_store_tool
store_tool-IsAnswered StoreTool.rebuild_plan clock params s h = plan-IsAnswered (clock 0) s h
store_tool-IsAnswered StoreTool.node_set_maintenance clock params s h = ground arith
store_tool-IsAnswered StoreTool.vm_clone clock params s h = ground arith
store_tool-IsAnswered StoreTool.pool_apply clock params s h = ground arith
store_tool-IsAnswered StoreTool.pool_plan clock params s h = ground arith
store_tool-IsAnswered StoreTool.rebuild_execute clock params s h = ground arith
store_tool-IsAnswered StoreTool.network_apply clock params s h = ground arith
store_tool-IsAnswered other clock params s h = refl

complete-IsAnswered :
    (node_id cmd endpoint : String) (now : ℕ) (d : Runner.Decoded)
    → d ≢ Runner.Decoded.null_map
    → IsAnswered (runner_outcome (Runner.complete node_id cmd endpoint now d))
complete-IsAnswered node_id cmd endpoint now (Runner.Decoded.fields_of out) n = refl
complete-IsAnswered node_id cmd endpoint now (Runner.Decoded.malformed e) n = refl
complete-IsAnswered node_id cmd endpoint now Runner.Decoded.null_map n = absurd (n refl)

module _ {W : Type 0} (services : Services W) where
  open services use {mac, network, runner, rfc3339}

  -- No node answers a message with a body that is JSON's null.
  abbrev pub NoNull : Type 0
  NoNull =
      (message : Runner.Post) (w : W) (status : ℕ) (body : String)
      → (network.post message w).0 ≡ Runner.Reply.answered status body
      → network.decode body ≢ Runner.Decoded.null_map

  reply-IsAnswered :
      (node_id cmd endpoint : String) (now : ℕ) (reply : Runner.Reply)
      → ((status : ℕ) (body : String)
          → reply ≡ Runner.Reply.answered status body
          → network.decode body ≢ Runner.Decoded.null_map)
      → IsAnswered
          (runner_outcome (Runner.read_reply network.decode node_id cmd endpoint now reply))
  reply-IsAnswered node_id cmd endpoint now (Runner.Reply.unreachable e) no_null = refl
  reply-IsAnswered node_id cmd endpoint now (Runner.Reply.answered status body) no_null =
      elim (Bool-cases (leb 300 status)) [
        | inl refused ↦ rw refused refl
        | inr accepted ↦ rw accepted (
            complete-IsAnswered node_id cmd endpoint now (network.decode body)
              (no_null status body refl))
      ]

  runner-IsAnswered :
      (issued_at : String) (nanos now : ℕ) (node_id command : String) (args : Params) (w : W)
      → NoNull
      → IsAnswered (
          runner_outcome
            (Runner.execute mac network runner issued_at nanos now node_id command args w).0)
  unfolding Runner.execute
  runner-IsAnswered issued_at nanos now node_id command args w no_null =
      let cmd = Runner.command_name command in
      let req = Runner.request_for node_id cmd args issued_at nanos in
      let (reply, w') = network.post (Runner.post_for mac network runner req) w in
      elim (Bool-cases (Runner.allowed runner cmd)) [
        | inl listed ↦
            rw (listed, Runner.execute)
              (reply-IsAnswered node_id cmd (Runner.endpoint_of runner node_id) now reply
                (no_null (Runner.post_for mac network runner req) w))
        | inr refused ↦ rw (refused, Runner.execute) refl
      ]

  service_tool-IsAnswered :
      (t : ServiceTool) (clock : Clock) (params : Params) (s : MemoryStore) (r : Runtime W)
      → NoNull
      → IsAnswered (run_service_tool services t clock params s r).0
  unfolding run_service_tool
  service_tool-IsAnswered ServiceTool.runner_exec clock params s r no_null =
      let node_id = text_at "node_id" params in
      let command = text_at "command" params in
      ground (
        arith,
        runner-IsAnswered (rfc3339 (clock 0)) (clock 1) (clock 2) node_id command
            (map_at "args" params) r.outside no_null,
      )
  service_tool-IsAnswered ServiceTool.get_state clock params s r no_null = refl
  service_tool-IsAnswered ServiceTool.get_all clock params s r no_null = refl
  service_tool-IsAnswered ServiceTool.connection_test clock params s r no_null = refl
  service_tool-IsAnswered ServiceTool.vm_migration_plan clock params s r no_null = refl
  service_tool-IsAnswered ServiceTool.blueprint_deploy clock params s r no_null = refl
  service_tool-IsAnswered ServiceTool.wireguard_vm_deploy clock params s r no_null = refl
  service_tool-IsAnswered other clock params s r no_null = ground arith

  tool-IsAnswered :
      (t : Tool) (clock : Clock) (params : Params) (s : MemoryStore) (r : Runtime W)
      → HasPools s
      → NoNull
      → IsAnswered (run_tool services t clock params s r).0
  unfolding run_tool
  tool-IsAnswered (store_tool t) clock params s r h no_null =
      store_tool-IsAnswered t clock params s h
  tool-IsAnswered (service_tool t) clock params s r h no_null =
      service_tool-IsAnswered t clock params s r no_null

  -- On a cluster with storage pools, and where no node answers a message with a body that is JSON's
  -- null, every tool comes to a result or an error and does not panic, whatever its name and
  -- parameters; and the cluster still has storage pools then.
  pub execute-IsAnswered :
      (clock : Clock) (tool : String) (params : Params) (s : MemoryStore) (r : Runtime W)
      → HasPools s
      → NoNull
      → let (o, s', r') = execute services clock tool params s r in IsAnswered o × HasPools s'
  unfolding execute
  execute-IsAnswered clock tool params s r h no_null = (
    elim (Option-cases (tool_named tool)) [
      | inl unknown ↦ rw (unknown, execute) refl
      | inr (t, known) ↦ rw (known, execute) (tool-IsAnswered t clock params s r h no_null)
    ],
    (execute-Keeps services clock tool params s r).2 h,
  )
