-- ===== src/Api/Served.antt =====
-- The records before and after a request (backend/internal/api/server.go), handler by handler.
use proxmaster.Prelude.{String, ◌==◌, not, inl, inr, if◌then◌else◌, Bool-cases, Option-cases}
use proxmaster.Prelude.Text.{trim_space, trim_prefix, equal_fold}
use proxmaster.Health.{GateEvaluator}
use proxmaster.Store.{MemoryStore}
use proxmaster.Store.Ledger.{plan-ledger}
use proxmaster.Mcp.{Clock}
use proxmaster.Orchestrator.{Services, Runtime}
use proxmaster.Orchestrator.Executor.{orchestrator}
use proxmaster.Orchestrator.Ledger.{ledger-Keeps}
use proxmaster.Api.Requests.{Request, Response}
use proxmaster.Api.Calls.{Wanted, put_spec, make_call, mode_call}
use proxmaster.Api.Reports
use proxmaster.Api.Writes
use proxmaster.Api.Routes.{Endpoint, Guarded, open_to_all, guarded, redirected, endpoint_of}
use proxmaster.Api.Trail.{
  IsTraced, unchanged, heartbeat-IsTraced, post_policy-IsTraced, post_task-IsTraced,
  mode-SameRecords, simulate-IsTraced, inventory-SameRecords, make_call-IsTraced,
}
use proxmaster.Api.Server.{
  bearer, posted, spec_scope, spec_workload, backup_policies, autonomy_tasks, policy_mode,
  connectivity_status, gitops_status, breakglass_status, serve_guarded, with_auth, serve_endpoint,
  serve,
}

module _ {W : Type 0} (services : Services W) (gate : GateEvaluator) (admin_token : String) where
  -- What an answer leaves of the store.
  abbrev Leaves : MemoryStore → Response × MemoryStore × Runtime W → Type 0
  Leaves s (a, t, r) = IsTraced s t

  posted-IsTraced :
      (req : Request) (a : Response × MemoryStore) (s : MemoryStore) (r : Runtime W)
      → IsTraced s a.1
      → Leaves s (posted services gate admin_token req a s r)
  posted-IsTraced req a s r h = elim (Bool-cases (req.method == "POST")) [
    | inl post ↦ rw (post, posted) h
    | inr other ↦ rw (other, posted) (unchanged s)
  ]

  abbrev made-IsTraced :
      (method : String) (clock : Clock) (req : Request) (w : Wanted) (s : MemoryStore)
      (r : Runtime W)
      → Leaves s (make_call (orchestrator services) gate method clock req w s r)
  made-IsTraced = make_call-IsTraced (orchestrator services) gate

  read_or :
      (req : Request) (seen other : Response × MemoryStore × Runtime W) (s : MemoryStore)
      → Leaves s seen
      → Leaves s other
      → Leaves s (if req.method == "GET" then seen else other)
  read_or req seen other s h k = elim (Bool-cases (req.method == "GET")) [
    | inl get ↦ rw get h
    | inr not_get ↦ rw not_get k
  ]

  spec_scope-IsTraced :
      (scope key : String) (clock : Clock) (req : Request) (s : MemoryStore) (r : Runtime W)
      → Leaves s (spec_scope services gate admin_token scope key clock req s r)
  unfolding spec_scope
  spec_scope-IsTraced scope key clock req s r =
      read_or req _ _ s (unchanged s) (made-IsTraced "PUT" clock req (put_spec scope key req) s r)

  spec_workload-IsTraced :
      (clock : Clock) (req : Request) (s : MemoryStore) (r : Runtime W)
      → Leaves s (spec_workload services gate admin_token clock req s r)
  unfolding spec_workload
  spec_workload-IsTraced clock req s r =
      let id = trim_prefix req.path "/spec/workloads/" in
      elim (Bool-cases (trim_space id == "")) [
        | inl blank ↦ rw (blank, spec_workload) (unchanged s)
        | inr filled ↦ rw (filled, spec_workload) (spec_scope-IsTraced "workloads" id clock req s r)
      ]

  backup_policies-IsTraced :
      (clock : Clock) (req : Request) (s : MemoryStore) (r : Runtime W)
      → Leaves s (backup_policies services gate admin_token clock req s r)
  unfolding backup_policies
  backup_policies-IsTraced clock req s r = read_or req _ _ s (unchanged s) (
      posted-IsTraced req (Writes.post_policy (clock 0) req s) s r
        (post_policy-IsTraced (clock 0) req s))

  autonomy_tasks-IsTraced :
      (clock : Clock) (req : Request) (s : MemoryStore) (r : Runtime W)
      → Leaves s (autonomy_tasks services gate admin_token clock req s r)
  unfolding autonomy_tasks
  autonomy_tasks-IsTraced clock req s r =
      read_or req _ _ s (unchanged s)
        (posted-IsTraced req (Writes.post_task clock req s) s r (post_task-IsTraced clock req s))

  policy_mode-IsTraced :
      (clock : Clock) (req : Request) (s : MemoryStore) (r : Runtime W)
      → Leaves s (policy_mode services gate admin_token clock req s r)
  unfolding policy_mode Reports.policy_mode
  policy_mode-IsTraced clock req s r =
      read_or req _ _ s (inl (mode-SameRecords (clock 0) (clock 1) s))
        (made-IsTraced "POST" clock req (mode_call (clock 0) req) s r)

  connectivity-IsTraced :
      (clock : Clock) (req : Request) (s : MemoryStore) (r : Runtime W)
      → Leaves s (connectivity_status services gate admin_token clock req s r)
  unfolding connectivity_status
  connectivity-IsTraced clock req s r = elim (Bool-cases (req.method == "GET")) [
    | inl get ↦ rw (get, connectivity_status) (unchanged s)
    | inr other ↦ rw (other, connectivity_status) (unchanged s)
  ]

  breakglass-IsTraced :
      (clock : Clock) (req : Request) (s : MemoryStore) (r : Runtime W)
      → Leaves s (breakglass_status services gate admin_token clock req s r)
  unfolding breakglass_status
  breakglass-IsTraced clock req s r = elim (Bool-cases (req.method == "GET")) [
    | inr other ↦ rw (other, breakglass_status) (unchanged s)
    | inl get ↦ elim (Option-cases r.breakglass) [
      | inl missing ↦ rw (get, missing, breakglass_status) (unchanged s)
      | inr (b, found) ↦ rw (get, found, breakglass_status) (unchanged s)
    ]
  ]

  guarded-IsTraced :
      (g : Guarded) (clock : Clock) (req : Request) (s : MemoryStore) (r : Runtime W)
      → Leaves s (serve_guarded services gate admin_token g clock req s r)
  unfolding serve_guarded gitops_status Reports.state_storage Reports.storage_inventory
      Reports.state_all Reports.explain_policy Writes.plan_rebuild
  guarded-IsTraced Guarded.overview clock req s r = unchanged s
  guarded-IsTraced Guarded.nodes clock req s r = unchanged s
  guarded-IsTraced Guarded.heartbeat clock req s r =
      posted-IsTraced req (Writes.heartbeat clock req s) s r (heartbeat-IsTraced clock req s)
  guarded-IsTraced Guarded.vms clock req s r = unchanged s
  guarded-IsTraced Guarded.spec_workload clock req s r = spec_workload-IsTraced clock req s r
  guarded-IsTraced Guarded.state_cluster clock req s r = unchanged s
  guarded-IsTraced Guarded.state_storage clock req s r = inl (inventory-SameRecords (clock 0) s)
  guarded-IsTraced Guarded.state_network clock req s r = unchanged s
  guarded-IsTraced Guarded.state_backup clock req s r = unchanged s
  guarded-IsTraced Guarded.state_workloads clock req s r = unchanged s
  guarded-IsTraced Guarded.state_all clock req s r = inl (mode-SameRecords (clock 0) (clock 1) s)
  guarded-IsTraced Guarded.blueprints clock req s r = unchanged s
  guarded-IsTraced Guarded.storage_inventory clock req s r = inl (inventory-SameRecords (clock 0) s)
  guarded-IsTraced Guarded.rebuild_plan clock req s r =
      posted-IsTraced req (Writes.plan_rebuild (clock 0) s) s r
        (inl (ledger-Keeps (plan-ledger (clock 0) s)).0)
  guarded-IsTraced Guarded.backup_policies clock req s r = backup_policies-IsTraced clock req s r
  guarded-IsTraced Guarded.backup_targets clock req s r = unchanged s
  guarded-IsTraced Guarded.jobs clock req s r = unchanged s
  guarded-IsTraced Guarded.job clock req s r = unchanged s
  guarded-IsTraced Guarded.timeline clock req s r = unchanged s
  guarded-IsTraced Guarded.audit clock req s r = unchanged s
  guarded-IsTraced Guarded.incidents clock req s r = unchanged s
  guarded-IsTraced Guarded.tasks clock req s r = autonomy_tasks-IsTraced clock req s r
  guarded-IsTraced Guarded.task clock req s r = unchanged s
  guarded-IsTraced Guarded.policy_simulate clock req s r =
      posted-IsTraced req (Writes.simulate gate clock req s) s r
        (simulate-IsTraced gate clock req s)
  guarded-IsTraced Guarded.policy_explain clock req s r =
      inl (mode-SameRecords (clock 1) (clock 2) s)
  guarded-IsTraced Guarded.policy_mode clock req s r = policy_mode-IsTraced clock req s r
  guarded-IsTraced Guarded.control_plane clock req s r = unchanged s
  guarded-IsTraced Guarded.connectivity clock req s r = connectivity-IsTraced clock req s r
  guarded-IsTraced Guarded.gitops_status clock req s r = unchanged s
  guarded-IsTraced Guarded.gitops_sync clock req s r = made-IsTraced "POST" clock req _ s r
  guarded-IsTraced Guarded.gitops_rollback clock req s r = made-IsTraced "POST" clock req _ s r
  guarded-IsTraced Guarded.breakglass_status clock req s r = breakglass-IsTraced clock req s r
  guarded-IsTraced Guarded.breakglass_enable clock req s r = made-IsTraced "POST" clock req _ s r
  guarded-IsTraced Guarded.breakglass_disable clock req s r = made-IsTraced "POST" clock req _ s r
  guarded-IsTraced Guarded.wireguard_status clock req s r = made-IsTraced "GET" clock req _ s r
  guarded-IsTraced Guarded.wireguard_plan clock req s r = made-IsTraced "POST" clock req _ s r
  guarded-IsTraced Guarded.wireguard_apply clock req s r = made-IsTraced "POST" clock req _ s r
  guarded-IsTraced Guarded.mcp_call clock req s r = made-IsTraced "POST" clock req _ s r
  guarded-IsTraced Guarded.mcp_approve clock req s r = made-IsTraced "POST" clock req _ s r
  guarded-IsTraced Guarded.terminal clock req s r = made-IsTraced "POST" clock req _ s r
  guarded-IsTraced (Guarded.spec scope) clock req s r =
      spec_scope-IsTraced scope "default" clock req s r
  guarded-IsTraced (Guarded.blueprint tool) clock req s r = made-IsTraced "POST" clock req _ s r

  auth-IsTraced :
      (g : Guarded) (clock : Clock) (req : Request) (s : MemoryStore) (r : Runtime W)
      → Leaves s (
          with_auth services gate admin_token
            (serve_guarded services gate admin_token g clock)
            req
            s
            r)
  unfolding with_auth
  auth-IsTraced g clock req s r = elim (Bool-cases (bearer req == "")) [
    | inl blank ↦ rw (blank, with_auth) (unchanged s)
    | inr filled ↦ elim (Bool-cases (equal_fold (bearer req) admin_token)) [
      | inl right ↦ rw (filled, right, with_auth, not) (guarded-IsTraced g clock req s r)
      | inr wrong ↦ rw (filled, wrong, with_auth, not) (unchanged s)
    ]
  ]

  endpoint-IsTraced :
      (e : Endpoint) (clock : Clock) (req : Request) (s : MemoryStore) (r : Runtime W)
      → Leaves s (serve_endpoint services gate admin_token e clock req s r)
  unfolding serve_endpoint
  endpoint-IsTraced (open_to_all o) clock req s r = unchanged s
  endpoint-IsTraced redirected clock req s r = unchanged s
  endpoint-IsTraced (guarded g) clock req s r = auth-IsTraced g clock req s r

  -- A request of any kind, with any token, leaves the jobs, the idempotency keys, the audit events and
  -- the incidents as they are, or the audit log afterwards is the log before and one event behind it.
  pub serve-IsTraced :
      (clock : Clock) (req : Request) (s : MemoryStore) (r : Runtime W)
      → let (a, t, r') = serve services gate admin_token clock req s r in IsTraced s t
  unfolding serve
  serve-IsTraced clock req s r = endpoint-IsTraced (endpoint_of req.path) clock req s r
