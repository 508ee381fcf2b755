-- ===== src/Api/Server.antt =====
-- The server (backend/internal/api/server.go): each path's handler, the test of the token, and the
-- service of a request. The orchestrator carries out the calls. A request whose call panics is cut
-- off; the reading n of the clock is the n-th that a handler makes.
use proxmaster.Prelude.{
  ◌+◌, String, ◌==◌, true, not, Option, none, some, [], ◌∷◌, ◌++◌, if◌then◌else◌,
}
use proxmaster.Prelude.Int.{pos}
use proxmaster.Prelude.Text.{trim_space, trim_prefix, equal_fold}
use proxmaster.Models.{Params, str, bool, int, map_value}
use proxmaster.Health.{GateEvaluator}
use proxmaster.Store.{MemoryStore}
use proxmaster.Mcp.{Clock}
use proxmaster.Orchestrator.{Services, Runtime}
use proxmaster.Orchestrator.Executor.{orchestrator}
use proxmaster.Api.Requests.{Request, Response, page, moved, reply, error, method_not_allowed}
use proxmaster.Api.Calls.{
  Wanted, put_spec, blueprint_call, mode_call, actor_call, breakglass_enable_call,
  wireguard_status_call, wireguard_plan_call, wireguard_apply_call, make_call,
}
use proxmaster.Api.Calls.Direct.{terminal_call}
use proxmaster.Api.Calls.Direct
use proxmaster.Api.Reports
use proxmaster.Api.Writes
use proxmaster.Api.Routes.{Open, Guarded, Endpoint, open_to_all, guarded, redirected, endpoint_of}
use proxmaster.Gitops
use proxmaster.Breakglass

abbrev pub bearer : Request → String
bearer req = trim_space (trim_prefix req.authorization "Bearer")

abbrev pub missing_token : Response
missing_token = error 401 "missing bearer token"

abbrev pub wrong_token : Response
wrong_token = error 403 "invalid token"

abbrev post_only : Request → Response → Response
post_only req a = if not (req.method == "POST") then method_not_allowed else a

abbrev get_only : Request → Response → Response
get_only req a = if not (req.method == "GET") then method_not_allowed else a

unfoldable pub login : Request → Response
login req =
    post_only req
      (reply 200 (("mfa_required", bool true) ∷ ("challenge_id", str "dev-challenge") ∷ []))

unfoldable pub mfa_verify : String → Request → Response
mfa_verify admin_token req =
    post_only req
      (reply 200 (("access_token", str admin_token) ∷ ("expires_in", int (pos 900)) ∷ []))

unfoldable pub reauth : Request → Response
reauth req =
    post_only req
      (reply 200 (("reauth_token", str "reauth-ok") ∷ ("expires_in", int (pos 120)) ∷ []))

module _ {W : Type 0} (services : Services W) (gate : GateEvaluator) (admin_token : String) where
  open services use {shell, connectivity, rfc3339}

  abbrev pub Answered : Type 0
  Answered = Response × MemoryStore × Runtime W

  unfoldable pub serve_open : Open → Clock → Request → MemoryStore → Runtime W → Response
  serve_open Open.index clock req s r = Reports.index req.path
  serve_open Open.webui clock req s r = page
  serve_open Open.health clock req s r = Reports.health gate clock s r.manager
  serve_open Open.login clock req s r = login req
  serve_open Open.mfa_verify clock req s r = mfa_verify admin_token req
  serve_open Open.reauth clock req s r = reauth req

  -- What a handler that looks, or one that writes to the store, answers.
  abbrev seen : Response → MemoryStore → Runtime W → Answered
  seen a s r = (a, s, r)

  abbrev wrote : Response × MemoryStore → MemoryStore → Runtime W → Answered
  wrote (a, s') s r = (a, s', r)

  abbrev pub posted : Request → Response × MemoryStore → MemoryStore → Runtime W → Answered
  posted req a s r = if not (req.method == "POST") then (method_not_allowed, s, r) else wrote a s r

  abbrev made : String → Clock → Request → Wanted → MemoryStore → Runtime W → Answered
  made method clock req w s r = make_call (orchestrator services) gate method clock req w s r

  unfoldable pub spec_scope : String → String → Clock → Request → MemoryStore → Runtime W → Answered
  spec_scope scope key clock req s r =
      if req.method == "GET"
      then (Reports.one_spec scope key s, s, r)
      else made "PUT" clock req (put_spec scope key req) s r

  unfoldable pub spec_workload : Clock → Request → MemoryStore → Runtime W → Answered
  spec_workload clock req s r =
      let id = trim_prefix req.path "/spec/workloads/" in
      if trim_space id == ""
      then seen (error 400 "missing workload id") s r
      else spec_scope "workloads" id clock req s r

  unfoldable pub backup_policies : Clock → Request → MemoryStore → Runtime W → Answered
  backup_policies clock req s r =
      if req.method == "GET"
      then (Reports.policies s, s, r)
      else posted req (Writes.post_policy (clock 0) req s) s r

  unfoldable pub autonomy_tasks : Clock → Request → MemoryStore → Runtime W → Answered
  autonomy_tasks clock req s r =
      if req.method == "GET"
      then (Reports.tasks s, s, r)
      else posted req (Writes.post_task clock req s) s r

  unfoldable pub policy_mode : Clock → Request → MemoryStore → Runtime W → Answered
  policy_mode clock req s r =
      if req.method == "GET"
      then wrote (Reports.policy_mode clock s) s r
      else made "POST" clock req (mode_call (clock 0) req) s r

  abbrev with_connectivity : Clock → Runtime W → Params × Runtime W
  with_connectivity clock r = elim connectivity [
    | none ↦ ([], r)
    | some c ↦
        let (report, w) = c.status (λ n. clock (1 + n)) r.outside in
        (("wireguard", map_value report) ∷ [], record r { outside = w })
  ]

  abbrev with_gitops : Option Gitops.Service → Params
  with_gitops none = []
  with_gitops (some g) = ("gitops", map_value (Gitops.status_locked g)) ∷ []

  abbrev with_breakglass : Clock → Runtime W → Params × Runtime W
  with_breakglass clock r = elim r.breakglass [
    | none ↦ ([], r)
    | some b ↦
        let (report, b') = Breakglass.status shell (clock 3) (clock 4) b in
        (("breakglass", map_value report) ∷ [], record r { breakglass = some b' })
  ]

  unfoldable pub connectivity_status : Clock → Request → MemoryStore → Runtime W → Answered
  connectivity_status clock req s r =
      if not (req.method == "GET")
      then (method_not_allowed, s, r)
      else (let (wireguard, r') = with_connectivity clock r in
          let (breakglass, r'') = with_breakglass clock r' in
          (
            reply 200 (
                ("checked_at_utc", str (rfc3339 (clock 0)))
                ∷ (wireguard ++ with_gitops r.gitops ++ breakglass)),
            s,
            r'',
          ))

  abbrev gitops_report : Option Gitops.Service → Response
  gitops_report none = error 503 "gitops not configured"
  gitops_report (some g) = reply 200 (Gitops.status_locked g)

  unfoldable pub gitops_status : Request → MemoryStore → Runtime W → Answered
  gitops_status req s r = (get_only req (gitops_report r.gitops), s, r)

  unfoldable pub breakglass_status : Clock → Request → MemoryStore → Runtime W → Answered
  breakglass_status clock req s r =
      if not (req.method == "GET") then (method_not_allowed, s, r) else elim r.breakglass [
        | none ↦ (error 503 "breakglass not configured", s, r)
        | some b ↦
            let (report, b') = Breakglass.status shell (clock 0) (clock 1) b in
            (reply 200 report, s, record r { breakglass = some b' })
      ]

  unfoldable pub serve_guarded : Guarded → Clock → Request → MemoryStore → Runtime W → Answered
  serve_guarded Guarded.overview clock req s r = (Reports.overview gate clock s r.manager, s, r)
  serve_guarded Guarded.nodes clock req s r = (Reports.nodes s, s, r)
  serve_guarded Guarded.heartbeat clock req s r = posted req (Writes.heartbeat clock req s) s r
  serve_guarded Guarded.vms clock req s r = (Reports.vms s, s, r)
  serve_guarded Guarded.spec_workload clock req s r = spec_workload clock req s r
  serve_guarded Guarded.state_cluster clock req s r = (Reports.state_cluster s, s, r)
  serve_guarded Guarded.state_storage clock req s r = wrote (Reports.state_storage (clock 0) s) s r
  serve_guarded Guarded.state_network clock req s r = (Reports.state_network s, s, r)
  serve_guarded Guarded.state_backup clock req s r = (Reports.state_backup s, s, r)
  serve_guarded Guarded.state_workloads clock req s r = (Reports.state_workloads s, s, r)
  serve_guarded Guarded.state_all clock req s r = wrote (Reports.state_all clock s) s r
  serve_guarded Guarded.blueprints clock req s r = (get_only req (Reports.blueprints s), s, r)
  serve_guarded Guarded.storage_inventory clock req s r =
      wrote (Reports.storage_inventory (clock 0) s) s r
  serve_guarded Guarded.rebuild_plan clock req s r =
      posted req (Writes.plan_rebuild (clock 0) s) s r
  serve_guarded Guarded.backup_policies clock req s r = backup_policies clock req s r
  serve_guarded Guarded.backup_targets clock req s r = (Reports.targets s, s, r)
  serve_guarded Guarded.jobs clock req s r = (Reports.jobs s, s, r)
  serve_guarded Guarded.job clock req s r = (Reports.one_job req.path s, s, r)
  serve_guarded Guarded.timeline clock req s r = (Reports.timeline (rfc3339 (clock 0)) s, s, r)
  serve_guarded Guarded.audit clock req s r = (Reports.audits s, s, r)
  serve_guarded Guarded.incidents clock req s r = (Reports.incidents s, s, r)
  serve_guarded Guarded.tasks clock req s r = autonomy_tasks clock req s r
  serve_guarded Guarded.task clock req s r = (get_only req (Reports.one_task req.path s), s, r)
  serve_guarded Guarded.policy_simulate clock req s r =
      posted req (Writes.simulate gate clock req s) s r
  serve_guarded Guarded.policy_explain clock req s r =
      wrote (Reports.explain_policy gate clock s) s r
  serve_guarded Guarded.policy_mode clock req s r = policy_mode clock req s r
  serve_guarded Guarded.control_plane clock req s r = (Reports.control_plane r.manager, s, r)
  serve_guarded Guarded.connectivity clock req s r = connectivity_status clock req s r
  serve_guarded Guarded.gitops_status clock req s r = gitops_status req s r
  serve_guarded Guarded.gitops_sync clock req s r =
      made "POST" clock req (actor_call "gitops.sync.now" (clock 0) req) s r
  serve_guarded Guarded.gitops_rollback clock req s r =
      made "POST" clock req (actor_call "gitops.rollback" (clock 0) req) s r
  serve_guarded Guarded.breakglass_status clock req s r = breakglass_status clock req s r
  serve_guarded Guarded.breakglass_enable clock req s r =
      made "POST" clock req (breakglass_enable_call (clock 0) req) s r
  serve_guarded Guarded.breakglass_disable clock req s r =
      made "POST" clock req (actor_call "ssh.breakglass.disable" (clock 0) req) s r
  serve_guarded Guarded.wireguard_status clock req s r =
      made "GET" clock req wireguard_status_call s r
  serve_guarded Guarded.wireguard_plan clock req s r =
      made "POST" clock req (wireguard_plan_call (clock 0) req) s r
  serve_guarded Guarded.wireguard_apply clock req s r =
      made "POST" clock req (wireguard_apply_call (clock 0) req) s r
  serve_guarded Guarded.mcp_call clock req s r = made "POST" clock req (Direct.mcp_call req) s r
  serve_guarded Guarded.mcp_approve clock req s r =
      made "POST" clock req (Direct.mcp_approve req) s r
  serve_guarded Guarded.terminal clock req s r =
      made "POST" clock req (terminal_call (clock 0) req) s r
  serve_guarded (Guarded.spec scope) clock req s r = spec_scope scope "default" clock req s r
  serve_guarded (Guarded.blueprint tool) clock req s r =
      made "POST" clock req (blueprint_call tool req) s r

  unfoldable pub with_auth :
      (Request → MemoryStore → Runtime W → Answered) → Request → MemoryStore → Runtime W → Answered
  with_auth next req s r =
      if bearer req == ""
      then (missing_token, s, r)
      else if not (equal_fold (bearer req) admin_token)
      then (wrong_token, s, r)
      else next req s r

  unfoldable pub serve_endpoint : Endpoint → Clock → Request → MemoryStore → Runtime W → Answered
  serve_endpoint (open_to_all o) clock req s r = (serve_open o clock req s r, s, r)
  serve_endpoint (guarded g) clock req s r = with_auth (serve_guarded g clock) req s r
  serve_endpoint redirected clock req s r = (moved, s, r)

  unfoldable pub serve : Clock → Request → MemoryStore → Runtime W → Answered
  serve clock req s r = serve_endpoint (endpoint_of req.path) clock req s r
