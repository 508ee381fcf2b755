-- ===== src/Api/Calls.antt =====
-- The handlers that make a tool call of a request (backend/internal/api/server.go). `HandleCall`
-- returns no error. Reading 0 of the clock is the key that a request without one is given; the
-- readings from 1 on are the call's.
pub mod Direct
use proxmaster.Prelude.{
  ℕ, ◌+◌, String, ◌==◌, Bool, true, false, not, Option, none, some, [], ◌∷◌, if◌then◌else◌,
}
use proxmaster.Prelude.Text.{trim_space, default_text}
use proxmaster.Models.{Params, str, int, map_value, McpCallRequest, McpCallResponse}
use proxmaster.Models.Reports.{response_value}
use proxmaster.Health.{GateEvaluator}
use proxmaster.Store.{MemoryStore}
use proxmaster.Mcp.{Clock, Executor, handle_call, call_panics}
use proxmaster.Api.Requests.{
  Request, Response, json, aborted, error, method_not_allowed, invalid_json, struct_of,
  struct_or_empty, map_of, text, flag, number, fields_at, first_non_empty, ◌>>=◌,
}

abbrev pub blank_call : McpCallRequest
blank_call = record {
  tool = "";
  params = [];
  actor = "";
  approve_now = false;
  idempotency_key = "";
  reauth_token = "";
  second_approver = "";
  hardware_mfa = false;
  metadata = [];
}

-- A handler that makes a call: the refusal of the request, or the call.
pub data Wanted : Type 0 where
  refused : Response → Wanted
  call : McpCallRequest → Wanted

abbrev pub or_invalid : Option McpCallRequest → Wanted
or_invalid none = refused invalid_json
or_invalid (some c) = call c

abbrev pub reauthenticated : String → Bool
reauthenticated token = token == "reauth-ok"

unfoldable pub put_spec : String → String → Request → Wanted
put_spec scope key req = or_invalid (do
  desired ← map_of req.body
  some (record blank_call {
    tool = "workload.spec.apply";
    params = ("scope", str scope) ∷ ("key", str key) ∷ ("spec", map_value desired) ∷ [];
    actor = "android-admin";
  }))

unfoldable pub blueprint_call : String → Request → Wanted
blueprint_call tool req = or_invalid (do
  params ← map_of req.body
  some (record blank_call { tool = tool; params = params; actor = "android-admin" }))

unfoldable pub mode_call : ℕ → Request → Wanted
mode_call now req = or_invalid (do
  m ← struct_of req.body
  mode ← text "mode" m
  minutes ← number "duration_minutes" m
  token ← text "reauth_token" m
  second ← text "second_approver" m
  mfa ← flag "hardware_mfa" m
  key ← text "idempotency_key" m
  some (record blank_call {
    tool = "policy.mode.set";
    params =
        ("mode", str mode)
        ∷ ("duration_minutes", int minutes)
        ∷ ("actor", str "android-admin")
        ∷ [];
    actor = "android-admin";
    approve_now = reauthenticated token;
    second_approver = second;
    hardware_mfa = mfa;
    idempotency_key = first_non_empty now key req.idempotency_key;
  }))

-- "gitops.sync.now", "gitops.rollback" and "ssh.breakglass.disable" are called alike.
unfoldable pub actor_call : String → ℕ → Request → Wanted
actor_call tool now req = or_invalid (do
  m ← struct_or_empty req.body
  actor_given ← text "actor" m
  key ← text "idempotency_key" m
  let actor = default_text "android-admin" actor_given
  some (record blank_call {
    tool = tool;
    params = ("actor", str actor) ∷ [];
    actor = actor;
    idempotency_key = first_non_empty now key req.idempotency_key;
  }))

unfoldable pub breakglass_enable_call : ℕ → Request → Wanted
breakglass_enable_call now req = or_invalid (do
  m ← struct_of req.body
  actor_given ← text "actor" m
  minutes ← number "duration_minutes" m
  token ← text "reauth_token" m
  second ← text "second_approver" m
  mfa ← flag "hardware_mfa" m
  key ← text "idempotency_key" m
  let actor = default_text "android-admin" actor_given
  some (record blank_call {
    tool = "ssh.breakglass.enable";
    params = ("duration_minutes", int minutes) ∷ ("actor", str actor) ∷ [];
    actor = actor;
    approve_now = reauthenticated token;
    second_approver = second;
    hardware_mfa = mfa;
    idempotency_key = first_non_empty now key req.idempotency_key;
  }))

unfoldable pub wireguard_status_call : Wanted
wireguard_status_call =
    call (record blank_call { tool = "vpn.wireguard.status"; actor = "android-admin" })

unfoldable pub wireguard_plan_call : ℕ → Request → Wanted
wireguard_plan_call now req = or_invalid (do
  m ← struct_or_empty req.body
  actor_given ← text "actor" m
  address ← text "server_address" m
  allowed ← text "peer_allowed_ips" m
  port ← number "listen_port" m
  endpoint ← text "server_endpoint" m
  key ← text "idempotency_key" m
  some (record blank_call {
    tool = "vpn.wireguard.plan";
    params =
        ("server_address", str address)
        ∷ ("peer_allowed_ips", str allowed)
        ∷ ("listen_port", int port)
        ∷ ("server_endpoint", str endpoint)
        ∷ [];
    actor = default_text "android-admin" actor_given;
    idempotency_key = first_non_empty now key req.idempotency_key;
  }))

unfoldable pub wireguard_apply_call : ℕ → Request → Wanted
wireguard_apply_call now req = or_invalid (do
  m ← struct_of req.body
  actor_given ← text "actor" m
  client_key ← text "client_public_key" m
  address ← text "server_address" m
  allowed ← text "peer_allowed_ips" m
  port ← number "listen_port" m
  endpoint ← text "server_endpoint" m
  token ← text "reauth_token" m
  second ← text "second_approver" m
  mfa ← flag "hardware_mfa" m
  key ← text "idempotency_key" m
  some (record blank_call {
    tool = "vpn.wireguard.apply";
    params =
        ("client_public_key", str client_key)
        ∷ ("server_address", str address)
        ∷ ("peer_allowed_ips", str allowed)
        ∷ ("listen_port", int port)
        ∷ ("server_endpoint", str endpoint)
        ∷ [];
    actor = default_text "android-admin" actor_given;
    approve_now = reauthenticated token;
    second_approver = second;
    hardware_mfa = mfa;
    idempotency_key = first_non_empty now key req.idempotency_key;
  }))

module _ {R : Type 0} (executor : Executor R) (gate : GateEvaluator) where
  -- The server ends the connection of a request that panics, and goes on.
  abbrev answered : Bool → McpCallResponse × MemoryStore × R → Response × MemoryStore × R
  answered panics (resp, s, r) = (if panics then aborted else json 200 (response_value resp), s, r)

  -- The call that a request wants, if it has the method.
  unfoldable pub make_call :
      String → Clock → Request → Wanted → MemoryStore → R → Response × MemoryStore × R
  make_call method clock req (refused e) s r =
      (if not (req.method == method) then method_not_allowed else e, s, r)
  make_call method clock req (call c) s r =
      if not (req.method == method)
      then (method_not_allowed, s, r)
      else answered (call_panics executor gate (λ n. clock (1 + n)) c s r)
          (handle_call executor gate (λ n. clock (1 + n)) c s r)
