-- ===== src/Api/Calls/Direct.antt =====
-- The handlers that take the tool of a call from the request, or a script for a node
-- (backend/internal/api/server.go).
use proxmaster.Prelude.{
  ℕ, String, ◌==◌, Bool, true, false, not, Option, none, some, [], ◌∷◌, if◌then◌else◌,
}
use proxmaster.Prelude.Text.{trim_space, default_text}
use proxmaster.Models.{Params, str, map_value, McpCallRequest}
use proxmaster.Api.Requests.{
  Request, error, invalid_json, struct_of, text, flag, fields_at, first_non_empty, ◌>>=◌,
}
use proxmaster.Api.Calls.{Wanted, refused, call, blank_call, reauthenticated}

-- The body of a call, as it is written.
unfoldable pub call_of : Params → Option McpCallRequest
call_of m = do
  tool ← text "tool" m
  params ← fields_at "params" m
  actor ← text "actor" m
  token ← text "reauth_token" m
  second ← text "second_approver" m
  mfa ← flag "hardware_mfa" m
  key ← text "idempotency_key" m
  metadata ← fields_at "metadata" m
  some (record {
    tool = tool;
    params = params;
    actor = actor;
    approve_now = false;
    idempotency_key = key;
    reauth_token = token;
    second_approver = second;
    hardware_mfa = mfa;
    metadata = metadata;
  })

abbrev with_tool : Request → McpCallRequest → Wanted
with_tool req c =
    if c.tool == ""
    then refused (error 400 "tool is required")
    else call (record c { idempotency_key = default_text req.idempotency_key c.idempotency_key })

abbrev tool_or_invalid : Request → Option McpCallRequest → Wanted
tool_or_invalid req none = refused invalid_json
tool_or_invalid req (some c) = with_tool req c

-- The approval is a field of the body.
unfoldable pub mcp_call : Request → Wanted
mcp_call req = tool_or_invalid req (do
  m ← struct_of req.body
  approve ← flag "approve_now" m
  c ← call_of m
  some (record c { approve_now = approve }))

abbrev pub if_reauthenticated : Option McpCallRequest → Wanted
if_reauthenticated none = refused invalid_json
if_reauthenticated (some c) =
    if not (reauthenticated c.reauth_token)
    then refused (error 403 "missing or invalid reauth token")
    else call (record c { approve_now = true })

unfoldable pub mcp_approve : Request → Wanted
mcp_approve req = if_reauthenticated (do m ← struct_of req.body; call_of m)

abbrev blank_default : String → String → String
blank_default fallback s = if trim_space s == "" then fallback else s

-- What a terminal request asks for, but for its key.
abbrev script_call : String → String → String → String → String → Bool → String → McpCallRequest
script_call node_id script actor token second mfa key = record blank_call {
  tool = "node.runner.exec";
  params =
      ("node_id", str (blank_default "node-1" node_id))
      ∷ ("command", str "shell_script")
      ∷ ("args", map_value (("script", str script) ∷ []))
      ∷ [];
  actor = blank_default "cli-admin" actor;
  approve_now = reauthenticated token;
  reauth_token = token;
  second_approver = second;
  hardware_mfa = mfa;
  idempotency_key = key;
}

abbrev pub with_script : Option (String × McpCallRequest) → Wanted
with_script none = refused invalid_json
with_script (some (script, c)) =
    if trim_space script == "" then refused (error 400 "missing script") else call c

unfoldable pub terminal_call : ℕ → Request → Wanted
terminal_call now req = with_script (do
  m ← struct_of req.body
  node_id ← text "node_id" m
  script ← text "script" m
  actor ← text "actor" m
  token ← text "reauth_token" m
  second ← text "second_approver" m
  mfa ← flag "hardware_mfa" m
  key ← text "idempotency_key" m
  some (
    script,
    script_call node_id script actor token second mfa (first_non_empty now key req.idempotency_key),
  ))
