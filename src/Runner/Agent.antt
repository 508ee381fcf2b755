-- ===== src/Runner/Agent.antt =====
-- backend/cmd/runner-agent/main.go: the agent that runs the commands on its node. The node itself
-- is a state of type `M`; what running a command comes to is an argument, as is the reading of a
-- request's body. The heartbeats that the agent posts, and its start, are not modelled.
use proxmaster.Prelude.{
  ℕ, String, ◌==◌, Bool, true, false, not, ◌||◌, Option, none, some, List, [], ◌∷◌, map,
  if◌then◌else◌,
}
use proxmaster.Prelude.Int.{ℤ}
use proxmaster.Prelude.Text.{trim_space, trim_prefix, split_commas}
use proxmaster.Prelude.Dict.{insert}
use proxmaster.Models.{Params, Value, bool, str, int, time, arr, items, map_value, get, as_string}
use proxmaster.Runner.{ExecRequest, Env, Mac, payload, command_name}

-- How a command ends: what it printed, and its error with the code of its exit, if it had one.
pub data Exit : Type 0 where
  done : String → Exit
  failed : String → String → Option ℤ → Exit

-- `run seconds name argv` runs a command with a limit on its time.
pub record Machine (M : Type 0) : Type 0 where
  pub run : ℕ → String → List String → M → Exit × M

abbrev command_line : String → List String → Value
command_line name argv = arr (items (str name ∷ map str argv))

abbrev exit_report : String → List String → Exit → Params
exit_report name argv (done output) =
    ("ok", bool true) ∷ ("command", command_line name argv) ∷ ("output", str output) ∷ []
exit_report name argv (failed output error none) =
    ("ok", bool false)
    ∷ ("command", command_line name argv)
    ∷ ("output", str output)
    ∷ ("error", str error)
    ∷ []
exit_report name argv (failed output error (some code)) =
    ("ok", bool false)
    ∷ ("command", command_line name argv)
    ∷ ("output", str output)
    ∷ ("error", str error)
    ∷ ("exit_code", int code)
    ∷ []

abbrev pub refusal : String → Params
refusal why = ("ok", bool false) ∷ ("error", str why) ∷ []

-- `v, _ := args[k].(string)`
abbrev text_arg : String → Params → String
text_arg k args = elim (as_string (get k args)) [ none ↦ "" | some s ↦ s ]

abbrev or_text : String → String → String
or_text fallback s = if trim_space s == "" then fallback else s

unfoldable pub verify_signature : Mac → String → String → ExecRequest → Bool
verify_signature mac header secret req =
    if secret == "" || header == ""
    then false
    else mac secret (payload req) == trim_prefix header "sha256="

module _ {M : Type 0} (machine : Machine M) where
  open machine use {run}

  unfoldable pub run_command : ℕ → String → List String → M → Params × M
  run_command seconds name argv m =
      let (exit, m') = run seconds name argv m in (exit_report name argv exit, m')

  abbrev bash : ℕ → String → M → Params × M
  bash seconds script m = run_command seconds "bash" ("-lc" ∷ script ∷ []) m

  -- A command that needs a text among its arguments.
  abbrev with_text : String → String → (String → M → Params × M) → M → Params × M
  with_text why s act m = if trim_space s == "" then (refusal why, m) else act s m

  -- The switch over the names.
  unfoldable pub dispatch : String → Params → M → Params × M
  dispatch cmd args m =
      if cmd == "apt_update"
      then bash 300 "DEBIAN_FRONTEND=noninteractive apt-get update -y" m
      else if cmd == "apt_upgrade"
      then bash 1200 "DEBIAN_FRONTEND=noninteractive apt-get upgrade -y" m
      else if cmd == "node_reboot"
      then bash 10 "nohup bash -lc 'sleep 2; reboot' >/dev/null 2>&1 &" m
      else if cmd == "diagnostics_ping"
      then run_command 20 "ping" ("-c" ∷ "2" ∷ or_text "8.8.8.8" (text_arg "target" args) ∷ []) m
      else if cmd == "service_restart"
      then with_text "missing service name" (text_arg "name" args)
          (λ name. run_command 60 "systemctl" ("restart" ∷ name ∷ [])) m
      else if cmd == "wireguard_install"
      then bash 600
          "DEBIAN_FRONTEND=noninteractive apt-get update -y && DEBIAN_FRONTEND=noninteractive apt-get install -y wireguard wireguard-tools"
          m
      else if cmd == "wireguard_status"
      then run_command 30 "wg" ("show" ∷ or_text "wg0" (text_arg "interface" args) ∷ []) m
      else if cmd == "shell_script"
      then with_text "missing script" (text_arg "script" args) (bash 900) m
      else (refusal "command is not allowlisted", m)

  unfoldable pub execute_allowlisted : String → Params → M → Params × M
  execute_allowlisted command args m = dispatch (command_name command) args m

-- A request to the agent: its method, its signature header and its body.
pub record HttpRequest : Type 0 where
  pub method : String
  pub signature : String
  pub body : String

pub data Body : Type 0 where
  message : String → Body
  object : Params → Body

pub record Response : Type 0 where
  pub status : ℕ
  pub body : Body

abbrev pub rejected : ℕ → String → Response
rejected status why = record { status = status; body = message why }

abbrev is_true : Option Value → Bool
is_true (some (bool true)) = true
is_true _ = false

-- The report of a command, with the fields that the handler adds.
abbrev pub answer : String → ℕ → ExecRequest → Params → Response
answer node_id now req resp =
    let ok = is_true (get "ok" resp) in
    record {
      status = if not ok then 400 else 200;
      body = object (
          insert "ts" (time now) (
            insert "args" (map_value req.args) (
              insert "command" (str req.command)
                (insert "node_id" (str node_id) (insert "accepted" (bool ok) resp)))));
    }

-- What the agent is started with, and how it reads bodies.
pub record Agent : Type 0 where
  pub node_id : String
  pub shared_secret : String
  pub read_body : String → Option ExecRequest

module _ {M : Type 0} (mac : Mac) (machine : Machine M) (agent : Agent) where
  abbrev pub run_request : ℕ → ExecRequest → M → Response × M
  unfolding execute_allowlisted
  run_request now req m =
      let (resp, m') = execute_allowlisted machine req.command req.args m in
      (answer agent.node_id now req resp, m')

  abbrev pub check_request : ℕ → String → Option ExecRequest → M → Response × M
  check_request now header none m = (rejected 400 "invalid json", m)
  check_request now header (some req) m =
      if not (req.node_id == agent.node_id)
      then (rejected 403 "node mismatch", m)
      else if not (verify_signature mac header agent.shared_secret req)
      then (rejected 403 "invalid signature", m)
      else run_request now req m

  -- The handler of "/exec".
  unfoldable pub serve_exec : ℕ → HttpRequest → M → Response × M
  serve_exec now r m =
      if not (r.method == "POST")
      then (rejected 405 "method not allowed", m)
      else check_request now r.signature (agent.read_body r.body) m

-- The settings of the agent.
abbrev env_or : Env → String → String → String
env_or env key fallback = if not (env key == "") then env key else fallback

abbrev non_blank : List String → List String
non_blank [] = []
non_blank (s ∷ l) =
    let rest = non_blank l in let t = trim_space s in if not (t == "") then t ∷ rest else rest

abbrev or_node_1 : List String → List String
or_node_1 [] = "node-1" ∷ []
or_node_1 l = l

unfoldable pub split_csv : String → List String
split_csv s = or_node_1 (non_blank (split_commas s))

unfoldable pub new_agent : Env → (String → Option ExecRequest) → Agent
new_agent env read_body = record {
  node_id = env_or env "RUNNER_NODE_ID" "node-1";
  shared_secret = env_or env "RUNNER_SHARED_SECRET" "dev-runner-secret";
  read_body = read_body;
}
