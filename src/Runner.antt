-- ===== src/Runner.antt =====
-- backend/internal/runner/controller.go: the control plane's side of the commands that run on a
-- node. The HMAC, the JSON codec and the network are arguments: `mac secret payload` is the HMAC's
-- hexadecimal text, and `post` sends a request and gives the node's answer, or the error of making
-- or sending the request. `issued_at` is the RFC 3339 text of the clock.
pub mod Agent
pub mod Authentic
pub mod Protocol
use Prim.Native.String.{compare}
use text.Mathlib.Text.{is_lt}
use proxmaster.Prelude.{
  ℕ, String, ◌<>◌, ◌==◌, Bool, true, false, not, Option, none, some, List, [], ◌∷◌, leb, sort_by,
  if◌then◌else◌,
}
use proxmaster.Prelude.Text.{
  to_lower, trim_space, show_nat, trim_right_slash, split_commas, cut_equals,
}
use proxmaster.Prelude.Dict.{Dict, lookup, insert, keys}
use proxmaster.Models.{Params, Value, str, time}

pub record ExecRequest : Type 0 where
  pub node_id : String
  pub command : String
  pub args : Params
  pub issued_at : String
  pub nonce : String

pub record Controller : Type 0 where
  pub allowlist : Dict Bool
  pub node_endpoint : Dict String
  pub shared_secret : String

-- The environment's variables; one that is not set is empty.
abbrev pub Env : Type 0
Env = String → String

abbrev first_non_empty : List String → String
first_non_empty [] = ""
first_non_empty (v ∷ vs) = if not (trim_space v == "") then trim_space v else first_non_empty vs

abbrev add_endpoint : Option (String × String) → Dict String → Dict String
add_endpoint none m = m
add_endpoint (some (node, address)) m = insert (trim_space node) (trim_space address) m

add_endpoints : List String → Dict String → Dict String
add_endpoints [] m = m
add_endpoints (pair ∷ pairs) m = add_endpoints pairs (add_endpoint (cut_equals (trim_space pair)) m)

abbrev default_endpoints : Dict String
default_endpoints = ("node-1", "http://proxmaster-runner-agent:9091") ∷ []

abbrev pub commands : Dict Bool
commands =
    ("apt_update", true)
    ∷ ("apt_upgrade", true)
    ∷ ("node_reboot", true)
    ∷ ("diagnostics_ping", true)
    ∷ ("service_restart", true)
    ∷ ("wireguard_install", true)
    ∷ ("wireguard_status", true)
    ∷ ("shell_script", true)
    ∷ []

unfoldable pub new_controller : Env → Controller
unfolding add_endpoints
new_controller env =
    let raw = trim_space (env "PROXMASTER_RUNNER_NODE_ENDPOINTS") in
    record {
      allowlist = commands;
      node_endpoint =
          if not (raw == "")
          then add_endpoints (split_commas raw) default_endpoints
          else default_endpoints;
      shared_secret = first_non_empty (
          env "RUNNER_SHARED_SECRET"
          ∷ env "PROXMASTER_RUNNER_SHARED_SECRET"
          ∷ "dev-runner-secret"
          ∷ []);
    }

abbrev pub Mac : Type 0
Mac = String → String → String

abbrev pub payload : ExecRequest → String
payload req = req.node_id <> "|" <> req.command <> "|" <> req.issued_at <> "|" <> req.nonce

unfoldable pub sign : Mac → Controller → ExecRequest → String
sign mac c req = mac c.shared_secret (payload req)

-- A request as it is sent: its address, its signature header and its body.
pub record Post : Type 0 where
  pub url : String
  pub signature : String
  pub body : String

-- The answer of a node: a status code and a body, or the error of no answer.
pub data Reply : Type 0 where
  answered : ℕ → String → Reply
  unreachable : String → Reply

-- What a body is read as: a JSON object, JSON's null, or an error.
pub data Decoded : Type 0 where
  fields_of : Params → Decoded
  null_map : Decoded
  malformed : String → Decoded

-- `(map[string]any, error)`, or the panic of a write to a nil map.
pub data Result : Type 0 where
  ok : Params → Result
  err : String → Result
  panicked : Result

-- What lies between the controller and the nodes, whose state is of type `N`.
pub record Network (N : Type 0) : Type 0 where
  pub encode : ExecRequest → String
  pub decode : String → Decoded
  pub post : Post → N → Reply × N

abbrev pub allowed : Controller → String → Bool
allowed c cmd = elim (lookup cmd c.allowlist) [ none ↦ false | some b ↦ b ]

abbrev pub command_name : String → String
command_name command = trim_space (to_lower command)

abbrev known_endpoint : Controller → String → String
known_endpoint c node_id = elim (lookup node_id c.node_endpoint) [ none ↦ "" | some e ↦ e ]

abbrev pub endpoint_of : Controller → String → String
endpoint_of c node_id =
    let endpoint = known_endpoint c node_id in
    if endpoint == "" then "http://" <> node_id <> ":9091" else endpoint

-- The fields that the controller adds to a node's answer.
abbrev pub complete : String → String → String → ℕ → Decoded → Result
complete node_id cmd endpoint now (fields_of out) = ok (
    insert "executed_at" (time now) (
      insert "endpoint" (str endpoint)
        (insert "command" (str cmd) (insert "node_id" (str node_id) out))))
complete node_id cmd endpoint now null_map = panicked
complete node_id cmd endpoint now (malformed e) = err e

abbrev pub read_reply : (String → Decoded) → String → String → String → ℕ → Reply → Result
read_reply decode node_id cmd endpoint now (unreachable e) = err e
read_reply decode node_id cmd endpoint now (answered status body) =
    if leb 300 status
    then err ("runner exec failed status=" <> show_nat status <> " body=" <> trim_space body)
    else complete node_id cmd endpoint now (decode body)

abbrev pub request_for : String → String → Params → String → ℕ → ExecRequest
request_for node_id cmd args issued_at nanos = record {
  node_id = node_id;
  command = cmd;
  args = args;
  issued_at = issued_at;
  nonce = show_nat nanos;
}

module _ {N : Type 0} (mac : Mac) (network : Network N) (c : Controller) where
  open network use {encode, decode, post}

  unfoldable pub post_for : ExecRequest → Post
  unfolding sign
  post_for req = record {
    url = trim_right_slash (endpoint_of c req.node_id) <> "/exec";
    signature = "sha256=" <> sign mac c req;
    body = encode req;
  }

  -- `nanos` is the clock in nanoseconds, read for the nonce, and `now` the time of the answer.
  unfoldable pub execute : String → ℕ → ℕ → String → String → Params → N → Result × N
  execute issued_at nanos now node_id command args n =
      let cmd = command_name command in
      if not (allowed c cmd)
      then (err "command is not allowlisted", n)
      else (let (reply, n') = post (post_for (request_for node_id cmd args issued_at nanos)) n in
          (read_reply decode node_id cmd (endpoint_of c node_id) now reply, n'))

-- The names of the map, in the order of texts.
unfoldable pub allowlist_names : Controller → List String
allowlist_names c = sort_by (λ s t. is_lt (compare s t)) (keys c.allowlist)

unfoldable pub endpoints : Controller → Dict String
endpoints c = c.node_endpoint
