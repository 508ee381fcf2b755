-- ===== src/Examples/Runners.antt =====
-- The controller and the agent on concrete inputs, with a codec for one request.
use proxmaster.Prelude.{
  ℕ, ◌+◌, String, ◌<>◌, ◌==◌, eq_iff, ◌≡◌, refl, true, some, [], ◌∷◌, if◌then◌else◌,
}
use proxmaster.Prelude.Text.{to_lower, trim_space, show_nat}
use proxmaster.Prelude.Dict.{lookup}
use proxmaster.Models.{Params, str}
use proxmaster.Runner.{ExecRequest, Mac, Network, Controller, null_map, execute}
use proxmaster.Runner.Agent.{
  Machine, done, HttpRequest, Agent, Body, execute_allowlisted, serve_exec, run_request,
}
use proxmaster.Runner.Authentic.{
  IsSigned, IsGuarded, serve_exec-IsGuarded, serve_exec-args_unsigned,
}
use proxmaster.Runner.Protocol.{to_agent, execute-served}

abbrev mac : Mac
mac secret text = secret <> ":" <> text

-- It counts its commands.
abbrev machine : Machine ℕ
machine = record { run = λ seconds name argv n. (done name, n + 1) }

abbrev req : ExecRequest
req = record {
  node_id = "node-1";
  command = "apt_update";
  args = [];
  issued_at = "2026-01-01T00:00:00Z";
  nonce = "7";
}

abbrev other_args : Params
other_args = ("target", str "10.0.0.1") ∷ []

-- It reads two bodies.
abbrev agent : Agent
agent = record {
  node_id = "node-1";
  shared_secret = "s3cret";
  read_body = λ body. if body == "one" then some req else some (record req { args = other_args });
}

abbrev signed_post : HttpRequest
signed_post = record {
  method = "POST";
  signature = "sha256=s3cret:node-1|apt_update|2026-01-01T00:00:00Z|7";
  body = "one";
}

serve_exec-IsGuarded_example :
    IsGuarded mac machine agent 5 signed_post 0 (serve_exec mac machine agent 5 signed_post 0)
serve_exec-IsGuarded_example = serve_exec-IsGuarded mac machine agent 5 signed_post 0

signed : IsSigned mac agent signed_post req
signed = record {
  posted = refl;
  read = refl;
  for_node = refl;
  has_secret = λ e. let same = (eq_iff "s3cret" "").1 e in cc;
  has_header = λ e. let same = (eq_iff signed_post.signature "").1 e in cc;
  matches = refl;
}

serve_exec-args_unsigned_example :
    serve_exec mac machine agent 5 (record signed_post { body = "two" }) 0
    ≡ run_request mac machine agent 5 (record req { args = other_args }) 0
serve_exec-args_unsigned_example =
    serve_exec-args_unsigned mac machine agent signed_post req "two" other_args 5 0 signed refl

abbrev controller : Controller
controller = record {
  allowlist = ("apt_update", true) ∷ [];
  node_endpoint = [];
  shared_secret = "s3cret";
}

abbrev encode : ExecRequest → String
encode r = "one"

abbrev write_body : Body → String
write_body b = "{}"

abbrev network : Network ℕ
network = to_agent mac machine agent encode (λ _. null_map) write_body 5

execute-served_example :
    (execute mac network controller "2026-01-01T00:00:00Z" 7 9 "node-1" "apt_update" [] 0).1
    ≡ (execute_allowlisted machine "apt_update" [] 0).1
unfolding to_lower trim_space show_nat lookup
execute-served_example =
    execute-served mac machine agent encode (λ _. null_map) write_body controller 5 9 7
      "2026-01-01T00:00:00Z" "apt_update" [] 0 refl refl refl refl
