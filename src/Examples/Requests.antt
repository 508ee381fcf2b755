-- ===== src/Examples/Requests.antt =====
-- Requests to the server on concrete inputs.
use proxmaster.Prelude.{String, ◌≡◌, refl, false, [], ◌∷◌}
use proxmaster.Prelude.Text.{equal_fold, trim_space}
use proxmaster.Models.{str, map_value}
use proxmaster.Api.Requests.{Request, value}
use proxmaster.Api.Calls.{
  put_spec, blueprint_call, mode_call, actor_call, breakglass_enable_call, wireguard_status_call,
  wireguard_plan_call, wireguard_apply_call,
}
use proxmaster.Api.Calls.Direct.{mcp_approve, terminal_call}
use proxmaster.Api.Routes.{endpoint_of}
use proxmaster.Api.Server.{serve}
use proxmaster.Api.Access.{is_admitted, IsTurnedAway, serve-IsTurnedAway}
use proxmaster.Api.Approval.{IsReauthenticated, calls-IsReauthenticated}
use proxmaster.Api.Trail.{IsTraced}
use proxmaster.Api.Served.{serve-IsTraced}
use proxmaster.Examples.{clock, store, gate}
use proxmaster.Examples.Tools.{services, runtime}

abbrev admin_token : String
admin_token = "dev-admin-token"

abbrev move : Request
move = record {
  method = "POST";
  path = "/mcp/call";
  authorization = "Bearer dev-admin-token";
  idempotency_key = "move-1";
  body = value (
      map_value (
        ("tool", str "vm.migrate")
        ∷ ("params", map_value (("vm_id", str "100") ∷ ("target_node", str "node-2") ∷ []))
        ∷ ("reauth_token", str "reauth-ok")
        ∷ []));
}

abbrev foreign : Request
foreign = record move { authorization = "Bearer guess" }

foreign_refused : is_admitted admin_token foreign ≡ false
unfolding equal_fold trim_space
foreign_refused = refl

serve-IsTurnedAway_example :
    let (a, s', r') = serve services gate admin_token clock foreign store runtime in
    (s' ≡ store) × (r' ≡ runtime) × IsTurnedAway (endpoint_of foreign.path) foreign a
serve-IsTurnedAway_example =
    serve-IsTurnedAway services gate admin_token clock foreign store runtime foreign_refused

calls-IsReauthenticated_example :
    IsReauthenticated move (put_spec "cluster" "default" move)
    × IsReauthenticated move (blueprint_call "blueprint.plan" move)
    × IsReauthenticated move (mode_call 5 move)
    × IsReauthenticated move (actor_call "blueprint.plan" 5 move)
    × IsReauthenticated move (breakglass_enable_call 5 move)
    × IsReauthenticated move wireguard_status_call
    × IsReauthenticated move (wireguard_plan_call 5 move)
    × IsReauthenticated move (wireguard_apply_call 5 move)
    × IsReauthenticated move (mcp_approve move)
    × IsReauthenticated move (terminal_call 5 move)
calls-IsReauthenticated_example =
    calls-IsReauthenticated move "cluster" "default" "blueprint.plan" 5

serve-IsTraced_example :
    let (a, t, r') = serve services gate admin_token clock move store runtime in IsTraced store t
serve-IsTraced_example = serve-IsTraced services gate admin_token clock move store runtime
