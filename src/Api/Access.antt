-- ===== src/Api/Access.antt =====
-- Who is served (backend/internal/api/server.go).
use Prim.{Unit, tt}
use proxmaster.Prelude.{
  String, ◌==◌, ◌≡◌, refl, Bool, false, not, ◌&&◌, arith, Bool-cases, inl, inr, if◌then◌else◌,
}
use proxmaster.Prelude.Text.{equal_fold}
use proxmaster.Health.{GateEvaluator}
use proxmaster.Store.{MemoryStore}
use proxmaster.Mcp.{Clock}
use proxmaster.Orchestrator.{Services, Runtime}
use proxmaster.Api.Requests.{Request, Response, moved}
use proxmaster.Api.Routes.{Endpoint, open_to_all, guarded, redirected, endpoint_of}
use proxmaster.Api.Server.{bearer, missing_token, wrong_token, with_auth, serve_endpoint, serve}

-- The token of a request is there and is, up to case, the administrator's.
abbrev pub is_admitted : String → Request → Bool
is_admitted admin_token req = not (bearer req == "") && equal_fold (bearer req) admin_token

-- The answer of a guarded endpoint is a refusal, and that of a redirected one a redirect.
abbrev pub IsTurnedAway : Endpoint → Request → Response → Type 0
IsTurnedAway (open_to_all o) req a = Unit
IsTurnedAway (guarded g) req a = a ≡ (if bearer req == "" then missing_token else wrong_token)
IsTurnedAway redirected req a = a ≡ moved

module _ {W : Type 0} (services : Services W) (gate : GateEvaluator) (admin_token : String) where
  abbrev Unserved : Endpoint → Clock → Request → MemoryStore → Runtime W → Type 0
  Unserved e clock req s r =
      let (a, s', r') = serve_endpoint services gate admin_token e clock req s r in
      (s' ≡ s) × (r' ≡ r) × IsTurnedAway e req a

  endpoint-turned_away :
      (e : Endpoint) (clock : Clock) (req : Request) (s : MemoryStore) (r : Runtime W)
      → is_admitted admin_token req ≡ false
      → Unserved e clock req s r
  unfolding serve_endpoint with_auth
  endpoint-turned_away (open_to_all o) clock req s r refused = (refl, refl, tt)
  endpoint-turned_away redirected clock req s r refused = (refl, refl, refl)
  endpoint-turned_away (guarded g) clock req s r refused = elim (Bool-cases (bearer req == "")) [
    | inl blank ↦ ground arith
    | inr filled ↦ ground arith
  ]

  -- A request whose token is missing or is not the administrator's, up to case, leaves the store and
  -- the rest of the process as they are, whatever its path, method and body; at a guarded path the
  -- answer is the refusal that fits the token, and at a redirected one the redirect.
  pub serve-IsTurnedAway :
      (clock : Clock) (req : Request) (s : MemoryStore) (r : Runtime W)
      → is_admitted admin_token req ≡ false
      → let (a, s', r') = serve services gate admin_token clock req s r in
        (s' ≡ s) × (r' ≡ r) × IsTurnedAway (endpoint_of req.path) req a
  unfolding serve
  serve-IsTurnedAway clock req s r refused =
      endpoint-turned_away (endpoint_of req.path) clock req s r refused
