-- ===== src/Runner/Authentic.antt =====
-- Which requests reach a node's commands (backend/cmd/runner-agent/main.go).
use proxmaster.Prelude.{
  ℕ, String, ◌==◌, eq_iff, ◌≡◌, refl, sym, ◌≢◌, ◌⊎◌, inl, inr, true, false, Option, none, some,
  Bool-cases,
}
use proxmaster.Prelude.Text.{trim_prefix}
use proxmaster.Models.{Params}
use proxmaster.Runner.{ExecRequest, Mac, payload}
use proxmaster.Runner.Agent.{
  Machine, HttpRequest, Response, Agent, verify_signature, run_request, check_request, serve_exec,
}

-- A request that the agent knows to come from the holder of its secret.
pub record IsSigned (mac : Mac) (agent : Agent) (r : HttpRequest) (req : ExecRequest) : Type 0 where
  pub posted : r.method ≡ "POST"
  pub read : agent.read_body r.body ≡ some req
  pub for_node : req.node_id ≡ agent.node_id
  pub has_secret : agent.shared_secret ≢ ""
  pub has_header : r.signature ≢ ""
  pub matches : trim_prefix r.signature "sha256=" ≡ mac agent.shared_secret (payload req)

-- The status codes of a rejected request.
abbrev pub IsRejection : ℕ → Type 0
IsRejection status = (status ≡ 400) ⊎ ((status ≡ 403) ⊎ (status ≡ 405))

verify-true :
    (mac : Mac) (header secret : String) (req : ExecRequest)
    → verify_signature mac header secret req ≡ true
    → (secret ≢ "") × (header ≢ "") × (trim_prefix header "sha256=" ≡ mac secret (payload req))
unfolding verify_signature
verify-true mac header secret req h = elim (Bool-cases (secret == "")) [
  | inl empty ↦ let clash : false ≡ true = rw (empty, verify_signature) at h in cc
  | inr named ↦ elim (Bool-cases (header == "")) [
    | inl empty ↦ let clash : false ≡ true = rw (named, empty, verify_signature) at h in cc
    | inr given ↦ (
      (λ e. let same = (eq_iff secret "").1 e in cc),
      (λ e. let same = (eq_iff header "").1 e in cc),
      sym ((eq_iff _ _).0 (rw (named, given, verify_signature) at h)),
    )
  ]
]

module _ {M : Type 0} (mac : Mac) (machine : Machine M) (agent : Agent) where
  abbrev pub IsGuarded : ℕ → HttpRequest → M → Response × M → Type 0
  IsGuarded now r m (resp, m') =
      (IsRejection resp.status × (m' ≡ m))
      ⊎ ((req : ExecRequest) × IsSigned mac agent r req
          × ((resp, m') ≡ run_request mac machine agent now req m))

  check-IsGuarded :
      (now : ℕ) (r : HttpRequest) (m : M) (body : Option ExecRequest)
      → r.method ≡ "POST"
      → agent.read_body r.body ≡ body
      → IsGuarded now r m (check_request mac machine agent now r.signature body m)
  check-IsGuarded now r m none posted read = inl (inl refl, refl)
  check-IsGuarded now r m (some req) posted read =
      elim (Bool-cases (req.node_id == agent.node_id)) [
        | inr other ↦ rw other (inl (inr (inl refl), refl))
        | inl same ↦ elim (Bool-cases (verify_signature mac r.signature agent.shared_secret req)) [
          | inr forged ↦ rw (same, forged) (inl (inr (inl refl), refl))
          | inl signed ↦
              let parts = verify-true mac r.signature agent.shared_secret req signed in
              rw (same, signed)
                (inr (
                  req,
                  record {
                    posted = posted;
                    read = read;
                    for_node = (eq_iff _ _).0 same;
                    has_secret = parts.0;
                    has_header = parts.1;
                    matches = parts.2;
                  },
                  refl,
                ))
        ]
      ]

  signed-verify :
      (r : HttpRequest) (req : ExecRequest)
      → IsSigned mac agent r req
      → verify_signature mac r.signature agent.shared_secret req ≡ true
  unfolding verify_signature
  signed-verify r req signed = elim (Bool-cases (agent.shared_secret == "")) [
    | inl empty ↦ absurd (signed.has_secret ((eq_iff _ _).0 empty))
    | inr named ↦ elim (Bool-cases (r.signature == "")) [
      | inl empty ↦ absurd (signed.has_header ((eq_iff _ _).0 empty))
      | inr given ↦ rw (named, given, verify_signature) ((eq_iff _ _).1 (sym signed.matches))
    ]
  ]

  -- The signature covers neither the arguments of a command nor the time of its arrival: where a
  -- request is signed, a request with the same header whose body differs in the arguments only is
  -- served as well, at any time, and runs the command on the other arguments.
  pub serve_exec-args_unsigned :
      (r : HttpRequest) (req : ExecRequest) (body : String) (args : Params) (now : ℕ) (m : M)
      → IsSigned mac agent r req
      → agent.read_body body ≡ some (record req { args = args })
      → serve_exec mac machine agent now (record r { body = body }) m
        ≡ run_request mac machine agent now (record req { args = args }) m
  unfolding serve_exec verify_signature
  serve_exec-args_unsigned r req body args now m signed read =
      rw ((eq_iff _ _).1 signed.posted, serve_exec)
        (rw (read, serve_exec)
          (rw ((eq_iff _ _).1 signed.for_node, signed-verify r req signed) refl))

  -- Every request to run a command is rejected with the node as it was, or it is a POST for this
  -- node whose signature is the HMAC of its fields under the agent's secret, which is not empty;
  -- then the answer and the node are what the command makes of them.
  pub serve_exec-IsGuarded :
      (now : ℕ) (r : HttpRequest) (m : M) → IsGuarded now r m (serve_exec mac machine agent now r m)
  unfolding serve_exec
  serve_exec-IsGuarded now r m = elim (Bool-cases (r.method == "POST")) [
    | inr other ↦ rw (other, serve_exec) (inl (inr (inr refl), refl))
    | inl posted ↦
        rw (posted, serve_exec)
          (check-IsGuarded now r m (agent.read_body r.body) ((eq_iff _ _).0 posted) refl)
  ]
