-- ===== src/Runner/Protocol.antt =====
-- The controller and the agent together (backend/internal/runner/controller.go,
-- backend/cmd/runner-agent/main.go).
use text.Mathlib.TextLemmas.{cons≢nil, cons-append}
use proxmaster.Prelude.{
  ℕ, String, ◌<>◌, ◌==◌, eq_iff, eq_refl, ◌≡◌, refl, sym, ap, ◌∙◌, Bool, true, false, some, List,
  [], ◌∷◌, Bool-cases, inl, inr,
}
use proxmaster.Prelude.Text.{trim_prefix-append}
use proxmaster.Prelude.Dict.{Dict}
use proxmaster.Models.{Params}
use proxmaster.Runner.{
  ExecRequest, Controller, Mac, Network, Decoded, answered, payload, sign, post_for, request_for,
  allowed, command_name, execute,
}
use proxmaster.Runner.Agent.{
  Machine, Agent, Body, verify_signature, execute_allowlisted, serve_exec,
}

header_given : (t : String) → (("sha256=" <> t) == "") ≡ false
header_given t = elim (Bool-cases (("sha256=" <> t) == "")) [
  | inl empty ↦ absurd (cons≢nil (sym (cons-append _ "ha256=" t) ∙ (eq_iff _ _).0 empty))
  | inr given ↦ given
]

-- What the controller signs is what the agent checks, if both have the same secret.
verify-sign :
    (mac : Mac) (c : Controller) (secret : String) (req : ExecRequest)
    → secret ≡ c.shared_secret
    → (secret == "") ≡ false
    → verify_signature mac ("sha256=" <> sign mac c req) secret req ≡ true
unfolding verify_signature sign
verify-sign mac c secret req same named =
    rw (named, header_given (mac c.shared_secret (payload req)), verify_signature)
      ((eq_iff _ _).1 (
        ap (λ s. mac s (payload req)) same
        ∙ sym (trim_prefix-append "sha256=" (mac c.shared_secret (payload req)))))

module _ {M : Type 0} (mac : Mac) (machine : Machine M) (agent : Agent)
    (encode : ExecRequest → String) (decode : String → Decoded) (write_body : Body → String) where
  -- A network that brings each request to the agent, and the agent's answer back, at a time.
  abbrev pub to_agent : ℕ → Network M
  to_agent now = record {
    encode = encode;
    decode = decode;
    post = λ p m.
        let (resp, m') =
          serve_exec mac machine agent now
            (record { method = "POST"; signature = p.signature; body = p.body }) m in
        (answered resp.status (write_body resp.body), m');
  }

  -- Where the agent reads the request as the controller wrote it, and both have the same secret, not
  -- empty: a command that the controller allows, for the agent's node, does to the node what the
  -- agent's command of that name does, on the arguments given.
  pub execute-served :
      (c : Controller) (now later nanos : ℕ) (issued_at command : String) (args : Params) (m : M)
      → (let req = request_for agent.node_id (command_name command) args issued_at nanos in
          agent.read_body (encode req) ≡ some req)
      → agent.shared_secret ≡ c.shared_secret
      → (agent.shared_secret == "") ≡ false
      → allowed c (command_name command) ≡ true
      → (execute mac (to_agent now) c issued_at nanos later agent.node_id command args m).1
        ≡ (execute_allowlisted machine (command_name command) args m).1
  unfolding execute serve_exec post_for execute_allowlisted
  execute-served c now later nanos issued_at command args m reads same named known =
      let req = request_for agent.node_id (command_name command) args issued_at nanos in
      rw (known, execute)
        (rw (reads, execute)
          (rw (eq_refl agent.node_id, verify-sign mac c agent.shared_secret req same named) refl))

-- The names that both sides know.
abbrev pub known_names : List String
known_names =
    "apt_update" ∷ "apt_upgrade" ∷ "node_reboot" ∷ "diagnostics_ping" ∷ "service_restart"
    ∷ "wireguard_install" ∷ "wireguard_status" ∷ "shell_script" ∷ []

abbrev flags : List String → Dict Bool
flags [] = []
flags (s ∷ l) = (s, true) ∷ flags l
