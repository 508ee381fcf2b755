-- ===== src/Api/Approval.antt =====
-- Which handlers approve a call (backend/internal/api/server.go).
use proxmaster.Prelude.{
  ℕ, String, ◌==◌, eq_iff, ◌≡◌, refl, ◌∙◌, ap, ◌⊎◌, inl, inr, Bool, false, Option, none, some,
  Bool-cases,
}
use proxmaster.Models.{Params, McpCallRequest}
use proxmaster.Prelude.Text.{trim_space}
use proxmaster.Api.Requests.{
  Request, struct_of, struct_or_empty, text, number, flag, fields_at, map_of, ◌>>=◌,
}
use proxmaster.Api.Calls.{
  Wanted, refused, call, or_invalid, reauthenticated, put_spec, blueprint_call, mode_call,
  actor_call, breakglass_enable_call, wireguard_status_call, wireguard_plan_call,
  wireguard_apply_call,
}
use proxmaster.Api.Calls.Direct.{
  if_reauthenticated, with_script, call_of, mcp_approve, terminal_call,
}

-- The re-authentication token in the body of a request.
abbrev pub token_given : Request → Option String
token_given req = do m ← struct_of req.body; text "reauth_token" m

-- A call is not approved, or the request gave the token that stands for a fresh authentication.
abbrev pub IsReauthenticated : Request → Wanted → Type 0
IsReauthenticated req (refused e) = Unit
IsReauthenticated req (call c) = (c.approve_now ≡ false) ⊎ (token_given req ≡ some "reauth-ok")

-- What holds of a value that may be missing.
abbrev Holds : {A : Type 0} → (A → Type 0) → Option A → Type 0
Holds P none = Unit
Holds P (some a) = P a

after :
    {A B : Type 0} (P : B → Type 0) (o : Option A) (f : A → Option B)
    → ((a : A) → o ≡ some a → Holds P (f a))
    → Holds P (o >>= f)
after P none f h = tt
after P (some a) f h = h a refl

module _ (req : Request) where
  abbrev Approves : Bool → Type 0
  Approves b = (b ≡ false) ⊎ (token_given req ≡ some "reauth-ok")

  or_invalid-lem :
      (o : Option McpCallRequest)
      → Holds (λ c. Approves c.approve_now) o
      → IsReauthenticated req (or_invalid o)
  or_invalid-lem none h = tt
  or_invalid-lem (some c) h = h

  -- What a handler approves by the token that it reads.
  by_token :
      (m : Params) (token : String)
      → struct_of req.body ≡ some m
      → text "reauth_token" m ≡ some token
      → Approves (reauthenticated token)
  by_token m token body found = elim (Bool-cases (token == "reauth-ok")) [
    | inl same ↦ inr (rw (body, ◌>>=◌) (found ∙ ap some ((eq_iff token "reauth-ok").0 same)))
    | inr other ↦ inl other
  ]

  mode_call-IsReauthenticated : (now : ℕ) → IsReauthenticated req (mode_call now req)
  unfolding mode_call
  mode_call-IsReauthenticated now = or_invalid-lem _ (
      after _ (struct_of req.body) _ λ m body. after _ (text "mode" m) _ λ mode e1.
        after _ (number "duration_minutes" m) _ λ minutes e2.
          after _ (text "reauth_token" m) _ λ token found.
            after _ (text "second_approver" m) _ λ second e5.
              after _ (flag "hardware_mfa" m) _ λ mfa e6.
                after _ (text "idempotency_key" m) _ λ key e7. by_token m token body found)

  breakglass_enable_call-IsReauthenticated :
      (now : ℕ) → IsReauthenticated req (breakglass_enable_call now req)
  unfolding breakglass_enable_call
  breakglass_enable_call-IsReauthenticated now = or_invalid-lem _ (
      after _ (struct_of req.body) _ λ m body. after _ (text "actor" m) _ λ actor e1.
        after _ (number "duration_minutes" m) _ λ minutes e2.
          after _ (text "reauth_token" m) _ λ token found.
            after _ (text "second_approver" m) _ λ second e5.
              after _ (flag "hardware_mfa" m) _ λ mfa e6.
                after _ (text "idempotency_key" m) _ λ key e7. by_token m token body found)

  wireguard_apply_call-IsReauthenticated :
      (now : ℕ) → IsReauthenticated req (wireguard_apply_call now req)
  unfolding wireguard_apply_call
  wireguard_apply_call-IsReauthenticated now = or_invalid-lem _ (
      after _ (struct_of req.body) _ λ m body. after _ (text "actor" m) _ λ actor e0.
        after _ (text "client_public_key" m) _ λ client_key e1.
          after _ (text "server_address" m) _ λ address e2.
            after _ (text "peer_allowed_ips" m) _ λ allowed e3.
              after _ (number "listen_port" m) _ λ port e4.
                after _ (text "server_endpoint" m) _ λ endpoint e8.
                  after _ (text "reauth_token" m) _ λ token found.
                    after _ (text "second_approver" m) _ λ second e5.
                      after _ (flag "hardware_mfa" m) _ λ mfa e6.
                        after _ (text "idempotency_key" m) _ λ key e7. by_token m token body found)

  wireguard_plan_call-IsReauthenticated :
      (now : ℕ) → IsReauthenticated req (wireguard_plan_call now req)
  unfolding wireguard_plan_call
  wireguard_plan_call-IsReauthenticated now = or_invalid-lem _ (
      after _ (struct_or_empty req.body) _ λ m body. after _ (text "actor" m) _ λ actor e0.
        after _ (text "server_address" m) _ λ address e2.
          after _ (text "peer_allowed_ips" m) _ λ allowed e3.
            after _ (number "listen_port" m) _ λ port e4.
              after _ (text "server_endpoint" m) _
                λ endpoint e8. after _ (text "idempotency_key" m) _ λ key e7. inl refl)

  actor_call-IsReauthenticated :
      (tool : String) (now : ℕ) → IsReauthenticated req (actor_call tool now req)
  unfolding actor_call
  actor_call-IsReauthenticated tool now = or_invalid-lem _ (
      after _ (struct_or_empty req.body) _ λ m body.
        after _ (text "actor" m) _
          λ actor e1. after _ (text "idempotency_key" m) _ λ key e2. inl refl)

  put_spec-IsReauthenticated : (scope key : String) → IsReauthenticated req (put_spec scope key req)
  unfolding put_spec
  put_spec-IsReauthenticated scope key =
      or_invalid-lem _ (after _ (map_of req.body) _ λ desired body. inl refl)

  blueprint_call-IsReauthenticated :
      (tool : String) → IsReauthenticated req (blueprint_call tool req)
  unfolding blueprint_call
  blueprint_call-IsReauthenticated tool =
      or_invalid-lem _ (after _ (map_of req.body) _ λ params body. inl refl)

  -- The token of a call is the one in its body.
  call_of-token :
      (m : Params) → Holds (λ c. text "reauth_token" m ≡ some c.reauth_token) (call_of m)
  unfolding call_of
  call_of-token m = after _ (text "tool" m) _ λ tool e1.
      after _ (fields_at "params" m) _ λ params e2. after _ (text "actor" m) _ λ actor e3.
        after _ (text "reauth_token" m) _ λ token found.
          after _ (text "second_approver" m) _ λ second e5.
            after _ (flag "hardware_mfa" m) _ λ mfa e6.
              after _ (text "idempotency_key" m) _
                λ key e7. after _ (fields_at "metadata" m) _ λ metadata e8. found

  if_reauthenticated-lem :
      (o : Option McpCallRequest)
      → Holds (λ c. token_given req ≡ some c.reauth_token) o
      → IsReauthenticated req (if_reauthenticated o)
  if_reauthenticated-lem none h = tt
  if_reauthenticated-lem (some c) h = elim (Bool-cases (c.reauth_token == "reauth-ok")) [
    | inl same ↦ rw (same, if_reauthenticated) (inr (h ∙ ap some ((eq_iff _ "reauth-ok").0 same)))
    | inr other ↦ rw (other, if_reauthenticated) tt
  ]

  mcp_approve-IsReauthenticated : IsReauthenticated req (mcp_approve req)
  unfolding mcp_approve
  mcp_approve-IsReauthenticated =
      if_reauthenticated-lem _
        (after _ (struct_of req.body) _ λ m body. rw (body, ◌>>=◌) (call_of-token m))

  with_script-lem :
      (o : Option (String × McpCallRequest))
      → Holds (λ asked. Approves asked.1.approve_now) o
      → IsReauthenticated req (with_script o)
  with_script-lem none h = tt
  with_script-lem (some (script, c)) h = elim (Bool-cases (trim_space script == "")) [
    | inl blank ↦ rw (blank, with_script) tt
    | inr filled ↦ rw (filled, with_script) h
  ]

  terminal_call-IsReauthenticated : (now : ℕ) → IsReauthenticated req (terminal_call now req)
  unfolding terminal_call
  terminal_call-IsReauthenticated now = with_script-lem _ (
      after _ (struct_of req.body) _ λ m body. after _ (text "node_id" m) _ λ node_id e1.
        after _ (text "script" m) _ λ script e2. after _ (text "actor" m) _ λ actor e3.
          after _ (text "reauth_token" m) _ λ token found.
            after _ (text "second_approver" m) _ λ second e5.
              after _ (flag "hardware_mfa" m) _ λ mfa e6.
                after _ (text "idempotency_key" m) _ λ key e7. by_token m token body found)

  -- The calls that the handlers for specs, blueprints, the policy mode, GitOps, break-glass access,
  -- WireGuard, approvals and the terminal make of a request are not approved, or the body of the
  -- request gave the re-authentication token.
  pub calls-IsReauthenticated :
      (scope key tool : String) (now : ℕ)
      → IsReauthenticated req (put_spec scope key req)
        × IsReauthenticated req (blueprint_call tool req)
        × IsReauthenticated req (mode_call now req)
        × IsReauthenticated req (actor_call tool now req)
        × IsReauthenticated req (breakglass_enable_call now req)
        × IsReauthenticated req wireguard_status_call
        × IsReauthenticated req (wireguard_plan_call now req)
        × IsReauthenticated req (wireguard_apply_call now req)
        × IsReauthenticated req (mcp_approve req)
        × IsReauthenticated req (terminal_call now req)
  unfolding wireguard_status_call
  calls-IsReauthenticated scope key tool now = (
    put_spec-IsReauthenticated scope key,
    blueprint_call-IsReauthenticated tool,
    mode_call-IsReauthenticated now,
    actor_call-IsReauthenticated tool now,
    breakglass_enable_call-IsReauthenticated now,
    inl refl,
    wireguard_plan_call-IsReauthenticated now,
    wireguard_apply_call-IsReauthenticated now,
    mcp_approve-IsReauthenticated,
    terminal_call-IsReauthenticated now,
  )
