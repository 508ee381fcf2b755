-- ===== src/Vpn/Laws.antt =====
-- What an application of WireGuard does (backend/internal/vpn/wireguard.go).
use proxmaster.Prelude.{
  ◌<>◌, not, ap, ◌⊎◌, ℕ, String, ◌==◌, ◌≡◌, refl, sym, true, false, Option, none, some, [], ◌∷◌,
  Bool-cases, inl, inr, if◌then◌else◌, eq_iff,
}
use proxmaster.Prelude.Text.{trim_space}
use proxmaster.Models.{Params, Value, null, obj, arr, bool, int, float64, time, str, get, as_map}
use proxmaster.Mcp.{Result, ok, err, or_empty}
use proxmaster.Prelude.Dict.{lookup}
use proxmaster.Proxmoxapi.{Answer, got, failed}
use proxmaster.Vpn.{
  client_key, Config, string_from, server_config, listen_port, server_address, peer_allowed_ips,
  plan,
}
use proxmaster.Vpn.Setup.{
  Machine, run_command, ensure_tools, ensure_keys, apply, applied, after, bring_up, with_result,
}

set_or_default :
    (v : Option Value) (fallback : String)
    → (string_from v fallback ≡ fallback) ⊎ ((string_from v fallback == "") ≡ false)
unfolding string_from trim_space
set_or_default none fallback = inl refl
set_or_default (some null) fallback = inl refl
set_or_default (some (obj m)) fallback = inl refl
set_or_default (some (arr xs)) fallback = inl refl
set_or_default (some (bool b)) fallback = inl refl
set_or_default (some (int n)) fallback = inl refl
set_or_default (some (float64 n)) fallback = inl refl
set_or_default (some (time t)) fallback = inl refl
set_or_default (some (str s)) fallback = elim (Bool-cases (trim_space s == "")) [
  | inl blank ↦ inl (rw (blank, string_from, not) refl)
  | inr set ↦ elim (Bool-cases (s == "")) [
    | inl empty ↦
        let same = (eq_iff s "").0 empty in
        let blank : (trim_space s == "") ≡ true = rw same refl in cc
    | inr filled ↦ inr (rw (set, string_from, not) filled)
  ]
]

-- The second default of a plan is the first one.
string_from-default :
    (v : Option Value) (fallback : String)
    → (if string_from v fallback == "" then fallback else string_from v fallback)
      ≡ string_from v fallback
string_from-default v fallback = elim (set_or_default v fallback) [
  | inl same ↦ elim (Bool-cases (string_from v fallback == "")) [
    | inl empty ↦ rw empty (sym same)
    | inr filled ↦ rw filled refl
  ]
  | inr set ↦ rw set refl
]

abbrev pub planned : Result → Params
planned (ok p) = or_empty (as_map (get "plan" p))
planned (err e) = []

-- A report has the settings of a plan.
abbrev pub HasSettings : Params → Answer Params → Type 0
HasSettings p (failed e) = Unit
HasSettings p (got report) =
    (get "interface" report ≡ get "interface" p)
    × (get "config_path" report ≡ get "server_config_path" p)
    × (get "server_address" report ≡ get "server_address" p)
    × (get "peer_allowed_ips" report ≡ get "peer_allowed_ips" p)

module _ {W : Type 0} (machine : Machine W) where
  after-holds :
      {A : Type 0} (P : Answer A → Type 0)
      → ((e : String) → P (failed e))
      → (o : Option String × W) (f : W → Answer A × W) → ((w : W) → P (f w).0)
      → P (after machine o f).0
  after-holds P fails (some e, w) f h = fails e
  after-holds P fails (none, w) f h = h w

  result-holds :
      {A B : Type 0} (P : Answer B → Type 0)
      → ((e : String) → P (failed e))
      → (o : Answer A × W) (f : A → W → Answer B × W) → ((a : A) (w : W) → P (f a w).0)
      → P (with_result machine o f).0
  result-holds P fails (failed e, w) f h = fails e
  result-holds P fails (got a, w) f h = h a w

  applied-HasSettings :
      (now : ℕ) (cfg : Config) (params : Params) (key : String)
      → HasSettings (planned (plan cfg params)) (got (applied machine now cfg params key))
  unfolding plan lookup
  applied-HasSettings now cfg params key = (
    refl,
    refl,
    refl,
    ap (λ s. some (str s))
        (sym (string_from-default (get "peer_allowed_ips" params) cfg.default_peer_ips)),
  )

  bring_up-HasSettings :
      (now : ℕ) (cfg : Config) (params : Params) (key : String) (keys : String × String) (w : W)
      → HasSettings (planned (plan cfg params)) (bring_up machine now cfg params key keys w).0
  bring_up-HasSettings now cfg params key (private_key, public_key) w =
      let P = HasSettings (planned (plan cfg params)) in
      let conf =
        server_config (server_address cfg params) (listen_port cfg params) private_key key
          (peer_allowed_ips cfg params) in
      let unit = "wg-quick@" <> cfg.interface in
      after-holds P (λ e. tt) (machine.make_dirs (machine.dir cfg.config_path) w) _
        λ w₁.
          after-holds P (λ e. tt) (machine.write_file cfg.config_path conf w₁) _
            λ w₂.
              after-holds P (λ e. tt) (run_command machine "systemctl" ("enable" ∷ unit ∷ []) w₂) _
                λ w₃.
                  after-holds P (λ e. tt)
                    (run_command machine "systemctl" ("restart" ∷ unit ∷ []) w₃) _
                    λ w₄. applied-HasSettings now cfg params public_key

  -- An application that succeeds reports the interface, the path of the configuration, the server's
  -- address and the allowed addresses that the plan for the same parameters has; and without a
  -- client's key the application fails with the machine left as it is.
  pub apply-HasSettings :
      (now : ℕ) (cfg : Config) (params : Params) (w : W)
      → let (a, w') = apply machine now cfg params w in
        HasSettings (planned (plan cfg params)) a
        × (((client_key params == "") ≡ false)
            ⊎ ((a ≡ failed "missing client_public_key") × (w' ≡ w)))
  unfolding apply
  apply-HasSettings now cfg params w =
      let P = HasSettings (planned (plan cfg params)) in
      elim (Bool-cases (client_key params == "")) [
        | inl missing ↦ rw (missing, apply) (tt, inr (refl, refl))
        | inr given ↦ (
          rw (given, apply)
              (after-holds P (λ e. tt) (ensure_tools machine w) _
                λ w₁.
                  result-holds P (λ e. tt) (ensure_keys machine cfg w₁) _
                    λ keys w₂. bring_up-HasSettings now cfg params (client_key params) keys w₂),
          inl given,
        )
      ]
