-- ===== src/Vpn/Setup.antt =====
-- What a WireGuard service does on its machine (backend/internal/vpn/wireguard.go).
use proxmaster.Prelude.{
  ℕ, ◌-◌, String, ◌<>◌, ◌==◌, Bool, true, false, not, ◌||◌, Option, none, some, List, [], ◌∷◌, ◌++◌,
  if◌then◌else◌,
}
use proxmaster.Prelude.Int.{pos}
use proxmaster.Prelude.Lists.{length}
use proxmaster.Prelude.Text.{trim_space, split_lines}
use proxmaster.Models.{Params, str, int, bool, get}
use proxmaster.Mcp.{Result, ok, err}
use proxmaster.Orchestrator.{WireGuard}
use proxmaster.Gitops.{Output}
use proxmaster.Proxmoxapi.{Answer, got, failed}
use proxmaster.Vpn.{
  Config, string_from, shell_escape, server_address, peer_allowed_ips, listen_port, client_key,
  client_config, plan, server_config,
}

pub record Machine (W : Type 0) : Type 0 where
  pub join : String → String → String  -- filepath.Join
  pub dir : String → String  -- filepath.Dir
  pub rfc3339 : ℕ → String
  pub look_path : String → W → Bool
  pub exists : String → W → Bool
  pub read_file : String → W → Answer String
  pub make_dirs : String → W → Option String × W
  pub write_file : String → String → W → Option String × W
  pub exec : String → List String → W → Output × W

module _ {W : Type 0} (machine : Machine W) where
  open machine use {join, dir, rfc3339, look_path, exists, read_file, make_dirs, write_file, exec}

  -- What is done after a step without an error.
  abbrev pub after : {A : Type 0} → Option String × W → (W → Answer A × W) → Answer A × W
  after (some e, w) f = (failed e, w)
  after (none, w) f = f w

  abbrev after_error : Option String × W → (W → Option String × W) → Option String × W
  after_error (some e, w) f = (some e, w)
  after_error (none, w) f = f w

  abbrev pub with_result : {A B : Type 0} → Answer A × W → (A → W → Answer B × W) → Answer B × W
  with_result (failed e, w) f = (failed e, w)
  with_result (got a, w) f = f a w

  abbrev error_of : Output × W → Option String × W
  error_of (out, w) = (if out.failed then some (trim_space out.combined) else none, w)

  unfoldable pub run_command : String → List String → W → Option String × W
  run_command bin args w = error_of (exec bin args w)

  unfoldable pub ensure_tools : W → Option String × W
  ensure_tools w =
      if look_path "wg" w
      then (none, w)
      else after_error (run_command "apt-get" ("update" ∷ []) w)
          (λ w'. run_command "apt-get" ("install" ∷ "-y" ∷ "wireguard" ∷ "wireguard-tools" ∷ []) w')

  abbrev generate_keys : String → String → W → Option String × W
  generate_keys priv pub_path w =
      let (out, w') =
        exec "sh"
          ("-c"
            ∷ ("umask 077; wg genkey | tee "
                <> shell_escape priv
                <> " | wg pubkey > "
                <> shell_escape pub_path)
            ∷ [])
          w in
      (
        if out.failed then some ("failed to generate keys: " <> trim_space out.combined) else none,
        w',
      )

  abbrev missing_keys : String → String → W → Option String × W
  missing_keys priv pub_path w =
      if not (exists priv w) || not (exists pub_path w)
      then generate_keys priv pub_path w
      else (none, w)

  abbrev key_pair : Answer String → Answer String → Answer (String × String)
  key_pair (failed e) b = failed e
  key_pair (got a) (failed e) = failed e
  key_pair (got a) (got b) = got (trim_space a, trim_space b)

  unfoldable pub ensure_keys : Config → W → Answer (String × String) × W
  ensure_keys cfg w =
      let priv = join cfg.keys_dir "privatekey" in
      let pub_path = join cfg.keys_dir "publickey" in
      after (make_dirs cfg.keys_dir w) (λ w₁.
        after (missing_keys priv pub_path w₁)
          (λ w₂. (key_pair (read_file priv w₂) (read_file pub_path w₂), w₂)))

  abbrev pub applied : ℕ → Config → Params → String → Params
  applied now cfg params public_key =
      let server = server_address cfg params in
      let peers = peer_allowed_ips cfg params in
      let endpoint = string_from (get "server_endpoint" params) "" in
      ("changed", bool true)
      ∷ ("interface", str cfg.interface)
      ∷ ("config_path", str cfg.config_path)
      ∷ ("server_public_key", str public_key)
      ∷ ("server_address", str server)
      ∷ ("peer_allowed_ips", str peers)
      ∷ ("applied_at_utc", str (rfc3339 now))
      ∷ (
        "client_config_hint",
        str (
            if not (trim_space endpoint == "")
            then client_config peers public_key endpoint server
            else ""),
      )
      ∷ []

  -- The configuration is written and the tunnel restarted.
  abbrev pub bring_up : ℕ → Config → Params → String → String × String → W → Answer Params × W
  bring_up now cfg params client_key (private_key, public_key) w =
      let conf =
        server_config (server_address cfg params) (listen_port cfg params) private_key client_key
          (peer_allowed_ips cfg params) in
      after (make_dirs (dir cfg.config_path) w) (λ w₁.
        after (write_file cfg.config_path conf w₁) (λ w₂.
          after (run_command "systemctl" ("enable" ∷ ("wg-quick@" <> cfg.interface) ∷ []) w₂) (λ w₃.
            after (run_command "systemctl" ("restart" ∷ ("wg-quick@" <> cfg.interface) ∷ []) w₃)
              (λ w₄. (got (applied now cfg params public_key), w₄)))))

  unfoldable pub apply : ℕ → Config → Params → W → Answer Params × W
  apply now cfg params w =
      if client_key params == ""
      then (failed "missing client_public_key", w)
      else after (ensure_tools w) (λ w₁.
        with_result (ensure_keys cfg w₁)
          (λ keys w₂. bring_up now cfg params (client_key params) keys w₂))

  abbrev shown : Config → Params → Output × W → Params × W
  shown cfg seen (out, w) =
      let peers = length (split_lines (trim_space out.stdout)) in
      if out.failed
      then (seen ++ ("tunnel_up", bool false) ∷ ("reason", str "interface not active") ∷ [], w)
      else (seen ++ ("tunnel_up", bool true) ∷ ("peer_count", int (pos (peers - 1))) ∷ [], w)

  unfoldable pub status : ℕ → Config → W → Params × W
  status now cfg w =
      let seen =
        ("interface", str cfg.interface)
        ∷ ("config_path", str cfg.config_path)
        ∷ ("config_exists", bool (exists cfg.config_path w))
        ∷ ("checked_at_utc", str (rfc3339 now))
        ∷ ("wireguard_tools", bool (look_path "wg" w))
        ∷ [] in
      if not (look_path "wg" w)
      then (seen ++ ("reason", str "wg binary not found") ∷ [], w)
      else shown cfg seen (exec "wg" ("show" ∷ cfg.interface ∷ "dump" ∷ []) w)

  -- The service as the orchestrator has it.
  abbrev as_result : Answer Params → Result
  as_result (got report) = ok report
  as_result (failed e) = err e

  unfoldable pub wireguard : Config → WireGuard W
  wireguard cfg = record {
    status = λ now w. let (report, w') = status now cfg w in (ok report, w');
    plan = λ params w. (plan cfg params, w);
    apply = λ now params w. let (a, w') = apply now cfg params w in (as_result a, w');
  }
