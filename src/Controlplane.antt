-- ===== src/Controlplane.antt =====
-- backend/internal/controlplane/manager.go: where clients find the control plane, and the node that
-- it runs on. Each method holds the manager's lock throughout.
pub mod Switching
use proxmaster.Prelude.{
  ℕ, String, ◌<>◌, ◌==◌, Bool, true, false, not, ◌||◌, List, [], ◌∷◌, if◌then◌else◌,
}
use proxmaster.Prelude.Int.{ℤ, pos, eqb_ℤ}
use proxmaster.Prelude.Text.{default_text, has_prefix}
use proxmaster.Models.Sprint.{show_int}

-- A mode is a text: "vip", "dns", or any other.
pub record Config : Type 0 where
  pub mode : String
  pub vip : String
  pub dns_name : String
  pub api_port : ℤ
  pub initial_node : String

pub record SwitchResult : Type 0 where
  pub mode : String
  pub endpoint : String
  pub from_node : String
  pub to_node : String
  pub switched : Bool
  pub reconnect_seconds : ℤ
  pub dns_propagation_hint : String
  pub completed_at : ℕ

pub record Manager : Type 0 where
  pub cfg : Config
  pub current_node : String

unfoldable pub new_manager : Config → Manager
new_manager cfg = record {
  cfg = record cfg {
    mode = default_text "vip" cfg.mode;
    api_port = if eqb_ℤ cfg.api_port (pos 0) then pos 8080 else cfg.api_port;
    vip = default_text "127.0.0.1" cfg.vip;
    dns_name = default_text "proxmaster.internal" cfg.dns_name;
  };
  current_node = cfg.initial_node;
}

abbrev pub host : Config → String
host cfg = if cfg.mode == "dns" then cfg.dns_name else cfg.vip

unfoldable pub endpoint : Manager → String
endpoint m =
    let h = host m.cfg in
    if has_prefix h "http://" || has_prefix h "https://"
    then h
    else "http://" <> h <> ":" <> show_int m.cfg.api_port

unfoldable pub switch_to : ℕ → String → Manager → SwitchResult × Manager
switch_to now node m =
    let m' = record m { current_node = node } in
    (
      record {
        mode = m.cfg.mode;
        endpoint = endpoint m';
        from_node = m.current_node;
        to_node = node;
        switched = not (m.current_node == node);
        reconnect_seconds = pos 20;
        dns_propagation_hint =
            if m.cfg.mode == "dns"
            then "ensure low TTL (<=30s) for near-seamless client reconnect"
            else "";
        completed_at = now;
      },
      m',
    )
