-- ===== src/Vpn.antt =====
-- backend/internal/vpn/wireguard.go: the settings of a WireGuard tunnel and its plan. Vpn/Setup has
-- what is done on a machine. What the machine has and does (of type `W`) is an argument, with the
-- names that its paths are joined to; an error is its text.
pub mod Setup
pub mod Laws
use proxmaster.Prelude.{
  ℕ, suc, eqb, ◌-◌, String, ◌<>◌, ◌==◌, Bool, true, false, not, ◌&&◌, ◌||◌, Option, none, some,
  List, [], ◌∷◌, ◌++◌, if◌then◌else◌,
}
use Prim.Native.Char.{Char, code}
use proxmaster.Prelude.Int.{ℤ, pos, leb_ℤ}
use proxmaster.Prelude.Lists.{length}
use proxmaster.Prelude.Text.{trim_space, split_lines}
use proxmaster.Models.{Params, Value, str, int, bool, float64, get, map_value}
use proxmaster.Models.Json.{texts}
use proxmaster.Models.Sprint.{show_int}
use proxmaster.Mcp.{Result, ok, err}
use proxmaster.Orchestrator.{WireGuard}
use proxmaster.Gitops.{Output}
use proxmaster.Proxmoxapi.{Answer, got, failed}

pub record Config : Type 0 where
  pub interface : String
  pub config_path : String
  pub keys_dir : String
  pub default_port : ℤ
  pub default_subnet : String
  pub default_srv_ip : String
  pub default_peer_ips : String

abbrev or_text : String → String → String
or_text fallback s = if trim_space s == "" then fallback else s

unfoldable pub new_service : Config → Config
new_service cfg =
    let interface = or_text "wg0" cfg.interface in
    record {
      interface = interface;
      config_path = or_text ("/etc/wireguard/" <> interface <> ".conf") cfg.config_path;
      keys_dir = or_text "/etc/proxmaster/wireguard" cfg.keys_dir;
      default_port = if leb_ℤ cfg.default_port (pos 0) then pos 51820 else cfg.default_port;
      default_subnet = or_text "10.13.13.0/24" cfg.default_subnet;
      default_srv_ip = or_text "10.13.13.2/24" cfg.default_srv_ip;
      default_peer_ips = or_text "10.13.13.1/32" cfg.default_peer_ips;
    }

unfoldable pub int_from : Option Value → ℤ → ℤ
int_from (some (float64 n)) fallback = n
int_from (some (int n)) fallback = n
int_from _ fallback = fallback

unfoldable pub string_from : Option Value → String → String
string_from (some (str s)) fallback = if not (trim_space s == "") then s else fallback
string_from _ fallback = fallback

-- A quote ends the quoted text, stands escaped, and begins it again.
escape_char : Char → String → String
escape_char c s = if eqb (code c) 39 then "'\\''" <> s else String.◌∷◌ c s

quoted : String → String
quoted String.[] = ""
quoted (String.◌∷◌ c s) = escape_char c (quoted s)

unfoldable pub shell_escape : String → String
unfolding quoted escape_char
shell_escape s = "'" <> quoted s <> "'"

-- The address, the allowed addresses and the port that a call sets, or the defaults.
abbrev pub server_address : Config → Params → String
server_address cfg params = string_from (get "server_address" params) cfg.default_srv_ip

abbrev pub peer_allowed_ips : Config → Params → String
peer_allowed_ips cfg params = string_from (get "peer_allowed_ips" params) cfg.default_peer_ips

abbrev pub listen_port : Config → Params → ℤ
listen_port cfg params = int_from (get "listen_port" params) cfg.default_port

abbrev pub client_key : Params → String
client_key params = trim_space (string_from (get "client_public_key" params) "")

abbrev pub client_config : String → String → String → String → String
client_config address public_key endpoint allowed =
    "[Interface]\nAddress = " <> address
    <> "\nPrivateKey = <CLIENT_PRIVATE_KEY>\n\n[Peer]\nPublicKey = " <> public_key
    <> "\nEndpoint = " <> endpoint <> "\nAllowedIPs = " <> allowed <> "\nPersistentKeepalive = 25\n"

unfoldable pub plan : Config → Params → Result
plan cfg params =
    let server = server_address cfg params in
    let given = peer_allowed_ips cfg params in
    let peers = if given == "" then cfg.default_peer_ips else given in
    let endpoint = string_from (get "server_endpoint" params) "<public-ip-or-dns>:51820" in
    ok (
      ("changed", bool false)
      ∷ (
        "plan",
        map_value (
            ("interface", str cfg.interface)
            ∷ ("server_config_path", str cfg.config_path)
            ∷ ("keys_dir", str cfg.keys_dir)
            ∷ ("listen_port", int (listen_port cfg params))
            ∷ ("server_address", str server)
            ∷ ("peer_allowed_ips", str peers)
            ∷ ("required_client_input", texts ("client_public_key" ∷ "server_endpoint" ∷ []))
            ∷ (
              "commands",
              texts (
                  "apt-get update && apt-get install -y wireguard wireguard-tools"
                  ∷ ("systemctl enable wg-quick@" <> cfg.interface)
                  ∷ ("systemctl restart wg-quick@" <> cfg.interface)
                  ∷ "wg show"
                  ∷ []),
            )
            ∷ (
              "client_config_example",
              str (client_config peers "<SERVER_PUBLIC_KEY_AFTER_APPLY>" endpoint server),
            )
            ∷ []),
      )
      ∷ [])

abbrev pub server_config : String → ℤ → String → String → String → String
server_config address port private_key client_key allowed =
    "[Interface]\nAddress = "
    <> address
    <> "\nListenPort = "
    <> show_int port
    <> "\nPrivateKey = "
    <> private_key
    <> "\n\n[Peer]\nPublicKey = "
    <> client_key
    <> "\nAllowedIPs = "
    <> allowed
    <> "\nPersistentKeepalive = 25\n"
