-- ===== src/Connectivity.antt =====
-- backend/internal/connectivity/service.go: the report on the WireGuard interface. What the machine
-- answers to a command, its standard output or an error, is an argument. Reading 0 of the clock, in
-- nanoseconds, stamps the report and reading 1 is what handshakes are measured against.
use proxmaster.Prelude.{
  ℕ, ◌/◌, ◌-◌, zero, suc, leb, String, ◌==◌, Bool, true, false, not, ◌&&◌, ◌||◌, List, [], ◌∷◌,
  ◌++◌, if◌then◌else◌,
}
use proxmaster.Prelude.Int.{ℤ, pos, negsuc, ltb_ℤ, negated}
use proxmaster.Prelude.Lists.{length}
use proxmaster.Prelude.Text.{trim_space, to_upper, contains, split_lines, words, parse_int}
use proxmaster.Models.{Params, Value, str, int, bool, map_value}
use proxmaster.Models.Json.{array}
use proxmaster.Mcp.{Clock}
use proxmaster.Proxmoxapi.{Answer, got, failed}
use proxmaster.Orchestrator

pub record Commands (W : Type 0) : Type 0 where
  pub rfc3339 : ℕ → String
  pub look_path : String → W → Bool
  pub output : String → List String → W → Answer String × W

unfoldable pub new_service : String → String
new_service interface = if trim_space interface == "" then "wg0" else interface

-- What a line of the dump says of a peer.
pub record Peer : Type 0 where
  pub public_key : String
  pub endpoint : String
  pub allowed_ips : String
  pub latest_handshake : ℤ
  pub rx_bytes : ℤ
  pub tx_bytes : ℤ

-- The seconds since a handshake, -1 where there was none.
abbrev age_of : ℕ → ℤ → ℤ
age_of now (negsuc n) = negsuc 0
age_of now (pos zero) = negsuc 0
age_of now (pos (suc n)) = if leb (suc n) now then pos (now - suc n) else negated (suc n - now)

abbrev peer_value : ℕ → Peer → Value
peer_value now p = map_value (
    ("public_key", str p.public_key)
    ∷ ("endpoint", str p.endpoint)
    ∷ ("allowed_ips", str p.allowed_ips)
    ∷ ("latest_handshake_age_sec", int (age_of now p.latest_handshake))
    ∷ ("rx_bytes", int p.rx_bytes)
    ∷ ("tx_bytes", int p.tx_bytes)
    ∷ [])

-- A line of eight fields or more is a peer.
unfoldable pub peer_of : List String → List Peer
peer_of (key ∷ psk ∷ endpoint ∷ ips ∷ other ∷ handshake ∷ rx ∷ tx ∷ more) =
    record {
      public_key = key;
      endpoint = endpoint;
      allowed_ips = ips;
      latest_handshake = parse_int handshake;
      rx_bytes = parse_int rx;
      tx_bytes = parse_int tx;
    }
    ∷ []
peer_of _ = []

peers_in : List String → List Peer
peers_in [] = []
peers_in (line ∷ lines) = peer_of (words line) ++ peers_in lines

-- The first line is the interface's own.
unfoldable pub peers_of : List String → List Peer
unfolding peers_in
peers_of [] = []
peers_of (own ∷ lines) = peers_in lines

abbrev is_recent : ℕ → Peer → Bool
is_recent now p =
    ltb_ℤ (pos 0) p.latest_handshake && ltb_ℤ (age_of now p.latest_handshake) (pos 180)

unfoldable pub any_recent : ℕ → List Peer → Bool
any_recent now [] = false
any_recent now (p ∷ ps) = is_recent now p || any_recent now ps

abbrev no_peers : Params
no_peers = ("peers", array (peer_value 0) []) ∷ ("peer_count", int (pos 0)) ∷ []

module _ {W : Type 0} (commands : Commands W) where
  open commands use {rfc3339, look_path, output}

  abbrev state_text : Answer String → String
  state_text (failed e) = ""
  state_text (got raw) = trim_space raw

  abbrev trimmed : Answer String × W → String × W
  trimmed (a, w) = (state_text a, w)

  unfoldable pub interface_state : String → W → String × W
  interface_state interface w =
      trimmed (output "ip" ("-brief" ∷ "addr" ∷ "show" ∷ interface ∷ []) w)

  abbrev unavailable : Params → String × W → Params × W
  unavailable head (state, w) = (
    head
        ++ ("wireguard_available", bool false)
          ∷ ("reason", str "wg binary not found")
          ∷ (if state == ""
              then ("tunnel_up", bool false) ∷ no_peers
              else ("interface_state", str state)
                ∷ ("tunnel_up", bool (contains (to_upper state) "UP"))
                ∷ no_peers),
    w,
  )

  abbrev listed : ℕ → Params → List Peer → String × W → Params × W
  listed now head peers (state, w) = (
    head
        ++ ("wireguard_available", bool true)
          ∷ ("tunnel_up", bool (any_recent now peers))
          ∷ ("interface_state", str state)
          ∷ ("peers", array (peer_value now) peers)
          ∷ ("peer_count", int (pos (length peers)))
          ∷ [],
    w,
  )

  abbrev dumped : ℕ → Params → String → Answer String × W → Params × W
  dumped now head interface (failed e, w) = (
    head
        ++ ("wireguard_available", bool true)
          ∷ ("tunnel_up", bool false)
          ∷ ("reason", str "wg interface unavailable or no permission")
          ∷ ("error", str e)
          ∷ no_peers,
    w,
  )
  dumped now head interface (got raw, w) =
      listed now head (peers_of (split_lines (trim_space raw))) (interface_state interface w)

  unfoldable pub status : String → Clock → W → Params × W
  status interface clock w =
      let head =
        ("wireguard_interface", str interface) ∷ ("checked_at_utc", str (rfc3339 (clock 0))) ∷ [] in
      if not (look_path "wg" w)
      then unavailable head (interface_state interface w)
      else dumped (clock 1 / 1000000000) head interface
          (output "wg" ("show" ∷ interface ∷ "dump" ∷ []) w)

  -- The service as the orchestrator and the HTTP API have it.
  unfoldable pub connectivity : String → Orchestrator.Connectivity W
  connectivity interface = record { status = status interface }
