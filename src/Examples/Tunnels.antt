-- ===== src/Examples/Tunnels.antt =====
-- A WireGuard tunnel on a concrete machine, which counts what it is asked to do.
use proxmaster.Prelude.{ℕ, ◌+◌, ◌<>◌, ◌==◌, ◌≡◌, refl, ◌⊎◌, true, false, none, [], ◌∷◌}
use proxmaster.Prelude.Int.{pos}
use proxmaster.Models.{Params, str}
use proxmaster.Proxmoxapi.{got, failed}
use proxmaster.Connectivity.{any_recent, peers_of, peer_of}
use proxmaster.Prelude.Text.{words, parse_int}
use proxmaster.Vpn.{Config, new_service, plan, client_key}
use proxmaster.Vpn.Setup.{Machine, apply}
use proxmaster.Vpn.Laws.{HasSettings, planned, apply-HasSettings}

abbrev machine : Machine ℕ
machine = record {
  join = λ a b. a <> "/" <> b;
  dir = λ path. "/etc/wireguard";
  rfc3339 = λ n. "2023-11-14T22:13:20Z";
  look_path = λ name n. true;
  exists = λ path n. false;
  read_file = λ path n. got "key";
  make_dirs = λ path n. (none, n + 1);
  write_file = λ path text n. (none, n + 1);
  exec = λ name args n. (record { stdout = ""; combined = ""; failed = false }, n + 1);
}

abbrev config : Config
config = new_service (record {
  interface = "";
  config_path = "";
  keys_dir = "";
  default_port = pos 0;
  default_subnet = "";
  default_srv_ip = "";
  default_peer_ips = "";
})

abbrev params : Params
params = ("client_public_key", str "abc=") ∷ ("server_address", str "10.0.0.1/24") ∷ []

apply-HasSettings_example :
    let (a, w') = apply machine 5 config params 0 in
    HasSettings (planned (plan config params)) a
    × (((client_key params == "") ≡ false) ⊎ ((a ≡ failed "missing client_public_key") × (w' ≡ 0)))
apply-HasSettings_example = apply-HasSettings machine 5 config params 0

one_peer :
    any_recent 1000 (peers_of ("own" ∷ "key psk host:1  10.0.0.2/32 x 900 12 -7 off" ∷ [])) ≡ true
unfolding any_recent peers_of peer_of words parse_int
one_peer = refl
