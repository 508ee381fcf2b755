-- ===== src/Proxmoxapi.antt =====
-- backend/internal/proxmoxapi/client.go: the client of the Proxmox HTTP API.
use proxmaster.Prelude.{String, ◌==◌, Bool, not, ◌&&◌, Option, none, List, if◌then◌else◌}
use proxmaster.Prelude.Int.{ℤ}
use proxmaster.Prelude.Text.{atoi}

pub record Config : Type 0 where
  pub base_url : String
  pub token_id : String
  pub token_secret : String
  pub insecure_tls : Bool
  pub enabled : Bool

-- A `float64` stands by its integral value.
pub record ClusterResource : Type 0 where
  pub resource_type : String
  pub node : String
  pub id : String
  pub vmid : ℤ
  pub name : String
  pub status : String
  pub cpus : ℤ
  pub max_mem : ℤ
  pub max_disk : ℤ

pub record StorageEntry : Type 0 where
  pub storage : String
  pub storage_type : String
  pub shared : ℤ
  pub enabled : ℤ
  pub total : ℤ
  pub used : ℤ

-- What a request comes to: a value, or an error.
pub data Answer {ℓ} (A : Type ℓ) : Type ℓ where
  got : A → Answer A
  failed : String → Answer A

unfoldable pub is_enabled : Config → Bool
is_enabled cfg =
    cfg.enabled
    && not (cfg.base_url == "")
    && not (cfg.token_id == "")
    && not (cfg.token_secret == "")

-- `none` stands for `(0, false)`.
unfoldable pub parse_vmid : String → Option ℤ
unfolding atoi
parse_vmid id = if id == "" then none else atoi id

-- The API as its callers see it. `enabled` holds where there is a client that is enabled.
pub record Api (W : Type 0) : Type 0 where
  pub enabled : Bool
  pub ping : W → Option String × W
  pub cluster_resources : String → W → Answer (List ClusterResource) × W
  pub storage_list : W → Answer (List StorageEntry) × W
  -- source node, machine, target node, whether the machine runs on
  pub migrate_qemu_vm : String → ℤ → String → Bool → W → Option String × W
