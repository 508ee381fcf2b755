-- ===== src/Store/Initial.antt =====
-- NewMemoryStore (backend/internal/store/memory.go): the store that the server starts with.
use proxmaster.Prelude.{ℕ, String, true, false, List, [], ◌∷◌}
use proxmaster.Prelude.Int.{pos}
use proxmaster.Models.{
  str, int, Node, Vm, StoragePool, Datastore, SnapshotTier, ReplicationPolicy, BackupTarget,
  ClusterState, BlueprintDefinition, PolicyMode,
}
use proxmaster.Store.{MemoryStore}

abbrev target : String → String → String → String → BackupTarget
target id name kind uri = record { id = id; name = name; kind = kind; uri = uri; healthy = true }

abbrev pbs_target : BackupTarget
pbs_target = target "target-pbs-1" "pbs-main" "pbs" "pbs://10.0.10.10/datastore1"

abbrev s3_target : BackupTarget
s3_target = target "target-s3-1" "s3-archive" "s3" "s3://proxmaster-archive"

abbrev nfs_target : BackupTarget
nfs_target = target "target-nfs-1" "nfs-backups" "nfs" "nfs://10.0.20.5/exports/backups"

abbrev dhcp_server : BlueprintDefinition
dhcp_server = record {
  name = "dhcp-server";
  version = "1.0.0";
  description = "Deploy Kea DHCP in dedicated VM";
  provision_kind = "vm";
  default_cpu = pos 2;
  default_mem_mb = pos 2048;
  default_disk_gb = pos 20;
  ansible_roles = "base-hardening" ∷ "kea-dhcp4" ∷ [];
  health_checks = "systemd:kea-dhcp4-server" ∷ "udp:67" ∷ [];
  rollback_steps = "restore previous config" ∷ "restart kea service" ∷ [];
  parameters = ("subnet", str "10.0.10.0/24") ∷ ("gateway", str "10.0.10.1") ∷ [];
}

abbrev dns_resolver : BlueprintDefinition
dns_resolver = record {
  name = "dns-resolver";
  version = "1.0.0";
  description = "Deploy CoreDNS in dedicated VM or LXC";
  provision_kind = "lxc";
  default_cpu = pos 2;
  default_mem_mb = pos 1024;
  default_disk_gb = pos 8;
  ansible_roles = "base-hardening" ∷ "coredns" ∷ [];
  health_checks = "tcp:53" ∷ "udp:53" ∷ [];
  rollback_steps = "rollback Corefile" ∷ "restart coredns" ∷ [];
  parameters = ("zone", str "internal") ∷ [];
}

abbrev docker_host : BlueprintDefinition
docker_host = record {
  name = "docker-host";
  version = "1.0.0";
  description = "Deploy Docker host VM with monitoring/backup baseline";
  provision_kind = "vm";
  default_cpu = pos 4;
  default_mem_mb = pos 8192;
  default_disk_gb = pos 80;
  ansible_roles = "base-hardening" ∷ "docker-engine" ∷ "node-exporter" ∷ [];
  health_checks = "systemd:docker" ∷ "tcp:2375" ∷ [];
  rollback_steps = "disable new stack" ∷ "restore previous compose state" ∷ [];
  parameters = ("docker_data_pool", str "zfs-fast") ∷ [];
}

abbrev pfsense_gateway : BlueprintDefinition
pfsense_gateway = record {
  name = "pfsense-gateway";
  version = "1.0.0";
  description = "Deploy pfSense VM with WAN/LAN interfaces and baseline firewall config";
  provision_kind = "vm";
  default_cpu = pos 2;
  default_mem_mb = pos 4096;
  default_disk_gb = pos 20;
  ansible_roles = "pfsense-bootstrap" ∷ [];
  health_checks = "icmp:lan-gateway" ∷ "https:443" ∷ [];
  rollback_steps = "restore previous pfSense config.xml" ∷ "revert interface mapping" ∷ [];
  parameters =
      ("wan_bridge", str "vmbr0")
      ∷ ("lan_bridge", str "vmbr1")
      ∷ ("lan_cidr", str "10.13.37.1/24")
      ∷ [];
}

abbrev wireguard_server : BlueprintDefinition
wireguard_server = record {
  name = "wireguard-server";
  version = "1.0.0";
  description = "Deploy WireGuard gateway server VM";
  provision_kind = "vm";
  default_cpu = pos 2;
  default_mem_mb = pos 2048;
  default_disk_gb = pos 20;
  ansible_roles = "wireguard-server" ∷ [];
  health_checks = "udp:51820" ∷ "cmd:wg show" ∷ [];
  rollback_steps = "disable wg-quick@wg0" ∷ "restore /etc/wireguard/wg0.conf" ∷ [];
  parameters =
      ("interface", str "wg0")
      ∷ ("listen_port", int (pos 51820))
      ∷ ("cidr", str "10.66.66.1/24")
      ∷ [];
}

abbrev node : ℕ → String → String → Node
node now id name = record {
  id = id;
  name = name;
  status = "online";
  maintenance = false;
  last_heartbeat = now;
  runner_healthy = true;
}

abbrev vm : String → String → String → ℕ → ℕ → ℕ → ℕ → String → Vm
vm id node_id name priority cpu memory_mb disk_gb kind = record {
  id = id;
  node_id = node_id;
  name = name;
  power = "running";
  priority = pos priority;
  cpu = pos cpu;
  memory_mb = pos memory_mb;
  disk_gb = pos disk_gb;
  kind = kind;
}

abbrev initial_vms : List Vm
initial_vms =
    vm "100" "node-1" "proxmaster-mgmt" 100 4 8192 80 "vm"
    ∷ vm "101" "node-1" "db-prod-1" 90 4 4096 100 "vm"
    ∷ vm "102" "node-2" "api-prod-1" 80 4 4096 50 "vm"
    ∷ vm "201" "node-3" "lxc-cache-1" 60 2 1024 10 "lxc"
    ∷ []

abbrev pool : String → String → ℕ → ℕ → String → StoragePool
pool name kind capacity_gb used_gb tier = record {
  name = name;
  pool_type = kind;
  backend = kind;
  status = "healthy";
  capacity_gb = pos capacity_gb;
  used_gb = pos used_gb;
  tier = tier;
}

abbrev initial_pools : List StoragePool
initial_pools =
    pool "zfs-fast" "zfs" 2000 1200 "hot"
    ∷ pool "ceph-rbd" "ceph" 6000 3200 "balanced"
    ∷ pool "nfs-archive" "nfs" 8000 2100 "cold"
    ∷ []

abbrev datastore : String → String → String → String → String → Datastore
datastore id name kind pool_name path = record {
  id = id;
  name = name;
  kind = kind;
  pool_name = pool_name;
  path = path;
  status = "online";
}

abbrev initial_datastores : List Datastore
initial_datastores =
    datastore "ds-1" "local-zfs" "zfs" "zfs-fast" "/zpool/local"
    ∷ datastore "ds-2" "ceph-main" "ceph" "ceph-rbd" "rbd://ceph-rbd"
    ∷ datastore "ds-3" "nfs-backup" "nfs" "nfs-archive" "/mnt/nfs/backup"
    ∷ []

abbrev initial_tiers : List SnapshotTier
initial_tiers =
    record {
      name = "tier-hourly";
      frequency = "hourly";
      retention = "48h";
      immutable = false;
      target_datastore = "ds-1";
    }
    ∷ record {
      name = "tier-daily";
      frequency = "daily";
      retention = "30d";
      immutable = true;
      target_datastore = "ds-3";
    }
    ∷ []

abbrev initial_replications : List ReplicationPolicy
initial_replications =
    record {
      id = "rep-1";
      name = "zfs-to-nfs";
      source_pool = "zfs-fast";
      target_pool = "nfs-archive";
      schedule = "0 */6 * * *";
      compression = "zstd";
      verify_after = true;
      status = "active";
    }
    ∷ []

abbrev initial_state : ℕ → ClusterState
initial_state now = record {
  nodes =
      node now "node-1" "pve-node-1"
      ∷ node now "node-2" "pve-node-2"
      ∷ node now "node-3" "pve-node-3"
      ∷ node now "node-4" "pve-node-4"
      ∷ [];
  vms = initial_vms;
  pools = initial_pools;
  datastores = initial_datastores;
  snapshot_tiers = initial_tiers;
  replication_policies = initial_replications;
  backup_targets = pbs_target ∷ s3_target ∷ nfs_target ∷ [];
  networks =
      record { name = "vmbr0"; kind = "bridge"; cidr = "10.0.10.0/24"; status = "active" } ∷ [];
  ha_enabled = true;
  updated_at = now;
}

unfoldable pub new_memory_store : ℕ → MemoryStore
new_memory_store now = record {
  jobs = [];
  by_idem_key = [];
  audits = [];
  incidents = [];
  state = initial_state now;
  backup_policies = [];
  backup_targets =
      ("target-pbs-1", pbs_target) ∷ ("target-s3-1", s3_target) ∷ ("target-nfs-1", nfs_target) ∷ [];
  decision_logs = [];
  rebuild_plans = [];
  restore_plans = [];
  agent_tasks = [];
  specs =
      ("cluster", [])
      ∷ ("workloads", [])
      ∷ ("storage", [])
      ∷ ("network", [])
      ∷ ("backup", [])
      ∷ ("blueprint", [])
      ∷ [];
  blueprints =
      ("dhcp-server", dhcp_server)
      ∷ ("dns-resolver", dns_resolver)
      ∷ ("docker-host", docker_host)
      ∷ ("pfsense-gateway", pfsense_gateway)
      ∷ ("wireguard-server", wireguard_server)
      ∷ [];
  blueprint_specs = [];
  policy_mode = record {
    mode = PolicyMode.guarded_sre;
    aggressive_until = 0;
    last_changed_by = "";
    updated_at = now;
  };
  seq = 0;
  vm_id_seq = 0;
  rollback_id_seq = 0;
}
