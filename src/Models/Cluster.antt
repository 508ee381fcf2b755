-- ===== src/Models/Cluster.antt =====
-- The observed state of the cluster.
use proxmaster.Prelude.{ℕ, String, Bool, List}
use proxmaster.Prelude.Int.{ℤ}

pub record Node : Type 0 where
  pub id : String
  pub name : String
  pub status : String
  pub maintenance : Bool
  pub last_heartbeat : ℕ
  pub runner_healthy : Bool

pub record Vm : Type 0 where
  pub id : String
  pub node_id : String
  pub name : String
  pub power : String
  pub priority : ℤ
  pub cpu : ℤ
  pub memory_mb : ℤ
  pub disk_gb : ℤ
  pub kind : String

pub record StoragePool : Type 0 where
  pub name : String
  pub pool_type : String
  pub backend : String
  pub status : String
  pub capacity_gb : ℤ
  pub used_gb : ℤ
  pub tier : String

pub record Datastore : Type 0 where
  pub id : String
  pub name : String
  pub kind : String
  pub pool_name : String
  pub path : String
  pub status : String

pub record SnapshotTier : Type 0 where
  pub name : String
  pub frequency : String
  pub retention : String
  pub immutable : Bool
  pub target_datastore : String

pub record ReplicationPolicy : Type 0 where
  pub id : String
  pub name : String
  pub source_pool : String
  pub target_pool : String
  pub schedule : String
  pub compression : String
  pub verify_after : Bool
  pub status : String

pub record BackupTarget : Type 0 where
  pub id : String
  pub name : String
  pub kind : String
  pub uri : String
  pub healthy : Bool

pub record NetworkObject : Type 0 where
  pub name : String
  pub kind : String
  pub cidr : String
  pub status : String

pub record ClusterState : Type 0 where
  pub nodes : List Node
  pub vms : List Vm
  pub pools : List StoragePool
  pub datastores : List Datastore
  pub snapshot_tiers : List SnapshotTier
  pub replication_policies : List ReplicationPolicy
  pub backup_targets : List BackupTarget
  pub networks : List NetworkObject
  pub ha_enabled : Bool
  pub updated_at : ℕ
