-- ===== src/Proxmox.antt =====
-- backend/internal/proxmox/client.go: the client that carries out what the orchestrator asks of the
-- cluster. It works on the store, and where the real API is enabled it reads the cluster from the
-- API and moves machines by it. The API (`Proxmoxapi.Api`) and the programs of the host
-- (`Blueprints.Programs`) are interfaces over the state of what lies outside, of type `W`. A method
-- that makes one reading of the clock takes it as `now`.
pub mod Drift
pub mod State
pub mod Moves
pub mod Workloads
pub mod Backups
pub mod Specs
pub mod Blueprints
