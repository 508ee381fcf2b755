-- ===== src/Lib.antt =====
-- Proxmaster: a control plane for a Proxmox cluster, written in Go (backend/).
--
-- Operations arrive as tool calls. A call is classified by risk, held against the health of the
-- cluster and the policy, recorded as a job with an audit event, and run by the orchestrator; the
-- autonomy worker makes such calls by itself from a queue of tasks. Everything is kept in a store.
-- Beside it stand services with state of their own: break-glass access, GitOps, the control-plane
-- manager, and the runner, whose controller sends signed commands to an agent on each node.
--
-- The files, each with the children that hold its laws:
--   Prelude       numbers, 64-bit integers, texts, dictionaries and lists as Go's standard library
--                 has them. No code of the repository.
--   Models        backend/internal/models/types.go. Structs are records, enumerated texts are data
--                 types with `unset` for the empty text, `map[string]any` is `Params`.
--   Risk          backend/internal/risk/engine.go: Classify, HardBlockReason.
--   Health        backend/internal/health/gates.go: SnapshotFromState, ValidateForWrite, Explain.
--   Policy        backend/internal/policy/gate.go: Evaluate, Simulate.
--   Store         backend/internal/store/memory.go: the record of the store and its counters;
--                 Initial (NewMemoryStore), Jobs, Tasks, Cluster, Backup, Specs and Mode have its
--                 methods, one function each.
--   Mcp           backend/internal/mcp/service.go: HandleCall, SimulatePolicy; Mcp/Steps has the
--                 parts of a call. The orchestrator is the interface `Executor`: a function on the
--                 store and on the rest of the process, with the law that it writes no jobs, keys,
--                 audit events or incidents. Orchestrator/Executor fills it.
--   Orchestrator  backend/internal/orchestrator/service.go: Execute. Orchestrator/Names has the
--                 names of the tools, Orchestrator/StoreTools the tools that work on the store
--                 alone; Orchestrator itself has the others, over `Services` (what does not change)
--                 and `Runtime` (the state of the process beside the store).
--   Proxmox       backend/internal/proxmox/client.go: State (GetState, ConnectionTest), Moves,
--                 Workloads, Backups, Specs, Blueprints, and Drift (the comparison of a wanted
--                 state with the observed one).
--   Proxmoxapi    backend/internal/proxmoxapi/client.go: the data of the cluster's API, and the
--                 API as an interface.
--   Api           backend/internal/api/server.go: Requests (the reading of a body), Calls (the
--                 handlers that make a tool call), Reports, Writes, Routes, and Server (the token
--                 and the service of a request). Api/Access, Api/Approval, Api/Trail and
--                 Api/Served have its proofs.
--   Connectivity  backend/internal/connectivity/service.go: Status.
--   Vpn           backend/internal/vpn/wireguard.go: Plan; Vpn/Setup has Apply, Status, and the
--                 service as the orchestrator's interface.
--   Autonomy      backend/internal/autonomy/service.go: the scheduler and the worker, as ticks.
--   Breakglass    backend/internal/breakglass/service.go.
--   Controlplane  backend/internal/controlplane/manager.go.
--   Gitops        backend/internal/gitops/service.go: SyncNow, RollbackLastStable.
--   Runner        backend/internal/runner/controller.go; Runner/Agent is
--                 backend/cmd/runner-agent/main.go.
--   Examples      runs on concrete inputs.
--
-- How the code is read. A method is a function from the state before to its result and the state
-- after; it holds its lock throughout, or what it does outside the lock is its own. A reading of
-- the clock is an argument, in nanoseconds, 0 for the zero time; `Clock` gives the readings of one
-- call by their place. Integers of 64 bits keep their wrap-around (Prelude/Int). A map is an
-- association list whose order stands for the order of a `range` loop. Commands of the host, HTTP,
-- JSON and the HMAC are arguments, functions on a state of theirs where they have one. Every
-- function is total by its clauses. Two count on fuel: the printing of a number, which has the
-- number and one, and a number has no more digits than that; and the rounding to a 64-bit float
-- (Proxmox/Drift), which has twelve doublings, enough for 64 bits. A panic of the code is a result of
-- its own (`none` in Store/Cluster, `panicked` in Runner, Mcp and Orchestrator): the job of a call
-- whose tool panics stays running, a request that panics is cut off, and a panic in the worker ends
-- the process. A struct in a
-- result stands by its JSON object (Models/Json), and a comparison of values is one of their JSON.
--
-- Not modelled: the requests of the cluster's API over HTTP, the logging of the HTTP API's requests
-- and the text of its page, the store in Postgres, the configuration and the start of the server,
-- which are yet to be done or are input and output; numbers with a fraction; the slices and maps
-- that a returned value shares with the store, except where the worker writes into a task's payload
-- and where the move of the control plane's machine reads its entry; the agent's heartbeats; the
-- Android client, the deployment files and the scripts.
mod Prelude
pub mod Models
pub mod Risk
pub mod Health
pub mod Policy
pub mod Store
pub mod Mcp
pub mod Autonomy
pub mod Breakglass
pub mod Gitops
pub mod Proxmoxapi
pub mod Proxmox
pub mod Orchestrator
pub mod Api
pub mod Controlplane
pub mod Runner
mod Examples
pub mod Vpn
pub mod Connectivity
