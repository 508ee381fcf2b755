-- ===== src/Api.antt =====
-- The HTTP API (backend/internal/api/server.go). A request is a method, a path, two headers and a
-- body; `serve` finds its endpoint, asks for the token and runs the handler on the store and on the
-- orchestrator's part of the process, with the orchestrator as the executor of tool calls.
pub mod Requests
pub mod Calls
pub mod Reports
pub mod Writes
pub mod Routes
pub mod Server
pub mod Access
pub mod Approval
pub mod Trail
pub mod Served
