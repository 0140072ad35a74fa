-- ===== src/Manager.antt =====
-- internal/manager/manager.go: the lifecycle of the host's one tunnel. `Backends` is the interface to
-- internal/tunnel, `State` the manager's own state, `Executions` the private copies that it owns,
-- `Tunnels` starts, stops and observes, and the other modules are the operations.
pub mod Backends
pub mod State
pub mod Executions
pub mod Tunnels
pub mod Recovery
pub mod Connect
pub mod Disconnect
pub mod Startup
pub mod Keeps
pub mod Outcome
pub mod Recorded
pub mod Runs
pub mod Views
pub mod Status
pub mod Looks
pub mod Evidence
