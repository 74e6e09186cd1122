-- ===== src/Sync.antt =====
-- The sync stream: internal/agent/sync/daemon.go and internal/agent/enforce/store.go on the agent's
-- side, internal/gateway/sync.go on the control plane's, and the two together.
pub mod Store
pub mod Daemon
pub mod Backoff
pub mod Gateway
pub mod Link
pub mod History
pub mod Installed
pub mod InStep
pub mod Converge
