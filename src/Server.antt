-- ===== src/Server.antt =====
-- scheduler/scheduler.go: the RPC handlers and the background loops of the scheduler. Logging and the
-- Prometheus counters are left out.
pub mod Rpc
pub mod WorkerRpcs
pub mod JobRpcs
pub mod ScheduleRpcs
pub mod AutopsyRpcs
pub mod Metrics
pub mod Dispatch
mod Examples
