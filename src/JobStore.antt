-- ===== src/JobStore.antt =====
-- internal/db/jobstore.go, by query, and what the queries guarantee together.
pub mod Queries
pub mod Submission
pub mod Claiming
pub mod Results
pub mod Sweeps
pub mod Renewal
pub mod Machine
pub mod Guards
pub mod Evolution
pub mod Refinement
pub mod Choice
pub mod Calls
pub mod History
pub mod Lease
pub mod Claim
pub mod Idempotence
pub mod Reclaim
pub mod Reports
pub mod Tenants
pub mod Outcomes
pub mod Foremost
pub mod Renewals
pub mod Examples
