-- ===== src/Store.antt =====
-- The PostgreSQL store: backend/internal/store. The SQL statements act on the tables of `Tables`.
pub mod Rows
pub mod Tables
pub mod Cases
pub mod Decisions
pub mod Queue
pub mod Execution
pub mod Observation
pub mod Operations
pub mod Work
pub mod Lifecycle
pub mod Ensures
pub mod Audit
pub mod Retries
pub mod Reviews
pub mod Promises
pub mod PaymentLinks
pub mod Webhooks
pub mod Responses
pub mod Attributions
