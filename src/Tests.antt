-- ===== src/Tests.antt =====
-- The theorems of the library at concrete inputs.
mod Samples
mod Policies
mod Portfolios
mod Workflows
mod Histories
mod Reviews
mod Payments
mod Webhooks
mod Links
mod Models
mod Checkouts
