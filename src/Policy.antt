-- ===== src/Policy.antt =====
-- The policy: `Evaluate` of backend/internal/policy/policy.go. A closure `add(&list, reason, cond)`
-- of the source is an entry `check level reason cond`; the entries stand in the source's order.
pub mod History
pub mod Rules
pub mod Tally
pub mod Approval
pub mod Safety
