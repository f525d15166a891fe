-- ===== src/Budget.antt =====
-- The allocation of a budget: backend/internal/budget/budget.go.
pub mod Allocation
pub mod Limits
pub mod Ranks
