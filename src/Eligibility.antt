-- ===== src/Eligibility.antt =====
-- The eligibility rules: backend/internal/eligibility/eligibility.go.
pub mod Rules
pub mod Partition
pub mod Agreement
