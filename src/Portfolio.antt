-- ===== src/Portfolio.antt =====
-- The portfolio priorities: backend/internal/portfolio/portfolio.go.
pub mod Priority
pub mod Scores
