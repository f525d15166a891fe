-- ===== src/Optimizer.antt =====
-- The next-best-action optimizer: backend/internal/optimizer/optimizer.go.
pub mod Candidate
pub mod Ranking
pub mod Keys
pub mod Best
