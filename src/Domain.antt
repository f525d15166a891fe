-- ===== src/Domain.antt =====
-- The data model: backend/internal/domain.
pub mod Actions
pub mod States
pub mod Events
pub mod Entities
pub mod Lifecycle
