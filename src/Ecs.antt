-- ===== src/Ecs.antt =====
-- src/laige-sim: the storage of the ECS world.
pub mod Archetypes
pub mod Guardrails
pub mod Churn
pub mod Entities
mod Tests
mod EntityTests
