-- ===== src/Infrastructure.antt =====
-- The adapters to Django, Celery, the environment and the vendors (notifyfork/core/infrastructure).
pub mod Repository
pub mod Tasks
pub mod Container
pub mod Providers
pub mod Seeds
pub mod Schema
pub mod BuiltIn
