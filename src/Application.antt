-- ===== src/Application.antt =====
-- The application layer (notifyfork/core/application) and the Python entry point (client.py).
pub mod Dto
pub mod Interfaces
pub mod UseCase
