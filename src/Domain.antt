-- ===== src/Domain.antt =====
-- The domain layer (notifyfork/core/domain): the notification entity and the template value object.
pub mod Template
pub mod Notification
