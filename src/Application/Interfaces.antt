-- ===== src/Application/Interfaces.antt =====
-- Between the use case and what it drives: interfaces/notification_provider.py, and what the
-- program uses of the Django ORM over models/notification_model.py.
pub mod Provider
pub mod Database
