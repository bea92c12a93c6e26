-- ===== src/Shared.antt =====
-- shared/: the logging setup. The exceptions of shared/exceptions are in Python/Result.
pub mod Logging
