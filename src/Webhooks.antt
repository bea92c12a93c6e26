-- ===== src/Webhooks.antt =====
-- The delivery webhooks (notifyfork/api/webhooks).
pub mod Delivery
pub mod Answer
pub mod Twilio
pub mod SendGrid
pub mod Resend
