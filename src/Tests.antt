-- ===== src/Tests.antt =====
-- Runs of the models on concrete inputs.
pub mod Bookings
pub mod Payments
pub mod Pairs
pub mod Notifications
pub mod Worker
pub mod Moderation
pub mod Events
