-- ===== src/Event.antt =====
-- services/event-service.
pub mod Domain
pub mod Store
pub mod Service
pub mod Listing
