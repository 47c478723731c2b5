-- ===== src/Booking.antt =====
-- The booking service (services/booking-service).
pub mod Domain
pub mod Store
pub mod Service
pub mod Lists
