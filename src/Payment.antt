-- ===== src/Payment.antt =====
-- The payment service (services/payment-service).
pub mod Domain
pub mod Store
pub mod Service
