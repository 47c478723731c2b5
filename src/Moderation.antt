-- ===== src/Moderation.antt =====
-- services/moderation-service: reports, the cases that they open, and the actions and appeals on them.
pub mod Domain
pub mod Store
pub mod Service
