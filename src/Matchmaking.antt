-- ===== src/Matchmaking.antt =====
-- The matchmaking service (services/matchmaking-service).
pub mod Domain
pub mod Engine
