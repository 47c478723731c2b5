-- ===== src/Matchmaking/Engine.antt =====
-- services/matchmaking-service/internal/engine/engine.go, in its children.
pub mod Score
pub mod Rules
pub mod Assignment
pub mod Pairs
