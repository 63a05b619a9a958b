-- ===== src/SeatState.antt =====
-- The durable seat states of services/seat-inventory-service.
pub mod Types
pub mod Tables
pub mod Repository
mod Tests
