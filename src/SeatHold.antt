-- ===== src/SeatHold.antt =====
-- services/seat-inventory-service/src/seat-hold.store.ts: seats held for a while in Redis.
pub mod Types
pub mod Store
pub mod Scripts
pub mod Calls
mod Tests
