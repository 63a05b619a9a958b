-- ===== src/SeatInventory.antt =====
-- services/seat-inventory-service/src/seat-inventory.service.ts.
pub mod Types
pub mod Validation
pub mod SeatMap
pub mod Holds
pub mod Durable
pub mod Accepts
pub mod Confirm
pub mod ConfirmErrors
pub mod Flow
pub mod Seats
pub mod MapView
pub mod Entries
pub mod Releases
pub mod RoundTrip
mod Tests
