-- ===== src/Booking.antt =====
-- services/booking-service: the bookings and their life.
pub mod Types
pub mod TicketTypes
pub mod Tickets
pub mod CheckIn
pub mod Boarding
pub mod Listing
pub mod Outbox
pub mod Repository
pub mod Creation
mod Tests
