-- ===== src/Payment.antt =====
-- services/payment-service: an attempt to pay is stored once for each idempotency key, and at most
-- one attempt of a booking succeeds.
pub mod Types
pub mod Events
pub mod Repository
pub mod Service
