-- ===== src/SeatState/Types.antt =====
-- The rows and the inputs of services/seat-inventory-service/src/seat-state.repository.ts, with the
-- columns of the migrations 005, 007, 017 and 022. Instants are milliseconds.
use bus_ai_booking.Prelude.{ℕ, String, Bool, true, false, Option, List}

pub data DurableSeatStatus : Type 0 where
  booked blocked : DurableSeatStatus

unfoldable pub is_booked : DurableSeatStatus → Bool
is_booked booked = true
is_booked blocked = false

-- `booking-service:<bookingId>` and `admin:<actorId>`
pub data UpdatedBy : Type 0 where
  booking_service admin : String → UpdatedBy

-- seat_inventory.trip_seat_states
pub record SeatStateRow : Type 0 where
  pub trip_id : String
  pub seat_id : String
  pub status : DurableSeatStatus
  pub booking_id : Option String
  pub reason : Option String
  pub updated_by_actor : UpdatedBy
  pub updated_at : ℕ

pub record DurableSeatState : Type 0 where
  pub seat_id : String
  pub status : DurableSeatStatus

pub record ConfirmDurableSeatsInput : Type 0 where
  pub booking_id : String
  pub trip_id : String
  pub seat_ids : List String
  pub idempotency_key : String
  pub request_fingerprint : String
  pub hold_token_hash : String
  pub confirmed_at : ℕ

-- A row of seat_inventory.confirmation_requests has the columns of the input.
abbrev pub ConfirmationRow : Type 0
ConfirmationRow = ConfirmDurableSeatsInput

pub record SeatConfirmationRecord : Type 0 where
  pub request_fingerprint : String
  pub confirmed_at : ℕ

pub record ReleaseBookedSeatsInput : Type 0 where
  pub booking_id : String
  pub trip_id : String
  pub seat_ids : List String
  pub idempotency_key : String
  pub request_fingerprint : String
  pub released_at : ℕ

-- A row of seat_inventory.release_requests has the columns of the input.
abbrev pub ReleaseRow : Type 0
ReleaseRow = ReleaseBookedSeatsInput

pub record SeatReleaseRecord : Type 0 where
  pub idempotency_key : String
  pub request_fingerprint : String
  pub released_at : ℕ

pub record SetSeatBlockedInput : Type 0 where
  pub trip_id : String
  pub seat_ids : List String
  pub blocked : Bool
  pub reason : String
  pub actor_id : String
  pub idempotency_key : String
  pub request_fingerprint : String
  pub request_id : String
  pub trace_id : String
  pub updated_at : ℕ

-- A row of seat_inventory.seat_block_commands: the input, the random id and whether it changed a seat.
pub record SeatBlockCommandRow : Type 0 where
  pub id : String
  pub input : SetSeatBlockedInput
  pub changed : Bool

pub record SeatBlockRecord : Type 0 where
  pub trip_id : String
  pub seat_ids : List String
  pub blocked : Bool
  pub changed : Bool
  pub request_fingerprint : String
  pub updated_at : ℕ

-- The errors of the repository; `not_found` is the plain error on a record that must be there,
-- and `check_violation` that of PostgreSQL on values that a column or a CHECK does not take.
pub data SeatStateError : Type 0 where
  confirmation_unavailable release_mismatch block_booked not_found check_violation : SeatStateError
