-- ===== src/Booking/TicketTypes.antt =====
-- The rows and the inputs of the tickets in services/booking-service/src/booking.repository.ts and
-- booking.types.ts, with the columns of the migrations 020 and 021.
use bus_ai_booking.Prelude.{ℕ, String, Option}
use bus_ai_booking.Booking.Types.{BookingStatus}

-- A row of booking.issued_ticket_refs.
pub record TicketReferenceRow : Type 0 where
  pub ticket_id : String
  pub booking_id : String
  pub passenger_id : String
  pub ticket_code : String
  pub qr_payload_hash : String
  pub issued_at : ℕ

pub record PersistedTicketReference : Type 0 where
  pub ticket_id : String
  pub passenger_id : String
  pub ticket_code : String
  pub qr_payload_hash : String

pub record StaffActor : Type 0 where
  pub id : String
  pub role : String

-- A row of booking.ticket_check_ins.
pub record CheckInRow : Type 0 where
  pub ticket_id : String
  pub booking_id : String
  pub passenger_id : String
  pub idempotency_key : String
  pub actor : StaffActor
  pub request_id : String
  pub trace_id : String
  pub checked_in_at : ℕ

pub data StaffTicketCredentialKind : Type 0 where
  booking_code ticket_code qr_payload : StaffTicketCredentialKind

pub record TicketCheckInCommand : Type 0 where
  pub kind : StaffTicketCredentialKind
  pub credential : String
  pub trip_id : String
  pub idempotency_key : String
  pub actor : StaffActor
  pub request_id : String
  pub trace_id : String

-- A row of the join of tickets, bookings, passengers and check-ins.
pub record StaffTicketRow : Type 0 where
  pub ticket_id : String
  pub ticket_code : String
  pub qr_payload_hash : String
  pub booking_id : String
  pub booking_code : String
  pub booking_status : BookingStatus
  pub passenger_id : String
  pub passenger_name : String
  pub seat_id : String
  pub trip_id : String
  pub origin_name : String
  pub destination_name : String
  pub departure_at : ℕ
  pub checked_in_at : Option ℕ

pub record StaffTicketView : Type 0 where
  pub ticket_id : String
  pub ticket_code : String
  pub booking_id : String
  pub booking_code : String
  pub booking_status : BookingStatus
  pub passenger_id : String
  pub passenger_name : String
  pub seat_id : String
  pub trip_id : String
  pub route_label : String
  pub departure_at : ℕ
  pub checked_in_at : Option ℕ

-- The errors of the two transactions; `constraint_violated` is that of the database on a row that
-- meets another unique key or refers to no passenger of the booking.
pub data TicketError : Type 0 where
  booking_missing reference_conflict constraint_violated wrong_trip : TicketError
  check_in_conflict : TicketError
  check_in_state : BookingStatus → TicketError
