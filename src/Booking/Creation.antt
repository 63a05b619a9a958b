-- ===== src/Booking/Creation.antt =====
-- `createOrReplay` and `findByIdempotency` of services/booking-service/src/booking.repository.ts.
pub mod Replay
pub mod History
use bus_ai_booking.Prelude.{
  ℕ, String, Bool, true, false, ◌&&◌, ◌||◌, Option, none, some, List, [], ◌∷◌, ◌++◌, find, any,
  length, is_some, ◌==◌, string_eq, if◌then◌else◌, Result, ok, err, ◌>>=◌,
}
use bus_ai_booking.Prelude.Text.{trim}
use bus_ai_booking.Booking.Types.{
  BookingStatus, pending_payment, CheckoutOwner, BookingActor, BookingContact, BookingTripSnapshot,
  BookingPassenger, BookingView, BookingRow, PassengerRow, StatusHistoryRow,
}
use bus_ai_booking.Booking.Outbox.{BookingDomainEvent, OutboxRow, enqueue_booking_event}
use bus_ai_booking.Booking.Repository.{BookingTables, same_owner, map_booking}

-- A passenger of the input, with the hash of the document where one was given.
pub record PersistPassenger : Type 0 where
  pub id : String
  pub seat_id : String
  pub full_name : String
  pub phone : Option String
  pub document_number_hash : Option String

pub record PersistBookingInput : Type 0 where
  pub id : String
  pub booking_code : String
  pub owner : CheckoutOwner
  pub idempotency_key : String
  pub request_fingerprint : String
  pub hold_token : String
  pub hold_expires_at : ℕ
  pub contact : BookingContact
  pub normalized_email : String
  pub trip : BookingTripSnapshot
  pub passengers : List PersistPassenger
  pub total_price_vnd : ℕ
  pub created_at : ℕ

pub record BookingReplayRecord : Type 0 where
  pub booking : BookingView
  pub request_fingerprint : String

-- A row that a unique index refuses, and the plain error on a booking that must be there.
pub data CreationError : Type 0 where
  duplicate_row no_idempotency_record : CreationError

-- `bookings_owner_idempotency_key`, and `bookingByIdempotencySql`.
abbrev pub has_key : CheckoutOwner → String → BookingRow → Bool
has_key owner key row = same_owner row.checkout_owner owner && row.idempotency_key == key

-- The other unique indexes: the id and the booking code.
abbrev pub is_duplicate : PersistBookingInput → BookingRow → Bool
is_duplicate input row = row.id == input.id || row.booking_code == input.booking_code

abbrev pub booking_row : PersistBookingInput → BookingRow
booking_row input = record {
  id = input.id;
  booking_code = input.booking_code;
  status = pending_payment;
  checkout_owner = input.owner;
  idempotency_key = input.idempotency_key;
  request_fingerprint = input.request_fingerprint;
  hold_token = input.hold_token;
  hold_expires_at = input.hold_expires_at;
  contact = input.contact;
  normalized_email = input.normalized_email;
  trip = input.trip;
  seat_count = length input.passengers;
  total_price_vnd = input.total_price_vnd;
  paid_payment_attempt_id = none;
  payment_idempotency_key = none;
  paid_at = none;
  expired_at = none;
  cancelled_at = none;
  cancellation_idempotency_key = none;
  cancellation_policy_code = none;
  cancellation_seats_released_at = none;
  created_at = input.created_at;
  updated_at = input.created_at;
}

abbrev pub passenger_row : String → PersistPassenger → PassengerRow
passenger_row booking_id p = record {
  booking_id = booking_id;
  passenger = record {
    id = p.id;
    seat_id = p.seat_id;
    full_name = p.full_name;
    phone = p.phone;
    has_document_number = is_some p.document_number_hash;
  };
}

-- The id of a passenger, and the seat of a booking, are unique.
abbrev pub is_taken : PassengerRow → PassengerRow → Bool
is_taken new old =
    old.passenger.id == new.passenger.id
    || old.booking_id == new.booking_id && old.passenger.seat_id == new.passenger.seat_id

-- The loop that inserts the passengers.
unfoldable pub insert_passengers :
    String → List PersistPassenger → List PassengerRow → Result CreationError (List PassengerRow)
insert_passengers booking_id [] rows = ok rows
insert_passengers booking_id (p ∷ rest) rows =
    let more = insert_passengers booking_id rest (rows ++ passenger_row booking_id p ∷ []) in
    if any (is_taken (passenger_row booking_id p)) rows then err duplicate_row else more

abbrev pub created_history : PersistBookingInput → StatusHistoryRow
created_history input = record {
  booking_id = input.id;
  from_status = none;
  to_status = pending_payment;
  actor = record { type = input.owner.type; id = input.owner.id };
  occurred_at = input.created_at;
}

-- The tables with the new booking, by the passengers that were inserted.
abbrev pub with_booking :
    PersistBookingInput → BookingDomainEvent → BookingTables → List PassengerRow → BookingTables
with_booking input event t passengers = record t {
  bookings = t.bookings ++ booking_row input ∷ [];
  passengers = passengers;
  history = t.history ++ created_history input ∷ [];
  outbox = enqueue_booking_event event t.outbox;
}

-- `INSERT ... ON CONFLICT ON CONSTRAINT bookings_owner_idempotency_key DO NOTHING`, and what is written
-- where it inserted a row.
unfoldable pub insert_booking :
    PersistBookingInput → BookingDomainEvent → BookingTables → Result CreationError BookingTables
insert_booking input event t =
    if any (has_key input.owner input.idempotency_key) t.bookings
    then ok t
    else if any (is_duplicate input) t.bookings
    then err duplicate_row
    else insert_passengers input.id input.passengers t.passengers >>= λ passengers.
        ok (with_booking input event t passengers)

abbrev pub replay_record : List PassengerRow → Option BookingRow → Option BookingReplayRecord
replay_record passengers none = none
replay_record passengers (some row) = some (record {
  booking = map_booking row passengers;
  request_fingerprint = trim row.request_fingerprint;
})

-- `findByIdempotency`
unfoldable pub find_by_idempotency :
    CheckoutOwner → String → BookingTables → Option BookingReplayRecord
find_by_idempotency owner key t = replay_record t.passengers (find (has_key owner key) t.bookings)

-- The read after the insert, and the commit or the rollback.
abbrev pub finish :
    BookingTables
    → BookingTables
    → Option BookingReplayRecord
    → Result CreationError BookingReplayRecord × BookingTables
finish before after none = (err no_idempotency_record, before)
finish before after (some found) = (ok found, after)

abbrev pub read_created :
    PersistBookingInput
    → BookingTables
    → Result CreationError BookingTables
    → Result CreationError BookingReplayRecord × BookingTables
read_created input before (err e) = (err e, before)
read_created input before (ok after) =
    finish before after (find_by_idempotency input.owner input.idempotency_key after)

-- `createOrReplay`
unfoldable pub create_or_replay :
    PersistBookingInput
    → BookingDomainEvent
    → BookingTables
    → Result CreationError BookingReplayRecord × BookingTables
create_or_replay input event t = read_created input t (insert_booking input event t)
