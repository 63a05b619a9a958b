-- ===== src/Booking/Tests.antt =====
-- booking.repository.ts on concrete tables.
use bus_ai_booking.Prelude.{
  ◌≡◌, refl, true, false, List, [], ◌∷◌, none, some, find, arith, ok, err, string_eq, length,
}
use bus_ai_booking.Booking.Types.{
  pending_payment, paid, cancelled, CheckoutOwner, BookingActor, BookingRow, StatusHistoryRow,
  ticket_issued, PassengerRow,
}
use bus_ai_booking.Booking.TicketTypes.{
  TicketCheckInCommand, ticket_code, StaffTicketView, CheckInRow, constraint_violated,
}
use bus_ai_booking.Booking.CheckIn.{is_prior, check_in_ticket, staff_tickets, checked_in_tables}
use bus_ai_booking.Booking.CheckIn.Once.{IsOnce, check_in_ticket-IsOnce}
use bus_ai_booking.Booking.Outbox.{
  BookingEventType, booking_created, booking_paid, booking_expired, booking_cancelled,
  BookingDomainEvent, enqueue_booking_event,
}
use bus_ai_booking.Prelude.Text.{trim, trim_start, trim_end, is_space, in_range}
use bus_ai_booking.Booking.Creation.{
  PersistPassenger, PersistBookingInput, BookingReplayRecord, booking_row, passenger_row,
  insert_booking, insert_passengers, find_by_idempotency, create_or_replay,
}
use bus_ai_booking.Booking.Creation.Replay.{create_or_replay_again}
use bus_ai_booking.Booking.Creation.History.{create_or_replay-IsConsistent}
use bus_ai_booking.Booking.Repository.{
  map_booking, BookingTables, history_row, paid_row, cancelled_row, load_payment_record, mark_paid,
  mark_expired, mark_cancelled,
}
use bus_ai_booking.Booking.Repository.Rows.{IsKeyed}
use bus_ai_booking.Booking.Repository.History.{IsConsistent, IsRecorded}
use bus_ai_booking.Booking.Repository.Status.{IsFollowed}
use bus_ai_booking.Booking.Repository.Races.{mark_paid_decides}
use bus_ai_booking.Booking.Repository.Cancel.{mark_cancelled_decides}
use bus_ai_booking.Booking.Repository.Runs.{
  Transition, pays, expires, cancels, releases, run, run-IsConsistent, run-IsFollowed,
}

abbrev owner : CheckoutOwner
owner = record { type = "CUSTOMER"; id = "c1" }

abbrev pub pending : BookingRow
pending = record {
  id = "b1";
  booking_code = "BK1";
  status = pending_payment;
  checkout_owner = owner;
  idempotency_key = "k1";
  request_fingerprint = "f1";
  hold_token = "h1";
  hold_expires_at = 600000;
  contact = record { full_name = "An"; email = "an@example.com"; phone = "0900000000" };
  normalized_email = "an@example.com";
  trip = record {
    trip_id = "t1";
    route_id = "r1";
    route_code = "R1";
    operator_name = "O";
    vehicle_type_name = "V";
    vehicle_code = "VC";
    vehicle_plate = "P";
    origin_name = "A";
    destination_name = "B";
    pickup_name = "PA";
    dropoff_name = "PB";
    departure_at = 900000;
    arrival_at = 950000;
    timezone = "Asia/Ho_Chi_Minh";
    unit_price_vnd = 250000;
  };
  seat_count = 1;
  total_price_vnd = 250000;
  paid_payment_attempt_id = none;
  payment_idempotency_key = none;
  paid_at = none;
  expired_at = none;
  cancelled_at = none;
  cancellation_idempotency_key = none;
  cancellation_policy_code = none;
  cancellation_seats_released_at = none;
  created_at = 0;
  updated_at = 0;
}

abbrev created : StatusHistoryRow
created = record {
  booking_id = "b1";
  from_status = none;
  to_status = pending_payment;
  actor = record { type = "CUSTOMER"; id = "c1" };
  occurred_at = 0;
}

abbrev tables_of : BookingRow → BookingTables
tables_of row = record {
  bookings = row ∷ [];
  passengers = [];
  history = created ∷ [];
  outbox = [];
  audit = [];
  tickets = [];
  check_ins = [];
}

abbrev event_of : BookingEventType → BookingDomainEvent
event_of type = record {
  event_id = "e1";
  event_type = type;
  aggregate_id = "b1";
  trip_id = "t1";
  occurred_at = 1000;
}

abbrev reconciler : BookingActor
reconciler = record { type = "SYSTEM"; id = "system" }

one-IsKeyed : IsKeyed (pending ∷ [])
one-IsKeyed id = ground arith

one-IsRecorded : IsRecorded (pending ∷ []) (created ∷ [])
one-IsRecorded id row e = ground (arith, e)

abbrev transitions : List Transition
transitions =
    pays "b1" owner "a1" "p1" 1000 (event_of booking_paid) none
    ∷ expires "b1" owner 2000 reconciler (event_of booking_expired)
    ∷ cancels "b1" owner "x1" 3000 "BEFORE_DEPARTURE_FULL_RELEASE" (event_of booking_cancelled) none
    ∷ releases "b1" "x1" 4000
    ∷ []

run-IsConsistent_example : IsConsistent (run (tables_of pending) transitions)
run-IsConsistent_example =
    run-IsConsistent (tables_of pending) transitions (one-IsKeyed, one-IsRecorded)

run-IsFollowed_example : IsFollowed (pending ∷ []) (run (tables_of pending) transitions).bookings
run-IsFollowed_example =
    run-IsFollowed (tables_of pending) transitions (one-IsKeyed, one-IsRecorded)

mark_paid_decides_example :
    let left = load_payment_record (paid_row "a1" "p1" 1000 pending) [] in
    let u =
      (mark_paid "b1" owner "a1" "p1" 1000 (event_of booking_paid) none (tables_of pending)).1 in
    ((mark_paid "b1" owner "a1" "p1" 1000 (event_of booking_paid) none (tables_of pending)).0
      ≡ ok left)
    × (mark_expired "b1" owner 2000 reconciler (event_of booking_expired) u ≡ (ok (left, false), u))
    × (mark_paid "b1" owner "a2" "p2" 2000 (event_of booking_paid) none u ≡ (ok left, u))
mark_paid_decides_example =
    mark_paid_decides "b1" owner "a1" "p1" "a2" "p2" 1000 2000 reconciler (event_of booking_paid)
      (event_of booking_expired) (event_of booking_paid) none none (tables_of pending) pending
      one-IsKeyed refl refl

abbrev settled : BookingRow
settled = paid_row "a1" "p1" 1000 pending

mark_cancelled_decides_example :
    let left =
      load_payment_record (cancelled_row "x1" 3000 "BEFORE_DEPARTURE_FULL_RELEASE" settled) [] in
    let u =
      (mark_cancelled "b1" owner "x1" 3000 "BEFORE_DEPARTURE_FULL_RELEASE"
        (event_of booking_cancelled)
        none
        (tables_of settled)).1 in
    ((mark_cancelled "b1" owner "x1" 3000 "BEFORE_DEPARTURE_FULL_RELEASE"
        (event_of booking_cancelled)
        none
        (tables_of settled)).0
      ≡ ok (left, true))
    × (u.history ≡ created ∷ history_row "b1" paid cancelled "CUSTOMER" "c1" 3000 ∷ [])
    × (u.outbox ≡ enqueue_booking_event (event_of booking_cancelled) [])
    × (mark_cancelled "b1" owner "x2" 5000 "BEFORE_DEPARTURE_FULL_RELEASE"
          (event_of booking_cancelled)
          none
          u
        ≡ (ok (left, false), u))
mark_cancelled_decides_example =
    mark_cancelled_decides "b1" owner "x1" "x2" 3000 5000 "BEFORE_DEPARTURE_FULL_RELEASE"
      "BEFORE_DEPARTURE_FULL_RELEASE" (event_of booking_cancelled) (event_of booking_cancelled) none
      none (tables_of settled) settled refl refl

abbrev input : PersistBookingInput
input = record {
  id = "b2";
  booking_code = "BK2";
  owner = owner;
  idempotency_key = "k2";
  request_fingerprint = "f2";
  hold_token = "h2";
  hold_expires_at = 600000;
  contact = pending.contact;
  normalized_email = pending.normalized_email;
  trip = pending.trip;
  passengers =
      record {
        id = "p1";
        seat_id = "A01";
        full_name = "An";
        phone = none;
        document_number_hash = none;
      }
      ∷ [];
  total_price_vnd = 250000;
  created_at = 500;
}

abbrev created_record : BookingReplayRecord
created_record = record {
  booking = map_booking (booking_row input) (passenger_row "b2" p ∷ []);
  request_fingerprint = "f2";
}
  where
    p : PersistPassenger
    p = record {
      id = "p1";
      seat_id = "A01";
      full_name = "An";
      phone = none;
      document_number_hash = none;
    }

input_is_created :
    (create_or_replay input (event_of booking_created) (tables_of pending)).0 ≡ ok created_record
unfolding create_or_replay insert_booking insert_passengers find_by_idempotency map_booking trim
    trim_start trim_end is_space in_range
input_is_created = refl

create_or_replay_again_example :
    create_or_replay
      (record input { id = "b3"; booking_code = "BK3" })
      (event_of booking_created)
      (create_or_replay input (event_of booking_created) (tables_of pending)).1
    ≡ (ok created_record, (create_or_replay input (event_of booking_created) (tables_of pending)).1)
create_or_replay_again_example =
    create_or_replay_again input (record input { id = "b3"; booking_code = "BK3" })
      (event_of booking_created) (event_of booking_created) (tables_of pending) created_record
      input_is_created refl refl

create_or_replay-IsConsistent_example :
    IsConsistent (create_or_replay input (event_of booking_created) (tables_of pending)).1
create_or_replay-IsConsistent_example =
    create_or_replay-IsConsistent input (event_of booking_created) (tables_of pending)
      (one-IsKeyed, one-IsRecorded)

-- A ticket of a paid booking that was issued.
abbrev passenger : PassengerRow
passenger = record {
  booking_id = "b1";
  passenger = record {
    id = "p1";
    seat_id = "A1";
    full_name = "An";
    phone = none;
    has_document_number = false;
  };
}

abbrev issued : BookingTables
issued = record (tables_of (record pending { status = ticket_issued })) {
  passengers = passenger ∷ [];
  tickets =
      record {
        ticket_id = "t1";
        booking_id = "b1";
        passenger_id = "p1";
        ticket_code = "TC1";
        qr_payload_hash = "q1";
        issued_at = 0;
      }
      ∷ [];
}

abbrev scan : TicketCheckInCommand
scan = record {
  kind = ticket_code;
  credential = "TC1";
  trip_id = "t1";
  idempotency_key = "scan-key-0000000001";
  actor = record { id = "s1"; role = "STAFF" };
  request_id = "r1";
  trace_id = "x1";
}

-- The check-in writes one row.
scan_checks_in : length (check_in_ticket scan 5 [] issued).1.check_ins ≡ 1
unfolding check_in_ticket staff_tickets checked_in_tables
scan_checks_in = refl

nothing_twice : IsOnce []
nothing_twice = ((λ ticket_id. omega arith), λ actor_id key. omega arith)

-- The same ticket under another key.
abbrev rival_scan : TicketCheckInCommand
rival_scan = record scan { idempotency_key = "scan-key-0000000002" }

abbrev scanned : BookingTables
scanned = (check_in_ticket scan 5 [] issued).1

-- A scan whose join was read before the first scan ended meets the primary key.
rival_is_refused : (check_in_ticket rival_scan 6 [] scanned).0 ≡ err constraint_violated
unfolding check_in_ticket staff_tickets checked_in_tables
rival_is_refused = refl

scanned-IsOnce : IsOnce scanned.check_ins
scanned-IsOnce = (check_in_ticket-IsOnce scan 5 issued [] nothing_twice).0

check_in_ticket-IsOnce_example :
    IsOnce (check_in_ticket rival_scan 6 [] scanned).1.check_ins
    × ((view : StaffTicketView)
        → (check_in_ticket rival_scan 6 [] scanned).0 ≡ ok (some (view, true))
        → (row : CheckInRow) × (find
              (is_prior rival_scan 6)
              (check_in_ticket rival_scan 6 [] scanned).1.check_ins
            ≡ some row)
          × (row.ticket_id ≡ view.ticket_id))
check_in_ticket-IsOnce_example = check_in_ticket-IsOnce rival_scan 6 scanned [] scanned-IsOnce
