-- ===== src/Booking/CheckIn.antt =====
-- The reads of the staff and the check-in, of services/booking-service/src/booking.repository.ts.
pub mod Once
use bus_ai_booking.Prelude.{
  ℕ, String, Bool, true, false, not, ◌&&◌, ◌||◌, Option, none, some, List, [], ◌∷◌, ◌++◌, map,
  filter, find, any, length, ◌==◌, string_eq, ℕ_eq, if◌then◌else◌, Result, ok, err, is_some,
}
use bus_ai_booking.Prelude.Text.{joined}
use bus_ai_booking.Booking.Types.{
  BookingStatus, paid, ticket_issued, checked_in, completed, is_paid, is_ticket_issued, BookingRow,
  BookingPassenger, PassengerRow, BookingActor, StatusHistoryRow, OperationalAuditRow,
}
use bus_ai_booking.Booking.TicketTypes.{
  TicketReferenceRow, PersistedTicketReference, StaffActor, CheckInRow, StaffTicketCredentialKind,
  booking_code, ticket_code, qr_payload, TicketCheckInCommand, StaffTicketRow, StaffTicketView,
  TicketError, wrong_trip, constraint_violated, check_in_conflict, check_in_state,
}
use bus_ai_booking.Booking.Repository.{BookingTables, update_where, history_row}
use bus_ai_booking.Booking.Tickets.{has_booking_id}

abbrev pub is_check_in_of : String → CheckInRow → Bool
is_check_in_of ticket_id row = row.ticket_id == ticket_id

abbrev pub instant_of : Option CheckInRow → Option ℕ
instant_of none = none
instant_of (some row) = some row.checked_in_at

abbrev pub joined_ticket :
    TicketReferenceRow → BookingRow → PassengerRow → Option CheckInRow → StaffTicketRow
joined_ticket ref booking p check_in = record {
  ticket_id = ref.ticket_id;
  ticket_code = ref.ticket_code;
  qr_payload_hash = ref.qr_payload_hash;
  booking_id = booking.id;
  booking_code = booking.booking_code;
  booking_status = booking.status;
  passenger_id = p.passenger.id;
  passenger_name = p.passenger.full_name;
  seat_id = p.passenger.seat_id;
  trip_id = booking.trip.trip_id;
  origin_name = booking.trip.origin_name;
  destination_name = booking.trip.destination_name;
  departure_at = booking.trip.departure_at;
  checked_in_at = instant_of check_in;
}

-- One row of the join: none, where the booking or the passenger is not there.
abbrev pub staff_ticket :
    TicketReferenceRow
    → Option BookingRow
    → Option PassengerRow
    → Option CheckInRow
    → List StaffTicketRow
    → List StaffTicketRow
staff_ticket ref none passenger check_in more = more
staff_ticket ref (some booking) none check_in more = more
staff_ticket ref (some booking) (some p) check_in more = joined_ticket ref booking p check_in ∷ more

-- `staffTicketSelectSql`: the ids that it joins by are keys, so each finds one row.
unfoldable pub staff_tickets : BookingTables → List TicketReferenceRow → List StaffTicketRow
staff_tickets t [] = []
staff_tickets t (ref ∷ rest) =
    staff_ticket ref (find (has_booking_id ref.booking_id) t.bookings)
      (find (λ (p : PassengerRow). p.passenger.id == ref.passenger_id) t.passengers)
      (find (is_check_in_of ref.ticket_id) t.check_ins) (staff_tickets t rest)

-- `ticketCredentialClause`
abbrev pub has_credential : StaffTicketCredentialKind → String → StaffTicketRow → Bool
has_credential booking_code credential row = row.booking_code == credential
has_credential ticket_code credential row = row.ticket_code == credential
has_credential qr_payload credential row = row.qr_payload_hash == credential

-- `mapStaffTicket`
unfoldable pub map_staff_ticket : StaffTicketRow → StaffTicketView
map_staff_ticket row = record {
  ticket_id = row.ticket_id;
  ticket_code = row.ticket_code;
  booking_id = row.booking_id;
  booking_code = row.booking_code;
  booking_status = row.booking_status;
  passenger_id = row.passenger_id;
  passenger_name = row.passenger_name;
  seat_id = row.seat_id;
  trip_id = row.trip_id;
  route_label = joined row.origin_name (joined " -> " row.destination_name);
  departure_at = row.departure_at;
  checked_in_at = row.checked_in_at;
}

-- `findStaffTickets`; the order by seat is left to the table.
unfoldable pub find_staff_tickets :
    StaffTicketCredentialKind → String → BookingTables → List StaffTicketView
find_staff_tickets kind credential t =
    map map_staff_ticket (filter (has_credential kind credential) (staff_tickets t t.tickets))

abbrev pub is_issued_id : String → BookingRow → Bool
is_issued_id id row = row.id == id && is_ticket_issued row.status

abbrev pub checked_in_row : ℕ → BookingRow → BookingRow
checked_in_row now row = record row { status = checked_in; updated_at = now }

module _ (command : TicketCheckInCommand) (now : ℕ) where
  abbrev pub check_in_row : StaffTicketRow → CheckInRow
  check_in_row ticket = record {
    ticket_id = ticket.ticket_id;
    booking_id = ticket.booking_id;
    passenger_id = ticket.passenger_id;
    idempotency_key = command.idempotency_key;
    actor = command.actor;
    request_id = command.request_id;
    trace_id = command.trace_id;
    checked_in_at = now;
  }

  -- The event of `insertOperationalAudit`
  abbrev pub check_in_audit : StaffTicketRow → OperationalAuditRow
  check_in_audit ticket = record {
    action = "TICKET_CHECKED_IN";
    target_type = "TICKET";
    target_id = ticket.ticket_id;
    trip_id = ticket.trip_id;
    actor_id = command.actor.id;
    actor_role = command.actor.role;
    request_id = command.request_id;
    trace_id = command.trace_id;
    occurred_at = now;
  }

  -- The tables after a first check-in of a ticket.
  unfoldable pub checked_in_tables : StaffTicketRow → BookingTables → BookingTables
  checked_in_tables ticket t =
      let after = record t {
        check_ins = t.check_ins ++ check_in_row ticket ∷ [];
        audit = t.audit ++ check_in_audit ticket ∷ [];
      } in
      if is_ticket_issued ticket.booking_status
      then record after {
        bookings = update_where (is_issued_id ticket.booking_id) (checked_in_row now) t.bookings;
        history =
            t.history
            ++ history_row ticket.booking_id ticket_issued checked_in command.actor.role
                command.actor.id now
              ∷ [];
      }
      else after

  abbrev pub is_prior : CheckInRow → Bool
  is_prior row = row.actor.id == command.actor.id && row.idempotency_key == command.idempotency_key

  abbrev pub is_boarding : BookingStatus → Bool
  is_boarding ticket_issued = true
  is_boarding checked_in = true
  is_boarding _ = false

  -- The INSERT meets the primary key, the ticket, or the unique key of the actor and the key.
  abbrev pub is_repeated : StaffTicketRow → List CheckInRow → Bool
  is_repeated ticket rows =
      any (λ (row : CheckInRow). is_check_in_of ticket.ticket_id row || is_prior row) rows

  -- A ticket whose state allows it, by whether it was read as checked in.
  abbrev pub check_in_open :
      StaffTicketRow
      → BookingTables
      → Option ℕ
      → Result TicketError (Option (StaffTicketView × Bool)) × BookingTables
  check_in_open ticket t (some earlier) = (ok (some (map_staff_ticket ticket, false)), t)
  check_in_open ticket t none =
      if is_repeated ticket t.check_ins then (err constraint_violated, t) else (
        ok (
            some (
              map_staff_ticket
                  (record ticket { booking_status = checked_in; checked_in_at = some now }),
              true,
            )),
        checked_in_tables ticket t,
      )

  -- By the earlier check-in of the actor under the key.
  abbrev pub check_in_fresh :
      StaffTicketRow
      → BookingTables
      → Option CheckInRow
      → Result TicketError (Option (StaffTicketView × Bool)) × BookingTables
  check_in_fresh ticket t (some prior) =
      if prior.ticket_id == ticket.ticket_id
      then (ok (some (map_staff_ticket ticket, true)), t)
      else (err check_in_conflict, t)
  check_in_fresh ticket t none =
      if is_boarding ticket.booking_status
      then check_in_open ticket t ticket.checked_in_at
      else (err (check_in_state ticket.booking_status), t)

  abbrev pub check_in_found :
      BookingTables
      → Option StaffTicketRow
      → Result TicketError (Option (StaffTicketView × Bool)) × BookingTables
  check_in_found t none = (ok none, t)
  check_in_found t (some ticket) =
      if ticket.trip_id == command.trip_id
      then check_in_fresh ticket t (find is_prior t.check_ins)
      else (err wrong_trip, t)

  -- `checkInTicket`. `FOR UPDATE OF ticket_ref, booking` waits for their rows and reads them anew, but
  -- not the check-in that is joined: `seen` are the check-ins of the snapshot before the wait.
  unfoldable pub check_in_ticket :
      List CheckInRow
      → BookingTables
      → Result TicketError (Option (StaffTicketView × Bool)) × BookingTables
  check_in_ticket seen t = check_in_found t (
      find (has_credential command.kind command.credential)
        (staff_tickets (record t { check_ins = seen }) t.tickets))
