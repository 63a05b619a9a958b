-- ===== src/Booking/Tickets.antt =====
-- The tickets in services/booking-service/src/booking.repository.ts: `markTicketIssued`,
-- `findStaffTickets` and `checkInTicket`. Each transaction is one step
-- on the tables at its writes.
use bus_ai_booking.Prelude.{
  ℕ, String, Bool, true, false, not, ◌&&◌, ◌||◌, Option, none, some, List, [], ◌∷◌, ◌++◌, map,
  filter, find, any, length, ◌==◌, string_eq, ℕ_eq, if◌then◌else◌, Result, ok, err,
}
use bus_ai_booking.Prelude.Text.{trim}
use bus_ai_booking.Prelude.Sorting.{text_leb}
use bus_ai_booking.Booking.Types.{
  BookingStatus, paid, ticket_issued, checked_in, completed, is_paid, BookingRow, PassengerRow,
}
use bus_ai_booking.Booking.TicketTypes.{
  TicketReferenceRow, PersistedTicketReference, TicketError, booking_missing, reference_conflict,
  constraint_violated,
}
use bus_ai_booking.Booking.Repository.{BookingTables, update_where, is_one, history_row}

abbrev pub has_booking_id : String → BookingRow → Bool
has_booking_id id row = row.id == id

-- `['PAID', 'TICKET_ISSUED', 'CHECKED_IN', 'COMPLETED'].includes(currentStatus)`
abbrev pub is_fulfillable : BookingStatus → Bool
is_fulfillable paid = true
is_fulfillable ticket_issued = true
is_fulfillable checked_in = true
is_fulfillable completed = true
is_fulfillable _ = false

-- Another unique key of the row that is to be inserted.
abbrev pub clashes : String → PersistedTicketReference → TicketReferenceRow → Bool
clashes booking_id ticket row =
    row.ticket_code == ticket.ticket_code
    || (row.qr_payload_hash == ticket.qr_payload_hash
        || row.booking_id == booking_id && row.passenger_id == ticket.passenger_id)

abbrev pub is_passenger_of : String → String → PassengerRow → Bool
is_passenger_of booking_id passenger_id row =
    row.booking_id == booking_id && row.passenger.id == passenger_id

-- The INSERT of one reference, `ON CONFLICT (ticket_id) DO NOTHING`; nothing where it throws.
unfoldable pub insert_ticket :
    String
    → ℕ
    → List PassengerRow
    → PersistedTicketReference
    → List TicketReferenceRow
    → Option (List TicketReferenceRow)
insert_ticket booking_id now passengers ticket rows =
    if any (λ (row : TicketReferenceRow). row.ticket_id == ticket.ticket_id) rows
    then some rows
    else if any (clashes booking_id ticket) rows
        || not (any (is_passenger_of booking_id ticket.passenger_id) passengers)
    then none
    else some (
        rows
        ++ record {
          ticket_id = ticket.ticket_id;
          booking_id = booking_id;
          passenger_id = ticket.passenger_id;
          ticket_code = ticket.ticket_code;
          qr_payload_hash = ticket.qr_payload_hash;
          issued_at = now;
        }
          ∷ [])

abbrev pub and_insert :
    (List TicketReferenceRow → Option (List TicketReferenceRow))
    → Option (List TicketReferenceRow)
    → Option (List TicketReferenceRow)
and_insert rest none = none
and_insert rest (some rows) = rest rows

-- The loop over the tickets.
unfoldable pub insert_tickets :
    String
    → ℕ
    → List PassengerRow
    → List PersistedTicketReference
    → List TicketReferenceRow
    → Option (List TicketReferenceRow)
insert_tickets booking_id now passengers [] rows = some rows
insert_tickets booking_id now passengers (ticket ∷ rest) rows =
    and_insert (insert_tickets booking_id now passengers rest)
      (insert_ticket booking_id now passengers ticket rows)

-- What is compared of a reference, stored or expected.
abbrev pub as_reference : TicketReferenceRow → PersistedTicketReference
as_reference row = record {
  ticket_id = row.ticket_id;
  passenger_id = row.passenger_id;
  ticket_code = row.ticket_code;
  qr_payload_hash = trim row.qr_payload_hash;
}

unfoldable pub insert_by_passenger :
    PersistedTicketReference → List PersistedTicketReference → List PersistedTicketReference
insert_by_passenger a [] = a ∷ []
insert_by_passenger a (x ∷ xs) =
    let rest = insert_by_passenger a xs in
    if text_leb a.passenger_id x.passenger_id then a ∷ x ∷ xs else x ∷ rest

-- `ORDER BY passenger_id`, and the sort by `localeCompare`: ids of passengers are UUIDs in lower case,
-- which both order as their texts.
unfoldable pub by_passenger : List PersistedTicketReference → List PersistedTicketReference
unfolding insert_by_passenger
by_passenger [] = []
by_passenger (x ∷ xs) = insert_by_passenger x (by_passenger xs)

unfoldable pub all_same : List PersistedTicketReference → List PersistedTicketReference → Bool
all_same [] [] = true
all_same [] (y ∷ ys) = false
all_same (x ∷ xs) [] = false
all_same (x ∷ xs) (y ∷ ys) =
    x.ticket_id == y.ticket_id
    && (x.passenger_id == y.passenger_id
        && (x.ticket_code == y.ticket_code
            && (x.qr_payload_hash == y.qr_payload_hash && all_same xs ys)))

-- `sameTicketReferences`, of the stored references of the booking
unfoldable pub same_ticket_references :
    List TicketReferenceRow → List PersistedTicketReference → Bool
same_ticket_references stored expected =
    length stored == length expected
    && all_same (by_passenger (map as_reference stored)) (by_passenger expected)

abbrev pub is_paid_id : String → BookingRow → Bool
is_paid_id id row = row.id == id && is_paid row.status

abbrev pub issued_row : ℕ → BookingRow → BookingRow
issued_row now row = record row { status = ticket_issued; updated_at = now }

-- The tables after the references are there and agree.
unfoldable pub issued_tables :
    String → ℕ → String → List TicketReferenceRow → BookingTables → BookingTables
issued_tables id now actor_id rows t =
    let bookings = update_where (is_paid_id id) (issued_row now) t.bookings in
    if is_one (is_paid_id id) t.bookings
    then record t {
      bookings = bookings;
      tickets = rows;
      history = t.history ++ history_row id paid ticket_issued "SYSTEM" actor_id now ∷ [];
    }
    else record t { bookings = bookings; tickets = rows }

abbrev pub issue_answer :
    BookingTables
    → BookingTables
    → Bool
    → Option BookingRow
    → Result TicketError (BookingStatus × Bool) × BookingTables
issue_answer before after transitioned none = (err booking_missing, before)
issue_answer before after transitioned (some row) = (ok (row.status, transitioned), after)

module _ (id : String) (now : ℕ) (actor_id : String) (tickets : List PersistedTicketReference)
    (t : BookingTables) where
  abbrev pub issue_inserted :
      Option (List TicketReferenceRow) → Result TicketError (BookingStatus × Bool) × BookingTables
  issue_inserted none = (err constraint_violated, t)
  issue_inserted (some rows) =
      let after = issued_tables id now actor_id rows t in
      if same_ticket_references (filter (λ (row : TicketReferenceRow). row.booking_id == id) rows)
        tickets
      then issue_answer t after (is_one (is_paid_id id) t.bookings)
          (find (has_booking_id id) after.bookings)
      else (err reference_conflict, t)

  abbrev pub issue_locked :
      Option BookingRow → Result TicketError (BookingStatus × Bool) × BookingTables
  issue_locked none = (err booking_missing, t)
  issue_locked (some row) =
      if is_fulfillable row.status
      then issue_inserted (insert_tickets id now t.passengers tickets t.tickets)
      else (ok (row.status, false), t)

  -- `markTicketIssued`
  unfoldable pub mark_ticket_issued : Result TicketError (BookingStatus × Bool) × BookingTables
  mark_ticket_issued = issue_locked (find (has_booking_id id) t.bookings)
