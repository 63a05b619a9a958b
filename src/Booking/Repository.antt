-- ===== src/Booking/Repository.antt =====
-- The transitions of services/booking-service/src/booking.repository.ts. A table is the list of its
-- rows; a transaction is one step, and an error leaves the tables as they were.
pub mod Rows
pub mod Status
pub mod History
pub mod Races
pub mod Cancel
pub mod Runs
use bus_ai_booking.Prelude.{
  ℕ, String, Bool, true, false, ◌&&◌, Option, none, some, List, [], ◌∷◌, ◌++◌, map, filter, find,
  length, max, ◌==◌, string_eq, ℕ_eq, if◌then◌else◌, get_or, take, Result, ok, err,
}
use bus_ai_booking.Booking.Types.{
  BookingStatus, pending_payment, paid, expired, cancelled, is_pending_payment, is_cancellable,
  is_cancelled, CheckoutOwner, BookingActor, BookingPassenger, BookingView, BookingPaymentRecord,
  BookingRow, PassengerRow, StatusHistoryRow, OperationalAuditRow, OperationalAuditContext,
}
use bus_ai_booking.Booking.TicketTypes.{TicketReferenceRow, CheckInRow}
use bus_ai_booking.Booking.Outbox.{BookingDomainEvent, OutboxRow, enqueue_booking_event}

-- The tables of the schema booking that are modelled. The order by seat in which the
-- passengers are read is left to the table.
pub record BookingTables : Type 0 where
  pub bookings : List BookingRow
  pub passengers : List PassengerRow
  pub history : List StatusHistoryRow
  pub outbox : List OutboxRow
  pub audit : List OperationalAuditRow
  pub tickets : List TicketReferenceRow
  pub check_ins : List CheckInRow

-- The plain error on a booking that must be there.
pub data BookingStoreError : Type 0 where
  booking_not_found : BookingStoreError

abbrev pub same_owner : CheckoutOwner → CheckoutOwner → Bool
same_owner a b = a.type == b.type && a.id == b.id

-- `id = $1 AND checkout_owner_type = $2 AND checkout_owner_id = $3`
abbrev pub is_owned : String → CheckoutOwner → BookingRow → Bool
is_owned id owner row = row.id == id && same_owner row.checkout_owner owner

-- UPDATE of the rows that meet the condition.
abbrev pub update_where :
    (BookingRow → Bool) → (BookingRow → BookingRow) → List BookingRow → List BookingRow
update_where condition change rows =
    map (λ (row : BookingRow). if condition row then change row else row) rows

-- `rowCount` of the UPDATE is one.
unfoldable pub is_one : (BookingRow → Bool) → List BookingRow → Bool
is_one condition rows = length (filter condition rows) == 1

-- `mapBooking`, with the passengers of the row.
unfoldable pub map_booking : BookingRow → List PassengerRow → BookingView
map_booking row passengers = record {
  id = row.id;
  booking_code = row.booking_code;
  status = row.status;
  trip = row.trip;
  contact = row.contact;
  passengers =
      map (λ (p : PassengerRow). p.passenger)
        (filter (λ (p : PassengerRow). p.booking_id == row.id) passengers);
  total_price_vnd = row.total_price_vnd;
  hold_expires_at = row.hold_expires_at;
  created_at = row.created_at;
}

-- `loadPaymentRecord`
unfoldable pub load_payment_record : BookingRow → List PassengerRow → BookingPaymentRecord
load_payment_record row passengers = record {
  booking = map_booking row passengers;
  hold_token = row.hold_token;
  paid_payment_attempt_id = row.paid_payment_attempt_id;
  payment_idempotency_key = row.payment_idempotency_key;
  paid_at = row.paid_at;
  cancelled_at = row.cancelled_at;
  cancellation_idempotency_key = row.cancellation_idempotency_key;
  cancellation_policy_code = row.cancellation_policy_code;
  cancellation_seats_released_at = row.cancellation_seats_released_at;
}

abbrev pub loaded : List PassengerRow → Option BookingRow → Option BookingPaymentRecord
loaded passengers none = none
loaded passengers (some row) = some (load_payment_record row passengers)

-- `findOwnedById`
unfoldable pub find_owned_by_id :
    String → CheckoutOwner → BookingTables → Option BookingPaymentRecord
find_owned_by_id id owner t = loaded t.passengers (find (is_owned id owner) t.bookings)

abbrev pub history_row :
    String → BookingStatus → BookingStatus → String → String → ℕ → StatusHistoryRow
history_row id before after actor_type actor_id occurred_at = record {
  booking_id = id;
  from_status = some before;
  to_status = after;
  actor = record { type = actor_type; id = actor_id };
  occurred_at = occurred_at;
}

-- `insertOperationalAudit`, where there is a context.
abbrev pub insert_audit :
    String
    → String
    → String
    → ℕ
    → Option OperationalAuditContext
    → List OperationalAuditRow
    → List OperationalAuditRow
insert_audit action id trip_id occurred_at none rows = rows
insert_audit action id trip_id occurred_at (some c) rows =
    rows
    ++ record {
      action = action;
      target_type = "BOOKING";
      target_id = id;
      trip_id = trip_id;
      actor_id = c.actor_id;
      actor_role = c.actor_role;
      request_id = c.request_id;
      trace_id = c.trace_id;
      occurred_at = occurred_at;
    }
      ∷ []

abbrev pub is_pending_of : String → CheckoutOwner → BookingRow → Bool
is_pending_of id owner row = is_owned id owner row && is_pending_payment row.status

-- The read that ends a transition, and the commit or the rollback.
abbrev pub read_back :
    BookingTables
    → BookingTables
    → Bool
    → Option BookingRow
    → Result BookingStoreError (BookingPaymentRecord × Bool) × BookingTables
read_back before after transitioned none = (err booking_not_found, before)
read_back before after transitioned (some row) =
    (ok (load_payment_record row before.passengers, transitioned), after)

-- The same of `markPaid`, which does not say whether it changed the booking.
abbrev pub read_payment :
    BookingTables
    → BookingTables
    → Option BookingRow
    → Result BookingStoreError BookingPaymentRecord × BookingTables
read_payment before after none = (err booking_not_found, before)
read_payment before after (some row) = (ok (load_payment_record row before.passengers), after)

abbrev pub paid_row : String → String → ℕ → BookingRow → BookingRow
paid_row attempt_id key now row = record row {
  status = paid;
  paid_payment_attempt_id = some attempt_id;
  payment_idempotency_key = some key;
  paid_at = some now;
  updated_at = now;
}

-- The tables after the UPDATE of `markPaid` and what is written where it changed one row.
unfoldable pub paid_tables :
    String
    → CheckoutOwner
    → String
    → String
    → ℕ
    → BookingDomainEvent
    → Option OperationalAuditContext
    → BookingTables
    → BookingTables
paid_tables id owner attempt_id key now event audit t =
    let rows = update_where (is_pending_of id owner) (paid_row attempt_id key now) t.bookings in
    if is_one (is_pending_of id owner) t.bookings
    then record t {
      bookings = rows;
      history = t.history ++ history_row id pending_payment paid owner.type owner.id now ∷ [];
      outbox = enqueue_booking_event event t.outbox;
      audit = insert_audit "BOOKING_PAID" id event.trip_id now audit t.audit;
    }
    else record t { bookings = rows }

-- `markPaid`; the flag says whether it was this call that paid, and is not returned by the source.
unfoldable pub mark_paid :
    String
    → CheckoutOwner
    → String
    → String
    → ℕ
    → BookingDomainEvent
    → Option OperationalAuditContext
    → BookingTables
    → Result BookingStoreError BookingPaymentRecord × BookingTables
mark_paid id owner attempt_id key now event audit t =
    let after = paid_tables id owner attempt_id key now event audit t in
    read_payment t after (find (is_owned id owner) after.bookings)

abbrev pub expired_row : ℕ → BookingRow → BookingRow
expired_row now row = record row { status = expired; expired_at = some now; updated_at = now }

-- The tables after the UPDATE of `markExpired` and what is written where it changed one row.
unfoldable pub expired_tables :
    String → CheckoutOwner → ℕ → BookingActor → BookingDomainEvent → BookingTables → BookingTables
expired_tables id owner now actor event t =
    let rows = update_where (is_pending_of id owner) (expired_row now) t.bookings in
    if is_one (is_pending_of id owner) t.bookings
    then record t {
      bookings = rows;
      history = t.history ++ history_row id pending_payment expired actor.type actor.id now ∷ [];
      outbox = enqueue_booking_event event t.outbox;
    }
    else record t { bookings = rows }

-- `markExpired`
unfoldable pub mark_expired :
    String
    → CheckoutOwner
    → ℕ
    → BookingActor
    → BookingDomainEvent
    → BookingTables
    → Result BookingStoreError (BookingPaymentRecord × Bool) × BookingTables
mark_expired id owner now actor event t =
    let after = expired_tables id owner now actor event t in
    read_back t after (is_one (is_pending_of id owner) t.bookings)
      (find (is_owned id owner) after.bookings)

abbrev pub cancelled_row : String → ℕ → String → BookingRow → BookingRow
cancelled_row key now policy row = record row {
  status = cancelled;
  cancelled_at = some now;
  cancellation_idempotency_key = some key;
  cancellation_policy_code = some policy;
  updated_at = now;
}

abbrev pub cancel_selected :
    String
    → CheckoutOwner
    → String
    → ℕ
    → String
    → BookingDomainEvent
    → Option OperationalAuditContext
    → BookingTables
    → Option BookingRow
    → Result BookingStoreError (BookingPaymentRecord × Bool) × BookingTables
cancel_selected id owner key now policy event audit t none = (err booking_not_found, t)
cancel_selected id owner key now policy event audit t (some before) =
    let rows = update_where (is_owned id owner) (cancelled_row key now policy) t.bookings in
    if is_cancellable before.status
    then read_back t
        (record t {
          bookings = rows;
          history =
              t.history ++ history_row id before.status cancelled "CUSTOMER" owner.id now ∷ [];
          outbox = enqueue_booking_event event t.outbox;
          audit = insert_audit "BOOKING_CANCELLED" id event.trip_id now audit t.audit;
        })
        true (find (is_owned id owner) rows)
    else read_back t t false (some before)

-- `markCancelled`; without a transition the row that was selected is the one read after it.
unfoldable pub mark_cancelled :
    String
    → CheckoutOwner
    → String
    → ℕ
    → String
    → BookingDomainEvent
    → Option OperationalAuditContext
    → BookingTables
    → Result BookingStoreError (BookingPaymentRecord × Bool) × BookingTables
mark_cancelled id owner key now policy event audit t =
    cancel_selected id owner key now policy event audit t (find (is_owned id owner) t.bookings)

abbrev pub is_key : String → Option String → Bool
is_key key none = false
is_key key (some other) = other == key

-- `WHERE id = $1 AND status = 'CANCELLED' AND cancellation_idempotency_key = $2`
abbrev pub is_cancelled_by : String → String → BookingRow → Bool
is_cancelled_by id key row =
    row.id == id && (is_cancelled row.status && is_key key row.cancellation_idempotency_key)

-- COALESCE keeps the first instant, GREATEST the later one.
abbrev pub released_row : ℕ → BookingRow → BookingRow
released_row released_at row = record row {
  cancellation_seats_released_at = some (get_or row.cancellation_seats_released_at released_at);
  updated_at = max row.updated_at released_at;
}

-- `markCancellationSeatsReleased`
unfoldable pub mark_cancellation_seats_released :
    String → String → ℕ → BookingTables → BookingTables
mark_cancellation_seats_released id key released_at t = record t {
  bookings = update_where (is_cancelled_by id key) (released_row released_at) t.bookings;
}
