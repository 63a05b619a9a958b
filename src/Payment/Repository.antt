-- ===== src/Payment/Repository.antt =====
-- services/payment-service/src/payment.repository.ts and the insert of payment-outbox.repository.ts.
-- A table is the list of its rows; an insert names the unique indexes of the migrations 008 and 011.
pub mod Laws
pub mod Invariant
use bus_ai_booking.Prelude.{
  ℕ, String, Bool, true, false, not, ◌&&◌, ◌||◌, List, [], ◌∷◌, ◌++◌, Option, none, some, ◌==◌,
  string_eq, leb, if◌then◌else◌, find, any, filter, includes, get_or, Result, ok, err, ◌>>=◌, ◌>>◌,
  require,
}
use bus_ai_booking.Prelude.Text.{trim, is_key, is_uuid}
use bus_ai_booking.Prelude.Number.{Number, whole, integer_between}
use bus_ai_booking.Prelude.Digest.{Digest}
use bus_ai_booking.Payment.Types.{
  PaymentOwner, RequestedPaymentOutcome, success, failure, PaymentAttemptStatus, succeeded, failed,
  is_succeeded, PaymentAttemptView, CreatePaymentAttemptRequest, ValidatedPaymentAttemptRequest,
  PersistPaymentAttemptInput, PaymentAttemptRow, PaymentAttemptRecord, FingerprintSource,
}
use bus_ai_booking.Payment.Events.{
  Drawn, PaymentAttempted, PaymentEventDispatch, create_payment_attempted_dispatch,
}

pub data PaymentError : Type 0 where
  validation idempotency_conflict no_record : PaymentError

-- The tables payment.attempts and payment.outbox_events.
pub record PaymentTables : Type 0 where
  pub attempts : List PaymentAttemptRow
  pub outbox : List PaymentEventDispatch

-- The row is refused by the primary key, by the key of the booking, or by the index on successes.
unfoldable pub conflicts : PaymentAttemptRow → PaymentAttemptRow → Bool
conflicts new old =
    new.id == old.id
    || new.booking_id == old.booking_id && new.idempotency_key == old.idempotency_key
    || new.booking_id == old.booking_id && (is_succeeded new.status && is_succeeded old.status)

unfoldable pub has_key : String → String → PaymentAttemptRow → Bool
has_key booking_id key row = row.booking_id == booking_id && row.idempotency_key == key

unfoldable pub has_success : String → PaymentAttemptRow → Bool
has_success booking_id row = row.booking_id == booking_id && is_succeeded row.status

unfoldable pub map_record : PaymentAttemptRow → PaymentAttemptRecord
map_record row = record {
  attempt = record {
    id = row.id;
    booking_id = row.booking_id;
    status = row.status;
    amount_vnd = row.amount_vnd;
    failure_code = row.failure_code;
    created_at = row.created_at;
  };
  request_fingerprint = trim row.request_fingerprint;
}

unfoldable pub map_found : Option PaymentAttemptRow → Option PaymentAttemptRecord
unfolding map_record
map_found none = none
map_found (some row) = some (map_record row)

unfoldable pub find_by_idempotency : String → String → PaymentTables → Option PaymentAttemptRecord
unfolding map_found has_key
find_by_idempotency booking_id key t = map_found (find (has_key booking_id key) t.attempts)

-- `ORDER BY created_at LIMIT 1`
unfoldable pub earliest : List PaymentAttemptRow → Option PaymentAttemptRow
earliest [] = none
earliest (row ∷ rows) = elim (earliest rows) [
  | none ↦ some row
  | some other ↦ if leb row.created_at other.created_at then some row else some other
]

unfoldable pub find_success : String → PaymentTables → Option PaymentAttemptRecord
unfolding map_found has_success earliest
find_success booking_id t = map_found (earliest (filter (has_success booking_id) t.attempts))

unfoldable pub attempt_row : PersistPaymentAttemptInput → PaymentAttemptRow
attempt_row input = record {
  id = input.id;
  booking_id = input.request.booking_id;
  owner = input.request.owner;
  amount_vnd = input.request.amount_vnd;
  requested_outcome = input.request.requested_outcome;
  status = input.status;
  failure_code = input.failure_code;
  idempotency_key = input.request.idempotency_key;
  request_fingerprint = input.request.request_fingerprint;
  created_at = input.created_at;
}

-- `ON CONFLICT ON CONSTRAINT payment_outbox_event_destination_key DO NOTHING`
unfoldable pub enqueue_payment_event : PaymentEventDispatch → PaymentTables → PaymentTables
enqueue_payment_event dispatch t =
    if any (λ (old : PaymentEventDispatch). old.event.event_id == dispatch.event.event_id) t.outbox
    then t
    else record t { outbox = t.outbox ++ dispatch ∷ [] }

-- The tables after the insert, and after the event where a row was inserted.
unfoldable pub insert_attempt :
    PersistPaymentAttemptInput → PaymentEventDispatch → PaymentTables → PaymentTables
unfolding enqueue_payment_event attempt_row conflicts
insert_attempt input dispatch t =
    if any (conflicts (attempt_row input)) t.attempts
    then t
    else enqueue_payment_event dispatch
        (record t { attempts = t.attempts ++ attempt_row input ∷ [] })

-- The reads that follow the insert.
unfoldable pub read_back :
    PersistPaymentAttemptInput → PaymentTables → Result PaymentError PaymentAttemptRecord
unfolding find_by_idempotency find_success
read_back input t =
    elim (find_by_idempotency input.request.booking_id input.request.idempotency_key t) [
      | some found ↦ ok found
      | none ↦
          if is_succeeded input.status
          then elim (find_success input.request.booking_id t) [
            | some found ↦ ok found
            | none ↦ err no_record
          ]
          else err no_record
    ]

-- `withTransaction`: an error rolls the tables back.
unfoldable pub commit :
    {A : Type 0}
    → PaymentTables
    → PaymentTables
    → Result PaymentError A
    → Result PaymentError A × PaymentTables
commit before after (ok a) = (ok a, after)
commit before after (err e) = (err e, before)

unfoldable pub create_or_replay :
    PersistPaymentAttemptInput
    → PaymentEventDispatch
    → PaymentTables
    → Result PaymentError PaymentAttemptRecord × PaymentTables
unfolding insert_attempt read_back commit
create_or_replay input dispatch t =
    let after = insert_attempt input dispatch t in commit t after (read_back input after)
