-- ===== src/Payment/Service.antt =====
-- services/payment-service/src/payment.service.ts: the validation of a request, and the call.
pub mod Replay
pub mod Success
mod Tests
use bus_ai_booking.Prelude.{
  ℕ, String, Bool, true, false, not, ◌&&◌, ◌||◌, List, [], ◌∷◌, ◌++◌, Option, none, some, ◌==◌,
  string_eq, leb, if◌then◌else◌, find, any, filter, includes, get_or, Result, ok, err, ◌>>=◌, ◌>>◌,
  require,
}
use bus_ai_booking.Prelude.Text.{trim, is_key, is_uuid}
use bus_ai_booking.Prelude.Number.{Number, whole, integer_between}
use bus_ai_booking.Prelude.Digest.{Digest}
use bus_ai_booking.Payment.Types.{
  PaymentOwner, RequestedPaymentOutcome, success, failure, PaymentAttemptStatus, succeeded, failed,
  is_succeeded, PaymentAttemptView, CreatePaymentAttemptRequest, ValidatedPaymentAttemptRequest,
  PersistPaymentAttemptInput, PaymentAttemptRow, PaymentAttemptRecord, FingerprintSource,
}
use bus_ai_booking.Payment.Events.{
  Drawn, PaymentAttempted, PaymentEventDispatch, create_payment_attempted_dispatch,
}
use bus_ai_booking.Payment.Repository.{
  PaymentError, validation, idempotency_conflict, PaymentTables, find_by_idempotency,
  create_or_replay,
}

validate_owner : Option PaymentOwner → Result PaymentError PaymentOwner
validate_owner none = err validation
validate_owner (some owner) =
    if includes ("GUEST_SESSION" ∷ "CUSTOMER" ∷ []) owner.type && is_uuid owner.id
    then ok owner
    else err validation

validate_amount : Option Number → Result PaymentError ℕ
validate_amount amount = elim (integer_between 1 2147483647 (get_or amount (whole 0))) [
  | some n ↦ ok n
  | none ↦ err validation
]

validate_outcome : Option String → Result PaymentError RequestedPaymentOutcome
validate_outcome none = err validation
validate_outcome (some outcome) =
    if outcome == "SUCCESS"
    then ok success
    else if outcome == "FAILURE"
    then ok failure
    else err validation

-- Strings are compared by `===`; the request's missing texts are "".
pub validate_payment_attempt_request :
    Digest FingerprintSource
    → CreatePaymentAttemptRequest
    → Result PaymentError ValidatedPaymentAttemptRequest
unfolding validate_owner validate_amount validate_outcome
validate_payment_attempt_request digest request = do
  let booking_id = get_or request.booking_id ""
  require (is_uuid booking_id) validation
  owner ← validate_owner request.owner
  amount ← validate_amount request.amount_vnd
  outcome ← validate_outcome request.requested_outcome
  let key = trim (get_or request.idempotency_key "")
  require (is_key 16 128 key) validation
  ok (record {
    booking_id = booking_id;
    owner = owner;
    amount_vnd = amount;
    requested_outcome = outcome;
    idempotency_key = key;
    request_fingerprint = digest.hash (record {
      booking_id = booking_id;
      owner = owner;
      amount_vnd = amount;
      requested_outcome = outcome;
    });
  })

is_failure : RequestedPaymentOutcome → Bool
is_failure failure = true
is_failure success = false

pub to_persist_input :
    Drawn → ValidatedPaymentAttemptRequest → Option String → PersistPaymentAttemptInput
unfolding is_failure
to_persist_input d request request_id =
    let is_failed = is_failure request.requested_outcome in
    record {
      request = request;
      id = d.attempt_id;
      status = if is_failed then failed else succeeded;
      failure_code = if is_failed then some "SIMULATED_FAILURE" else none;
      created_at = d.now;
      request_id = request_id;
    }

pub record CreatePaymentAttemptResponse : Type 0 where
  pub attempt : PaymentAttemptView
  pub request_id : String

-- The check of a stored fingerprint, and the response.
pub respond :
    String → Option String → PaymentAttemptRecord → Result PaymentError CreatePaymentAttemptResponse
respond fingerprint request_id found =
    if found.request_fingerprint == fingerprint
    then ok
        (record { attempt = found.attempt; request_id = get_or request_id "missing-request-id" })
    else err idempotency_conflict

-- The answer, by what the read for a replay found: that record, or a new attempt.
abbrev pub answer :
    Drawn
    → ValidatedPaymentAttemptRequest
    → Option String
    → PaymentTables
    → Option PaymentAttemptRecord
    → Result PaymentError CreatePaymentAttemptResponse × PaymentTables
answer d v request_id t (some replay) = (respond v.request_fingerprint request_id replay, t)
answer d v request_id t none =
    let input = to_persist_input d v request_id in
    let (persisted, after) = create_or_replay input (create_payment_attempted_dispatch d input) t in
    (persisted >>= respond v.request_fingerprint request_id, after)

-- The call behind the validation.
pub create_validated :
    Drawn
    → ValidatedPaymentAttemptRequest
    → Option String
    → PaymentTables
    → Result PaymentError CreatePaymentAttemptResponse × PaymentTables
create_validated d v request_id t =
    answer d v request_id t (find_by_idempotency v.booking_id v.idempotency_key t)

-- What follows the validation, which throws before anything is read.
abbrev pub attempt :
    Drawn
    → CreatePaymentAttemptRequest
    → PaymentTables
    → Result PaymentError ValidatedPaymentAttemptRequest
    → Result PaymentError CreatePaymentAttemptResponse × PaymentTables
attempt d request t (err e) = (err e, t)
attempt d request t (ok v) = create_validated d v request.request_id t

pub create_payment_attempt :
    Digest FingerprintSource
    → Drawn
    → CreatePaymentAttemptRequest
    → PaymentTables
    → Result PaymentError CreatePaymentAttemptResponse × PaymentTables
create_payment_attempt digest d request t =
    attempt d request t (validate_payment_attempt_request digest request)
