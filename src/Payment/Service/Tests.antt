-- ===== src/Payment/Service/Tests.antt =====
-- payment.service.ts on concrete requests.
use bus_ai_booking.Prelude.{ℕ, String, ◌≡◌, refl, [], ◌∷◌, none, some, arith, ok, err, string_eq}
use bus_ai_booking.Prelude.Text.{
  trim, trim_start, trim_end, is_space, in_range, is_key, is_key_char, is_alphanumeric, is_digit,
  is_uuid, is_hex, matches,
}
use bus_ai_booking.Prelude.Number.{whole, integer_between}
use bus_ai_booking.Prelude.Digest.{Digest}
use bus_ai_booking.Payment.Types.{
  PaymentOwner, success, failure, succeeded, CreatePaymentAttemptRequest,
  ValidatedPaymentAttemptRequest, FingerprintSource, PaymentAttemptRow,
}
use bus_ai_booking.Payment.Events.{Drawn, create_payment_attempted_dispatch}
use bus_ai_booking.Payment.Repository.{
  map_found, has_key, earliest, create_or_replay, insert_attempt, attempt_row, conflicts,
  enqueue_payment_event, read_back, commit, validation, PaymentTables, has_success,
  find_by_idempotency, find_success, map_record,
}
use bus_ai_booking.Payment.Repository.Invariant.{IsSingle, IsMirrored}
use bus_ai_booking.Payment.Service.{
  create_payment_attempt, create_validated, respond, validate_payment_attempt_request,
  validate_owner, validate_amount, validate_outcome, to_persist_input, is_failure,
  CreatePaymentAttemptResponse,
}
use bus_ai_booking.Payment.Service.Success.{
  create_payment_attempt-IsSingle, create_payment_attempt-IsMirrored,
  create_validated_second_success,
}
use bus_ai_booking.Payment.Service.Replay.{create_payment_attempt_twice}

abbrev test_hash : FingerprintSource → String
test_hash s = elim s.requested_outcome [ success ↦ "5c" | failure ↦ "fa" ]

test_hash_trimmed : (s : FingerprintSource) → trim (test_hash s) ≡ test_hash s
unfolding trim trim_start trim_end is_space in_range
test_hash_trimmed s =
    elim s.requested_outcome
      as (λ o.
        trim (elim o [ success ↦ "5c" | failure ↦ "fa" ])
        ≡ elim o [ success ↦ "5c" | failure ↦ "fa" ]) [ success ↦ refl | failure ↦ refl ]

abbrev digest : Digest FingerprintSource
digest = record { hash = test_hash; hash_trimmed = test_hash_trimmed }

abbrev owner : PaymentOwner
owner = record { type = "CUSTOMER"; id = "11111111-1111-4111-8111-111111111111" }

abbrev request : CreatePaymentAttemptRequest
request = record {
  booking_id = some "22222222-2222-4222-8222-222222222222";
  owner = some owner;
  amount_vnd = some (whole 250000);
  requested_outcome = some "SUCCESS";
  idempotency_key = some "payment-key-00001";
  request_id = none;
}

abbrev bad_request : CreatePaymentAttemptRequest
bad_request = record request { amount_vnd = some (whole 0) }

abbrev drawn : String → ℕ → Drawn
drawn id now = record {
  attempt_id = id;
  event_id = "event-1";
  trace_id = "trace";
  event_request_id = "request";
  propagation_headers = [];
  now = now;
}

abbrev empty : PaymentTables
empty = record { attempts = []; outbox = [] }

abbrev response : CreatePaymentAttemptResponse
response = record {
  attempt = record {
    id = "a1";
    booking_id = "22222222-2222-4222-8222-222222222222";
    status = succeeded;
    amount_vnd = 250000;
    failure_code = none;
    created_at = 7;
  };
  request_id = "missing-request-id";
}

request_is_paid : (create_payment_attempt digest (drawn "a1" 7) request empty).0 ≡ ok response
unfolding create_payment_attempt create_validated validate_payment_attempt_request validate_owner
    validate_amount validate_outcome to_persist_input is_failure respond find_by_idempotency
    map_found map_record has_key create_or_replay insert_attempt attempt_row conflicts
    enqueue_payment_event read_back commit create_payment_attempted_dispatch integer_between trim
    trim_start trim_end is_space in_range is_key is_key_char is_alphanumeric is_digit is_uuid is_hex
    matches
request_is_paid = refl

create_payment_attempt_twice_example :
    create_payment_attempt digest
      (drawn "a2" 9)
      request
      (create_payment_attempt digest (drawn "a1" 7) request empty).1
    ≡ (ok response, (create_payment_attempt digest (drawn "a1" 7) request empty).1)
create_payment_attempt_twice_example =
    create_payment_attempt_twice digest (drawn "a1" 7) (drawn "a2" 9) request empty response
      request_is_paid

empty-IsSingle : IsSingle empty
empty-IsSingle booking_id = ground arith

create_payment_attempt-IsSingle_example :
    IsSingle (create_payment_attempt digest (drawn "a1" 7) request empty).1
create_payment_attempt-IsSingle_example =
    create_payment_attempt-IsSingle digest (drawn "a1" 7) request empty empty-IsSingle

create_payment_attempt-IsMirrored_example :
    IsMirrored (create_payment_attempt digest (drawn "a1" 7) request empty).1
create_payment_attempt-IsMirrored_example =
    create_payment_attempt-IsMirrored digest (drawn "a1" 7) request empty refl refl

bad_request_fails :
    (create_payment_attempt digest (drawn "a1" 7) bad_request empty).0 ≡ err validation
unfolding create_payment_attempt create_validated validate_payment_attempt_request validate_owner
    validate_amount validate_outcome integer_between trim trim_start trim_end is_space in_range
    is_key is_key_char is_alphanumeric is_digit is_uuid is_hex matches
bad_request_fails = refl

-- A booking that was paid under the first key.
abbrev paid_row : PaymentAttemptRow
paid_row = record {
  id = "a1";
  booking_id = "b1";
  owner = owner;
  amount_vnd = 250000;
  requested_outcome = success;
  status = succeeded;
  failure_code = none;
  idempotency_key = "payment-key-00001";
  request_fingerprint = "5c";
  created_at = 7;
}

abbrev paid : PaymentTables
paid = record { attempts = paid_row ∷ []; outbox = [] }

abbrev second : ValidatedPaymentAttemptRequest
second = record {
  booking_id = "b1";
  owner = owner;
  amount_vnd = 250000;
  requested_outcome = success;
  idempotency_key = "payment-key-00002";
  request_fingerprint = "5c";
}

second_key_is_new : find_by_idempotency "b1" "payment-key-00002" paid ≡ none
unfolding find_by_idempotency map_found has_key
second_key_is_new = refl

paid_is_found : find_success "b1" paid ≡ some (map_record paid_row)
unfolding find_success map_found has_success earliest
paid_is_found = refl

create_validated_second_success_example :
    create_validated (drawn "a2" 9) second none paid
    ≡ (respond "5c" none (map_record paid_row), paid)
create_validated_second_success_example =
    create_validated_second_success (drawn "a2" 9) second none paid (map_record paid_row) refl
      second_key_is_new paid_is_found
