-- ===== src/Payment/Service/Success.antt =====
-- payment.service.ts: what each call keeps of the tables, and when it can throw.
use bus_ai_booking.Prelude.{
  String, ◌≡◌, ◌≢◌, refl, ◌⊎◌, inl, inr, Option, none, some, arith, string_eq, eq_refl, any, Result,
  ok, err, Bool-cases, Option-cases,
}
use bus_ai_booking.Prelude.Text.{trim}
use bus_ai_booking.Prelude.Digest.{Digest}
use bus_ai_booking.Payment.Types.{
  CreatePaymentAttemptRequest, ValidatedPaymentAttemptRequest, PaymentAttemptRecord,
  FingerprintSource, success,
}
use bus_ai_booking.Payment.Events.{Drawn, create_payment_attempted_dispatch}
use bus_ai_booking.Payment.Repository.{
  PaymentError, no_record, PaymentTables, conflicts, attempt_row, insert_attempt,
  find_by_idempotency, find_success, map_record,
}
use bus_ai_booking.Payment.Repository.Laws
use bus_ai_booking.Payment.Repository.Invariant.{
  IsSingle, IsMirrored, IsFreshEvent, IsFreshAttempt, insert-IsSingle, insert-IsMirrored,
  create_or_replay_tables, create_or_replay_total,
}
use bus_ai_booking.Payment.Service.{
  to_persist_input, respond, create_validated, validate_payment_attempt_request, answer, attempt,
  create_payment_attempt,
}

module _ (d : Drawn) (rid : Option String) (t : PaymentTables) where
  -- What an insert keeps, the call keeps.
  create_validated_tables :
      (P : PaymentTables → Type 0) (v : ValidatedPaymentAttemptRequest)
      → P t
      → P (
          insert_attempt
            (to_persist_input d v rid)
            (create_payment_attempted_dispatch d (to_persist_input d v rid))
            t)
      → P (create_validated d v rid t).1
  unfolding create_validated
  create_validated_tables P v before after =
      elim (find_by_idempotency v.booking_id v.idempotency_key t)
        as (λ o. P (answer d v rid t o).1) [
          | some r ↦ before
          | none ↦ create_or_replay_tables _ _ t P before after
        ]

attempt_tables :
    (d : Drawn) (t : PaymentTables) (P : PaymentTables → Type 0)
    (request : CreatePaymentAttemptRequest) (x : Result PaymentError ValidatedPaymentAttemptRequest)
    → P t
    → ((v : ValidatedPaymentAttemptRequest)
        → P (
            insert_attempt
              (to_persist_input d v request.request_id)
              (create_payment_attempted_dispatch d (to_persist_input d v request.request_id))
              t))
    → P (attempt d request t x).1
attempt_tables d t P request (err e) before after = before
attempt_tables d t P request (ok v) before after =
    create_validated_tables d request.request_id t P v before (after v)

-- No call lets a booking have two attempts that succeeded.
pub create_payment_attempt-IsSingle :
    (digest : Digest FingerprintSource) (d : Drawn) (request : CreatePaymentAttemptRequest)
    (t : PaymentTables)
    → IsSingle t
    → IsSingle (create_payment_attempt digest d request t).1
unfolding create_payment_attempt
create_payment_attempt-IsSingle digest d request t h =
    attempt_tables d t IsSingle request _ h (λ v. insert-IsSingle _ _ t h)

-- The outbox holds one event for each attempt, in the order of the attempts, whatever a call does:
-- if it holds before the call, and the id drawn for the event is new, it holds after it.
pub create_payment_attempt-IsMirrored :
    (digest : Digest FingerprintSource) (d : Drawn) (request : CreatePaymentAttemptRequest)
    (t : PaymentTables)
    → IsFreshEvent d.event_id t
    → IsMirrored t
    → IsMirrored (create_payment_attempt digest d request t).1
unfolding create_payment_attempt create_payment_attempted_dispatch
create_payment_attempt-IsMirrored digest d request t f h =
    attempt_tables d t IsMirrored request _ h λ v.
      insert-IsMirrored (to_persist_input d v request.request_id)
        (create_payment_attempted_dispatch d (to_persist_input d v request.request_id)) t refl f h

-- The fingerprint of a valid request is the digest of its fields.
validate_fingerprint :
    (digest : Digest FingerprintSource) (request : CreatePaymentAttemptRequest)
    (v : ValidatedPaymentAttemptRequest)
    → validate_payment_attempt_request digest request ≡ ok v
    → v.request_fingerprint
      ≡ digest.hash (record {
        booking_id = v.booking_id;
        owner = v.owner;
        amount_vnd = v.amount_vnd;
        requested_outcome = v.requested_outcome;
      })
unfolding validate_payment_attempt_request
validate_fingerprint digest request v h = ground arith

answer_total :
    (d : Drawn) (v : ValidatedPaymentAttemptRequest) (rid : Option String) (t : PaymentTables)
    → IsFreshAttempt d.attempt_id t
    → (create_validated d v rid t).0 ≢ err no_record
unfolding create_validated respond to_persist_input
answer_total d v rid t f h =
    elim (Option-cases (find_by_idempotency v.booking_id v.idempotency_key t)) [
      | inr (r, e) ↦ ground (arith, e)
      | inl k ↦
          let input = to_persist_input d v rid in
          let (r, e) =
            create_or_replay_total input (create_payment_attempted_dispatch d input) t f in
          ground (arith, e, k)
    ]

validate_error :
    (digest : Digest FingerprintSource) (request : CreatePaymentAttemptRequest)
    → validate_payment_attempt_request digest request ≢ err no_record
unfolding validate_payment_attempt_request
validate_error digest request h = ground arith

attempt_total :
    (d : Drawn) (request : CreatePaymentAttemptRequest) (t : PaymentTables)
    (x : Result PaymentError ValidatedPaymentAttemptRequest)
    → x ≢ err no_record
    → IsFreshAttempt d.attempt_id t
    → (attempt d request t x).0 ≢ err no_record
attempt_total d request t (err e) n f = λ h. n (cc)
attempt_total d request t (ok v) n f = answer_total d v request.request_id t f

validated :
    (x : Result PaymentError ValidatedPaymentAttemptRequest)
    → ((v : ValidatedPaymentAttemptRequest) × (x ≡ ok v)) ⊎ ((e : PaymentError) × (x ≡ err e))
validated (ok v) = inl (v, refl)
validated (err e) = inr (e, refl)

trimmed :
    (digest : Digest FingerprintSource) (request : CreatePaymentAttemptRequest)
    (v : ValidatedPaymentAttemptRequest)
    → validate_payment_attempt_request digest request ≡ ok v
    → trim v.request_fingerprint ≡ v.request_fingerprint
trimmed digest request v h = rw (validate_fingerprint digest request v h) (digest.hash_trimmed _)

-- A new row is answered, since its fingerprint is read back as it was written.
answer_inserted :
    (d : Drawn) (v : ValidatedPaymentAttemptRequest) (rid : Option String)
    → trim v.request_fingerprint ≡ v.request_fingerprint
    → (e : PaymentError)
    → respond v.request_fingerprint rid (map_record (attempt_row (to_persist_input d v rid)))
      ≢ err e
unfolding respond to_persist_input map_record attempt_row
answer_inserted d v rid h e k = ground (arith, h, eq_refl v.request_fingerprint)

answer_new_error :
    (d : Drawn) (v : ValidatedPaymentAttemptRequest) (rid : Option String) (t : PaymentTables)
    (e : PaymentError)
    → trim v.request_fingerprint ≡ v.request_fingerprint
    → (answer d v rid t none).0 ≡ err e
    → (answer d v rid t none).1 ≡ t
answer_new_error d v rid t e h k =
    let input = to_persist_input d v rid in
    let dispatch = create_payment_attempted_dispatch d input in
    elim (Bool-cases (any (conflicts (attempt_row input)) t.attempts)) [
      | inl c ↦
          create_or_replay_tables input dispatch t (λ s. s ≡ t) refl
            (Laws.insert_attempt_conflict input dispatch t c)
      | inr c ↦ absurd (
          answer_inserted d v rid h e (rw (Laws.create_or_replay_inserted input dispatch t c) at k))
    ]

answer_error :
    (d : Drawn) (v : ValidatedPaymentAttemptRequest) (rid : Option String) (t : PaymentTables)
    (e : PaymentError)
    → trim v.request_fingerprint ≡ v.request_fingerprint
    → (create_validated d v rid t).0 ≡ err e
    → (create_validated d v rid t).1 ≡ t
unfolding create_validated
answer_error d v rid t e h k =
    elim (Option-cases (find_by_idempotency v.booking_id v.idempotency_key t)) [
      | inr (r, found) ↦ rw found refl
      | inl fresh ↦ rw fresh (answer_new_error d v rid t e h (rw fresh at k))
    ]

-- A call whose new id no attempt has never ends in the error of a missing record.
create_payment_attempt_total :
    (digest : Digest FingerprintSource) (d : Drawn) (request : CreatePaymentAttemptRequest)
    (t : PaymentTables)
    → IsFreshAttempt d.attempt_id t
    → (create_payment_attempt digest d request t).0 ≢ err no_record
unfolding create_payment_attempt
create_payment_attempt_total digest d request t f =
    attempt_total d request t (validate_payment_attempt_request digest request)
      (validate_error digest request) f

-- A call that throws leaves the tables as they were.
create_payment_attempt_error :
    (digest : Digest FingerprintSource) (d : Drawn) (request : CreatePaymentAttemptRequest)
    (t : PaymentTables) (e : PaymentError)
    → (create_payment_attempt digest d request t).0 ≡ err e
    → (create_payment_attempt digest d request t).1 ≡ t
unfolding create_payment_attempt
create_payment_attempt_error digest d request t e h =
    elim (validated (validate_payment_attempt_request digest request)) [
      | inl (v, p) ↦
          rw p (answer_error d v request.request_id t e (trimmed digest request v p) (rw p at h))
      | inr (x, p) ↦ rw p refl
    ]

-- Once an attempt of a booking has succeeded, a request for another success under a new key changes
-- no table: it is answered from the attempt that succeeded, or refused if its fingerprint differs.
pub create_validated_second_success :
    (d : Drawn) (v : ValidatedPaymentAttemptRequest) (request_id : Option String)
    (t : PaymentTables) (paid : PaymentAttemptRecord)
    → v.requested_outcome ≡ success
    → find_by_idempotency v.booking_id v.idempotency_key t ≡ none
    → find_success v.booking_id t ≡ some paid
    → create_validated d v request_id t ≡ (respond v.request_fingerprint request_id paid, t)
unfolding create_validated to_persist_input
create_validated_second_success d v request_id t paid o k s =
    let input = to_persist_input d v request_id in
    rw k (
      rw
        (Laws.create_or_replay_success input (create_payment_attempted_dispatch d input) t paid k
          (rw o refl) s)
        refl)
