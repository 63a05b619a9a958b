-- ===== src/Payment/Service/Replay.antt =====
-- payment.service.ts under retries: the same request, the same key with another request, and a second
-- success.
use bus_ai_booking.Prelude.{
  String, ◌≡◌, refl, true, false, inl, inr, Option, none, some, string_eq, any, Result, ok, err,
  ◌>>=◌, Bool-cases, Option-cases,
}
use bus_ai_booking.Prelude.Digest.{Digest}
use bus_ai_booking.Payment.Types.{
  CreatePaymentAttemptRequest, ValidatedPaymentAttemptRequest, PersistPaymentAttemptInput,
  PaymentAttemptRecord, FingerprintSource, is_succeeded,
}
use bus_ai_booking.Payment.Events.{Drawn, PaymentEventDispatch, create_payment_attempted_dispatch}
use bus_ai_booking.Payment.Repository.{
  PaymentError, no_record, PaymentTables, conflicts, attempt_row, find_by_idempotency, find_success,
  create_or_replay,
}
use bus_ai_booking.Payment.Repository.Laws
use bus_ai_booking.Payment.Service.{
  CreatePaymentAttemptResponse, to_persist_input, respond, create_validated,
  validate_payment_attempt_request, attempt, create_payment_attempt,
}

module _ (v : ValidatedPaymentAttemptRequest) (rid : Option String) where
  create_validated_found :
      (d : Drawn) (t : PaymentTables) (r : PaymentAttemptRecord)
      → find_by_idempotency v.booking_id v.idempotency_key t ≡ some r
      → create_validated d v rid t ≡ (respond v.request_fingerprint rid r, t)
  unfolding create_validated
  create_validated_found d t r h = rw h refl

  create_validated_new :
      (d : Drawn) (t after : PaymentTables) (p : Result PaymentError PaymentAttemptRecord)
      → find_by_idempotency v.booking_id v.idempotency_key t ≡ none
      → create_or_replay
          (to_persist_input d v rid)
          (create_payment_attempted_dispatch d (to_persist_input d v rid))
          t
        ≡ (p, after)
      → create_validated d v rid t ≡ (p >>= respond v.request_fingerprint rid, after)
  unfolding create_validated
  create_validated_new d t after p h e = rw h (rw e refl)

  module _ (d d' : Drawn) (t : PaymentTables) (r : CreatePaymentAttemptResponse) where
    abbrev input : PersistPaymentAttemptInput
    input = to_persist_input d v rid

    abbrev dispatch : PaymentEventDispatch
    dispatch = create_payment_attempted_dispatch d input

    abbrev Repeats : Type 0
    Repeats =
        (create_validated d v rid t).0 ≡ ok r
        → create_validated d' v rid (create_validated d v rid t).1
          ≡ (ok r, (create_validated d v rid t).1)

    Repeats_found :
        (a : PaymentAttemptRecord)
        → find_by_idempotency v.booking_id v.idempotency_key t ≡ some a
        → Repeats
    Repeats_found a e =
        rw (create_validated_found d t a e) λ h. rw (create_validated_found d' t a e, h) refl

    Repeats_inserted :
        find_by_idempotency v.booking_id v.idempotency_key t ≡ none
        → any (conflicts (attempt_row input)) t.attempts ≡ false
        → Repeats
    unfolding to_persist_input
    Repeats_inserted k e =
        let first =
          create_validated_new d t _ _ k (Laws.create_or_replay_inserted input dispatch t e) in
        let second =
          create_validated_found d' _ _ (Laws.find_by_idempotency-insert input dispatch t e) in
        rw first λ h. rw (second, h) refl

    -- The insert was refused: nothing changed, and the next one is refused and answered alike.
    Repeats_refused :
        (p : Result PaymentError PaymentAttemptRecord)
        → find_by_idempotency v.booking_id v.idempotency_key t ≡ none
        → create_or_replay input dispatch t ≡ (p, t)
        → create_or_replay
            (to_persist_input d' v rid)
            (create_payment_attempted_dispatch d' (to_persist_input d' v rid))
            t
          ≡ (p, t)
        → Repeats
    Repeats_refused p k e e' =
        rw (create_validated_new d t t p k e) λ h. rw (create_validated_new d' t t p k e', h) refl

    Repeats_fails :
        (x : PaymentError)
        → find_by_idempotency v.booking_id v.idempotency_key t ≡ none
        → create_or_replay input dispatch t ≡ (err x, t)
        → Repeats
    Repeats_fails x k e = rw (create_validated_new d t t (err x) k e) λ h. cc

    Repeats_succeeded :
        find_by_idempotency v.booking_id v.idempotency_key t ≡ none
        → (a : PaymentAttemptRecord) → is_succeeded input.status ≡ true
        → find_success v.booking_id t ≡ some a
        → Repeats
    unfolding to_persist_input
    Repeats_succeeded k a s e =
        Repeats_refused (ok a) k (Laws.create_or_replay_success input dispatch t a k s e) (
          Laws.create_or_replay_success (to_persist_input d' v rid)
            (create_payment_attempted_dispatch d' (to_persist_input d' v rid)) t a k s e)

    Repeats_conflict :
        find_by_idempotency v.booking_id v.idempotency_key t ≡ none
        → any (conflicts (attempt_row input)) t.attempts ≡ true
        → Repeats
    unfolding to_persist_input
    Repeats_conflict k c = elim (Bool-cases (is_succeeded input.status)) [
      | inr s ↦ Repeats_fails no_record k (Laws.create_or_replay-none input dispatch t k c (inl s))
      | inl s ↦ elim (Option-cases (find_success v.booking_id t)) [
        | inl e ↦
            Repeats_fails no_record k (Laws.create_or_replay-none input dispatch t k c (inr e))
        | inr (a, e) ↦ Repeats_succeeded k a s e
      ]
    ]

    repeats : Repeats
    repeats = elim (Option-cases (find_by_idempotency v.booking_id v.idempotency_key t)) [
      | inr (a, e) ↦ Repeats_found a e
      | inl k ↦ elim (Bool-cases (any (conflicts (attempt_row input)) t.attempts)) [
        | inr c ↦ Repeats_inserted k c
        | inl c ↦ Repeats_conflict k c
      ]
    ]

-- A call that was answered with an attempt, made again with whatever ids and clock the second call
-- draws, is given the same answer and changes nothing.
pub create_payment_attempt_twice :
    (digest : Digest FingerprintSource) (d d' : Drawn) (request : CreatePaymentAttemptRequest)
    (t : PaymentTables) (r : CreatePaymentAttemptResponse)
    → (create_payment_attempt digest d request t).0 ≡ ok r
    → create_payment_attempt digest d' request (create_payment_attempt digest d request t).1
      ≡ (ok r, (create_payment_attempt digest d request t).1)
unfolding create_payment_attempt
create_payment_attempt_twice digest d d' request t r =
    elim (validate_payment_attempt_request digest request)
      as (λ x.
        (attempt d request t x).0 ≡ ok r
        → attempt d' request (attempt d request t x).1 x ≡ (ok r, (attempt d request t x).1)) [
          | err e ↦ λ h. cc
          | ok v ↦ repeats v request.request_id d d' t r
        ]
