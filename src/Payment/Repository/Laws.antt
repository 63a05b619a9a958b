-- ===== src/Payment/Repository/Laws.antt =====
-- What the reads and the insert of payment.repository.ts promise to the service.
use bus_ai_booking.Prelude.{
  ◌≡◌, refl, true, false, ◌⊎◌, inl, inr, List, [], ◌∷◌, ◌++◌, none, some, arith, string_eq, eq_iff,
  eq_refl, find, any, ok, err, Bool-cases, find-append-none, find-none, filter-none, any_mono,
}
use bus_ai_booking.Payment.Types.{
  PaymentAttemptRow, PaymentAttemptRecord, PersistPaymentAttemptInput, is_succeeded,
}
use bus_ai_booking.Payment.Events.{PaymentEventDispatch}
use bus_ai_booking.Payment.Repository.{
  PaymentTables, no_record, conflicts, has_key, has_success, map_found, map_record, earliest,
  attempt_row, find_by_idempotency, find_success, enqueue_payment_event, insert_attempt, read_back,
  create_or_replay,
}

conflicts_of_key :
    (input : PersistPaymentAttemptInput) (row : PaymentAttemptRow)
    → has_key input.request.booking_id input.request.idempotency_key row ≡ true
    → conflicts (attempt_row input) row ≡ true
unfolding has_key conflicts attempt_row
conflicts_of_key input row h = ground (
  arith,
  eq_iff row.booking_id input.request.booking_id,
  eq_iff input.request.booking_id row.booking_id,
  eq_iff row.idempotency_key input.request.idempotency_key,
  eq_iff input.request.idempotency_key row.idempotency_key,
)

conflicts_of_success :
    (input : PersistPaymentAttemptInput) (row : PaymentAttemptRow)
    → is_succeeded input.status ≡ true
    → has_success input.request.booking_id row ≡ true
    → conflicts (attempt_row input) row ≡ true
unfolding has_success conflicts attempt_row
conflicts_of_success input row s h = ground (
  arith,
  eq_iff row.booking_id input.request.booking_id,
  eq_iff input.request.booking_id row.booking_id,
)

-- A row that the read by key finds is one that an insert conflicts with.
pub any-conflicts_of_found :
    (input : PersistPaymentAttemptInput) (t : PaymentTables) (r : PaymentAttemptRecord)
    → find_by_idempotency input.request.booking_id input.request.idempotency_key t ≡ some r
    → any (conflicts (attempt_row input)) t.attempts ≡ true
unfolding find_by_idempotency map_found
any-conflicts_of_found input t r h =
    elim (Bool-cases
      (any (has_key input.request.booking_id input.request.idempotency_key) t.attempts)) [
        | inl e ↦ any_mono _ _ t.attempts (conflicts_of_key input) e
        | inr e ↦ absurd (ground (arith, find-none _ t.attempts e))
      ]

pub any-conflicts_of_success :
    (input : PersistPaymentAttemptInput) (t : PaymentTables) (r : PaymentAttemptRecord)
    → is_succeeded input.status ≡ true
    → find_success input.request.booking_id t ≡ some r
    → any (conflicts (attempt_row input)) t.attempts ≡ true
unfolding find_success map_found earliest
any-conflicts_of_success input t r s h =
    elim (Bool-cases (any (has_success input.request.booking_id) t.attempts)) [
      | inl e ↦ any_mono _ _ t.attempts (λ row. conflicts_of_success input row s) e
      | inr e ↦ absurd (ground (arith, filter-none _ t.attempts e))
    ]

-- An insert that conflicts changes nothing.
pub insert_attempt_conflict :
    (input : PersistPaymentAttemptInput) (d : PaymentEventDispatch) (t : PaymentTables)
    → any (conflicts (attempt_row input)) t.attempts ≡ true
    → insert_attempt input d t ≡ t
unfolding insert_attempt
insert_attempt_conflict input d t h = rw h

has_key_self :
    (input : PersistPaymentAttemptInput)
    → has_key input.request.booking_id input.request.idempotency_key (attempt_row input) ≡ true
unfolding has_key attempt_row
has_key_self input = rw (eq_refl input.request.booking_id) (eq_refl input.request.idempotency_key)

find_of_no_conflict :
    (input : PersistPaymentAttemptInput) (rows : List PaymentAttemptRow)
    → any (conflicts (attempt_row input)) rows ≡ false
    → find (has_key input.request.booking_id input.request.idempotency_key) rows ≡ none
find_of_no_conflict input rows h =
    find-none _ rows
      (elim (Bool-cases
        (any (has_key input.request.booking_id input.request.idempotency_key) rows)) [
          | inl e ↦ absurd (ground (arith, any_mono _ _ rows (conflicts_of_key input) e))
          | inr e ↦ e
        ])

attempts-enqueue :
    (d : PaymentEventDispatch) (t : PaymentTables)
    → (enqueue_payment_event d t).attempts ≡ t.attempts
unfolding enqueue_payment_event
attempts-enqueue d t = ground arith

-- An insert with no conflict stores the row behind the others.
pub attempts-insert :
    (input : PersistPaymentAttemptInput) (d : PaymentEventDispatch) (t : PaymentTables)
    → any (conflicts (attempt_row input)) t.attempts ≡ false
    → (insert_attempt input d t).attempts ≡ t.attempts ++ attempt_row input ∷ []
unfolding insert_attempt
attempts-insert input d t h =
    rw h (attempts-enqueue d (record t { attempts = t.attempts ++ attempt_row input ∷ [] }))

-- A row that was inserted is the one that the read by key returns.
pub find_by_idempotency-insert :
    (input : PersistPaymentAttemptInput) (d : PaymentEventDispatch) (t : PaymentTables)
    → any (conflicts (attempt_row input)) t.attempts ≡ false
    → find_by_idempotency input.request.booking_id input.request.idempotency_key
        (insert_attempt input d t)
      ≡ some (map_record (attempt_row input))
find_by_idempotency-insert input d t h =
    unfold find_by_idempotency map_found in
    rw (attempts-insert input d t h) (
      rw
        (find-append-none _ t.attempts (attempt_row input ∷ [])
          (find_of_no_conflict input t.attempts h))
        (rw (has_key_self input) refl))

module _ (input : PersistPaymentAttemptInput) (d : PaymentEventDispatch) (t : PaymentTables) where
  pub create_or_replay_inserted :
      any (conflicts (attempt_row input)) t.attempts ≡ false
      → create_or_replay input d t ≡ (ok (map_record (attempt_row input)), insert_attempt input d t)
  create_or_replay_inserted h =
      unfold create_or_replay in rw (find_by_idempotency-insert input d t h, read_back) refl

  pub create_or_replay_found :
      (r : PaymentAttemptRecord)
      → find_by_idempotency input.request.booking_id input.request.idempotency_key t ≡ some r
      → create_or_replay input d t ≡ (ok r, t)
  create_or_replay_found r h =
      unfold create_or_replay in
      rw (insert_attempt_conflict input d t (any-conflicts_of_found input t r h))
        (rw (h, read_back) refl)

  -- A success under another key is what a second success of the booking returns.
  pub create_or_replay_success :
      (r : PaymentAttemptRecord)
      → find_by_idempotency input.request.booking_id input.request.idempotency_key t ≡ none
      → is_succeeded input.status ≡ true
      → find_success input.request.booking_id t ≡ some r
      → create_or_replay input d t ≡ (ok r, t)
  create_or_replay_success r k s h =
      unfold create_or_replay in
      rw (insert_attempt_conflict input d t (any-conflicts_of_success input t r s h))
        (rw (k, read_back) (rw (s, read_back) (rw (h, read_back) refl)))

  -- With no record by the key, and none of a success to stand for it, the call throws.
  pub create_or_replay-none :
      find_by_idempotency input.request.booking_id input.request.idempotency_key t ≡ none
      → any (conflicts (attempt_row input)) t.attempts ≡ true
      → (is_succeeded input.status ≡ false) ⊎ (find_success input.request.booking_id t ≡ none)
      → create_or_replay input d t ≡ (err no_record, t)
  create_or_replay-none k c h =
      unfold create_or_replay in
      rw (insert_attempt_conflict input d t c) (
        rw (k, read_back)
          (elim h [
            | inl s ↦ rw (s, read_back) refl
            | inr s ↦ elim (Bool-cases (is_succeeded input.status)) [
              | inl y ↦ rw (y, read_back) (rw (s, read_back) refl)
              | inr n ↦ rw (n, read_back) refl
            ]
          ]))
