-- ===== src/Payment/Repository/Invariant.antt =====
-- What an insert keeps of the tables: one success for each booking, one event for each attempt.
use bus_ai_booking.Prelude.{
  String, ◌≡◌, ◌≢◌, ◌≤◌, refl, sym, ◌∙◌, Bool, true, false, false≢true, inl, inr, List, [], ◌∷◌,
  map, none, arith, ◌==◌, string_eq, eq_iff, any, filter, length, length-filter-concat, filter-none,
  any_mono, find, Result, ok, err, Bool-cases, Option-cases,
}
use mathlib.Core.List.{map-append}
use bus_ai_booking.Payment.Types.{
  PersistPaymentAttemptInput, PaymentAttemptRow, PaymentAttemptRecord, is_succeeded,
}
use bus_ai_booking.Payment.Events.{PaymentEventDispatch}
use bus_ai_booking.Payment.Repository.{
  PaymentError, PaymentTables, conflicts, has_key, has_success, map_found, map_record, earliest,
  attempt_row, find_by_idempotency, find_success, enqueue_payment_event, insert_attempt, commit,
  create_or_replay,
}
use bus_ai_booking.Payment.Repository.Laws.{
  attempts-insert, insert_attempt_conflict, create_or_replay_found, create_or_replay_inserted,
  create_or_replay_success,
}

-- No booking has two attempts that succeeded.
abbrev pub IsSingle : PaymentTables → Type 0
IsSingle t = (booking_id : String) → length (filter (has_success booking_id) t.attempts) ≤ 1

-- The events of the outbox are those of the attempts, in their order.
abbrev pub IsMirrored : PaymentTables → Type 0
IsMirrored t =
    map (λ (d : PaymentEventDispatch). d.event.payload.payment_attempt_id) t.outbox
    ≡ map (λ (row : PaymentAttemptRow). row.id) t.attempts

-- No event of the outbox has the id.
abbrev pub IsFreshEvent : String → PaymentTables → Type 0
IsFreshEvent id t = any (λ (old : PaymentEventDispatch). old.event.event_id == id) t.outbox ≡ false

-- No attempt has the id.
abbrev pub IsFreshAttempt : String → PaymentTables → Type 0
IsFreshAttempt id t = any (λ (old : PaymentAttemptRow). id == old.id) t.attempts ≡ false

conflicts_of_both :
    (input : PersistPaymentAttemptInput) (b : String) (row : PaymentAttemptRow)
    → has_success b (attempt_row input) ≡ true
    → has_success b row ≡ true
    → conflicts (attempt_row input) row ≡ true
unfolding has_success conflicts attempt_row
conflicts_of_both input b row h k = ground (
  arith,
  eq_iff input.request.booking_id b,
  eq_iff row.booking_id b,
  eq_iff input.request.booking_id row.booking_id,
)

success_excludes :
    (input : PersistPaymentAttemptInput) (rows : List PaymentAttemptRow) (b : String)
    → any (conflicts (attempt_row input)) rows ≡ false
    → has_success b (attempt_row input) ≡ true
    → any (has_success b) rows ≡ false
success_excludes input rows b c h = elim (Bool-cases (any (has_success b) rows)) [
  | inr n ↦ n
  | inl y ↦ absurd (
      false≢true
        (sym c ∙ any_mono (has_success b) _ rows (λ row k. conflicts_of_both input b row h k) y))
]

module _ (input : PersistPaymentAttemptInput) (d : PaymentEventDispatch) (t : PaymentTables) where
  pub insert-IsSingle : IsSingle t → IsSingle (insert_attempt input d t)
  insert-IsSingle h b = elim (Bool-cases (any (conflicts (attempt_row input)) t.attempts)) [
    | inl c ↦ rw (insert_attempt_conflict input d t c) (h b)
    | inr c ↦ rw (attempts-insert input d t c) (
        rw (length-filter-concat (has_success b) t.attempts (attempt_row input))
          (elim (Bool-cases (has_success b (attempt_row input))) [
            | inl s ↦
                rw (s, filter-none _ t.attempts (success_excludes input t.attempts b c s))
                  (omega arith)
            | inr s ↦ rw s (omega (arith, h b))
          ]))
  ]

  pub insert-IsMirrored :
      d.event.payload.payment_attempt_id ≡ input.id
      → IsFreshEvent d.event.event_id t
      → IsMirrored t
      → IsMirrored (insert_attempt input d t)
  unfolding insert_attempt
  insert-IsMirrored e f m = elim (Bool-cases (any (conflicts (attempt_row input)) t.attempts)) [
    | inl c ↦ rw c m
    | inr c ↦
        rw (c, enqueue_payment_event)
          (rw (f, enqueue_payment_event) (rw (map-append, map-append) (rw (m, e) refl)))
  ]

  commit_tables :
      {A : Type 0} (P : PaymentTables → Type 0) (before after : PaymentTables)
      (r : Result PaymentError A)
      → P before
      → P after
      → P (commit before after r).1
  unfolding commit
  commit_tables P before after (ok a) x y = y
  commit_tables P before after (err e) x y = x

  -- A call of the repository leaves the tables alone, or leaves what the insert made of them.
  pub create_or_replay_tables :
      (P : PaymentTables → Type 0)
      → P t
      → P (insert_attempt input d t)
      → P (create_or_replay input d t).1
  unfolding create_or_replay
  create_or_replay_tables P before after = commit_tables P t _ _ before after

-- Why an insert is refused.
conflict_cause :
    (input : PersistPaymentAttemptInput) (rows : List PaymentAttemptRow)
    → any (conflicts (attempt_row input)) rows ≡ true
    → any (λ (old : PaymentAttemptRow). input.id == old.id) rows ≡ false
    → any (has_key input.request.booking_id input.request.idempotency_key) rows ≡ false
    → (is_succeeded input.status ≡ true) × (any (has_success input.request.booking_id) rows ≡ true)
unfolding conflicts attempt_row has_key has_success
conflict_cause input [] c i k = absurd (false≢true c)
conflict_cause input (x ∷ rows) c i k = ground (
  arith,
  conflict_cause input rows,
  eq_iff x.booking_id input.request.booking_id,
  eq_iff input.request.booking_id x.booking_id,
  eq_iff x.idempotency_key input.request.idempotency_key,
  eq_iff input.request.idempotency_key x.idempotency_key,
)

earliest_some : (x : PaymentAttemptRow) (rows : List PaymentAttemptRow) → earliest (x ∷ rows) ≢ none
unfolding earliest
earliest_some x rows = ground arith

filter_some :
    (p : PaymentAttemptRow → Bool) (rows : List PaymentAttemptRow)
    → any p rows ≡ true
    → earliest (filter p rows) ≢ none
filter_some p [] h = absurd (false≢true h)
filter_some p (x ∷ rows) h = elim (Bool-cases (p x)) [
  | inl y ↦ rw y (earliest_some x (filter p rows))
  | inr n ↦ rw n (filter_some p rows (rw n at h))
]

find_of_any :
    (p : PaymentAttemptRow → Bool) (rows : List PaymentAttemptRow)
    → any p rows ≡ true
    → find p rows ≢ none
find_of_any p [] h = absurd (false≢true h)
find_of_any p (x ∷ rows) h = ground (arith, find_of_any p rows)

any_of_find_none :
    (input : PersistPaymentAttemptInput) (t : PaymentTables)
    → find_by_idempotency input.request.booking_id input.request.idempotency_key t ≡ none
    → any (has_key input.request.booking_id input.request.idempotency_key) t.attempts ≡ false
unfolding find_by_idempotency map_found
any_of_find_none input t h =
    elim (Bool-cases
      (any (has_key input.request.booking_id input.request.idempotency_key) t.attempts)) [
        | inr n ↦ n
        | inl y ↦ absurd (find_of_any _ t.attempts y (ground arith))
      ]

find_success_of_any :
    (b : String) (t : PaymentTables)
    → any (has_success b) t.attempts ≡ true
    → find_success b t ≢ none
unfolding find_success map_found
find_success_of_any b t h e = filter_some (has_success b) t.attempts h (ground arith)

-- With an id that no attempt has, the call is answered.
pub create_or_replay_total :
    (input : PersistPaymentAttemptInput) (d : PaymentEventDispatch) (t : PaymentTables)
    → IsFreshAttempt input.id t
    → (r : PaymentAttemptRecord) × ((create_or_replay input d t).0 ≡ ok r)
create_or_replay_total input d t f =
    elim (Option-cases
      (find_by_idempotency input.request.booking_id input.request.idempotency_key t)) [
        | inr (r, e) ↦ (r, rw (create_or_replay_found input d t r e) refl)
        | inl k ↦ elim (Bool-cases (any (conflicts (attempt_row input)) t.attempts)) [
          | inr c ↦
              (map_record (attempt_row input), rw (create_or_replay_inserted input d t c) refl)
          | inl c ↦
              let (s, y) = conflict_cause input t.attempts c f (any_of_find_none input t k) in
              elim (Option-cases (find_success input.request.booking_id t)) [
                | inl n ↦ absurd (find_success_of_any input.request.booking_id t y n)
                | inr (r, e) ↦ (r, rw (create_or_replay_success input d t r k s e) refl)
              ]
        ]
      ]
