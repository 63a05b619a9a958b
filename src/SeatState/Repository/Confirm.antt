-- ===== src/SeatState/Repository/Confirm.antt =====
-- What a confirmation of seats leaves in the tables, and when it is refused.
use bus_ai_booking.Prelude.{
  false≢true, String, ◌≡◌, ◌≢◌, refl, Bool, true, false, ◌&&◌, Option, none, some, List, [], ◌∷◌,
  ◌==◌, arith, string_eq, ℕ_eq, eq_iff, eq_refl, if◌then◌else◌, find, filter, includes, all, ap,
  ◌∙◌, get_or, Bool-cases, Option-cases, inl, inr, ok, err,
}
use bus_ai_booking.Prelude.Text.{trim, uuid_text, is_seat_number}
use bus_ai_booking.SeatState.Types.{
  SeatStateRow, DurableSeatStatus, booked, blocked, is_booked, ConfirmDurableSeatsInput,
  ConfirmationRow, SeatConfirmationRecord, confirmation_unavailable, check_violation,
}
use bus_ai_booking.SeatState.Tables.{
  SeatStateTables, lookup, among, is_booking, is_booked_by, all_booked_by,
}
use bus_ai_booking.SeatState.Repository.{
  confirmation_record, has_confirmation, insert_confirmation, is_request_row, booked_row,
  book_seats, confirm_recorded, confirm_seats,
}
use bus_ai_booking.SeatState.Repository.Lookup.{or_else, lookup-book_seats, lookup-among}

booked_sound : (status : DurableSeatStatus) → is_booked status ≡ true → status ≡ booked
unfolding is_booked
booked_sound booked h = refl
booked_sound blocked h = absurd (false≢true h)

booking_sound :
    (booking_id : String) (found : Option String)
    → is_booking booking_id found ≡ true
    → found ≡ some booking_id
booking_sound booking_id none h = absurd (false≢true h)
booking_sound booking_id (some id) h = ground (arith, h, eq_iff id booking_id)

not_booked_by :
    (booking_id : String) (row : SeatStateRow)
    → row.booking_id ≢ some booking_id
    → is_booked_by booking_id row ≡ false
not_booked_by booking_id row other = elim (Bool-cases (is_booked_by booking_id row)) [
  | inr fine ↦ fine
  | inl bad ↦ absurd (other (booking_sound booking_id row.booking_id (ground (arith, bad))))
]

abbrev pub is_booked_for : String → Option SeatStateRow → Bool
is_booked_for booking_id none = false
is_booked_for booking_id (some row) = is_booked_by booking_id row

-- The row of a seat that is booked for a booking.
booked_for :
    (booking_id : String) (found : Option SeatStateRow)
    → is_booked_for booking_id found ≡ true
    → (row : SeatStateRow) × (found ≡ some row)
      × (row.status ≡ booked)
      × (row.booking_id ≡ some booking_id)
booked_for booking_id none h = absurd (false≢true h)
booked_for booking_id (some row) h = (
  row,
  refl,
  booked_sound row.status (ground (arith, h)),
  booking_sound booking_id row.booking_id (ground (arith, h)),
)

pub find-insert_confirmation :
    (input : ConfirmDurableSeatsInput) (rows : List ConfirmationRow)
    → find
        (has_confirmation input.booking_id input.idempotency_key)
        (insert_confirmation input rows)
      ≡ some (get_or (find (has_confirmation input.booking_id input.idempotency_key) rows) input)
unfolding insert_confirmation
find-insert_confirmation input [] =
    ground (arith, eq_refl (uuid_text input.booking_id), eq_refl input.idempotency_key)
find-insert_confirmation input (row ∷ rows) = ground (arith, find-insert_confirmation input rows)

-- The request and the seats meet the CHECKs.
abbrev pub is_taken_in : ConfirmDurableSeatsInput → Bool
is_taken_in input = is_request_row input && all is_seat_number input.seat_ids

module _ (input : ConfirmDurableSeatsInput) (t : SeatStateTables) where
  abbrev pub selected : List SeatStateRow
  selected = filter (among input.trip_id input.seat_ids) (book_seats input input.seat_ids t.seats)

  abbrev pub earlier : Option ConfirmationRow
  earlier = find (has_confirmation input.booking_id input.idempotency_key) t.confirmations

  abbrev pub request : ConfirmationRow
  request = get_or earlier input

  -- The transaction, by the row of the request that is there after the insert.
  confirm_seats_request : confirm_seats input t ≡ (
      if is_request_row input
      then confirm_recorded input t (some request)
      else (err check_violation, t))
  unfolding confirm_seats
  confirm_seats_request = rw (find-insert_confirmation input t.confirmations) refl

  abbrev pub matches : Bool
  matches = trim request.request_fingerprint == input.request_fingerprint

  abbrev Answers : SeatConfirmationRecord → Type 0
  Answers found = (confirm_seats input t).0 ≡ ok found

  -- What is known of a confirmation that is answered with its own fingerprint.
  pub record Confirmed (found : SeatConfirmationRecord) : Type 0 where
    pub fit : is_request_row input ≡ true
    pub numbers : all is_seat_number input.seat_ids ≡ true
    pub good : all_booked_by input.booking_id input.seat_ids selected ≡ true
    pub same : matches ≡ true
    pub answer : found ≡ confirmation_record request
    pub tables : (confirm_seats input t).1 ≡ record t {
      confirmations = insert_confirmation input t.confirmations;
      seats = book_seats input input.seat_ids t.seats;
    }

  pub confirmed :
      (found : SeatConfirmationRecord)
      → Answers found
      → found.request_fingerprint ≡ input.request_fingerprint
      → Confirmed found
  confirmed found e f = elim (Bool-cases (is_request_row input)) [
    | inr unfit ↦ absurd (ground (arith, e, unfit, confirm_seats_request))
    | inl fit ↦ elim (Bool-cases matches) [
      | inr other ↦ absurd (
          ground (
            arith,
            e,
            f,
            fit,
            other,
            confirm_seats_request,
            eq_iff (trim request.request_fingerprint) input.request_fingerprint,
          ))
      | inl same ↦ elim (Bool-cases (all is_seat_number input.seat_ids)) [
        | inr bad ↦ absurd (ground (arith, e, fit, same, bad, confirm_seats_request))
        | inl numbers ↦ elim (Bool-cases (all_booked_by input.booking_id input.seat_ids selected)) [
          | inr bad ↦ absurd (ground (arith, e, fit, same, numbers, bad, confirm_seats_request))
          | inl good ↦ record {
            fit = fit;
            numbers = numbers;
            good = good;
            same = same;
            answer = ground (arith, e, fit, same, numbers, good, confirm_seats_request);
            tables = rw confirm_seats_request (rw fit (rw same (rw numbers (rw good refl))));
          }
        ]
      ]
    ]
  ]

  booked_seat :
      (seat_id : String)
      → includes input.seat_ids seat_id ≡ true
      → all_booked_by input.booking_id input.seat_ids selected ≡ true
      → is_booked_for input.booking_id
          (lookup input.trip_id seat_id (book_seats input input.seat_ids t.seats))
        ≡ true
  booked_seat seat_id i good =
      elim (Option-cases (lookup input.trip_id seat_id (book_seats input input.seat_ids t.seats))) [
        | inl x ↦ absurd (
            ground (
              arith,
              x,
              i,
              eq_refl input.trip_id,
              lookup-book_seats input input.trip_id seat_id input.seat_ids t.seats,
            ))
        | inr (row, x) ↦ rw x (
            lookup-among (is_booked_by input.booking_id) input.trip_id input.seat_ids seat_id
              (book_seats input input.seat_ids t.seats) row (ground (arith, good)) i x)
      ]

  -- If a confirmation is answered with its own fingerprint, every one of its seats has a row that is
  -- booked by its booking, rows that were there stay as they are, and no other seat gets a row.
  pub confirm_seats_books :
      (found : SeatConfirmationRecord)
      → (confirm_seats input t).0 ≡ ok found
      → found.request_fingerprint ≡ input.request_fingerprint
      → ((seat_id : String)
          → includes input.seat_ids seat_id ≡ true
          → (row : SeatStateRow) × (lookup input.trip_id seat_id (confirm_seats input t).1.seats
              ≡ some row)
            × (row.status ≡ booked)
            × (row.booking_id ≡ some input.booking_id))
        × ((trip_id seat_id : String)
            → lookup trip_id seat_id (confirm_seats input t).1.seats
              ≡ or_else (lookup trip_id seat_id t.seats) (
                  if input.trip_id == trip_id && includes input.seat_ids seat_id
                  then some (booked_row input seat_id)
                  else none))
  confirm_seats_books found e f =
      let c = confirmed found e f in
      let written = ap (λ (u : SeatStateTables). u.seats) c.tables in
      let good = c.good in
      (
        (λ seat_id i. rw written (booked_for input.booking_id _ (booked_seat seat_id i good))),
        λ trip_id seat_id.
            rw written (lookup-book_seats input trip_id seat_id input.seat_ids t.seats),
      )

  -- A new confirmation, with a fingerprint that is stored as it is, of a seat that has a row which is
  -- not of its booking (one of another booking, or a blocked one) changes no table. It is answered
  -- with the unavailable error, or, if its request or a seat fails a CHECK, with that error.
  pub confirm_seats_taken :
      (seat_id : String) (row : SeatStateRow)
      → earlier ≡ none
      → trim input.request_fingerprint ≡ input.request_fingerprint
      → includes input.seat_ids seat_id ≡ true
      → lookup input.trip_id seat_id t.seats ≡ some row
      → row.booking_id ≢ some input.booking_id
      → confirm_seats input t
        ≡ (err (if is_taken_in input then confirmation_unavailable else check_violation), t)
  confirm_seats_taken seat_id row new trimmed i there other =
      elim (Bool-cases (all_booked_by input.booking_id input.seat_ids selected)) [
        | inl good ↦ absurd (
            ground (
              arith,
              not_booked_by input.booking_id row other,
              there,
              booked_seat seat_id i good,
              lookup-book_seats input input.trip_id seat_id input.seat_ids t.seats,
            ))
        | inr bad ↦
            confirm_seats_request
            ∙ rw new (rw trimmed (rw (eq_refl input.request_fingerprint) (rw bad (ground arith))))
      ]
