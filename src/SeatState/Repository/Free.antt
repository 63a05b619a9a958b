-- ===== src/SeatState/Repository/Free.antt =====
-- A confirmation of seats that are free.
use bus_ai_booking.Prelude.{
  String, ◌≡◌, refl, sym, ◌∙◌, Bool, true, false, not, ◌&&◌, none, some, List, [], ◌∷◌, ◌++◌, map,
  ◌==◌, arith, string_eq, ℕ_eq, eq_iff, eq_refl, find, any, all, filter, includes, length,
  find-none, find-append-none, ok, append-nil, append_assoc,
}
use bus_ai_booking.Prelude.Text.{trim, uuid_text, is_seat_number}
use bus_ai_booking.SeatState.Types.{
  SeatStateRow, is_booked, ConfirmDurableSeatsInput, ConfirmationRow,
}
use bus_ai_booking.SeatState.Tables.{SeatStateTables, lookup, among, is_booked_by, all_booked_by}
use bus_ai_booking.SeatState.Repository.{
  confirmation_record, has_confirmation, insert_confirmation, is_request_row, booked_row,
  insert_seat, book_seats, confirm_seats,
}
use bus_ai_booking.SeatState.Repository.Lookup.{any-lookup}
use bus_ai_booking.SeatState.Repository.Confirm.{is_taken_in}

-- No seat twice.
abbrev pub is_distinct : List String → Bool
is_distinct [] = true
is_distinct (seat ∷ ids) = not (includes ids seat) && is_distinct ids

length-map-row :
    (input : ConfirmDurableSeatsInput) (ids : List String)
    → length (map (booked_row input) ids) ≡ length ids
length-map-row input [] = refl
length-map-row input (seat ∷ ids) = ground (arith, length-map-row input ids)

lookup-insert_other :
    (input : ConfirmDurableSeatsInput) (trip_id seat other : String) (rows : List SeatStateRow)
    → (seat == other) ≡ false
    → lookup trip_id other (rows ++ booked_row input seat ∷ []) ≡ lookup trip_id other rows
unfolding lookup
lookup-insert_other input trip_id seat other [] h = ground (arith, h)
lookup-insert_other input trip_id seat other (row ∷ rows) h =
    ground (arith, lookup-insert_other input trip_id seat other rows h)

-- Free distinct seats are booked by one new row each.
pub book_seats_free :
    (input : ConfirmDurableSeatsInput) (ids : List String) (rows : List SeatStateRow)
    → is_distinct ids ≡ true
    → ((seat_id : String) → includes ids seat_id ≡ true → lookup input.trip_id seat_id rows ≡ none)
    → book_seats input ids rows ≡ rows ++ map (booked_row input) ids
unfolding book_seats insert_seat
book_seats_free input [] rows distinct free = sym (append-nil rows)
book_seats_free input (seat ∷ ids) rows distinct free = rw (any-lookup input.trip_id seat rows) (
    rw (free seat (ground (arith, eq_refl seat))) (
      book_seats_free input ids (rows ++ booked_row input seat ∷ []) (ground (arith, distinct))
        still_free
      ∙ append_assoc rows (booked_row input seat ∷ []) (map (booked_row input) ids)))
  where
    still_free :
        (other : String)
        → includes ids other ≡ true
        → lookup input.trip_id other (rows ++ booked_row input seat ∷ []) ≡ none
    still_free other i =
        lookup-insert_other input input.trip_id seat other rows
          (ground (arith, distinct, i, eq_iff seat other))
        ∙ free other (ground (arith, i))

pub filter-append :
    (p : SeatStateRow → Bool) (xs ys : List SeatStateRow)
    → filter p (xs ++ ys) ≡ filter p xs ++ filter p ys
filter-append p [] ys = refl
filter-append p (x ∷ xs) ys = ground (arith, filter-append p xs ys)

-- Rows among seats that have none.
pub among_free :
    (trip_id : String) (ids : List String) (rows : List SeatStateRow)
    → ((seat_id : String) → includes ids seat_id ≡ true → lookup trip_id seat_id rows ≡ none)
    → filter (among trip_id ids) rows ≡ []
unfolding lookup
among_free trip_id ids [] free = refl
among_free trip_id ids (row ∷ rows) free = ground (
  arith,
  free row.seat_id,
  eq_refl row.seat_id,
  among_free trip_id ids rows (λ seat i. ground (arith, free seat i)),
)

pub among_own :
    (input : ConfirmDurableSeatsInput) (more ids : List String)
    → ((seat_id : String) → includes ids seat_id ≡ true → includes more seat_id ≡ true)
    → filter (among input.trip_id more) (map (booked_row input) ids) ≡ map (booked_row input) ids
among_own input more [] sub = refl
among_own input more (seat ∷ ids) sub = ground (
  arith,
  eq_refl input.trip_id,
  sub seat (ground (arith, eq_refl seat)),
  among_own input more ids (λ other i. sub other (ground (arith, i))),
)

all_own :
    (input : ConfirmDurableSeatsInput) (ids : List String)
    → uuid_text input.booking_id ≡ input.booking_id
    → all (is_booked_by input.booking_id) (map (booked_row input) ids) ≡ true
unfolding is_booked
all_own input [] h = refl
all_own input (seat ∷ ids) h = ground (arith, h, eq_refl input.booking_id, all_own input ids h)

found_new :
    (input : ConfirmDurableSeatsInput) (rows : List ConfirmationRow)
    → any (has_confirmation input.booking_id input.idempotency_key) rows ≡ false
    → find (has_confirmation input.booking_id input.idempotency_key) (rows ++ input ∷ [])
      ≡ some input
found_new input rows new =
    find-append-none (has_confirmation input.booking_id input.idempotency_key) rows (input ∷ [])
      (find-none (has_confirmation input.booking_id input.idempotency_key) rows new)
    ∙ ground (arith, eq_refl (uuid_text input.booking_id), eq_refl input.idempotency_key)

all_booked_free :
    (input : ConfirmDurableSeatsInput) (rows : List SeatStateRow)
    → uuid_text input.booking_id ≡ input.booking_id
    → ((seat_id : String)
        → includes input.seat_ids seat_id ≡ true
        → lookup input.trip_id seat_id rows ≡ none)
    → all_booked_by input.booking_id input.seat_ids (
        filter (among input.trip_id input.seat_ids) (rows ++ map (booked_row input) input.seat_ids))
      ≡ true
all_booked_free input rows lower free =
    rw
      (filter-append (among input.trip_id input.seat_ids) rows
        (map (booked_row input) input.seat_ids))
      (rw (among_free input.trip_id input.seat_ids rows free) (
        rw (among_own input input.seat_ids input.seat_ids (λ seat i. i)) (
          rw (length-map-row input input.seat_ids)
            (rw (all_own input input.seat_ids lower) (ground arith)))))

-- A new confirmation of distinct seats that have no row, where the request and the seats meet the
-- CHECKs, the id of the booking is in lower case, and `trim` leaves the fingerprint as it is, succeeds:
-- it writes the request, and a row that books each of the seats.
pub confirm_seats_free :
    (input : ConfirmDurableSeatsInput) (t : SeatStateTables)
    → any (has_confirmation input.booking_id input.idempotency_key) t.confirmations ≡ false
    → is_taken_in input ≡ true
    → uuid_text input.booking_id ≡ input.booking_id
    → trim input.request_fingerprint ≡ input.request_fingerprint
    → is_distinct input.seat_ids ≡ true
    → ((seat_id : String)
        → includes input.seat_ids seat_id ≡ true
        → lookup input.trip_id seat_id t.seats ≡ none)
    → confirm_seats input t ≡ (
      ok (confirmation_record input),
      record t {
        confirmations = t.confirmations ++ input ∷ [];
        seats = t.seats ++ map (booked_row input) input.seat_ids;
      },
    )
unfolding confirm_seats insert_confirmation
confirm_seats_free input t new taken lower trimmed distinct free =
    let fit : is_request_row input ≡ true = ground (arith, taken) in
    let numbers : all is_seat_number input.seat_ids ≡ true = ground (arith, taken) in
    rw fit (
      rw new (
        rw (found_new input t.confirmations new) (
          rw trimmed (
            rw (eq_refl input.request_fingerprint) (
              rw numbers (
                rw (book_seats_free input input.seat_ids t.seats distinct free)
                  (rw (all_booked_free input t.seats lower free) (rw new refl))))))))
