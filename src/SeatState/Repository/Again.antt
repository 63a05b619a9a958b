-- ===== src/SeatState/Repository/Again.antt =====
-- A confirmation that is made again.
use bus_ai_booking.Prelude.{
  String, ◌≡◌, ◌≢◌, refl, true, false, Option, none, some, List, [], ◌∷◌, ◌==◌, arith, string_eq,
  ℕ_eq, eq_iff, eq_refl, find, filter, all, ap, includes, is_some, any-find-some, ok,
}
use bus_ai_booking.Prelude.Text.{trim, is_seat_number}
use bus_ai_booking.SeatState.Types.{
  SeatStateRow, ConfirmDurableSeatsInput, ConfirmationRow, SeatConfirmationRecord,
}
use bus_ai_booking.SeatState.Tables.{SeatStateTables, lookup, among, all_booked_by}
use bus_ai_booking.SeatState.Repository.{
  confirmation_record, has_confirmation, insert_confirmation, is_request_row, booked_row,
  insert_seat, book_seats, confirm_seats,
}
use bus_ai_booking.SeatState.Repository.Lookup.{or_else, any-lookup, lookup-book_seats}
use bus_ai_booking.SeatState.Repository.Confirm.{find-insert_confirmation, request, confirmed}

some-or_else : (a : Option SeatStateRow) (b : SeatStateRow) → is_some (or_else a (some b)) ≡ true
some-or_else none b = refl
some-or_else (some a) b = refl

insert_confirmation_kept :
    (input : ConfirmDurableSeatsInput) (rows : List ConfirmationRow) (row : ConfirmationRow)
    → find (has_confirmation input.booking_id input.idempotency_key) rows ≡ some row
    → insert_confirmation input rows ≡ rows
unfolding insert_confirmation
insert_confirmation_kept input rows row e =
    rw (any-find-some (has_confirmation input.booking_id input.idempotency_key) rows row e) refl

-- Booking seats that all have rows writes nothing.
book_seats_kept :
    (input : ConfirmDurableSeatsInput) (ids : List String) (rows : List SeatStateRow)
    → ((seat_id : String)
        → includes ids seat_id ≡ true
        → is_some (lookup input.trip_id seat_id rows) ≡ true)
    → book_seats input ids rows ≡ rows
unfolding book_seats insert_seat
book_seats_kept input [] rows all_there = refl
book_seats_kept input (seat ∷ ids) rows all_there = rw (any-lookup input.trip_id seat rows) (
    rw (all_there seat (ground (arith, eq_refl seat)))
      (book_seats_kept input ids rows (λ other i. all_there other (ground (arith, i)))))

book_seats_twice :
    (input : ConfirmDurableSeatsInput) (rows : List SeatStateRow)
    → book_seats input input.seat_ids (book_seats input input.seat_ids rows)
      ≡ book_seats input input.seat_ids rows
book_seats_twice input rows =
    book_seats_kept input input.seat_ids (book_seats input input.seat_ids rows) (λ seat i.
      rw (lookup-book_seats input input.trip_id seat input.seat_ids rows) (
        rw (eq_refl input.trip_id)
          (rw i (some-or_else (lookup input.trip_id seat rows) (booked_row input seat)))))

-- A confirmation whose request is there, with its fingerprint and its seats, changes nothing.
confirm_seats_settled :
    (input : ConfirmDurableSeatsInput) (u : SeatStateTables) (row : ConfirmationRow)
    → find (has_confirmation input.booking_id input.idempotency_key) u.confirmations ≡ some row
    → (trim row.request_fingerprint == input.request_fingerprint) ≡ true
    → is_request_row input ≡ true
    → all is_seat_number input.seat_ids ≡ true
    → book_seats input input.seat_ids u.seats ≡ u.seats
    → all_booked_by input.booking_id input.seat_ids
        (filter (among input.trip_id input.seat_ids) u.seats)
      ≡ true
    → confirm_seats input u ≡ (ok (confirmation_record row), u)
unfolding confirm_seats
confirm_seats_settled input u row e same fit numbers kept good =
    let unwritten = insert_confirmation_kept input u.confirmations row e in
    rw fit (rw unwritten (rw e (rw same (rw numbers (rw kept (rw good (rw unwritten refl)))))))

-- A request with the same key and another fingerprint is answered with the earlier one.
confirm_seats_differs :
    (input : ConfirmDurableSeatsInput) (u : SeatStateTables) (row : ConfirmationRow)
    → find (has_confirmation input.booking_id input.idempotency_key) u.confirmations ≡ some row
    → is_request_row input ≡ true
    → (trim row.request_fingerprint == input.request_fingerprint) ≡ false
    → confirm_seats input u ≡ (ok (confirmation_record row), u)
unfolding confirm_seats
confirm_seats_differs input u row e fit other =
    let unwritten = insert_confirmation_kept input u.confirmations row e in
    rw fit (rw unwritten (rw e (rw other (rw unwritten refl))))

-- After a confirmation that is answered with its own fingerprint, the same confirmation again gives
-- the same answer and changes no table; and one with its booking and key but another fingerprint,
-- whose request meets the CHECKs, gets the first one's answer, and changes no table.
pub confirm_seats_again :
    (input other : ConfirmDurableSeatsInput) (t : SeatStateTables) (found : SeatConfirmationRecord)
    → (confirm_seats input t).0 ≡ ok found
    → found.request_fingerprint ≡ input.request_fingerprint
    → other.booking_id ≡ input.booking_id
    → other.idempotency_key ≡ input.idempotency_key
    → is_request_row other ≡ true
    → other.request_fingerprint ≢ input.request_fingerprint
    → let u = (confirm_seats input t).1 in
      (confirm_seats input u ≡ (ok found, u)) × (confirm_seats other u ≡ (ok found, u))
confirm_seats_again input other t found e f b k fits differ =
    let c = confirmed input t found e f in
    let same = c.same in
    let answer = c.answer in
    let written = ap (λ (u : SeatStateTables). u.confirmations) c.tables in
    let seats = ap (λ (u : SeatStateTables). u.seats) c.tables in
    let there : find (has_confirmation input.booking_id input.idempotency_key)
          (confirm_seats input t).1.confirmations
        ≡ some (request input t) =
      rw written (find-insert_confirmation input t.confirmations) in
    let kept : book_seats input input.seat_ids (confirm_seats input t).1.seats
        ≡ (confirm_seats input t).1.seats =
      rw seats (book_seats_twice input t.seats) in
    (
      rw answer (
          confirm_seats_settled input (confirm_seats input t).1 (request input t) there same c.fit
            c.numbers kept (rw seats c.good)),
      rw answer (
          confirm_seats_differs other (confirm_seats input t).1 (request input t)
            (rw b (rw k there)) fits
            (ground (
              arith,
              same,
              differ,
              eq_iff (trim (request input t).request_fingerprint) other.request_fingerprint,
              eq_iff (trim (request input t).request_fingerprint) input.request_fingerprint,
            ))),
    )
