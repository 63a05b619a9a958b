-- ===== src/SeatState/Repository/Lookup.antt =====
-- The row of a seat after each write of the rows.
use bus_ai_booking.Prelude.{
  String, ◌≡◌, refl, Bool, true, not, ◌&&◌, ◌||◌, Option, none, some, List, [], ◌∷◌, ◌++◌, ◌==◌,
  arith, string_eq, ℕ_eq, eq_iff, if◌then◌else◌, any, all, filter, includes, ◌∙◌, is_some,
  Bool-cases, Option-cases, inl, inr,
}
use bus_ai_booking.SeatState.Types.{SeatStateRow, ConfirmDurableSeatsInput}
use bus_ai_booking.SeatState.Tables.{is_seat, lookup, among}
use bus_ai_booking.SeatState.Repository.{booked_row, insert_seat, book_seats}

-- The first row, or else the second.
abbrev pub or_else : Option SeatStateRow → Option SeatStateRow → Option SeatStateRow
or_else none b = b
or_else (some a) b = some a

pub any-lookup :
    (trip_id seat_id : String) (rows : List SeatStateRow)
    → any (is_seat trip_id seat_id) rows ≡ is_some (lookup trip_id seat_id rows)
unfolding lookup
any-lookup trip_id seat_id [] = refl
any-lookup trip_id seat_id (row ∷ rows) = ground (arith, any-lookup trip_id seat_id rows)

lookup-append :
    (trip_id seat_id : String) (rows more : List SeatStateRow)
    → lookup trip_id seat_id (rows ++ more)
      ≡ or_else (lookup trip_id seat_id rows) (lookup trip_id seat_id more)
unfolding lookup
lookup-append trip_id seat_id [] more = refl
lookup-append trip_id seat_id (row ∷ rows) more =
    ground (arith, lookup-append trip_id seat_id rows more)

lookup-single :
    (trip_id seat_id : String) (row : SeatStateRow)
    → lookup trip_id seat_id (row ∷ []) ≡ (if is_seat trip_id seat_id row then some row else none)
unfolding lookup
lookup-single trip_id seat_id row = refl

pub lookup-insert_seat :
    (trip_id seat_id : String) (row : SeatStateRow) (rows : List SeatStateRow)
    → lookup trip_id seat_id (insert_seat row rows)
      ≡ or_else
          (lookup trip_id seat_id rows)
          (if is_seat trip_id seat_id row then some row else none)
unfolding insert_seat
lookup-insert_seat trip_id seat_id row rows =
    elim (Bool-cases (any (is_seat row.trip_id row.seat_id) rows)) [
      | inl e ↦ rw e (elim (Option-cases (lookup trip_id seat_id rows)) [
        | inr (r, x) ↦ rw x refl
        | inl x ↦ rw x (
            ground (
              arith,
              e,
              x,
              any-lookup row.trip_id row.seat_id rows,
              eq_iff row.trip_id trip_id,
              eq_iff row.seat_id seat_id,
            ))
      ])
      | inr e ↦ rw e (
          lookup-append trip_id seat_id rows (row ∷ [])
          ∙ rw (lookup-single trip_id seat_id row) refl)
    ]

-- Booking seats adds a row where there was none, and keeps every row that was there.
pub lookup-book_seats :
    (input : ConfirmDurableSeatsInput) (trip_id seat_id : String) (ids : List String)
    (rows : List SeatStateRow)
    → lookup trip_id seat_id (book_seats input ids rows)
      ≡ or_else (lookup trip_id seat_id rows) (
          if input.trip_id == trip_id && includes ids seat_id
          then some (booked_row input seat_id)
          else none)
unfolding book_seats
lookup-book_seats input trip_id seat_id [] rows = ground arith
lookup-book_seats input trip_id seat_id (seat ∷ ids) rows = ground (
  arith,
  lookup-book_seats input trip_id seat_id ids (insert_seat (booked_row input seat) rows),
  lookup-insert_seat trip_id seat_id (booked_row input seat) rows,
  eq_iff seat seat_id,
)

-- What is checked of all the rows of the seats holds of the row of each of them.
pub lookup-among :
    (p : SeatStateRow → Bool) (trip_id : String) (ids : List String) (seat_id : String)
    (rows : List SeatStateRow) (row : SeatStateRow)
    → all p (filter (among trip_id ids) rows) ≡ true
    → includes ids seat_id ≡ true
    → lookup trip_id seat_id rows ≡ some row
    → p row ≡ true
unfolding lookup
lookup-among p trip_id ids seat_id [] row h i e = absurd (ground (arith, e))
lookup-among p trip_id ids seat_id (x ∷ rows) row h i e =
    ground (arith, eq_iff x.seat_id seat_id, lookup-among p trip_id ids seat_id rows row)

-- Rows deleted by a test that looks at the key alone.
pub lookup-filter :
    (keep : SeatStateRow → Bool) (trip_id seat_id : String) (rows : List SeatStateRow)
    → all (λ (row : SeatStateRow). not (is_seat trip_id seat_id row) || keep row) rows ≡ true
    → lookup trip_id seat_id (filter keep rows) ≡ lookup trip_id seat_id rows
unfolding lookup
lookup-filter keep trip_id seat_id [] h = refl
lookup-filter keep trip_id seat_id (x ∷ rows) h =
    ground (arith, lookup-filter keep trip_id seat_id rows)

pub lookup-filter-none :
    (keep : SeatStateRow → Bool) (trip_id seat_id : String) (rows : List SeatStateRow)
    → all (λ (row : SeatStateRow). not (is_seat trip_id seat_id row && keep row)) rows ≡ true
    → lookup trip_id seat_id (filter keep rows) ≡ none
unfolding lookup
lookup-filter-none keep trip_id seat_id [] h = refl
lookup-filter-none keep trip_id seat_id (x ∷ rows) h =
    ground (arith, lookup-filter-none keep trip_id seat_id rows)
