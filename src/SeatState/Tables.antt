-- ===== src/SeatState/Tables.antt =====
-- The tables of the schema seat_inventory, and the conditions that the statements of
-- services/seat-inventory-service/src/seat-state.repository.ts select their rows by.
use bus_ai_booking.Prelude.{
  String, Bool, false, ◌&&◌, Option, none, some, List, map, ◌==◌, string_eq, ℕ_eq, find, all,
  filter, includes, length,
}
use bus_ai_booking.Prelude.Text.{uuid_text}
use bus_ai_booking.SeatState.Types.{
  is_booked, SeatStateRow, DurableSeatState, ConfirmationRow, ReleaseRow, SeatBlockCommandRow,
}

pub record SeatStateTables : Type 0 where
  pub seats : List SeatStateRow
  pub confirmations : List ConfirmationRow
  pub releases : List ReleaseRow
  pub commands : List SeatBlockCommandRow

-- `trip_id = $1 AND seat_id = $2`, the primary key.
abbrev pub is_seat : String → String → SeatStateRow → Bool
is_seat trip_id seat_id row = row.trip_id == trip_id && row.seat_id == seat_id

unfoldable pub lookup : String → String → List SeatStateRow → Option SeatStateRow
lookup trip_id seat_id rows = find (is_seat trip_id seat_id) rows

-- `trip_id = $1 AND seat_id = ANY($2::text[])`
abbrev pub among : String → List String → SeatStateRow → Bool
among trip_id seat_ids row = row.trip_id == trip_id && includes seat_ids row.seat_id

-- The rows that `listByTrip` reads; their order by seat is left to the table.
unfoldable pub list_by_trip : String → SeatStateTables → List DurableSeatState
list_by_trip trip_id t =
    map (λ (row : SeatStateRow). record { seat_id = row.seat_id; status = row.status })
      (filter (λ (row : SeatStateRow). row.trip_id == trip_id) t.seats)

abbrev pub is_booking : String → Option String → Bool
is_booking booking_id none = false
is_booking booking_id (some id) = id == booking_id

-- `booking_id = $3`, of two values of the type uuid.
abbrev pub is_booking_row : String → Option String → Bool
is_booking_row booking_id none = false
is_booking_row booking_id (some id) = uuid_text id == uuid_text booking_id

-- `row.status === 'BOOKED' && row.booking_id === input.bookingId`: the text of the request against
-- that of the column.
abbrev pub is_booked_by : String → SeatStateRow → Bool
is_booked_by booking_id row = is_booked row.status && is_booking booking_id row.booking_id

-- The check of both transactions: a row for each seat, and each of them booked by the booking.
abbrev pub all_booked_by : String → List String → List SeatStateRow → Bool
all_booked_by booking_id seat_ids rows =
    length rows == length seat_ids && all (is_booked_by booking_id) rows
