-- ===== src/SeatState/Repository/BlockWrites.antt =====
-- What the writes of setSeatBlocked leave of the seats: their statuses, and the booked rows.
use bus_ai_booking.Prelude.{
  String, ◌≡◌, refl, sym, ap, ◌∙◌, Bool, true, false, ◌&&◌, Option, none, some, List, [], ◌∷◌, ◌++◌,
  map, ◌==◌, arith, string_eq, ℕ_eq, eq_iff, if◌then◌else◌, find, any, ◌≤◌, length, filter,
  includes, Bool-cases, Option-cases, inl, inr,
}
use bus_ai_booking.SeatState.Types.{
  SeatStateRow, DurableSeatStatus, is_booked, blocked, SetSeatBlockedInput,
}
use bus_ai_booking.SeatState.Tables.{is_seat, lookup, among}
use bus_ai_booking.SeatState.Repository.{
  blocked_row, update_blocked, block_seat, block_seats, unblock_seats,
}
use bus_ai_booking.SeatState.Repository.Lookup.{any-lookup}

-- The status of a seat, if it has a row.
abbrev pub row_status : Option SeatStateRow → Option DurableSeatStatus
row_status none = none
row_status (some row) = some row.status

abbrev pub status_at : String → String → List SeatStateRow → Option DurableSeatStatus
status_at trip_id seat_id rows = row_status (lookup trip_id seat_id rows)

abbrev pub or_status :
    Option DurableSeatStatus → Option DurableSeatStatus → Option DurableSeatStatus
or_status none b = b
or_status (some a) b = some a

-- The status, where it is booked.
abbrev pub if_booked : Option DurableSeatStatus → Option DurableSeatStatus
if_booked none = none
if_booked (some status) = if is_booked status then some status else none

gone_too :
    (keep p : SeatStateRow → Bool) (rows : List SeatStateRow)
    → length (filter p rows) ≤ 0
    → find p (filter keep rows) ≡ none
gone_too keep p [] h = refl
gone_too keep p (row ∷ rows) h = ground (arith, h, gone_too keep p rows)

among_same :
    (trip : String) (ids : List String) (trip_id seat_id : String) (row : SeatStateRow)
    → is_seat trip_id seat_id row ≡ true
    → among trip ids row ≡ (trip == trip_id && includes ids seat_id)
among_same trip ids trip_id seat_id row same =
    let t : row.trip_id ≡ trip_id = ground (arith, same, eq_iff row.trip_id trip_id) in
    let i : row.seat_id ≡ seat_id = ground (arith, same, eq_iff row.seat_id seat_id) in
    rw t (rw i (ground (arith, eq_iff trip_id trip, eq_iff trip trip_id)))

or_status-none : (a : Option DurableSeatStatus) → or_status a none ≡ a
or_status-none none = refl
or_status-none (some a) = refl

abbrev pub booked_rows : List SeatStateRow → List SeatStateRow
booked_rows rows = filter (λ (row : SeatStateRow). is_booked row.status) rows

module _ (input : SetSeatBlockedInput) where
  status_at-update :
      (seat trip_id seat_id : String) (rows : List SeatStateRow)
      → status_at trip_id seat_id (map (update_blocked input seat) rows)
        ≡ status_at trip_id seat_id rows
  unfolding lookup update_blocked
  status_at-update seat trip_id seat_id [] = refl
  status_at-update seat trip_id seat_id (row ∷ rows) =
      ground (arith, status_at-update seat trip_id seat_id rows)

  status_at-append :
      (seat trip_id seat_id : String) (rows : List SeatStateRow)
      → status_at trip_id seat_id (rows ++ blocked_row input seat ∷ [])
        ≡ or_status
            (status_at trip_id seat_id rows)
            (if input.trip_id == trip_id && seat == seat_id then some blocked else none)
  unfolding lookup
  status_at-append seat trip_id seat_id [] = ground arith
  status_at-append seat trip_id seat_id (row ∷ rows) =
      ground (arith, status_at-append seat trip_id seat_id rows)

  status_at-block_seat :
      (seat trip_id seat_id : String) (rows : List SeatStateRow)
      → status_at trip_id seat_id (block_seat input seat rows)
        ≡ or_status
            (status_at trip_id seat_id rows)
            (if input.trip_id == trip_id && seat == seat_id then some blocked else none)
  unfolding block_seat
  status_at-block_seat seat trip_id seat_id rows =
      elim (Bool-cases (any (is_seat input.trip_id seat) rows)) [
        | inr new ↦ rw new (status_at-append seat trip_id seat_id rows)
        | inl old ↦ rw old (elim (Option-cases (lookup trip_id seat_id rows)) [
          | inr (row, x) ↦ ground (arith, x, status_at-update seat trip_id seat_id rows)
          | inl x ↦ ground (
            arith,
            x,
            old,
            status_at-update seat trip_id seat_id rows,
            any-lookup input.trip_id seat rows,
            eq_iff input.trip_id trip_id,
            eq_iff seat seat_id,
          )
        ])
      ]

  status_at-block_seats :
      (trip_id seat_id : String) (ids : List String) (rows : List SeatStateRow)
      → status_at trip_id seat_id (block_seats input ids rows)
        ≡ or_status
            (status_at trip_id seat_id rows)
            (if input.trip_id == trip_id && includes ids seat_id then some blocked else none)
  unfolding block_seats
  status_at-block_seats trip_id seat_id [] rows = ground arith
  status_at-block_seats trip_id seat_id (seat ∷ ids) rows = ground (
    arith,
    status_at-block_seats trip_id seat_id ids (block_seat input seat rows),
    status_at-block_seat seat trip_id seat_id rows,
  )

  booked_rows-update :
      (seat : String) (rows : List SeatStateRow)
      → booked_rows (map (update_blocked input seat) rows) ≡ booked_rows rows
  unfolding update_blocked
  booked_rows-update seat [] = refl
  booked_rows-update seat (row ∷ rows) = ground (arith, booked_rows-update seat rows)

  booked_rows-append :
      (seat : String) (rows : List SeatStateRow)
      → booked_rows (rows ++ blocked_row input seat ∷ []) ≡ booked_rows rows
  unfolding is_booked
  booked_rows-append seat [] = refl
  booked_rows-append seat (row ∷ rows) = ground (arith, booked_rows-append seat rows)

  booked_rows-block_seats :
      (ids : List String) (rows : List SeatStateRow)
      → booked_rows (block_seats input ids rows) ≡ booked_rows rows
  unfolding block_seats block_seat
  booked_rows-block_seats [] rows = refl
  booked_rows-block_seats (seat ∷ ids) rows =
      elim (Bool-cases (any (is_seat input.trip_id seat) rows)) [
        | inl old ↦ rw old (
            booked_rows-block_seats ids (map (update_blocked input seat) rows)
            ∙ booked_rows-update seat rows)
        | inr new ↦ rw new (
            booked_rows-block_seats ids (rows ++ blocked_row input seat ∷ [])
            ∙ booked_rows-append seat rows)
      ]

  booked_rows-unblock_seats :
      (rows : List SeatStateRow) → booked_rows (unblock_seats input rows) ≡ booked_rows rows
  unfolding unblock_seats
  booked_rows-unblock_seats [] = refl
  booked_rows-unblock_seats (row ∷ rows) = ground (arith, booked_rows-unblock_seats rows)

  -- The first row of a seat that has no other.
  unblocked_first :
      (trip_id seat_id : String) (row : SeatStateRow) (rows : List SeatStateRow)
      → is_seat trip_id seat_id row ≡ true
      → among input.trip_id input.seat_ids row
        ≡ (input.trip_id == trip_id && includes input.seat_ids seat_id)
      → length (filter (is_seat trip_id seat_id) rows) ≤ 0
      → status_at trip_id seat_id (unblock_seats input (row ∷ rows)) ≡ (
          if input.trip_id == trip_id && includes input.seat_ids seat_id
          then if_booked (status_at trip_id seat_id (row ∷ rows))
          else status_at trip_id seat_id (row ∷ rows))
  unfolding unblock_seats lookup
  unblocked_first trip_id seat_id row rows same own none_left =
      elim (Bool-cases (among input.trip_id input.seat_ids row)) [
        | inr out ↦ rw (sym own) (rw out (rw same refl))
        | inl among_them ↦ rw (sym own) (
            rw among_them (elim (Bool-cases (is_booked row.status)) [
              | inl kept ↦ rw kept (rw same (rw kept refl))
              | inr gone ↦ rw gone (
                  rw same
                    (rw gone (ap row_status (gone_too _ (is_seat trip_id seat_id) rows none_left))))
            ]))
      ]

  -- Deleting the blocked rows of seats keeps the booked ones.
  status_at-unblock_seats :
      (trip_id seat_id : String) (rows : List SeatStateRow)
      → length (filter (is_seat trip_id seat_id) rows) ≤ 1
      → status_at trip_id seat_id (unblock_seats input rows) ≡ (
          if input.trip_id == trip_id && includes input.seat_ids seat_id
          then if_booked (status_at trip_id seat_id rows)
          else status_at trip_id seat_id rows)
  unfolding unblock_seats lookup
  status_at-unblock_seats trip_id seat_id [] h = ground arith
  status_at-unblock_seats trip_id seat_id (row ∷ rows) h =
      elim (Bool-cases (is_seat trip_id seat_id row)) [
        | inr other ↦ ground (arith, h, other, status_at-unblock_seats trip_id seat_id rows)
        | inl same ↦
            unblocked_first trip_id seat_id row rows same
              (among_same input.trip_id input.seat_ids trip_id seat_id row same)
              (ground (arith, h, same))
      ]

  pub booked_rows-set :
      (on : Bool) (rows : List SeatStateRow)
      → booked_rows (if on then block_seats input input.seat_ids rows else unblock_seats input rows)
        ≡ booked_rows rows
  booked_rows-set true rows = booked_rows-block_seats input.seat_ids rows
  booked_rows-set false rows = booked_rows-unblock_seats rows

  pub status_at-set :
      (trip_id seat_id : String) (on : Bool) (rows : List SeatStateRow)
      → length (filter (is_seat trip_id seat_id) rows) ≤ 1
      → status_at trip_id seat_id
          (if on then block_seats input input.seat_ids rows else unblock_seats input rows)
        ≡ (if input.trip_id == trip_id && includes input.seat_ids seat_id
            then (if on
                then or_status (status_at trip_id seat_id rows) (some blocked)
                else if_booked (status_at trip_id seat_id rows))
            else status_at trip_id seat_id rows)
  status_at-set trip_id seat_id false rows h = status_at-unblock_seats trip_id seat_id rows h
  status_at-set trip_id seat_id true rows h =
      status_at-block_seats trip_id seat_id input.seat_ids rows
      ∙ elim (Bool-cases (input.trip_id == trip_id && includes input.seat_ids seat_id)) [
        | inr other ↦ rw other (or_status-none (status_at trip_id seat_id rows))
        | inl same ↦ rw same refl
      ]
