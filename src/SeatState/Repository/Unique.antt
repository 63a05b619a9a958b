-- ===== src/SeatState/Repository/Unique.antt =====
-- The primary key of the seats, whatever sequence of transactions ran.
use bus_ai_booking.Prelude.{
  String, ◌≤◌, ◌≡◌, refl, Bool, true, false, not, ◌&&◌, Option, none, some, List, [], ◌∷◌, ◌++◌,
  map, ◌==◌, arith, string_eq, ℕ_eq, eq_iff, if◌then◌else◌, find, any, all, filter, length,
  filter-none, length-filter-concat, Bool-cases, Option-cases, inl, inr,
}
use bus_ai_booking.Prelude.Text.{trim, is_seat_number}
use bus_ai_booking.SeatState.Types.{
  SeatStateRow, is_booked, ConfirmDurableSeatsInput, ReleaseBookedSeatsInput, SetSeatBlockedInput,
}
use bus_ai_booking.SeatState.Tables.{SeatStateTables, is_seat, among, all_booked_by}
use bus_ai_booking.SeatState.Repository.{
  booked_row, insert_seat, book_seats, has_confirmation, insert_confirmation, confirm_recorded,
  confirm_booked, is_request_row, confirm_seats, has_release, release_booked_seats, blocked_row,
  update_blocked, block_seat, block_seats, unblock_seats, has_command, set_seat_blocked,
}

-- No key has two rows.
abbrev pub IsUnique : List SeatStateRow → Type 0
IsUnique rows = (trip_id seat_id : String) → length (filter (is_seat trip_id seat_id) rows) ≤ 1

append-IsUnique :
    (row : SeatStateRow) (rows : List SeatStateRow)
    → any (is_seat row.trip_id row.seat_id) rows ≡ false
    → IsUnique rows
    → IsUnique (rows ++ row ∷ [])
append-IsUnique row rows new u trip_id seat_id = elim (Bool-cases (is_seat trip_id seat_id row)) [
  | inr other ↦
      ground
        (arith, other, u trip_id seat_id, length-filter-concat (is_seat trip_id seat_id) rows row)
  | inl same ↦
      let t : row.trip_id ≡ trip_id = ground (arith, same, eq_iff row.trip_id trip_id) in
      let i : row.seat_id ≡ seat_id = ground (arith, same, eq_iff row.seat_id seat_id) in
      rw (← t) (
        rw (← i) (
          rw (length-filter-concat (is_seat row.trip_id row.seat_id) rows row)
            (rw (filter-none (is_seat row.trip_id row.seat_id) rows new) (ground arith))))
]

filter-IsUnique :
    (keep : SeatStateRow → Bool) (rows : List SeatStateRow)
    → IsUnique rows
    → IsUnique (filter keep rows)
filter-IsUnique keep rows u trip_id seat_id =
    ground (arith, u trip_id seat_id, fewer (is_seat trip_id seat_id) rows)
  where
    fewer :
        (p : SeatStateRow → Bool) (xs : List SeatStateRow)
        → length (filter p (filter keep xs)) ≤ length (filter p xs)
    fewer p [] = ground arith
    fewer p (x ∷ xs) = ground (arith, fewer p xs)

book_seats-IsUnique :
    (input : ConfirmDurableSeatsInput) (ids : List String) (rows : List SeatStateRow)
    → IsUnique rows
    → IsUnique (book_seats input ids rows)
unfolding book_seats insert_seat
book_seats-IsUnique input [] rows u = u
book_seats-IsUnique input (seat ∷ ids) rows u =
    elim (Bool-cases (any (is_seat input.trip_id seat) rows)) [
      | inl old ↦ rw old (book_seats-IsUnique input ids rows u)
      | inr new ↦ rw new (
          book_seats-IsUnique input ids (rows ++ booked_row input seat ∷ [])
            (append-IsUnique (booked_row input seat) rows new u))
    ]

map-length :
    (input : SetSeatBlockedInput) (seat trip_id seat_id : String) (rows : List SeatStateRow)
    → length (filter (is_seat trip_id seat_id) (map (update_blocked input seat) rows))
      ≡ length (filter (is_seat trip_id seat_id) rows)
unfolding update_blocked
map-length input seat trip_id seat_id [] = refl
map-length input seat trip_id seat_id (row ∷ rows) =
    ground (arith, map-length input seat trip_id seat_id rows)

block_seats-IsUnique :
    (input : SetSeatBlockedInput) (ids : List String) (rows : List SeatStateRow)
    → IsUnique rows
    → IsUnique (block_seats input ids rows)
unfolding block_seats block_seat
block_seats-IsUnique input [] rows u = u
block_seats-IsUnique input (seat ∷ ids) rows u =
    elim (Bool-cases (any (is_seat input.trip_id seat) rows)) [
      | inl old ↦ rw old (
          block_seats-IsUnique input ids (map (update_blocked input seat) rows) (λ trip_id seat_id.
            rw (map-length input seat trip_id seat_id rows) (u trip_id seat_id)))
      | inr new ↦ rw new (
          block_seats-IsUnique input ids (rows ++ blocked_row input seat ∷ [])
            (append-IsUnique (blocked_row input seat) rows new u))
    ]

set_blocked-IsUnique :
    (input : SetSeatBlockedInput) (on : Bool) (rows : List SeatStateRow)
    → IsUnique rows
    → IsUnique (if on then block_seats input input.seat_ids rows else unblock_seats input rows)
unfolding unblock_seats
set_blocked-IsUnique input true rows u = block_seats-IsUnique input input.seat_ids rows u
set_blocked-IsUnique input false rows u = filter-IsUnique _ rows u

confirm_seats-IsUnique :
    (input : ConfirmDurableSeatsInput) (t : SeatStateTables)
    → IsUnique t.seats
    → IsUnique (confirm_seats input t).1.seats
unfolding confirm_seats
confirm_seats-IsUnique input t u = elim (Bool-cases (is_request_row input)) [
  | inr bad ↦ rw bad u
  | inl fit ↦ rw fit (
      recorded (
        find (has_confirmation input.booking_id input.idempotency_key)
          (insert_confirmation input t.confirmations)))
]
  where
    booked_lem : (row : ConfirmDurableSeatsInput) → IsUnique (confirm_booked input row t).1.seats
    booked_lem row = elim (Bool-cases (all is_seat_number input.seat_ids)) [
      | inr bad ↦ rw bad u
      | inl numbers ↦
          elim (Bool-cases (
            all_booked_by input.booking_id input.seat_ids (
              filter (among input.trip_id input.seat_ids)
                (book_seats input input.seat_ids t.seats)))) [
                  | inr bad ↦ rw numbers (rw bad u)
                  | inl good ↦
                      rw numbers (rw good (book_seats-IsUnique input input.seat_ids t.seats u))
                ]
    ]

    recorded :
        (found : Option ConfirmDurableSeatsInput)
        → IsUnique (confirm_recorded input t found).1.seats
    recorded none = u
    recorded (some row) =
        elim (Bool-cases (trim row.request_fingerprint == input.request_fingerprint)) [
          | inr other ↦ rw other u
          | inl same ↦ rw same (booked_lem row)
        ]

release-IsUnique :
    (input : ReleaseBookedSeatsInput) (t : SeatStateTables)
    → IsUnique t.seats
    → IsUnique (release_booked_seats input t).1.seats
unfolding release_booked_seats
release-IsUnique input t u = elim (Option-cases (find (has_release input.booking_id) t.releases)) [
  | inr (row, x) ↦ rw x u
  | inl new ↦
      elim (Bool-cases (
        all_booked_by input.booking_id input.seat_ids
          (filter (among input.trip_id input.seat_ids) t.seats))) [
            | inr bad ↦ rw new (rw bad u)
            | inl good ↦ rw new (rw good (filter-IsUnique _ t.seats u))
          ]
]

set_seat_blocked-IsUnique :
    (id : String) (input : SetSeatBlockedInput) (seen : List SeatStateRow) (t : SeatStateTables)
    → IsUnique t.seats
    → IsUnique (set_seat_blocked id input seen t).1.seats
unfolding set_seat_blocked
set_seat_blocked-IsUnique id input seen t u =
    elim (Option-cases (find (has_command input.actor_id input.idempotency_key) t.commands)) [
      | inr (row, x) ↦ rw x u
      | inl new ↦
          elim (Bool-cases (
            any (λ (row : SeatStateRow). is_booked row.status)
              (filter (among input.trip_id input.seat_ids) seen))) [
                | inl bad ↦ rw new (rw bad u)
                | inr good ↦
                    elim (Bool-cases (input.blocked && not (all is_seat_number input.seat_ids))) [
                      | inl bad ↦ rw new (rw good (rw bad u))
                      | inr fine ↦
                          rw new
                            (rw good (rw fine (set_blocked-IsUnique input input.blocked t.seats u)))
                    ]
              ]
    ]

-- A transaction on the tables; a command draws its random id, and has the seats that its SELECT found.
pub data Transaction : Type 0 where
  confirms : ConfirmDurableSeatsInput → Transaction
  releases : ReleaseBookedSeatsInput → Transaction
  sets : String → SetSeatBlockedInput → List SeatStateRow → Transaction

unfoldable pub run : SeatStateTables → List Transaction → SeatStateTables
run t [] = t
run t (confirms input ∷ rest) = run (confirm_seats input t).1 rest
run t (releases input ∷ rest) = run (release_booked_seats input t).1 rest
run t (sets id input seen ∷ rest) = run (set_seat_blocked id input seen t).1 rest

-- Whatever transactions ran one after the other on tables without two rows for a seat of a trip, there
-- are no two rows for a seat of a trip, so that a seat is not booked for two bookings.
pub run-IsUnique :
    (t : SeatStateTables) (transactions : List Transaction)
    → IsUnique t.seats
    → IsUnique (run t transactions).seats
unfolding run
run-IsUnique t [] u = u
run-IsUnique t (confirms input ∷ rest) u =
    run-IsUnique (confirm_seats input t).1 rest (confirm_seats-IsUnique input t u)
run-IsUnique t (releases input ∷ rest) u =
    run-IsUnique (release_booked_seats input t).1 rest (release-IsUnique input t u)
run-IsUnique t (sets id input seen ∷ rest) u =
    run-IsUnique (set_seat_blocked id input seen t).1 rest
      (set_seat_blocked-IsUnique id input seen t u)
