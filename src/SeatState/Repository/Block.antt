-- ===== src/SeatState/Repository/Block.antt =====
-- What an administrator's command does to the seats.
use bus_ai_booking.Prelude.{
  String, ◌≡◌, refl, Bool, ◌&&◌, none, some, List, ◌==◌, arith, string_eq, ℕ_eq, if◌then◌else◌,
  find, any, all, not, ◌≤◌, length, filter, includes, Bool-cases, Option-cases, inl, inr, ok,
}
use bus_ai_booking.Prelude.Text.{is_seat_number}
use bus_ai_booking.SeatState.Types.{
  SeatStateRow, is_booked, blocked, SetSeatBlockedInput, SeatBlockRecord,
}
use bus_ai_booking.SeatState.Tables.{SeatStateTables, is_seat, among}
use bus_ai_booking.SeatState.Repository.{has_command, set_seat_blocked}
use bus_ai_booking.SeatState.Repository.BlockWrites.{
  status_at, or_status, if_booked, booked_rows, booked_rows-set, status_at-set,
}

-- A seat of the command was booked when its SELECT ran; and a seat that it would insert fails the CHECK.
abbrev is_refused : SetSeatBlockedInput → List SeatStateRow → Bool
is_refused input seen =
    any (λ (row : SeatStateRow). is_booked row.status)
      (filter (among input.trip_id input.seat_ids) seen)

abbrev is_misnamed : SetSeatBlockedInput → Bool
is_misnamed input = input.blocked && not (all is_seat_number input.seat_ids)

-- A command never adds, changes or deletes a row of a booked seat, whatever it answers, and whatever
-- seats its SELECT found.
pub set_seat_blocked_booked :
    (id : String) (input : SetSeatBlockedInput) (seen : List SeatStateRow) (t : SeatStateTables)
    → booked_rows (set_seat_blocked id input seen t).1.seats ≡ booked_rows t.seats
unfolding set_seat_blocked
set_seat_blocked_booked id input seen t =
    elim (Option-cases (find (has_command input.actor_id input.idempotency_key) t.commands)) [
      | inr (row, x) ↦ rw x refl
      | inl new ↦ elim (Bool-cases (is_refused input seen)) [
        | inl bad ↦ rw new (rw bad refl)
        | inr good ↦ elim (Bool-cases (is_misnamed input)) [
          | inl bad ↦ rw new (rw good (rw bad refl))
          | inr fine ↦ rw new (rw good (rw fine (booked_rows-set input input.blocked t.seats)))
        ]
      ]
    ]

-- A new command that is answered, whatever seats its SELECT found: where a seat has at most one row
-- when it writes, a seat of the command that is booked by then stays booked; any other of them is
-- blocked afterwards if the command blocks, and without a row if it unblocks; and the status of a seat
-- that is not of the command stays as it was. In particular each seat of the command is blocked
-- afterwards, or without a row, if none is booked when it writes.
pub set_seat_blocked_status :
    (id : String) (input : SetSeatBlockedInput) (seen : List SeatStateRow) (t : SeatStateTables)
    (found : SeatBlockRecord) (trip_id seat_id : String)
    → find (has_command input.actor_id input.idempotency_key) t.commands ≡ none
    → length (filter (is_seat trip_id seat_id) t.seats) ≤ 1
    → (set_seat_blocked id input seen t).0 ≡ ok found
    → status_at trip_id seat_id (set_seat_blocked id input seen t).1.seats ≡ (
        if input.trip_id == trip_id && includes input.seat_ids seat_id
        then (if input.blocked
            then or_status (status_at trip_id seat_id t.seats) (some blocked)
            else if_booked (status_at trip_id seat_id t.seats))
        else status_at trip_id seat_id t.seats)
unfolding set_seat_blocked
set_seat_blocked_status id input seen t found trip_id seat_id new one e =
    elim (Bool-cases (is_refused input seen)) [
      | inl bad ↦ absurd (ground (arith, new, bad, e))
      | inr good ↦ elim (Bool-cases (is_misnamed input)) [
        | inl bad ↦ absurd (ground (arith, new, good, bad, e))
        | inr fine ↦
            rw new
              (rw good (rw fine (status_at-set input trip_id seat_id input.blocked t.seats one)))
      ]
    ]
