-- ===== src/SeatState/Repository.antt =====
-- services/seat-inventory-service/src/seat-state.repository.ts. A table is the list of its rows; each
-- transaction is one step on the tables at its writes, and an error leaves them as they were.
pub mod Lookup
pub mod Confirm
pub mod Again
pub mod Free
pub mod Release
pub mod BlockWrites
pub mod Block
pub mod Unique
use bus_ai_booking.Prelude.{
  ℕ, String, Bool, true, false, not, ◌&&◌, ◌||◌, Option, none, some, List, [], ◌∷◌, ◌++◌, map, ◌==◌,
  string_eq, ℕ_eq, if◌then◌else◌, find, any, all, filter, includes, length, leb, Result, ok, err,
}
use bus_ai_booking.Prelude.Text.{codes, trim, is_key, is_column_uuid, uuid_text, is_seat_number}
use bus_ai_booking.SeatState.Types.{
  DurableSeatStatus, booked, blocked, is_booked, UpdatedBy, booking_service, admin, SeatStateRow,
  DurableSeatState, ConfirmDurableSeatsInput, ConfirmationRow, SeatConfirmationRecord,
  ReleaseBookedSeatsInput, ReleaseRow, SeatReleaseRecord, SetSeatBlockedInput, SeatBlockCommandRow,
  SeatBlockRecord, SeatStateError, confirmation_unavailable, release_mismatch, block_booked,
  not_found, check_violation,
}
use bus_ai_booking.SeatState.Tables.{
  SeatStateTables, is_seat, lookup, among, list_by_trip, is_booking_row, is_booked_by,
  all_booked_by,
}

abbrev pub confirmation_record : ConfirmationRow → SeatConfirmationRecord
confirmation_record row = record {
  request_fingerprint = trim row.request_fingerprint;
  confirmed_at = row.confirmed_at;
}

abbrev pub has_confirmation : String → String → ConfirmationRow → Bool
has_confirmation booking_id key row =
    uuid_text row.booking_id == uuid_text booking_id && row.idempotency_key == key

abbrev to_record : Option ConfirmationRow → Option SeatConfirmationRecord
to_record none = none
to_record (some row) = some (confirmation_record row)

unfoldable pub find_confirmation : String → String → SeatStateTables → Option SeatConfirmationRecord
find_confirmation booking_id key t =
    to_record (find (has_confirmation booking_id key) t.confirmations)

-- The row of the request meets its columns and the CHECKs of migration 007.
unfoldable pub is_request_row : ConfirmDurableSeatsInput → Bool
unfolding is_key is_column_uuid
is_request_row input =
    is_column_uuid input.booking_id
    && (is_column_uuid input.trip_id
        && (is_key 16 128 input.idempotency_key
            && (leb 1 (length input.seat_ids)
                && (leb (length input.seat_ids) 10
                    && (leb (length (codes input.request_fingerprint)) 64
                        && leb (length (codes input.hold_token_hash)) 64)))))

-- `ON CONFLICT (booking_id, idempotency_key) DO NOTHING`, of a row that meets the CHECKs. A row keeps the
-- text of its booking, which is read by comparisons of the type uuid alone.
unfoldable pub insert_confirmation :
    ConfirmDurableSeatsInput → List ConfirmationRow → List ConfirmationRow
insert_confirmation input rows =
    if any (has_confirmation input.booking_id input.idempotency_key) rows
    then rows
    else rows ++ input ∷ []

abbrev pub booked_row : ConfirmDurableSeatsInput → String → SeatStateRow
booked_row input seat_id = record {
  trip_id = input.trip_id;
  seat_id = seat_id;
  status = booked;
  booking_id = some (uuid_text input.booking_id);
  reason = none;
  updated_by_actor = booking_service input.booking_id;
  updated_at = input.confirmed_at;
}

-- `ON CONFLICT (trip_id, seat_id) DO NOTHING`, of a row that meets the CHECKs.
unfoldable pub insert_seat : SeatStateRow → List SeatStateRow → List SeatStateRow
insert_seat row rows = if any (is_seat row.trip_id row.seat_id) rows then rows else rows ++ row ∷ []

-- The loop that books the seats.
unfoldable pub book_seats :
    ConfirmDurableSeatsInput → List String → List SeatStateRow → List SeatStateRow
book_seats input [] rows = rows
book_seats input (seat ∷ rest) rows =
    book_seats input rest (insert_seat (booked_row input seat) rows)

abbrev pub confirm_checked :
    ConfirmDurableSeatsInput
    → ConfirmationRow
    → SeatStateTables
    → List SeatStateRow
    → Result SeatStateError SeatConfirmationRecord × SeatStateTables
confirm_checked input row t seats =
    if all_booked_by input.booking_id input.seat_ids
      (filter (among input.trip_id input.seat_ids) seats)
    then (
      ok (confirmation_record row),
      record t { confirmations = insert_confirmation input t.confirmations; seats = seats },
    )
    else (err confirmation_unavailable, t)

-- From the loop on: a seat that the CHECK of migration 005 does not take ends the transaction.
abbrev pub confirm_booked :
    ConfirmDurableSeatsInput
    → ConfirmationRow
    → SeatStateTables
    → Result SeatStateError SeatConfirmationRecord × SeatStateTables
confirm_booked input row t =
    if all is_seat_number input.seat_ids
    then confirm_checked input row t (book_seats input input.seat_ids t.seats)
    else (err check_violation, t)

-- What follows the insert of the request, by the row of the request that is there then.
abbrev pub confirm_recorded :
    ConfirmDurableSeatsInput
    → SeatStateTables
    → Option ConfirmationRow
    → Result SeatStateError SeatConfirmationRecord × SeatStateTables
confirm_recorded input t none = (err not_found, t)
confirm_recorded input t (some row) =
    if trim row.request_fingerprint == input.request_fingerprint
    then confirm_booked input row t
    else (
      ok (confirmation_record row),
      record t { confirmations = insert_confirmation input t.confirmations },
    )

-- `confirmSeats`
unfoldable pub confirm_seats :
    ConfirmDurableSeatsInput
    → SeatStateTables
    → Result SeatStateError SeatConfirmationRecord × SeatStateTables
confirm_seats input t =
    if is_request_row input
    then confirm_recorded input t (
        find (has_confirmation input.booking_id input.idempotency_key)
          (insert_confirmation input t.confirmations))
    else (err check_violation, t)

abbrev pub map_release : ReleaseRow → SeatReleaseRecord
map_release row = record {
  idempotency_key = row.idempotency_key;
  request_fingerprint = trim row.request_fingerprint;
  released_at = row.released_at;
}

abbrev pub has_release : String → ReleaseRow → Bool
has_release booking_id row = uuid_text row.booking_id == uuid_text booking_id

-- The seats left by the DELETE of a release.
abbrev pub delete_booked : ReleaseBookedSeatsInput → List SeatStateRow → List SeatStateRow
delete_booked input rows =
    filter
      (λ (row : SeatStateRow).
        not (
          among input.trip_id input.seat_ids row && is_booking_row input.booking_id row.booking_id))
      rows

abbrev pub release_new :
    ReleaseBookedSeatsInput
    → SeatStateTables
    → Option ReleaseRow
    → Result SeatStateError SeatReleaseRecord × SeatStateTables
release_new input t (some row) = (ok (map_release row), t)
release_new input t none =
    if all_booked_by input.booking_id input.seat_ids
      (filter (among input.trip_id input.seat_ids) t.seats)
    then (
      ok (map_release input),
      record t { seats = delete_booked input t.seats; releases = t.releases ++ input ∷ [] },
    )
    else (err release_mismatch, t)

-- `releaseBookedSeats`
unfoldable pub release_booked_seats :
    ReleaseBookedSeatsInput
    → SeatStateTables
    → Result SeatStateError SeatReleaseRecord × SeatStateTables
release_booked_seats input t = release_new input t (find (has_release input.booking_id) t.releases)

abbrev pub map_seat_block : SeatBlockCommandRow → SeatBlockRecord
map_seat_block row = record {
  trip_id = row.input.trip_id;
  seat_ids = row.input.seat_ids;
  blocked = row.input.blocked;
  changed = row.changed;
  request_fingerprint = trim row.input.request_fingerprint;
  updated_at = row.input.updated_at;
}

abbrev pub has_command : String → String → SeatBlockCommandRow → Bool
has_command actor_id key row = row.input.actor_id == actor_id && row.input.idempotency_key == key

abbrev pub blocked_row : SetSeatBlockedInput → String → SeatStateRow
blocked_row input seat_id = record {
  trip_id = input.trip_id;
  seat_id = seat_id;
  status = blocked;
  booking_id = none;
  reason = some input.reason;
  updated_by_actor = admin input.actor_id;
  updated_at = input.updated_at;
}

-- `DO UPDATE SET ... WHERE trip_seat_states.status = 'BLOCKED'`, of one row.
unfoldable pub update_blocked : SetSeatBlockedInput → String → SeatStateRow → SeatStateRow
update_blocked input seat_id row =
    if is_seat input.trip_id seat_id row && not (is_booked row.status)
    then record row {
      reason = some input.reason;
      updated_by_actor = admin input.actor_id;
      updated_at = input.updated_at;
    }
    else row

unfoldable pub block_seat : SetSeatBlockedInput → String → List SeatStateRow → List SeatStateRow
block_seat input seat_id rows =
    if any (is_seat input.trip_id seat_id) rows
    then map (update_blocked input seat_id) rows
    else rows ++ blocked_row input seat_id ∷ []

-- The loop that blocks the seats.
unfoldable pub block_seats :
    SetSeatBlockedInput → List String → List SeatStateRow → List SeatStateRow
block_seats input [] rows = rows
block_seats input (seat ∷ rest) rows = block_seats input rest (block_seat input seat rows)

unfoldable pub unblock_seats : SetSeatBlockedInput → List SeatStateRow → List SeatStateRow
unblock_seats input rows =
    filter
      (λ (row : SeatStateRow).
        not (among input.trip_id input.seat_ids row && not (is_booked row.status)))
      rows

-- Whether the command changes a seat, by the rows that are there.
unfoldable pub is_change : SetSeatBlockedInput → List SeatStateRow → Bool
is_change input existing =
    let ids = map (λ (row : SeatStateRow). row.seat_id) existing in
    if input.blocked
    then any (λ (seat : String). not (includes ids seat)) input.seat_ids
    else any (λ (seat : String). includes ids seat) input.seat_ids

abbrev pub set_blocked : SetSeatBlockedInput → List SeatStateRow → List SeatStateRow
set_blocked input rows =
    if input.blocked then block_seats input input.seat_ids rows else unblock_seats input rows

abbrev pub block_new :
    String
    → SetSeatBlockedInput
    → List SeatStateRow
    → SeatStateTables
    → Option SeatBlockCommandRow
    → Result SeatStateError SeatBlockRecord × SeatStateTables
block_new id input seen t (some row) = (ok (map_seat_block row), t)
block_new id input seen t none =
    let existing = filter (among input.trip_id input.seat_ids) seen in
    let command : SeatBlockCommandRow = record {
      id = id;
      input = input;
      changed = is_change input existing;
    } in
    if any (λ (row : SeatStateRow). is_booked row.status) existing
    then (err block_booked, t)
    else if input.blocked && not (all is_seat_number input.seat_ids)
    then (err check_violation, t)
    else (
      ok (map_seat_block command),
      record t { seats = set_blocked input t.seats; commands = t.commands ++ command ∷ [] },
    )

-- `setSeatBlocked`, with the random id of the command. Its SELECT locks the rows that it finds, but
-- not the seats without a row, which another transaction may book before the writes: `seen` are the
-- seats as the SELECT found them, and the tables are those of the writes.
unfoldable pub set_seat_blocked :
    String
    → SetSeatBlockedInput
    → List SeatStateRow
    → SeatStateTables
    → Result SeatStateError SeatBlockRecord × SeatStateTables
set_seat_blocked id input seen t =
    block_new id input seen t (find (has_command input.actor_id input.idempotency_key) t.commands)
