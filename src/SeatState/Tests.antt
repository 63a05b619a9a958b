-- ===== src/SeatState/Tests.antt =====
-- seat-state.repository.ts on concrete tables.
use bus_ai_booking.Prelude.{
  Option, String, ◌≡◌, ◌≢◌, refl, true, false, any, false≢true, [], ◌∷◌, none, some, arith, eq_iff,
  ◌==◌, string_eq, includes, ok, err, if◌then◌else◌, ◌&&◌,
}
use bus_ai_booking.Prelude.Text.{
  trim, trim_start, trim_end, is_space, in_range, is_key, is_key_char, is_alphanumeric, is_digit,
  is_hex, matches, is_column_uuid, uuid_text, lower_hex, is_seat_number,
}
use bus_ai_booking.SeatState.Types.{
  booked, SeatStateRow, is_booked, ConfirmDurableSeatsInput, SeatConfirmationRecord,
  ReleaseBookedSeatsInput, SeatReleaseRecord, SetSeatBlockedInput, SeatBlockRecord,
  confirmation_unavailable, check_violation,
}
use bus_ai_booking.SeatState.Tables.{SeatStateTables, lookup}
use bus_ai_booking.SeatState.Repository.{
  confirmation_record, has_confirmation, is_request_row, insert_confirmation, booked_row,
  insert_seat, book_seats, confirm_seats, release_booked_seats, is_change, set_seat_blocked,
}
use bus_ai_booking.SeatState.Repository.Lookup.{or_else}
use bus_ai_booking.SeatState.Repository.Again.{confirm_seats_again}
use bus_ai_booking.SeatState.Repository.Confirm.{
  confirm_seats_books, confirm_seats_taken, is_taken_in,
}
use bus_ai_booking.SeatState.Repository.Free.{confirm_seats_free}
use bus_ai_booking.SeatState.Repository.Release.{
  release_booked_seats_frees, release_booked_seats_once, confirm_after_release,
}
use bus_ai_booking.SeatState.Repository.BlockWrites.{booked_rows, status_at}
use bus_ai_booking.SeatState.Repository.Block.{set_seat_blocked_booked, set_seat_blocked_status}
use bus_ai_booking.SeatState.Repository.Unique.{
  IsUnique, confirms, releases, sets, run, run-IsUnique,
}

abbrev trip : String
trip = "11111111-1111-4111-8111-111111111111"

abbrev booking : String
booking = "33333333-3333-4333-8333-333333333333"

abbrev rival_booking : String
rival_booking = "44444444-4444-4444-8444-44444444444a"

abbrev confirmation : String → String → String → ConfirmDurableSeatsInput
confirmation booking_id key fingerprint = record {
  booking_id = booking_id;
  trip_id = trip;
  seat_ids = "A01" ∷ "A02" ∷ [];
  idempotency_key = key;
  request_fingerprint = fingerprint;
  hold_token_hash = "h";
  confirmed_at = 1000;
}

abbrev first : ConfirmDurableSeatsInput
first = confirmation booking "confirm-key-000001" "f1"

abbrev changed : ConfirmDurableSeatsInput
changed = confirmation booking "confirm-key-000001" "f9"

abbrev rival : ConfirmDurableSeatsInput
rival = confirmation rival_booking "confirm-key-000002" "f2"

abbrev empty : SeatStateTables
empty = record { seats = []; confirmations = []; releases = []; commands = [] }

abbrev first_record : SeatConfirmationRecord
first_record = record { request_fingerprint = "f1"; confirmed_at = 1000 }

abbrev after_first : SeatStateTables
after_first = record empty {
  seats = booked_row first "A01" ∷ booked_row first "A02" ∷ [];
  confirmations = first ∷ [];
}

first_trimmed : trim "f1" ≡ "f1"
unfolding trim trim_start trim_end is_space in_range
first_trimmed = refl

rival_trimmed : trim "f2" ≡ "f2"
unfolding trim trim_start trim_end is_space in_range
rival_trimmed = refl

changed_fits : is_request_row changed ≡ true
unfolding is_request_row is_column_uuid matches is_hex is_key is_key_char is_alphanumeric is_digit
    in_range
changed_fits = refl

first_fits : is_taken_in first ≡ true
unfolding is_request_row is_column_uuid matches is_hex is_key is_key_char is_alphanumeric is_digit
    in_range is_seat_number
first_fits = refl

rival_fits : is_taken_in rival ≡ true
unfolding is_request_row is_column_uuid matches is_hex is_key is_key_char is_alphanumeric is_digit
    in_range is_seat_number
rival_fits = refl

first_in_lower_case : uuid_text booking ≡ booking
unfolding uuid_text lower_hex
first_in_lower_case = refl

rival_in_lower_case : uuid_text rival_booking ≡ rival_booking
unfolding uuid_text lower_hex
rival_in_lower_case = refl

-- A booking whose id is written in upper case is refused, since the row holds it in lower case.
upper_case_is_refused :
    (confirm_seats
      (confirmation "44444444-4444-4444-8444-44444444444A" "confirm-key-000001" "f1")
      empty).0
    ≡ err confirmation_unavailable
unfolding confirm_seats insert_confirmation insert_seat book_seats is_booked trim trim_start
    trim_end is_space in_range is_request_row is_column_uuid matches is_hex is_key is_key_char
    is_alphanumeric is_digit is_seat_number uuid_text lower_hex
upper_case_is_refused = refl

-- A seat that the validators take and the table does not.
seat_is_refused :
    (confirm_seats (record first { seat_ids = "A1" ∷ [] }) empty).0 ≡ err check_violation
unfolding confirm_seats insert_confirmation insert_seat book_seats is_booked trim trim_start
    trim_end is_space in_range is_request_row is_column_uuid matches is_hex is_key is_key_char
    is_alphanumeric is_digit is_seat_number uuid_text lower_hex
seat_is_refused = refl

fingerprints_differ : ◌≢◌ {A = String} "f9" "f1"
fingerprints_differ e = false≢true ((eq_iff "f9" "f1").1 e)

first_is_confirmed : confirm_seats first empty ≡ (ok first_record, after_first)
unfolding confirm_seats insert_confirmation insert_seat book_seats is_booked trim trim_start
    trim_end is_space in_range is_request_row is_column_uuid matches is_hex is_key is_key_char
    is_alphanumeric is_digit is_seat_number uuid_text lower_hex
first_is_confirmed = refl

first_answer : (confirm_seats first empty).0 ≡ ok first_record
first_answer = rw first_is_confirmed refl

confirm_seats_books_example :
    ((seat_id : String)
      → includes first.seat_ids seat_id ≡ true
      → (row : SeatStateRow) × (lookup trip seat_id (confirm_seats first empty).1.seats ≡ some row)
        × (row.status ≡ booked)
        × (row.booking_id ≡ some booking))
    × ((trip_id seat_id : String)
        → lookup trip_id seat_id (confirm_seats first empty).1.seats
          ≡ or_else (lookup trip_id seat_id []) (
              if trip == trip_id && includes first.seat_ids seat_id
              then some (booked_row first seat_id)
              else none))
confirm_seats_books_example = confirm_seats_books first empty first_record first_answer refl

first_row_is_there : lookup trip "A01" after_first.seats ≡ some (booked_row first "A01")
unfolding lookup
first_row_is_there = refl

bookings_differ : ◌≢◌ {A = Option String} (some booking) (some rival_booking)
bookings_differ e = ground (arith, e, eq_iff booking rival_booking)

confirm_seats_taken_example :
    confirm_seats rival after_first
    ≡ (err (if is_taken_in rival then confirmation_unavailable else check_violation), after_first)
unfolding uuid_text
confirm_seats_taken_example =
    confirm_seats_taken rival after_first "A01" (booked_row first "A01") refl rival_trimmed refl
      first_row_is_there bookings_differ

confirm_seats_again_example :
    (confirm_seats first (confirm_seats first empty).1
      ≡ (ok first_record, (confirm_seats first empty).1))
    × (confirm_seats changed (confirm_seats first empty).1
        ≡ (ok first_record, (confirm_seats first empty).1))
confirm_seats_again_example =
    confirm_seats_again first changed empty first_record first_answer refl refl refl changed_fits
      fingerprints_differ

nothing_there :
    (seat_id : String)
    → includes first.seat_ids seat_id ≡ true
    → lookup trip seat_id empty.seats ≡ none
unfolding lookup
nothing_there seat_id i = refl

confirm_seats_free_example : confirm_seats first empty ≡ (
  ok (confirmation_record first),
  record empty {
    confirmations = first ∷ [];
    seats = booked_row first "A01" ∷ booked_row first "A02" ∷ [];
  },
)
confirm_seats_free_example =
    confirm_seats_free first empty refl first_fits first_in_lower_case first_trimmed refl
      nothing_there

abbrev cancellation : ReleaseBookedSeatsInput
cancellation = record {
  booking_id = booking;
  trip_id = trip;
  seat_ids = "A01" ∷ "A02" ∷ [];
  idempotency_key = "c1";
  request_fingerprint = "f2";
  released_at = 2000;
}

abbrev released : SeatReleaseRecord
released = record { idempotency_key = "c1"; request_fingerprint = "f2"; released_at = 2000 }

first_is_released : (release_booked_seats cancellation after_first).0 ≡ ok released
unfolding release_booked_seats is_booked trim trim_start trim_end is_space in_range uuid_text
    lower_hex
first_is_released = refl

release_booked_seats_frees_example :
    lookup trip "A01" (release_booked_seats cancellation after_first).1.seats ≡ (
      if ◌==◌ {A = String} trip trip && includes cancellation.seat_ids "A01"
      then none
      else lookup trip "A01" after_first.seats)
release_booked_seats_frees_example =
    release_booked_seats_frees cancellation after_first released refl first_is_released trip "A01"

release_booked_seats_once_example :
    release_booked_seats cancellation (release_booked_seats cancellation after_first).1
    ≡ (ok released, (release_booked_seats cancellation after_first).1)
release_booked_seats_once_example =
    release_booked_seats_once cancellation after_first released cancellation first_is_released refl

fresh_rival :
    any (has_confirmation rival_booking "confirm-key-000002") after_first.confirmations ≡ false
unfolding uuid_text lower_hex
fresh_rival = refl

confirm_after_release_example :
    (confirm_seats rival (release_booked_seats cancellation after_first).1).0
    ≡ ok (confirmation_record rival)
confirm_after_release_example =
    confirm_after_release cancellation after_first released rival refl first_is_released fresh_rival
      rival_fits rival_in_lower_case rival_trimmed refl refl (λ seat_id i. i)

abbrev command : SetSeatBlockedInput
command = record {
  trip_id = trip;
  seat_ids = "B01" ∷ [];
  blocked = true;
  reason = "broken";
  actor_id = "admin";
  idempotency_key = "s1";
  request_fingerprint = "f1";
  request_id = "request";
  trace_id = "trace";
  updated_at = 3000;
}

abbrev block_record : SeatBlockRecord
block_record = record {
  trip_id = trip;
  seat_ids = "B01" ∷ [];
  blocked = true;
  changed = true;
  request_fingerprint = "f1";
  updated_at = 3000;
}

seat_is_blocked : (set_seat_blocked "id" command after_first.seats after_first).0 ≡ ok block_record
unfolding set_seat_blocked is_change is_booked trim trim_start trim_end is_space in_range
    is_seat_number is_digit
seat_is_blocked = refl

abbrev race : ConfirmDurableSeatsInput
race = record first { seat_ids = "B01" ∷ [] }

abbrev after_race : SeatStateTables
after_race = record empty { seats = booked_row race "B01" ∷ [] }

-- Where a booking commits between the SELECT of the command and its writes, the command is answered
-- as one that blocked the seat.
race_is_answered : (set_seat_blocked "id" command [] after_race).0 ≡ ok block_record
unfolding set_seat_blocked is_change is_booked trim trim_start trim_end is_space in_range
    is_seat_number is_digit
race_is_answered = refl

set_seat_blocked_booked_example :
    booked_rows (set_seat_blocked "id" command [] after_race).1.seats ≡ booked_rows after_race.seats
set_seat_blocked_booked_example = set_seat_blocked_booked "id" command [] after_race

-- Its seat is booked afterwards.
set_seat_blocked_status_example :
    status_at trip "B01" (set_seat_blocked "id" command [] after_race).1.seats ≡ some booked
unfolding lookup
set_seat_blocked_status_example =
    set_seat_blocked_status "id" command [] after_race block_record trip "B01" refl (omega arith)
      race_is_answered

empty-IsUnique : IsUnique empty.seats
empty-IsUnique trip_id seat_id = ground arith

run-IsUnique_example :
    IsUnique
      (run empty
        (confirms race ∷ sets "id" command [] ∷ releases cancellation ∷ confirms rival ∷ [])).seats
run-IsUnique_example =
    run-IsUnique empty
      (confirms race ∷ sets "id" command [] ∷ releases cancellation ∷ confirms rival ∷ [])
      empty-IsUnique
