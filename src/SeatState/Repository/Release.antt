-- ===== src/SeatState/Repository/Release.antt =====
-- What the release of the seats of a booking leaves, and that they can be booked again.
use bus_ai_booking.Prelude.{
  String, Option, ◌≡◌, refl, ◌∙◌, true, false, ◌&&◌, none, some, List, [], ◌∷◌, ◌++◌, ◌==◌, arith,
  string_eq, ℕ_eq, eq_iff, eq_refl, if◌then◌else◌, find, any, all, filter, includes,
  find-append-none, Bool-cases, Option-cases, inl, inr, ok, Result, ap,
}
use bus_ai_booking.Prelude.Text.{trim, uuid_text}
use bus_ai_booking.SeatState.Types.{
  SeatStateRow, ConfirmDurableSeatsInput, SeatConfirmationRecord, ReleaseBookedSeatsInput,
  ReleaseRow, SeatReleaseRecord, SeatStateError,
}
use bus_ai_booking.SeatState.Repository.Confirm.{is_taken_in}
use bus_ai_booking.SeatState.Tables.{
  SeatStateTables, lookup, among, is_booking, is_booking_row, is_booked_by, all_booked_by,
}
use bus_ai_booking.SeatState.Repository.{
  confirmation_record, has_confirmation, confirm_seats, delete_booked, has_release,
  release_booked_seats,
}
use bus_ai_booking.SeatState.Repository.Free.{is_distinct, confirm_seats_free}

-- What is the booking's in the check is the booking's in the DELETE.
pub booking_row :
    (booking_id : String) (found : Option String)
    → is_booking booking_id found ≡ true
    → is_booking_row booking_id found ≡ true
booking_row booking_id none h = absurd (ground (arith, h))
booking_row booking_id (some id) h =
    let same : id ≡ booking_id = ground (arith, h, eq_iff id booking_id) in
    rw same (eq_refl (uuid_text booking_id))

-- The seats after the DELETE of a release that was checked.
lookup-delete_booked :
    (input : ReleaseBookedSeatsInput) (trip_id seat_id : String) (rows : List SeatStateRow)
    → all (is_booked_by input.booking_id) (filter (among input.trip_id input.seat_ids) rows) ≡ true
    → lookup trip_id seat_id (delete_booked input rows) ≡ (
        if input.trip_id == trip_id && includes input.seat_ids seat_id
        then none
        else lookup trip_id seat_id rows)
unfolding lookup
lookup-delete_booked input trip_id seat_id [] h = ground arith
lookup-delete_booked input trip_id seat_id (row ∷ rows) h = ground (
  arith,
  eq_iff row.trip_id trip_id,
  eq_iff row.seat_id seat_id,
  eq_iff row.trip_id input.trip_id,
  eq_iff input.trip_id trip_id,
  booking_row input.booking_id row.booking_id,
  lookup-delete_booked input trip_id seat_id rows,
)

found_release :
    (input : ReleaseBookedSeatsInput) (rows : List ReleaseRow)
    → find (has_release input.booking_id) rows ≡ none
    → find (has_release input.booking_id) (rows ++ input ∷ []) ≡ some input
found_release input rows new =
    find-append-none (has_release input.booking_id) rows (input ∷ []) new
    ∙ ground (arith, eq_refl (uuid_text input.booking_id))

module _ (input : ReleaseBookedSeatsInput) (t : SeatStateTables) where
  -- The first release of a booking that succeeds deletes the rows of its seats and no other row.
  pub release_booked_seats_frees :
      (found : SeatReleaseRecord)
      → find (has_release input.booking_id) t.releases ≡ none
      → (release_booked_seats input t).0 ≡ ok found
      → (trip_id seat_id : String)
      → lookup trip_id seat_id (release_booked_seats input t).1.seats ≡ (
          if input.trip_id == trip_id && includes input.seat_ids seat_id
          then none
          else lookup trip_id seat_id t.seats)
  unfolding release_booked_seats
  release_booked_seats_frees found new e trip_id seat_id =
      elim (Bool-cases (
        all_booked_by input.booking_id input.seat_ids
          (filter (among input.trip_id input.seat_ids) t.seats))) [
            | inr bad ↦ absurd (ground (arith, new, bad, e))
            | inl good ↦ rw new (
                rw good (lookup-delete_booked input trip_id seat_id t.seats (ground (arith, good))))
          ]

  -- A booking is released once: after a release that succeeds, any release for the booking is
  -- answered with the same record and changes nothing.
  pub release_booked_seats_once :
      (found : SeatReleaseRecord) (other : ReleaseBookedSeatsInput)
      → (release_booked_seats input t).0 ≡ ok found
      → other.booking_id ≡ input.booking_id
      → release_booked_seats other (release_booked_seats input t).1
        ≡ (ok found, (release_booked_seats input t).1)
  unfolding release_booked_seats
  release_booked_seats_once found other e b =
      elim (Option-cases (find (has_release input.booking_id) t.releases)) [
        | inr (row, x) ↦ rw x (rw b (rw x (ground (arith, x, e))))
        | inl new ↦
            elim (Bool-cases (
              all_booked_by input.booking_id input.seat_ids
                (filter (among input.trip_id input.seat_ids) t.seats))) [
                  | inr bad ↦ absurd (ground (arith, new, bad, e))
                  | inl good ↦ rw new (
                      rw good (
                        rw b
                          (rw (found_release input t.releases new) (ground (arith, new, good, e)))))
                ]
      ]

release-confirmations :
    (input : ReleaseBookedSeatsInput) (t : SeatStateTables)
    → (release_booked_seats input t).1.confirmations ≡ t.confirmations
unfolding release_booked_seats
release-confirmations input t =
    elim (Option-cases (find (has_release input.booking_id) t.releases)) [
      | inr (row, x) ↦ rw x refl
      | inl new ↦ rw new (ground arith)
    ]

-- The seats of a released booking can be booked again: after a first release that succeeds, a new
-- confirmation of distinct seats among the released ones, for any booking, succeeds, where the request
-- and the seats meet the CHECKs, the id of the booking is in lower case, and `trim` leaves the
-- fingerprint as it is.
pub confirm_after_release :
    (release : ReleaseBookedSeatsInput) (t : SeatStateTables) (found : SeatReleaseRecord)
    (input : ConfirmDurableSeatsInput)
    → find (has_release release.booking_id) t.releases ≡ none
    → (release_booked_seats release t).0 ≡ ok found
    → any (has_confirmation input.booking_id input.idempotency_key) t.confirmations ≡ false
    → is_taken_in input ≡ true
    → uuid_text input.booking_id ≡ input.booking_id
    → trim input.request_fingerprint ≡ input.request_fingerprint
    → is_distinct input.seat_ids ≡ true
    → input.trip_id ≡ release.trip_id
    → ((seat_id : String)
        → includes input.seat_ids seat_id ≡ true
        → includes release.seat_ids seat_id ≡ true)
    → (confirm_seats input (release_booked_seats release t).1).0 ≡ ok (confirmation_record input)
confirm_after_release release t found input new e fresh taken lower trimmed distinct trip sub =
    let now_free : (seat_id : String)
        → includes input.seat_ids seat_id ≡ true
        → lookup input.trip_id seat_id (release_booked_seats release t).1.seats ≡ none =
      λ seat_id i. ground (
        arith,
        release_booked_seats_frees release t found new e input.trip_id seat_id,
        sub seat_id i,
        trip,
        eq_iff release.trip_id input.trip_id,
      ) in
    ap (λ (answer : Result SeatStateError SeatConfirmationRecord × SeatStateTables). answer.0)
      (confirm_seats_free input (release_booked_seats release t).1
        (rw (release-confirmations release t) fresh) taken lower trimmed distinct now_free)
