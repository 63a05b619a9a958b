-- ===== src/SeatInventory/RoundTrip.antt =====
-- A confirmation and the release of its seats.
use bus_ai_booking.Prelude.{
  ℕ, String, ◌≡◌, refl, sym, ap, ◌∙◌, Bool, true, false, none, some, List, [], ◌∷◌, ◌++◌, map,
  arith, string_eq, ℕ_eq, eq_refl, find, any, all, filter, includes, append-nil, find-none, Result,
  ok, err,
}
use mathlib.Core.Path.{ap₂}
use bus_ai_booking.Prelude.Sorting.{IsDistinct}
use bus_ai_booking.SeatState.Types.{
  SeatStateRow, ConfirmDurableSeatsInput, ReleaseBookedSeatsInput, SeatReleaseRecord,
  SeatConfirmationRecord, SeatStateError,
}
use bus_ai_booking.Prelude.Text.{uuid_text}
use bus_ai_booking.SeatState.Tables.{SeatStateTables, lookup, among, is_booked_by}
use bus_ai_booking.SeatState.Repository.{
  has_confirmation, find_confirmation, confirm_seats, booked_row, has_release, delete_booked,
  map_release, release_booked_seats,
}
use bus_ai_booking.SeatState.Repository.Free.{filter-append, book_seats_free, among_free, among_own}
use bus_ai_booking.SeatState.Repository.Confirm.{confirmed}
use bus_ai_booking.SeatState.Repository.Release.{booking_row}
use bus_ai_booking.SeatHold.Store.{SeatHoldStoreOptions, Call, HoldStore}
use bus_ai_booking.SeatInventory.Types.{
  ValidatedConfirmRequest, ConfirmSeatsResponse, ReleaseBookedSeatsRequest, ValidatedReleaseRequest,
  Digests, Inventory,
}
use bus_ai_booking.SeatInventory.Validation.{validate_release_booked_seats_request}
use bus_ai_booking.SeatInventory.Durable.{
  ConfirmDraws, confirm_input, confirmation_fingerprint, confirm_validated,
}
use bus_ai_booking.SeatInventory.Releases.{
  release_input, release_fingerprint, release_response, release_persisted, release_held_seats,
}
use bus_ai_booking.SeatInventory.Seats.{IsDistinct-true}
use bus_ai_booking.SeatInventory.Confirm.{confirm_tables}

-- No row of the seats.
abbrev pub IsFree : String → List String → List SeatStateRow → Type 0
IsFree trip_id ids rows =
    (seat_id : String) → includes ids seat_id ≡ true → lookup trip_id seat_id rows ≡ none

-- The release of what a confirmation booked, under a key.
abbrev pub release_of : ValidatedConfirmRequest → String → ValidatedReleaseRequest
release_of v key = record {
  booking_id = v.booking_id;
  trip_id = v.trip_id;
  seat_ids = v.seat_ids;
  idempotency_key = key;
}

module _ (input : ReleaseBookedSeatsInput) where
  delete_none :
      (rows : List SeatStateRow)
      → IsFree input.trip_id input.seat_ids rows
      → delete_booked input rows ≡ rows
  unfolding lookup
  delete_none [] free = refl
  delete_none (row ∷ rows) free = ground (
    arith,
    free row.seat_id,
    eq_refl row.seat_id,
    delete_none rows (λ seat i. ground (arith, free seat i)),
  )

  delete_all :
      (confirm : ConfirmDurableSeatsInput) (ids : List String)
      → confirm.trip_id ≡ input.trip_id
      → all (is_booked_by input.booking_id) (map (booked_row confirm) ids) ≡ true
      → ((seat_id : String) → includes ids seat_id ≡ true → includes input.seat_ids seat_id ≡ true)
      → delete_booked input (map (booked_row confirm) ids) ≡ []
  delete_all confirm [] trip own sub = refl
  delete_all confirm (seat ∷ ids) trip own sub = ground (
    arith,
    trip,
    own,
    booking_row input.booking_id (some (uuid_text confirm.booking_id)),
    eq_refl input.trip_id,
    sub seat (ground (arith, eq_refl seat)),
    delete_all confirm ids trip (ground (arith, own)) (λ other i. sub other (ground (arith, i))),
  )

module _ (digests : Digests) (v : ValidatedConfirmRequest) (confirmed_at : ℕ) (key : String)
    (now : ℕ) (t : SeatStateTables) (distinct : IsDistinct v.seat_ids)
    (free : IsFree v.trip_id v.seat_ids t.seats)
    (new : any (has_confirmation v.booking_id v.idempotency_key) t.confirmations ≡ false)
    (unreleased : find (has_release v.booking_id) t.releases ≡ none) where
  abbrev input : ConfirmDurableSeatsInput
  input = confirm_input digests v confirmed_at

  abbrev released_input : ReleaseBookedSeatsInput
  released_input = release_input digests (release_of v key) now

  release_confirmed :
      (stored : SeatConfirmationRecord)
      → (confirm_seats input t).0 ≡ ok stored
      → stored.request_fingerprint ≡ input.request_fingerprint
      → ((release_booked_seats released_input (confirm_seats input t).1).0
          ≡ ok (map_release released_input))
        × ((release_booked_seats released_input (confirm_seats input t).1).1.seats ≡ t.seats)
  unfolding release_booked_seats confirmation_fingerprint
  release_confirmed stored e f =
      let c = confirmed input t stored e f in
      let booked =
        book_seats_free input v.seat_ids t.seats (IsDistinct-true v.seat_ids distinct) free in
      let split =
        ap (filter (among v.trip_id v.seat_ids)) booked
        ∙ filter-append (among v.trip_id v.seat_ids) t.seats (map (booked_row input) v.seat_ids)
        ∙ ap₂ (λ (xs ys : List SeatStateRow). xs ++ ys)
            (among_free v.trip_id v.seat_ids t.seats free)
            (among_own input v.seat_ids v.seat_ids (λ seat i. i)) in
      let own = ap (all (is_booked_by v.booking_id)) (sym split) ∙ ground (arith, c.good) in
      rw c.tables (
        rw unreleased (
          rw c.good (
            refl,
            ap (delete_booked released_input) booked
                ∙ filter-append _ t.seats (map (booked_row input) v.seat_ids)
                ∙ ap₂ (λ (xs ys : List SeatStateRow). xs ++ ys)
                    (delete_none released_input t.seats free)
                    (delete_all released_input input v.seat_ids refl own (λ seat i. i))
                ∙ append-nil t.seats,
          )))

  -- What the service makes of the answer of the repository.
  persisted :
      (call : Call) (reachable : Bool) (s : HoldStore)
      (p : Result SeatStateError SeatReleaseRecord × SeatStateTables)
      → p.0 ≡ ok (map_release released_input)
      → p.1.seats ≡ t.seats
      → let answer = release_persisted digests call now reachable (release_of v key) s p in
        (answer.0 ≡ ok (release_response (release_of v key) (map_release released_input)))
        × (answer.1.tables.seats ≡ t.seats)
  unfolding release_fingerprint
  persisted call reachable s (err e, u) found left = absurd (ground (arith, found))
  persisted call reachable s (ok r, u) found left =
      let same : r ≡ map_release released_input = ground (arith, found) in
      let trimmed =
        digests.booked_release.hash_trimmed
          (record { booking_id = v.booking_id; trip_id = v.trip_id; seat_ids = v.seat_ids }) in
      rw same (
        rw trimmed (
          rw (eq_refl (release_fingerprint digests (release_of v key)))
            (rw (eq_refl key) (refl, left))))

  -- The call of the service, on the tables that the confirmation left.
  release_held :
      (call : Call) (reachable : Bool) (request : ReleaseBookedSeatsRequest) (u : Inventory)
      (stored : SeatConfirmationRecord)
      → (confirm_seats input t).0 ≡ ok stored
      → stored.request_fingerprint ≡ input.request_fingerprint
      → validate_release_booked_seats_request request ≡ ok (release_of v key)
      → u.tables ≡ (confirm_seats input t).1
      → let answer = release_held_seats digests call now reachable request u in
        (answer.0 ≡ ok (release_response (release_of v key) (map_release released_input)))
        × (answer.1.tables.seats ≡ t.seats)
  unfolding release_held_seats release_fingerprint
  release_held call reachable request u stored e f valid same =
      let (answer, restored) = release_confirmed stored e f in
      let found =
        ap (λ (w : SeatStateTables). (release_booked_seats released_input w).0) same ∙ answer in
      let left =
        ap (λ (w : SeatStateTables). (release_booked_seats released_input w).1.seats) same
        ∙ restored in
      rw valid
        (persisted call reachable u.holds (release_booked_seats released_input u.tables) found left)

-- A release undoes a confirmation: where a first confirmation of distinct seats that have no row is
-- answered, and the booking has no release, a release of the same seats for the booking, that passes
-- the validation, is answered as released at its own instant, and leaves exactly the durable rows of
-- seats that were there before the confirmation.
pub confirm_then_release :
    (digests : Digests) (options : SeatHoldStoreOptions) (d : ConfirmDraws)
    (v : ValidatedConfirmRequest) (s : Inventory) (r : ConfirmSeatsResponse) (key : String)
    (now : ℕ) (call : Call) (reachable : Bool) (request : ReleaseBookedSeatsRequest)
    → IsDistinct v.seat_ids
    → IsFree v.trip_id v.seat_ids s.tables.seats
    → any (has_confirmation v.booking_id v.idempotency_key) s.tables.confirmations ≡ false
    → find (has_release v.booking_id) s.tables.releases ≡ none
    → (confirm_validated digests options d v s).0 ≡ ok r
    → validate_release_booked_seats_request request ≡ ok (release_of v key)
    → let answer =
        release_held_seats digests call now reachable request
          (confirm_validated digests options d v s).1 in
      (answer.0
        ≡ ok (record {
          released = true;
          booking_id = v.booking_id;
          trip_id = v.trip_id;
          seat_ids = v.seat_ids;
          released_at = now;
        }))
      × (answer.1.tables.seats ≡ s.tables.seats)
unfolding find_confirmation
confirm_then_release digests options d v s r key now call reachable request distinct free new
      unreleased confirmed valid =
    let (stored, answered, own, same) =
      confirm_tables digests d v options s r
        (rw (find-none (has_confirmation v.booking_id v.idempotency_key) s.tables.confirmations new)
          refl)
        confirmed in
    release_held digests v d.confirmed_at key now s.tables distinct free new unreleased call
      reachable request (confirm_validated digests options d v s).1 stored answered own valid same
