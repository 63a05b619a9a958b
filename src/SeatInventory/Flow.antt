-- ===== src/SeatInventory/Flow.antt =====
-- From a hold to its confirmation.
use bus_ai_booking.Prelude.{
  ℕ, ◌+◌, ◌*◌, ◌<◌, String, ◌≡◌, refl, sym, ap, subst, ◌∙◌, get_or, find-none, true, false, none,
  some, List, [], ◌∷◌, arith, string_eq, ℕ_eq, eq_refl, any, Option-cases, Bool-cases, inl, inr,
  Result, ok,
}
use bus_ai_booking.Prelude.Sorting.{IsDistinct, IsSorted, sort-IsDistinct, sort-IsSorted}
use bus_ai_booking.Prelude.Text.{uuid_text}
use bus_ai_booking.SeatState.Repository.Confirm.{is_taken_in}
use bus_ai_booking.SeatState.Tables.{list_by_trip}
use bus_ai_booking.SeatState.Repository.{find_confirmation, has_confirmation}
use bus_ai_booking.SeatState.Repository.Free.{confirm_seats_free}
use bus_ai_booking.Redis.{Keyspace, get, get-set}
use bus_ai_booking.SeatHold.Types.{ActiveSeatHold, RequestKey, IdempotencyRecord}
use bus_ai_booking.SeatHold.Store.{SeatHoldStoreOptions, HoldStore, first_taken, request_key}
use bus_ai_booking.SeatHold.Scripts.{place, acquire_script}
use bus_ai_booking.SeatHold.Calls.{acquire, sweep_expired}
use bus_ai_booking.SeatHold.Calls.Sweep.{sweep_expired-idempotency, get_hold_found}
use bus_ai_booking.SeatInventory.Types.{
  CatalogTripLayout, CatalogError, HoldSeatsRequest, ValidatedHoldRequest, SeatHoldView,
  ValidatedConfirmRequest, Digests, Inventory,
}
use bus_ai_booking.SeatInventory.Validation.{validate_hold_request, validate_seat_ids}
use bus_ai_booking.SeatInventory.Seats.{no_row, IsDistinct-true, same_seat_set_self}
use bus_ai_booking.SeatInventory.Accepts.{validate_seat_ids_iff}
use bus_ai_booking.SeatInventory.Holds.{
  HoldDraws, new_hold, hold_fingerprint, durable_among, outside, hold_free, hold_with_layout,
  hold_seats,
}
use bus_ai_booking.SeatInventory.Durable.{
  ConfirmDraws, confirm_input, confirmation_fingerprint, confirmation_response, confirm_validated,
}

validated_seats :
    (request : HoldSeatsRequest) (v : ValidatedHoldRequest)
    → validate_hold_request request ≡ ok v
    → validate_seat_ids 10 request.seat_ids ≡ ok v.seat_ids
unfolding validate_hold_request
validated_seats request v e = ground (arith, e)

-- The confirmation of a hold, for a booking and under a key.
abbrev pub confirm_of : HoldDraws → ValidatedHoldRequest → String → String → ValidatedConfirmRequest
confirm_of d v booking_id key = record {
  hold_token = d.token;
  owner = v.owner;
  trip_id = v.trip_id;
  seat_ids = v.seat_ids;
  booking_id = booking_id;
  idempotency_key = key;
}

module _ (digests : Digests) (options : SeatHoldStoreOptions) (d : HoldDraws)
    (v : ValidatedHoldRequest) (layout : CatalogTripLayout) (s : Inventory) where
  abbrev hold : ActiveSeatHold
  hold = new_hold d v layout

  abbrev swept : HoldStore
  swept = (sweep_expired options d.call s.holds).0

  abbrev placed : Inventory
  placed = record s {
    holds = place options d.call hold (hold_fingerprint digests hold) v.ttl_seconds swept;
  }

  -- Under a key that is new, a hold is granted only by acquiring it.
  hold_free_ok :
      (unavailable : List String) (view : SeatHoldView)
      → get d.call.now (request_key v.owner v.idempotency_key) s.holds.idempotency ≡ none
      → (hold_free digests options d v layout s unavailable).0 ≡ ok view
      → (unavailable ≡ []) × ((hold_free digests options d v layout s unavailable).1 ≡ placed)
  unfolding acquire acquire_script
  hold_free_ok (seat ∷ more) view new e = absurd (ground (arith, e))
  hold_free_ok [] view new e =
      let fresh =
        ap
          (λ (k : Keyspace RequestKey IdempotencyRecord).
            get d.call.now (request_key v.owner v.idempotency_key) k)
          (sweep_expired-idempotency options d.call s.holds)
        ∙ new in
      elim (Option-cases (first_taken d.call.now v.trip_id v.seat_ids swept.seats)) [
        | inr (seat, y) ↦ absurd (ground (arith, fresh, y, e))
        | inl y ↦ (refl, rw fresh (rw y refl))
      ]

  hold_with_layout_ok :
      (view : SeatHoldView)
      → get d.call.now (request_key v.owner v.idempotency_key) s.holds.idempotency ≡ none
      → (hold_with_layout digests options d v s (ok layout)).0 ≡ ok view
      → (durable_among (list_by_trip v.trip_id s.tables) v.seat_ids ≡ [])
        × ((hold_with_layout digests options d v s (ok layout)).1 ≡ placed)
  hold_with_layout_ok view new = elim (Bool-cases (outside layout v.seat_ids)) [
    | inl x ↦ rw x (λ e. absurd (ground (arith, e)))
    | inr x ↦ rw x (λ e. hold_free_ok _ view new e)
  ]

  still_held :
      (now : ℕ)
      → now < d.call.now + v.ttl_seconds * 1000
      → get now d.token placed.holds.holds ≡ some hold
  unfolding place
  still_held now h = ground (
    arith,
    h,
    eq_refl d.token,
    get-set now d.call.now (v.ttl_seconds * 1000) d.token d.token hold swept.holds,
  )

  module _ (cd : ConfirmDraws) (booking_id key : String) where
    abbrev cv : ValidatedConfirmRequest
    cv = confirm_of d v booking_id key

    confirm_placed :
        IsDistinct v.seat_ids
        → IsSorted v.seat_ids
        → durable_among (list_by_trip v.trip_id s.tables) v.seat_ids ≡ []
        → cd.get_call.now < d.call.now + v.ttl_seconds * 1000
        → any (has_confirmation booking_id key) s.tables.confirmations ≡ false
        → is_taken_in (confirm_input digests cv cd.confirmed_at) ≡ true
        → uuid_text booking_id ≡ booking_id
        → (confirm_validated digests options cd cv placed).0
          ≡ ok (confirmation_response cv cd.confirmed_at)
    unfolding confirm_validated find_confirmation confirmation_fingerprint
    confirm_placed alone sorted free timely new taken lower =
        let input = confirm_input digests cv cd.confirmed_at in
        let trimmed = digests.confirmation.hash_trimmed _ in
        rw (find-none (has_confirmation booking_id key) s.tables.confirmations new) (
          rw (get_hold_found options cd.get_call d.token placed.holds) (
            rw (still_held cd.get_call.now timely) (
              rw (eq_refl v.owner.type) (
                rw (eq_refl v.owner.id) (
                  rw (eq_refl v.trip_id) (
                    rw (same_seat_set_self v.seat_ids sorted) (
                      rw
                        (confirm_seats_free input s.tables new taken lower trimmed
                          (IsDistinct-true v.seat_ids alone)
                          (λ seat_id i. no_row s.tables v.trip_id v.seat_ids seat_id free i))
                        (rw trimmed
                          (rw (eq_refl (confirmation_fingerprint digests cv)) refl)))))))))

-- A hold granted under a new key is confirmed: where the request passed the validators, the catalog
-- knows the trip, no confirmation of the booking has the key, the ids, the key and the seats meet the
-- CHECKs of the tables, and the id of the booking is in lower case, a confirmation of the same seats
-- by the same owner with the token of the hold, before its time to live is over, is answered with its
-- own instant.
pub hold_seats_confirmed :
    (digests : Digests) (options : SeatHoldStoreOptions)
    (catalog : String → Result CatalogError CatalogTripLayout) (d : HoldDraws)
    (request : HoldSeatsRequest) (v : ValidatedHoldRequest) (layout : CatalogTripLayout)
    (s : Inventory) (view : SeatHoldView) (cd : ConfirmDraws) (booking_id key : String)
    → validate_hold_request request ≡ ok v
    → catalog v.trip_id ≡ ok layout
    → get d.call.now (request_key v.owner v.idempotency_key) s.holds.idempotency ≡ none
    → (hold_seats digests options catalog d request s).0 ≡ ok view
    → any (has_confirmation booking_id key) s.tables.confirmations ≡ false
    → cd.get_call.now < d.call.now + v.ttl_seconds * 1000
    → is_taken_in (confirm_input digests (confirm_of d v booking_id key) cd.confirmed_at) ≡ true
    → uuid_text booking_id ≡ booking_id
    → let cv = confirm_of d v booking_id key in
      (confirm_validated digests options cd cv (hold_seats digests options catalog d request s).1).0
      ≡ ok (confirmation_response cv cd.confirmed_at)
unfolding hold_seats
hold_seats_confirmed digests options catalog d request v layout s view cd booking_id key valid
      known =
    rw valid (
      rw known (λ new granted unconfirmed timely taken lower.
        let (free, after) = hold_with_layout_ok digests options d v layout s view new granted in
        let (list, sorted) =
          (validate_seat_ids_iff 10 request.seat_ids v.seat_ids).0
            (validated_seats request v valid) in
        rw after (
          confirm_placed digests options d v layout s cd booking_id key
            (subst IsDistinct (sym sorted) (sort-IsDistinct (get_or request.seat_ids []) list.0))
            (subst IsSorted (sym sorted) (sort-IsSorted (get_or request.seat_ids []))) free timely
            unconfirmed taken lower)))
