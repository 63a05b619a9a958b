-- ===== src/SeatInventory/Durable.antt =====
-- The call `confirmSeats` of seat-inventory.service.ts. It ends with a call of Redis whose failure is
-- logged and not passed on: `reachable` says whether that call reaches Redis.
use bus_ai_booking.Prelude.{
  ℕ, String, Bool, true, false, ◌&&◌, List, [], ◌∷◌, Option, none, some, ◌==◌, string_eq, ℕ_eq,
  if◌then◌else◌, Result, ok, err, length,
}
use bus_ai_booking.Prelude.Sorting.{sort}
use bus_ai_booking.SeatState.Types.{
  ConfirmDurableSeatsInput, SeatConfirmationRecord, SeatStateError, confirmation_unavailable,
}
use bus_ai_booking.SeatState.Tables.{SeatStateTables}
use bus_ai_booking.SeatState.Repository.{find_confirmation, confirm_seats}
use bus_ai_booking.SeatHold.Types.{ActiveSeatHold}
use bus_ai_booking.SeatHold.Store.{SeatHoldStoreOptions, Call, HoldStore}
use bus_ai_booking.SeatHold.Scripts.{consume_confirmed_hold}
use bus_ai_booking.SeatHold.Calls.{get_hold}
use bus_ai_booking.SeatInventory.Types.{
  ConfirmSeatsRequest, ValidatedConfirmRequest, ConfirmSeatsResponse, SeatInventoryError,
  seat_map_validation, confirmation_conflict, store_failed, seat_unavailable, Digests, Inventory,
}
use bus_ai_booking.SeatInventory.Validation.{validate_confirm_request}
use bus_ai_booking.SeatInventory.Holds.{owned_hold}

-- `normalizedLeft.every((seatId, index) => seatId === right[index])`
unfoldable pub is_prefix : List String → List String → Bool
is_prefix [] ys = true
is_prefix (x ∷ xs) [] = false
is_prefix (x ∷ xs) (y ∷ ys) = x == y && is_prefix xs ys

-- `sameSeatSet`
unfoldable pub same_seat_set : List String → List String → Bool
same_seat_set left right = length (sort left) == length right && is_prefix (sort left) right

-- `confirmationFingerprint`
unfoldable pub confirmation_fingerprint : Digests → ValidatedConfirmRequest → String
confirmation_fingerprint digests v = digests.confirmation.hash (record {
  hold_token_hash = digests.token.hash v.hold_token;
  owner = v.owner;
  trip_id = v.trip_id;
  seat_ids = v.seat_ids;
  booking_id = v.booking_id;
})

-- What a confirmation draws: the calls of the store, the clock of the row, and whether the call that
-- ends the hold reaches Redis.
pub record ConfirmDraws : Type 0 where
  pub get_call : Call
  pub confirmed_at : ℕ
  pub consume_call : Call
  pub reachable : Bool

-- `confirmationResponse`
abbrev pub confirmation_response : ValidatedConfirmRequest → ℕ → ConfirmSeatsResponse
confirmation_response v confirmed_at = record {
  confirmed = true;
  trip_id = v.trip_id;
  seat_ids = v.seat_ids;
  booking_id = v.booking_id;
  confirmed_at = confirmed_at;
}

abbrev pub confirm_input : Digests → ValidatedConfirmRequest → ℕ → ConfirmDurableSeatsInput
confirm_input digests v now = record {
  booking_id = v.booking_id;
  trip_id = v.trip_id;
  seat_ids = v.seat_ids;
  idempotency_key = v.idempotency_key;
  request_fingerprint = confirmation_fingerprint digests v;
  hold_token_hash = digests.token.hash v.hold_token;
  confirmed_at = now;
}

-- The `try` around `consumeConfirmedHold`: whatever it answers or throws, the call goes on.
abbrev pub clean_up : ConfirmDraws → ValidatedConfirmRequest → HoldStore → HoldStore
clean_up d v s =
    if d.reachable then (consume_confirmed_hold d.consume_call v.hold_token v.owner s).1 else s

abbrev pub confirm_persisted :
    Digests
    → ConfirmDraws
    → ValidatedConfirmRequest
    → HoldStore
    → Result SeatStateError SeatConfirmationRecord × SeatStateTables
    → Result SeatInventoryError ConfirmSeatsResponse × Inventory
confirm_persisted digests d v s (err confirmation_unavailable, t) =
    (err (seat_unavailable v.seat_ids), record { holds = s; tables = t })
confirm_persisted digests d v s (err e, t) = (err store_failed, record { holds = s; tables = t })
confirm_persisted digests d v s (ok found, t) =
    if found.request_fingerprint == confirmation_fingerprint digests v
    then (
      ok (confirmation_response v found.confirmed_at),
      record { holds = clean_up d v s; tables = t },
    )
    else (err confirmation_conflict, record { holds = s; tables = t })

-- The active hold of the owner is for the trip, and for the seats.
abbrev pub matches_hold : ActiveSeatHold → ValidatedConfirmRequest → Bool
matches_hold hold v = hold.trip_id == v.trip_id && same_seat_set hold.seat_ids v.seat_ids

abbrev pub confirm_held :
    Digests
    → ConfirmDraws
    → ValidatedConfirmRequest
    → HoldStore
    → SeatStateTables
    → Result SeatInventoryError ActiveSeatHold
    → Result SeatInventoryError ConfirmSeatsResponse × Inventory
confirm_held digests d v s t (err e) = (err e, record { holds = s; tables = t })
confirm_held digests d v s t (ok hold) =
    if matches_hold hold v
    then confirm_persisted digests d v s (confirm_seats (confirm_input digests v d.confirmed_at) t)
    else (err seat_map_validation, record { holds = s; tables = t })

abbrev pub confirm_new :
    Digests
    → SeatHoldStoreOptions
    → ConfirmDraws
    → ValidatedConfirmRequest
    → Inventory
    → Option SeatConfirmationRecord
    → Result SeatInventoryError ConfirmSeatsResponse × Inventory
confirm_new digests options d v s (some replay) =
    if replay.request_fingerprint == confirmation_fingerprint digests v
    then (ok (confirmation_response v replay.confirmed_at), s)
    else (err confirmation_conflict, s)
confirm_new digests options d v s none =
    let (found, store) = get_hold options d.get_call v.hold_token s.holds in
    confirm_held digests d v store s.tables (owned_hold v.owner found)

-- The call behind the validation.
unfoldable pub confirm_validated :
    Digests
    → SeatHoldStoreOptions
    → ConfirmDraws
    → ValidatedConfirmRequest
    → Inventory
    → Result SeatInventoryError ConfirmSeatsResponse × Inventory
confirm_validated digests options d v s =
    confirm_new digests options d v s (find_confirmation v.booking_id v.idempotency_key s.tables)

abbrev pub confirm_request :
    Digests
    → SeatHoldStoreOptions
    → ConfirmDraws
    → Inventory
    → Result SeatInventoryError ValidatedConfirmRequest
    → Result SeatInventoryError ConfirmSeatsResponse × Inventory
confirm_request digests options d s (err e) = (err e, s)
confirm_request digests options d s (ok v) = confirm_validated digests options d v s

-- `confirmSeats`, of the service
unfoldable pub confirm_held_seats :
    Digests
    → SeatHoldStoreOptions
    → ConfirmDraws
    → ConfirmSeatsRequest
    → Inventory
    → Result SeatInventoryError ConfirmSeatsResponse × Inventory
confirm_held_seats digests options d request s =
    confirm_request digests options d s (validate_confirm_request request)
