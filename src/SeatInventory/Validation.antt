-- ===== src/SeatInventory/Validation.antt =====
-- The validators of seat-inventory.service.ts. Their errors differ in the message alone, which is
-- left out.
use bus_ai_booking.Prelude.{
  ℕ, String, Bool, true, false, ◌&&◌, List, [], ◌∷◌, Option, none, some, ◌==◌, string_eq, ℕ_eq, leb,
  if◌then◌else◌, all, includes, length, get_or, Result, ok, err, ◌>>=◌, ◌+◌,
}
use bus_ai_booking.Prelude.Text.{codes, trim, is_key, is_uuid}
use bus_ai_booking.Prelude.Number.{whole, integer_between}
use bus_ai_booking.Prelude.Sorting.{sorted_set}
use bus_ai_booking.SeatHold.Types.{HoldOwner}
use bus_ai_booking.SeatInventory.Types.{
  HoldSeatsRequest, ValidatedHoldRequest, ConfirmSeatsRequest, ValidatedConfirmRequest,
  ReleaseBookedSeatsRequest, ValidatedReleaseRequest, SeatAdminActor, SetSeatBlockedRequest,
  ValidatedBlockRequest, SeatInventoryError, seat_map_validation, admin_forbidden,
}

unfoldable pub validate_trip_id : Option String → Result SeatInventoryError String
validate_trip_id id =
    let text = get_or id "" in if is_uuid text then ok text else err seat_map_validation

-- The sorted set of the seats, where it has at most `most` of them, none given twice or malformed.
unfoldable pub validate_seat_ids :
    ℕ → Option (List String) → Result SeatInventoryError (List String)
validate_seat_ids most given =
    let seat_ids = sorted_set (get_or given []) in
    if leb 1 (length seat_ids)
      && (leb (length seat_ids) most
          && (length seat_ids == length (get_or given []) && all (is_key 1 64) seat_ids))
    then ok seat_ids
    else err seat_map_validation

unfoldable pub validate_idempotency_key : Option String → Result SeatInventoryError String
validate_idempotency_key key =
    let text = get_or key "" in if is_key 16 128 text then ok text else err seat_map_validation

unfoldable pub validate_owner : Option HoldOwner → Result SeatInventoryError HoldOwner
validate_owner none = err seat_map_validation
validate_owner (some owner) =
    if includes ("GUEST_SESSION" ∷ "CUSTOMER" ∷ []) owner.type && is_uuid owner.id
    then ok owner
    else err seat_map_validation

-- `request.holdToken ?? ''` and `validateHoldToken`
unfoldable pub validate_hold_token : Option String → Result SeatInventoryError String
validate_hold_token token =
    let text = get_or token "" in if is_key 16 256 text then ok text else err seat_map_validation

abbrev some_or_error : {A : Type 0} → Option A → Result SeatInventoryError A
some_or_error none = err seat_map_validation
some_or_error (some a) = ok a

unfoldable pub validate_hold_request :
    HoldSeatsRequest → Result SeatInventoryError ValidatedHoldRequest
validate_hold_request request = do
  trip_id ← validate_trip_id request.trip_id
  seat_ids ← validate_seat_ids 10 request.seat_ids
  owner ← validate_owner request.owner
  key ← validate_idempotency_key request.idempotency_key
  ttl ← some_or_error (integer_between 1 300 (get_or request.requested_ttl_seconds (whole 300)))
  ok (record {
    trip_id = trip_id;
    seat_ids = seat_ids;
    owner = owner;
    idempotency_key = key;
    ttl_seconds = ttl;
  })

unfoldable pub validate_confirm_request :
    ConfirmSeatsRequest → Result SeatInventoryError ValidatedConfirmRequest
validate_confirm_request request = do
  token ← validate_hold_token request.hold_token
  owner ← validate_owner request.owner
  trip_id ← validate_trip_id request.trip_id
  booking_id ← validate_trip_id request.booking_id
  seat_ids ← validate_seat_ids 10 request.seat_ids
  key ← validate_idempotency_key request.idempotency_key
  ok (record {
    hold_token = token;
    owner = owner;
    trip_id = trip_id;
    seat_ids = seat_ids;
    booking_id = booking_id;
    idempotency_key = key;
  })

unfoldable pub validate_release_booked_seats_request :
    ReleaseBookedSeatsRequest → Result SeatInventoryError ValidatedReleaseRequest
validate_release_booked_seats_request request = do
  booking_id ← validate_trip_id request.booking_id
  trip_id ← validate_trip_id request.trip_id
  seat_ids ← validate_seat_ids 10 request.seat_ids
  key ← validate_idempotency_key request.idempotency_key
  ok (record {
    booking_id = booking_id;
    trip_id = trip_id;
    seat_ids = seat_ids;
    idempotency_key = key;
  })

-- `length` of a text, which counts code units of 16 bits.
unfoldable pub units : List ℕ → ℕ
units [] = 0
units (c ∷ cs) = (if leb 0x1_0000 c then 2 else 1) + units cs

abbrev validate_actor : Option SeatAdminActor → Result SeatInventoryError String
validate_actor none = err admin_forbidden
validate_actor (some actor) =
    if actor.role == "ADMIN" && is_uuid actor.id then ok actor.id else err admin_forbidden

abbrev validate_reason : Bool → String → Result SeatInventoryError String
validate_reason true reason =
    let n = units (codes reason) in
    if leb 2 n && leb n 200 then ok reason else err seat_map_validation
validate_reason false reason = ok "UNBLOCKED"

unfoldable pub validate_seat_block_request :
    SetSeatBlockedRequest → Result SeatInventoryError ValidatedBlockRequest
validate_seat_block_request request = do
  actor_id ← validate_actor request.actor
  trip_id ← validate_trip_id request.trip_id
  seat_ids ← validate_seat_ids 100 request.seat_ids
  blocked ← some_or_error request.blocked
  reason ← validate_reason blocked (trim (get_or request.reason ""))
  key ← validate_idempotency_key request.idempotency_key
  ok (record {
    trip_id = trip_id;
    seat_ids = seat_ids;
    blocked = blocked;
    reason = reason;
    actor_id = actor_id;
    idempotency_key = key;
  })
