-- ===== src/SeatInventory/Releases.antt =====
-- The calls `releaseBookedSeats` and `setSeatBlocked` of seat-inventory.service.ts. Each ends with a
-- publication in Redis whose failure is logged and not passed on: `reachable` says whether it reaches
-- Redis.
use bus_ai_booking.Prelude.{
  ℕ, String, Bool, true, ◌&&◌, ◌==◌, string_eq, ℕ_eq, if◌then◌else◌, Result, ok, err, get_or,
}
use bus_ai_booking.SeatState.Types.{
  ReleaseBookedSeatsInput, SeatReleaseRecord, SetSeatBlockedInput, SeatBlockRecord, SeatStateError,
  release_mismatch, block_booked,
}
use bus_ai_booking.SeatState.Tables.{SeatStateTables}
use bus_ai_booking.SeatState.Repository.{release_booked_seats, set_seat_blocked}
use bus_ai_booking.SeatHold.Store.{Call, HoldStore}
use bus_ai_booking.SeatHold.Calls.{publish_available_seats, publish_blocked_seats}
use bus_ai_booking.SeatInventory.Types.{
  CatalogTripLayout, CatalogError, ReleaseBookedSeatsRequest, ValidatedReleaseRequest,
  SetSeatBlockedRequest, ValidatedBlockRequest, ReleaseBookedSeatsResponse, SeatInventoryError,
  seat_map_validation, release_conflict, block_conflict, store_failed, seat_unavailable,
  catalog_failed, Digests, Inventory,
}
use bus_ai_booking.SeatInventory.Validation.{
  validate_release_booked_seats_request, validate_seat_block_request,
}
use bus_ai_booking.SeatInventory.Holds.{outside}

-- `releaseFingerprint`
unfoldable pub release_fingerprint : Digests → ValidatedReleaseRequest → String
release_fingerprint digests v =
    digests.booked_release.hash
      (record { booking_id = v.booking_id; trip_id = v.trip_id; seat_ids = v.seat_ids })

abbrev pub release_input : Digests → ValidatedReleaseRequest → ℕ → ReleaseBookedSeatsInput
release_input digests v now = record {
  booking_id = v.booking_id;
  trip_id = v.trip_id;
  seat_ids = v.seat_ids;
  idempotency_key = v.idempotency_key;
  request_fingerprint = release_fingerprint digests v;
  released_at = now;
}

abbrev pub release_response :
    ValidatedReleaseRequest → SeatReleaseRecord → ReleaseBookedSeatsResponse
release_response v found = record {
  released = true;
  booking_id = v.booking_id;
  trip_id = v.trip_id;
  seat_ids = v.seat_ids;
  released_at = found.released_at;
}

-- `requestFingerprint` of `setSeatBlocked`
unfoldable pub block_fingerprint : Digests → ValidatedBlockRequest → String
block_fingerprint digests v =
    digests.block.hash (record {
      trip_id = v.trip_id;
      seat_ids = v.seat_ids;
      blocked = v.blocked;
      reason = v.reason;
    })

module _ (digests : Digests) (call : Call) (now : ℕ) (reachable : Bool) where
  abbrev pub release_persisted :
      ValidatedReleaseRequest
      → HoldStore
      → Result SeatStateError SeatReleaseRecord × SeatStateTables
      → Result SeatInventoryError ReleaseBookedSeatsResponse × Inventory
  release_persisted v s (err release_mismatch, t) =
      (err (seat_unavailable v.seat_ids), record { holds = s; tables = t })
  release_persisted v s (err e, t) = (err store_failed, record { holds = s; tables = t })
  release_persisted v s (ok found, t) =
      if found.request_fingerprint == release_fingerprint digests v
        && found.idempotency_key == v.idempotency_key
      then (
        ok (release_response v found),
        record {
          holds =
              if reachable
              then publish_available_seats call v.trip_id v.seat_ids found.released_at s
              else s;
          tables = t;
        },
      )
      else (err release_conflict, record { holds = s; tables = t })

  abbrev pub release_request :
      Inventory
      → Result SeatInventoryError ValidatedReleaseRequest
      → Result SeatInventoryError ReleaseBookedSeatsResponse × Inventory
  release_request s (err e) = (err e, s)
  release_request s (ok v) =
      release_persisted v s.holds (release_booked_seats (release_input digests v now) s.tables)

  -- `releaseBookedSeats`, of the service
  unfoldable pub release_held_seats :
      ReleaseBookedSeatsRequest
      → Inventory
      → Result SeatInventoryError ReleaseBookedSeatsResponse × Inventory
  release_held_seats request s = release_request s (validate_release_booked_seats_request request)

  abbrev pub block_input : SetSeatBlockedRequest → ValidatedBlockRequest → SetSeatBlockedInput
  block_input request v = record {
    trip_id = v.trip_id;
    seat_ids = v.seat_ids;
    blocked = v.blocked;
    reason = v.reason;
    actor_id = v.actor_id;
    idempotency_key = v.idempotency_key;
    request_fingerprint = block_fingerprint digests v;
    request_id = get_or request.request_id "missing-request-id";
    trace_id = get_or request.trace_id "unavailable";
    updated_at = now;
  }

  -- What is published, where the command changed a seat and Redis is reached.
  abbrev pub announce : SeatBlockRecord → HoldStore → HoldStore
  announce r s =
      if r.changed && reachable
      then if r.blocked
        then publish_blocked_seats call r.trip_id r.seat_ids r.updated_at s
        else publish_available_seats call r.trip_id r.seat_ids r.updated_at s
      else s

  abbrev pub block_persisted :
      ValidatedBlockRequest
      → HoldStore
      → Result SeatStateError SeatBlockRecord × SeatStateTables
      → Result SeatInventoryError SeatBlockRecord × Inventory
  block_persisted v s (err block_booked, t) =
      (err (seat_unavailable v.seat_ids), record { holds = s; tables = t })
  block_persisted v s (err e, t) = (err store_failed, record { holds = s; tables = t })
  block_persisted v s (ok r, t) =
      if r.request_fingerprint == block_fingerprint digests v
      then (ok r, record { holds = announce r s; tables = t })
      else (err block_conflict, record { holds = s; tables = t })

  abbrev pub block_with_layout :
      String
      → SetSeatBlockedRequest
      → ValidatedBlockRequest
      → Inventory
      → Result CatalogError CatalogTripLayout
      → Result SeatInventoryError SeatBlockRecord × Inventory
  block_with_layout id request v s (err e) = (err (catalog_failed e), s)
  block_with_layout id request v s (ok layout) =
      if outside layout v.seat_ids
      then (err seat_map_validation, s)
      else block_persisted v s.holds
          (set_seat_blocked id (block_input request v) s.tables.seats s.tables)

  abbrev pub block_request :
      (String → Result CatalogError CatalogTripLayout)
      → String
      → SetSeatBlockedRequest
      → Inventory
      → Result SeatInventoryError ValidatedBlockRequest
      → Result SeatInventoryError SeatBlockRecord × Inventory
  block_request catalog id request s (err e) = (err e, s)
  block_request catalog id request s (ok v) = block_with_layout id request v s (catalog v.trip_id)

  -- `setSeatBlocked`, of the service; `id` is the random id of the command.
  unfoldable pub block_held_seats :
      (String → Result CatalogError CatalogTripLayout)
      → String
      → SetSeatBlockedRequest
      → Inventory
      → Result SeatInventoryError SeatBlockRecord × Inventory
  block_held_seats catalog id request s =
      block_request catalog id request s (validate_seat_block_request request)
