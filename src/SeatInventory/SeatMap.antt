-- ===== src/SeatInventory/SeatMap.antt =====
-- The seat map of seat-inventory.service.ts: `composeSeatMap` and `getSeatMap`.
use bus_ai_booking.Prelude.{
  ℕ, String, Bool, true, false, not, ◌&&◌, List, [], ◌∷◌, Option, none, some, map, ◌==◌, string_eq,
  if◌then◌else◌, Result, ok, err,
}
use bus_ai_booking.Prelude.Text.{is_key}
use bus_ai_booking.SeatState.Types.{DurableSeatStatus, DurableSeatState}
use bus_ai_booking.SeatState.Types.{booked as durably_booked, blocked as durably_blocked}
use bus_ai_booking.SeatState.Tables.{list_by_trip}
use bus_ai_booking.SeatHold.Store.{SeatHoldStoreOptions, Call}
use bus_ai_booking.SeatHold.Calls.{get_seat_holds}
use bus_ai_booking.SeatInventory.Types.{
  CatalogSeatDefinition, CatalogTripLayout, CatalogError, SeatMapStatus, available, held, booked,
  blocked, SeatMapSeat, SeatMap, GetSeatMapRequest, SeatInventoryError, seat_map_validation,
  catalog_failed, Inventory,
}
use bus_ai_booking.SeatInventory.Validation.{validate_trip_id}

abbrev pub later_or : {V : Type 0} → Option V → Bool → V → Option V
later_or (some v) same other = some v
later_or none true other = some other
later_or none false other = none

-- `new Map(entries).get(key)`: a later entry replaces an earlier one.
unfoldable pub map_get : {V : Type 0} → String → List (String × V) → Option V
map_get key [] = none
map_get key ((name, v) ∷ rest) = later_or (map_get key rest) (name == key) v

-- `new Map(durableStates.map((state) => [state.seatId, state.status]))`
abbrev pub by_seat : List DurableSeatState → List (String × DurableSeatStatus)
by_seat = map (λ (state : DurableSeatState). (state.seat_id, state.status))

-- `durableStatus ?? (activeHold ? 'HELD' : 'AVAILABLE')`
abbrev pub seat_status : Option DurableSeatStatus → Option Bool → SeatMapStatus
seat_status (some durably_booked) hold = booked
seat_status (some durably_blocked) hold = blocked
seat_status none (some mine) = held
seat_status none none = available

-- `!durableStatus && Boolean(activeHold?.heldByRequester)`
abbrev pub held_by_requester : Option DurableSeatStatus → Option Bool → Bool
held_by_requester none (some mine) = mine
held_by_requester none none = false
held_by_requester (some status) hold = false

abbrev pub map_seat :
    List (String × DurableSeatStatus) → List (String × Bool) → CatalogSeatDefinition → SeatMapSeat
map_seat states holds seat = record {
  seat = seat;
  status = seat_status (map_get seat.id states) (map_get seat.id holds);
  held_by_requester = held_by_requester (map_get seat.id states) (map_get seat.id holds);
}

unfoldable pub compose_seat_map :
    CatalogTripLayout → List DurableSeatState → List (String × Bool) → ℕ → SeatMap
compose_seat_map layout states holds now = record {
  trip_id = layout.trip_id;
  layout_id = layout.layout_id;
  layout_version = layout.layout_version;
  layout_name = layout.layout_name;
  deck_count = layout.deck_count;
  seats = map (map_seat (by_seat states) holds) layout.seats;
  generated_at = now;
}

abbrev pub ids_of : List CatalogSeatDefinition → List String
ids_of = map (λ (seat : CatalogSeatDefinition). seat.id)

-- `request.holdToken && !/^[A-Za-z0-9._-]{16,256}$/.test(request.holdToken)`
abbrev pub is_malformed_token : Option String → Bool
is_malformed_token none = false
is_malformed_token (some token) = not (token == "") && not (is_key 16 256 token)

module _ (options : SeatHoldStoreOptions) (call : Call) (generated_at : ℕ) (token : Option String)
    (trip_id : String) (s : Inventory) where
  -- After the layout is there.
  abbrev pub seat_map_of :
      Result CatalogError CatalogTripLayout → Result SeatInventoryError SeatMap × Inventory
  seat_map_of (err e) = (err (catalog_failed e), s)
  seat_map_of (ok layout) =
      let (holds, store) =
        get_seat_holds options call trip_id (ids_of layout.seats) token s.holds in
      (
        ok (compose_seat_map layout (list_by_trip trip_id s.tables) holds generated_at),
        record s { holds = store },
      )

abbrev pub seat_map_validated :
    SeatHoldStoreOptions
    → Call
    → ℕ
    → (String → Result CatalogError CatalogTripLayout)
    → Option String
    → Inventory
    → Result SeatInventoryError String
    → Result SeatInventoryError SeatMap × Inventory
seat_map_validated options call generated_at catalog token s (err e) = (err e, s)
seat_map_validated options call generated_at catalog token s (ok trip_id) =
    if is_malformed_token token
    then (err seat_map_validation, s)
    else seat_map_of options call generated_at token trip_id s (catalog trip_id)

-- `getSeatMap`; `catalog` is what the catalog service answers for a trip.
unfoldable pub get_seat_map :
    SeatHoldStoreOptions
    → Call
    → ℕ
    → (String → Result CatalogError CatalogTripLayout)
    → GetSeatMapRequest
    → Inventory
    → Result SeatInventoryError SeatMap × Inventory
get_seat_map options call generated_at catalog request s =
    seat_map_validated options call generated_at catalog request.hold_token s
      (validate_trip_id request.trip_id)
