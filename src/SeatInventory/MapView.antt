-- ===== src/SeatInventory/MapView.antt =====
-- The seat map as a view of the store and of the tables.
use bus_ai_booking.Prelude.{
  ℕ, String, ◌≡◌, refl, ap, ◌∙◌, Bool, true, false, Option, none, some, List, [], ◌∷◌, map, arith,
  ◌==◌, string_eq, eq_refl, if◌then◌else◌, includes, Result, ok,
}
use mathlib.Core.Path.{ap₂}
use bus_ai_booking.SeatState.Types.{SeatStateRow, is_booked}
use bus_ai_booking.SeatState.Tables.{SeatStateTables, lookup, list_by_trip}
use bus_ai_booking.SeatState.Repository.Unique.{IsUnique}
use bus_ai_booking.Redis.{get}
use bus_ai_booking.SeatHold.Store.{SeatHoldStoreOptions, Call, HoldStore, seat_key}
use bus_ai_booking.SeatHold.Calls.{seat_holds, get_seat_holds}
use bus_ai_booking.SeatInventory.Types.{
  CatalogSeatDefinition, CatalogTripLayout, CatalogError, SeatMapStatus, available, held, booked,
  blocked, SeatMapSeat, SeatMap, GetSeatMapRequest, Inventory,
}
use bus_ai_booking.SeatInventory.Validation.{validate_trip_id}
use bus_ai_booking.SeatInventory.SeatMap.{
  by_seat, seat_status, held_by_requester, map_seat, ids_of, compose_seat_map, is_malformed_token,
  get_seat_map,
}
use bus_ai_booking.SeatInventory.Entries.{
  is_given, status_in, entry_of, map_get-state, map_get-holds,
}

-- The status of a seat, by its durable row and by the holder of its key: the row decides.
abbrev pub status_of : Option SeatStateRow → Option String → SeatMapStatus
status_of (some row) holder = if is_booked row.status then booked else blocked
status_of none (some holder) = held
status_of none none = available

-- A seat without a row whose key holds the token that the request gives.
abbrev pub is_own : Option SeatStateRow → Option String → Option String → Bool
is_own none (some holder) token = is_given holder token
is_own none none token = false
is_own (some row) holder token = false

-- A seat as the state has it.
abbrev pub seat_view : ℕ → String → Option String → Inventory → CatalogSeatDefinition → SeatMapSeat
seat_view now trip_id token s seat =
    let row = lookup trip_id seat.id s.tables.seats in
    let holder = get now (seat_key trip_id seat.id) s.holds.seats in
    record {
      seat = seat;
      status = status_of row holder;
      held_by_requester = is_own row holder token;
    }

-- The seats of a layout and the holders of their keys are not empty texts.
abbrev pub IsNamed : ℕ → String → List String → HoldStore → Type 0
IsNamed now trip_id ids s =
    (seat : String)
    → includes ids seat ≡ true
    → ((seat == "") ≡ false)
      × ((holder : String)
          → get now (seat_key trip_id seat) s.seats ≡ some holder
          → (holder == "") ≡ false)

same_view :
    (seat : CatalogSeatDefinition) (row : Option SeatStateRow) (holder token : Option String)
    → ◌≡◌ {A = SeatMapSeat}
        (record {
          seat = seat;
          status = seat_status (status_in row) (entry_of holder token);
          held_by_requester = held_by_requester (status_in row) (entry_of holder token);
        })
        (record {
          seat = seat;
          status = status_of row holder;
          held_by_requester = is_own row holder token;
        })
unfolding is_booked
same_view seat (some row) holder token = ground arith
same_view seat none none token = refl
same_view seat none (some holder) token = refl

module _ (now : ℕ) (trip_id : String) (token : Option String) (s : HoldStore) where
  map_seat_view :
      (t : SeatStateTables) (ids : List String) (seat : CatalogSeatDefinition)
      → IsUnique t.seats
      → IsNamed now trip_id ids s
      → includes ids seat.id ≡ true
      → map_seat (by_seat (list_by_trip trip_id t)) (seat_holds now trip_id token s ids) seat
        ≡ seat_view now trip_id token (record { holds = s; tables = t }) seat
  unfolding list_by_trip
  map_seat_view t ids seat unique named i =
      let (name, holder) = named seat.id i in
      rw (map_get-state trip_id seat.id t.seats (unique trip_id seat.id)) (
        rw (map_get-holds now trip_id token s ids seat.id name holder) (
          rw i (
            same_view seat (lookup trip_id seat.id t.seats)
              (get now (seat_key trip_id seat.id) s.seats) token)))

  map_view :
      (t : SeatStateTables) (ids : List String) (seats : List CatalogSeatDefinition)
      → IsUnique t.seats
      → IsNamed now trip_id ids s
      → ((id : String) → includes (ids_of seats) id ≡ true → includes ids id ≡ true)
      → map (map_seat (by_seat (list_by_trip trip_id t)) (seat_holds now trip_id token s ids)) seats
        ≡ map (seat_view now trip_id token (record { holds = s; tables = t })) seats
  map_view t ids [] unique named within = refl
  map_view t ids (seat ∷ seats) unique named within =
      ap₂ ◌∷◌
        (map_seat_view t ids seat unique named (within seat.id (ground (arith, eq_refl seat.id))))
        (map_view t ids seats unique named (λ id i. within id (ground (arith, i))))

-- The seat map that the returned state stands for.
abbrev pub map_view_of : CatalogTripLayout → ℕ → String → Option String → ℕ → Inventory → SeatMap
map_view_of layout now trip_id token generated_at s = record {
  trip_id = layout.trip_id;
  layout_id = layout.layout_id;
  layout_version = layout.layout_version;
  layout_name = layout.layout_name;
  deck_count = layout.deck_count;
  seats = map (seat_view now trip_id token s) layout.seats;
  generated_at = generated_at;
}

same_holds :
    (options : SeatHoldStoreOptions) (call : Call) (trip_id : String) (ids : List String)
    (token : Option String) (s : HoldStore)
    → (get_seat_holds options call trip_id ids token s).0
      ≡ seat_holds call.now trip_id token (get_seat_holds options call trip_id ids token s).1 ids
unfolding get_seat_holds seat_holds
same_holds options call trip_id [] token s = refl
same_holds options call trip_id (id ∷ ids) token s = refl

-- Where a request is well formed, the catalog knows the trip, the tables have one row for each seat,
-- and neither seats nor tokens are empty texts, the seat map that is answered shows each seat of the
-- layout as the state that the call leaves has it: booked or blocked by its durable row, held by the
-- live key of a seat that has none, and otherwise available; and as held by the requester where that
-- key holds the token that was given.
pub get_seat_map_refines :
    (options : SeatHoldStoreOptions) (call : Call) (generated_at : ℕ)
    (catalog : String → Result CatalogError CatalogTripLayout) (request : GetSeatMapRequest)
    (s : Inventory) (trip_id : String) (layout : CatalogTripLayout)
    → validate_trip_id request.trip_id ≡ ok trip_id
    → is_malformed_token request.hold_token ≡ false
    → catalog trip_id ≡ ok layout
    → IsUnique s.tables.seats
    → IsNamed call.now trip_id
        (ids_of layout.seats)
        (get_seat_map options call generated_at catalog request s).1.holds
    → (get_seat_map options call generated_at catalog request s).0
      ≡ ok (
          map_view_of layout call.now trip_id request.hold_token generated_at
            (get_seat_map options call generated_at catalog request s).1)
unfolding get_seat_map compose_seat_map
get_seat_map_refines options call generated_at catalog request s trip_id layout valid token known
      unique =
    rw valid (
      rw token (
        rw known (λ named.
          let ids = ids_of layout.seats in
          let after = (get_seat_holds options call trip_id ids request.hold_token s.holds).1 in
          ap
            (λ (seats : List SeatMapSeat). ok (record {
              trip_id = layout.trip_id;
              layout_id = layout.layout_id;
              layout_version = layout.layout_version;
              layout_name = layout.layout_name;
              deck_count = layout.deck_count;
              seats = seats;
              generated_at = generated_at;
            }))
            (ap
                (λ (holds : List (String × Bool)).
                  map (map_seat (by_seat (list_by_trip trip_id s.tables)) holds) layout.seats)
                (same_holds options call trip_id ids request.hold_token s.holds)
              ∙ map_view call.now trip_id request.hold_token after s.tables ids layout.seats unique
                  named (λ id i. i)))))
