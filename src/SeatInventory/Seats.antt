-- ===== src/SeatInventory/Seats.antt =====
-- What the calls read of the seats: the map of the durable states, and lists of seats that agree.
use bus_ai_booking.Prelude.{
  String, ◌≡◌, refl, Bool, true, false, none, List, [], ◌∷◌, map, arith, ◌==◌, string_eq, ℕ_eq,
  eq_iff, eq_refl, any, filter, includes, is_some,
}
use bus_ai_booking.Prelude.Sorting.{IsDistinct, IsSorted, sort_sorted}
use bus_ai_booking.SeatState.Types.{SeatStateRow}
use bus_ai_booking.SeatState.Tables.{SeatStateTables, is_seat, lookup, list_by_trip}
use bus_ai_booking.SeatState.Repository.Lookup.{any-lookup}
use bus_ai_booking.SeatState.Repository.Free.{is_distinct}
use bus_ai_booking.SeatInventory.SeatMap.{map_get, by_seat}
use bus_ai_booking.SeatInventory.Holds.{durable_among}
use bus_ai_booking.SeatInventory.Durable.{is_prefix, same_seat_set}

-- A seat has an entry in the map of the durable states where a row of the trip has it.
pub map_get-rows :
    (trip_id seat_id : String) (rows : List SeatStateRow)
    → is_some (
        map_get seat_id (
          by_seat (
            map
              (λ (row : SeatStateRow). record { seat_id = row.seat_id; status = row.status })
              (filter (λ (row : SeatStateRow). row.trip_id == trip_id) rows))))
      ≡ any (is_seat trip_id seat_id) rows
unfolding map_get
map_get-rows trip_id seat_id [] = refl
map_get-rows trip_id seat_id (row ∷ rows) = ground (arith, map_get-rows trip_id seat_id rows)

pub filter_empty :
    (p : String → Bool) (xs : List String) (a : String)
    → filter p xs ≡ []
    → includes xs a ≡ true
    → p a ≡ false
filter_empty p [] a h i = absurd (ground (arith, i))
filter_empty p (x ∷ xs) a h i = ground (arith, h, i, eq_iff x a, filter_empty p xs a)

-- Seats that are not among the durable states have no row.
pub no_row :
    (t : SeatStateTables) (trip_id : String) (ids : List String) (seat_id : String)
    → durable_among (list_by_trip trip_id t) ids ≡ []
    → includes ids seat_id ≡ true
    → lookup trip_id seat_id t.seats ≡ none
unfolding list_by_trip
no_row t trip_id ids seat_id h i = ground (
  arith,
  any-lookup trip_id seat_id t.seats,
  map_get-rows trip_id seat_id t.seats,
  filter_empty (λ (seat : String). is_some (map_get seat (by_seat (list_by_trip trip_id t)))) ids
      seat_id h i,
)

pub IsDistinct-true : (ids : List String) → IsDistinct ids → is_distinct ids ≡ true
IsDistinct-true [] d = refl
IsDistinct-true (x ∷ xs) (new, rest) = ground (arith, new, IsDistinct-true xs rest)

pub is_prefix_refl : (xs : List String) → is_prefix xs xs ≡ true
unfolding is_prefix
is_prefix_refl [] = refl
is_prefix_refl (x ∷ xs) = ground (arith, eq_refl x, is_prefix_refl xs)

pub same_seat_set_self : (xs : List String) → IsSorted xs → same_seat_set xs xs ≡ true
unfolding same_seat_set
same_seat_set_self xs s = rw (sort_sorted xs s) (ground (arith, is_prefix_refl xs))
