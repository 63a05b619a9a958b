-- ===== src/SeatInventory/Entries.antt =====
-- What the maps of `composeSeatMap` have for a seat: the status of its row, and the entry of its holder.
use bus_ai_booking.Prelude.{
  ℕ, ◌≤◌, String, ◌≡◌, refl, sym, subst, ◌∙◌, Bool, false, not, ◌&&◌, Option, none, some, List, [],
  ◌∷◌, map, arith, ◌==◌, string_eq, eq_iff, eq_refl, if◌then◌else◌, any, filter, includes, length,
  Bool-cases, ◌⊎◌, inl, inr,
}
use bus_ai_booking.SeatState.Types.{SeatStateRow, DurableSeatStatus}
use bus_ai_booking.SeatState.Tables.{is_seat, lookup}
use bus_ai_booking.Redis.{get}
use bus_ai_booking.SeatHold.Store.{HoldStore, seat_key}
use bus_ai_booking.SeatHold.Calls.{seat_entry, seat_holds}
use bus_ai_booking.SeatInventory.SeatMap.{later_or, map_get, by_seat}
use bus_ai_booking.SeatInventory.Seats.{map_get-rows}

abbrev pub is_given : String → Option String → Bool
is_given holder none = false
is_given holder (some token) = holder == token

abbrev pub status_in : Option SeatStateRow → Option DurableSeatStatus
status_in none = none
status_in (some row) = some row.status

none_there :
    (trip_id seat_id : String) (rows : List SeatStateRow)
    → length (filter (is_seat trip_id seat_id) rows) ≤ 0
    → any (is_seat trip_id seat_id) rows ≡ false
none_there trip_id seat_id [] h = refl
none_there trip_id seat_id (row ∷ rows) h = ground (arith, h, none_there trip_id seat_id rows)

-- With one row for each seat, the map of the states has the status of that row.
pub map_get-state :
    (trip_id seat_id : String) (rows : List SeatStateRow)
    → length (filter (is_seat trip_id seat_id) rows) ≤ 1
    → map_get seat_id (
        by_seat (
          map
            (λ (row : SeatStateRow). record { seat_id = row.seat_id; status = row.status })
            (filter (λ (row : SeatStateRow). row.trip_id == trip_id) rows)))
      ≡ status_in (lookup trip_id seat_id rows)
unfolding map_get lookup
map_get-state trip_id seat_id [] h = refl
map_get-state trip_id seat_id (row ∷ rows) h = ground (
  arith,
  h,
  none_there trip_id seat_id rows,
  map_get-rows trip_id seat_id rows,
  map_get-state trip_id seat_id rows,
)

later_or-false : {V : Type 0} (o : Option V) (v : V) → later_or o false v ≡ o
later_or-false none v = refl
later_or-false (some w) v = refl

abbrev pub entry_of : Option String → Option String → Option Bool
entry_of none token = none
entry_of (some holder) token = some (is_given holder token)

module _ (now : ℕ) (trip_id : String) (token : Option String) (s : HoldStore) where
  map_get-other :
      (x seat : String) (holder : Option String) (more : List (String × Bool))
      → (x == seat) ≡ false
      → map_get seat (seat_entry x token holder more) ≡ map_get seat more
  unfolding map_get
  map_get-other x seat none more h = refl
  map_get-other x seat (some holder) more h =
      elim (Bool-cases (not (holder == "") && not (x == ""))) [
        | inl e ↦ rw e (rw h (later_or-false (map_get seat more) (is_given holder token)))
        | inr e ↦ rw e refl
      ]

  map_get-own :
      (seat : String) (holder : Option String) (more : List (String × Bool))
      → (seat == "") ≡ false
      → ((name : String) → holder ≡ some name → (name == "") ≡ false)
      → (map_get seat more ≡ none) ⊎ (map_get seat more ≡ entry_of holder token)
      → map_get seat (seat_entry seat token holder more) ≡ entry_of holder token
  unfolding map_get
  map_get-own seat none more h k (inl e) = e
  map_get-own seat none more h k (inr e) = e
  map_get-own seat (some holder) more h k (inl e) =
      rw (k holder refl) (rw h (rw e (rw (eq_refl seat) refl)))
  map_get-own seat (some holder) more h k (inr e) = rw (k holder refl) (rw h (rw e refl))

  -- The entries for seats: none, or the one of the seat.
  pub map_get-holds :
      (ids : List String) (seat : String)
      → (seat == "") ≡ false
      → ((holder : String)
          → get now (seat_key trip_id seat) s.seats ≡ some holder
          → (holder == "") ≡ false)
      → map_get seat (seat_holds now trip_id token s ids) ≡ (
          if includes ids seat
          then entry_of (get now (seat_key trip_id seat) s.seats) token
          else none)
  unfolding seat_holds map_get
  map_get-holds [] seat h k = refl
  map_get-holds (x ∷ ids) seat h k = elim (Bool-cases (x == seat)) [
    | inr other ↦ rw other (
        map_get-other x seat (get now (seat_key trip_id x) s.seats)
          (seat_holds now trip_id token s ids) other
        ∙ map_get-holds ids seat h k)
    | inl same ↦ rw same (
        subst
          (λ (y : String).
            map_get seat (
              seat_entry y token (get now (seat_key trip_id y) s.seats)
                (seat_holds now trip_id token s ids))
            ≡ entry_of (get now (seat_key trip_id seat) s.seats) token)
          (sym (ground (arith, same, eq_iff x seat)))
          (map_get-own seat (get now (seat_key trip_id seat) s.seats)
            (seat_holds now trip_id token s ids) h k
            (elim (Bool-cases (includes ids seat)) [
              | inl i ↦ inr (map_get-holds ids seat h k ∙ rw i refl)
              | inr i ↦ inl (map_get-holds ids seat h k ∙ rw i refl)
            ])))
  ]
