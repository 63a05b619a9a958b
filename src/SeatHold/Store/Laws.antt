-- ===== src/SeatHold/Store/Laws.antt =====
-- The keys of the seats after the loops that write and that delete them.
use bus_ai_booking.Prelude.{
  ℕ, ◌+◌, String, ◌≡◌, true, ◌&&◌, List, [], ◌∷◌, none, some, arith, ◌==◌, string_eq, eq_iff, ltb,
  if◌then◌else◌, includes,
}
use bus_ai_booking.Redis.{Keyspace, get, set, get-set, get-del}
use bus_ai_booking.SeatHold.Types.{SeatKey, seat_key_eq}
use bus_ai_booking.SeatHold.Store.{
  seat_key, set_seats, first_taken, is_holder, free_seat, free_seats,
}

module _ (now : ℕ) (token trip_id : String) where
  pub get-set_seats :
      (px : ℕ) (ids : List String) (m : ℕ) (k : SeatKey) (s : Keyspace SeatKey String)
      → get m k (set_seats now px token trip_id ids s) ≡ (
          if trip_id == k.trip_id && includes ids k.seat_id
          then (if ltb m (now + px) then some token else none)
          else get m k s)
  unfolding set_seats
  get-set_seats px [] m k s = ground arith
  get-set_seats px (seat ∷ ids) m k s = ground (
    arith,
    get-set_seats px ids m k (set now px (seat_key trip_id seat) token s),
    get-set m now px (seat_key trip_id seat) k token s,
  )

  get-free_seat :
      (m : ℕ) (key k : SeatKey) (s : Keyspace SeatKey String)
      → get m k (free_seat now token key s)
        ≡ (if key == k && is_holder token (get now key s) then none else get m k s)
  unfolding free_seat
  get-free_seat m key k s = ground (arith, get-del m key k s)

  pub get-free_seats :
      (ids : List String) (m : ℕ) (k : SeatKey) (s : Keyspace SeatKey String)
      → get m k (free_seats now token trip_id ids s) ≡ (
          if trip_id == k.trip_id && includes ids k.seat_id && is_holder token (get now k s)
          then none
          else get m k s)
  unfolding free_seats
  get-free_seats [] m k s = ground arith
  get-free_seats (seat ∷ ids) m k s = ground (
    arith,
    seat_key_eq.is_same_iff (seat_key trip_id seat) k,
    get-free_seats ids m k (free_seat now token (seat_key trip_id seat) s),
    get-free_seat m (seat_key trip_id seat) k s,
    get-free_seat now (seat_key trip_id seat) k s,
  )

-- A seat among those that were all found free is free.
pub first_taken-none :
    (now : ℕ) (trip_id : String) (ids : List String) (s : Keyspace SeatKey String) (seat : String)
    → first_taken now trip_id ids s ≡ none
    → includes ids seat ≡ true
    → get now (seat_key trip_id seat) s ≡ none
unfolding first_taken
first_taken-none now trip_id [] s seat h i = ground arith
first_taken-none now trip_id (x ∷ ids) s seat h i =
    ground (arith, eq_iff x seat, first_taken-none now trip_id ids s seat)
