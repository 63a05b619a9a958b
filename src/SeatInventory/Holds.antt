-- ===== src/SeatInventory/Holds.antt =====
-- The calls of seat-inventory.service.ts on holds: `holdSeats`, `getHold` and `releaseHold`.
use bus_ai_booking.Prelude.{
  ℕ, String, Bool, true, false, not, ◌+◌, ◌-◌, ◌*◌, ◌/◌, List, [], ◌∷◌, Option, none, some,
  string_eq, ltb, if◌then◌else◌, Result, ok, err, is_some, any, filter, includes, length,
}
use bus_ai_booking.SeatState.Types.{DurableSeatState}
use bus_ai_booking.SeatState.Tables.{list_by_trip}
use bus_ai_booking.SeatHold.Types.{
  HoldOwner, same_owner, ActiveSeatHold, AcquireHoldResult, acquired, replayed, ReleaseHoldResult,
  released, replay, not_active, owner_mismatch,
}
use bus_ai_booking.SeatHold.Types.{
  seat_unavailable as taken, idempotency_conflict as acquire_conflict,
  release_conflict as released_conflict,
}
use bus_ai_booking.SeatHold.Store.{SeatHoldStoreOptions, Call}
use bus_ai_booking.SeatHold.Calls.{acquire, get_hold, release}
use bus_ai_booking.SeatInventory.Types.{
  CatalogTripLayout, CatalogError, HoldSeatsRequest, ValidatedHoldRequest, HoldRequest, active,
  expired, SeatHoldView, ReleaseHoldResponse, SeatInventoryError, seat_map_validation, hold_expired,
  hold_ownership, idempotency_conflict, seat_unavailable, catalog_failed, Digests, Inventory,
}
use bus_ai_booking.SeatInventory.Validation.{
  validate_hold_request, validate_owner, validate_hold_token, validate_idempotency_key,
}
use bus_ai_booking.SeatInventory.SeatMap.{map_get, by_seat, ids_of}

-- `Math.max(0, Math.ceil((expiresAt - now) / 1000))`: `-` on ℕ stops at 0.
unfoldable pub remaining_seconds : ℕ → ℕ → ℕ
remaining_seconds expires_at now = (expires_at - now + 999) / 1000

unfoldable pub to_hold_view : ℕ → ActiveSeatHold → SeatHoldView
to_hold_view now hold =
    let remaining = remaining_seconds hold.expires_at now in
    record {
      hold = hold;
      remaining_ttl_seconds = remaining;
      status = if ltb 0 remaining then active else expired;
    }

-- What a hold draws from the process: its token, the clock that sets its end, the call of the store,
-- and the clock of the answer.
pub record HoldDraws : Type 0 where
  pub token : String
  pub requested_at : ℕ
  pub call : Call
  pub viewed_at : ℕ

abbrev pub new_hold : HoldDraws → ValidatedHoldRequest → CatalogTripLayout → ActiveSeatHold
new_hold d v layout = record {
  token = d.token;
  trip_id = v.trip_id;
  seat_ids = v.seat_ids;
  owner = v.owner;
  idempotency_key = v.idempotency_key;
  expires_at = d.requested_at + v.ttl_seconds * 1000;
  unit_price_vnd = layout.price_vnd;
  total_price_vnd = layout.price_vnd * length v.seat_ids;
}

-- `holdFingerprint`
unfoldable pub hold_fingerprint : Digests → ActiveSeatHold → String
hold_fingerprint digests hold = digests.hold.hash (record {
  trip_id = hold.trip_id;
  seat_ids = hold.seat_ids;
  owner = hold.owner;
  unit_price_vnd = hold.unit_price_vnd;
})

abbrev pub hold_answer : ℕ → AcquireHoldResult → Result SeatInventoryError SeatHoldView
hold_answer now (acquired hold) = ok (to_hold_view now hold)
hold_answer now (replayed hold) = ok (to_hold_view now hold)
hold_answer now (taken seat) = err (seat_unavailable (seat ∷ []))
hold_answer now acquire_conflict = err idempotency_conflict

-- The requested seats that have a durable state.
abbrev pub durable_among : List DurableSeatState → List String → List String
durable_among states = filter (λ (seat : String). is_some (map_get seat (by_seat states)))

abbrev pub outside : CatalogTripLayout → List String → Bool
outside layout = any (λ (seat : String). not (includes (ids_of layout.seats) seat))

abbrev pub hold_free :
    Digests
    → SeatHoldStoreOptions
    → HoldDraws
    → ValidatedHoldRequest
    → CatalogTripLayout
    → Inventory
    → List String
    → Result SeatInventoryError SeatHoldView × Inventory
hold_free digests options d v layout s (seat ∷ more) = (err (seat_unavailable (seat ∷ more)), s)
hold_free digests options d v layout s [] =
    let hold = new_hold d v layout in
    let (answer, store) =
      acquire options d.call hold (hold_fingerprint digests hold) v.ttl_seconds s.holds in
    (hold_answer d.viewed_at answer, record s { holds = store })

abbrev pub hold_with_layout :
    Digests
    → SeatHoldStoreOptions
    → HoldDraws
    → ValidatedHoldRequest
    → Inventory
    → Result CatalogError CatalogTripLayout
    → Result SeatInventoryError SeatHoldView × Inventory
hold_with_layout digests options d v s (err e) = (err (catalog_failed e), s)
hold_with_layout digests options d v s (ok layout) =
    if outside layout v.seat_ids
    then (err seat_map_validation, s)
    else hold_free digests options d v layout s
        (durable_among (list_by_trip v.trip_id s.tables) v.seat_ids)

abbrev pub hold_validated :
    Digests
    → SeatHoldStoreOptions
    → (String → Result CatalogError CatalogTripLayout)
    → HoldDraws
    → Inventory
    → Result SeatInventoryError ValidatedHoldRequest
    → Result SeatInventoryError SeatHoldView × Inventory
hold_validated digests options catalog d s (err e) = (err e, s)
hold_validated digests options catalog d s (ok v) =
    hold_with_layout digests options d v s (catalog v.trip_id)

-- `holdSeats`; `catalog` is what the catalog service answers for a trip.
unfoldable pub hold_seats :
    Digests
    → SeatHoldStoreOptions
    → (String → Result CatalogError CatalogTripLayout)
    → HoldDraws
    → HoldSeatsRequest
    → Inventory
    → Result SeatInventoryError SeatHoldView × Inventory
hold_seats digests options catalog d request s =
    hold_validated digests options catalog d s (validate_hold_request request)

-- The hold of a token, where it is active and the owner's.
abbrev pub owned_hold : HoldOwner → Option ActiveSeatHold → Result SeatInventoryError ActiveSeatHold
owned_hold owner none = err hold_expired
owned_hold owner (some hold) = if same_owner hold.owner owner then ok hold else err hold_ownership

abbrev pub view_of :
    ℕ → Result SeatInventoryError ActiveSeatHold → Result SeatInventoryError SeatHoldView
view_of now (err e) = err e
view_of now (ok hold) = ok (to_hold_view now hold)

abbrev pub get_validated :
    SeatHoldStoreOptions
    → Call
    → ℕ
    → Inventory
    → Result SeatInventoryError String
    → Result SeatInventoryError HoldOwner
    → Result SeatInventoryError SeatHoldView × Inventory
get_validated options call now s (err e) owner = (err e, s)
get_validated options call now s (ok token) (err e) = (err e, s)
get_validated options call now s (ok token) (ok owner) =
    let (found, store) = get_hold options call token s.holds in
    (view_of now (owned_hold owner found), record s { holds = store })

-- `getHold`, of the service
unfoldable pub view_hold :
    SeatHoldStoreOptions
    → Call
    → ℕ
    → HoldRequest
    → Inventory
    → Result SeatInventoryError SeatHoldView × Inventory
view_hold options call now request s =
    get_validated options call now s (validate_hold_token request.hold_token)
      (validate_owner request.owner)

abbrev pub not_released : ReleaseHoldResponse
not_released = record { released = false; trip_id = none; seat_ids = []; released_at = none }

abbrev pub was_released : ActiveSeatHold → ℕ → ReleaseHoldResponse
was_released hold at = record {
  released = true;
  trip_id = some hold.trip_id;
  seat_ids = hold.seat_ids;
  released_at = some at;
}

abbrev pub release_answer : ReleaseHoldResult → Result SeatInventoryError ReleaseHoldResponse
release_answer (released hold at) = ok (was_released hold at)
release_answer (replay hold at) = ok (was_released hold at)
release_answer not_active = ok not_released
release_answer owner_mismatch = ok not_released
release_answer released_conflict = err idempotency_conflict

abbrev pub release_validated :
    Digests
    → SeatHoldStoreOptions
    → Call
    → Inventory
    → Result SeatInventoryError String
    → Result SeatInventoryError HoldOwner
    → Result SeatInventoryError String
    → Result SeatInventoryError ReleaseHoldResponse × Inventory
release_validated digests options call s (err e) owner key = (err e, s)
release_validated digests options call s (ok token) (err e) key = (err e, s)
release_validated digests options call s (ok token) (ok owner) (err e) = (err e, s)
release_validated digests options call s (ok token) (ok owner) (ok key) =
    let (answer, store) = release digests.hold_release options call token owner key s.holds in
    (release_answer answer, record s { holds = store })

-- `releaseHold`
unfoldable pub release_hold :
    Digests
    → SeatHoldStoreOptions
    → Call
    → HoldRequest
    → Inventory
    → Result SeatInventoryError ReleaseHoldResponse × Inventory
release_hold digests options call request s =
    release_validated digests options call s (validate_hold_token request.hold_token)
      (validate_owner request.owner) (validate_idempotency_key request.idempotency_key)
