-- ===== src/SeatInventory/Types.antt =====
-- The requests, the answers and the errors of
-- services/seat-inventory-service/src/seat-inventory.service.ts, with the layouts of catalog.client.ts.
-- Instants are milliseconds; prices are whole numbers below 2 ^ 53 / 10, which a JavaScript number
-- multiplies exactly.
use bus_ai_booking.Prelude.{ℕ, String, Bool, Option, List}
use bus_ai_booking.Prelude.Number.{Number}
use bus_ai_booking.Prelude.Digest.{Digest}
use bus_ai_booking.SeatHold.Types.{HoldOwner, ActiveSeatHold}
use bus_ai_booking.SeatHold.Calls.{ReleaseSource}
use bus_ai_booking.SeatHold.Store.{HoldStore}
use bus_ai_booking.SeatState.Tables.{SeatStateTables}

-- A seat of a layout; the label and the place are carried along.
pub record CatalogSeatDefinition : Type 0 where
  pub id : String
  pub label : String
  pub deck : ℕ
  pub row : ℕ
  pub column : ℕ

pub record CatalogTripLayout : Type 0 where
  pub trip_id : String
  pub layout_id : String
  pub layout_version : ℕ
  pub layout_name : String
  pub deck_count : ℕ
  pub price_vnd : ℕ
  pub seats : List CatalogSeatDefinition

-- CatalogTripNotFoundError and CatalogDependencyError
pub data CatalogError : Type 0 where
  trip_not_found dependency_unavailable : CatalogError

pub data SeatMapStatus : Type 0 where
  available held booked blocked : SeatMapStatus

-- A seat of the seat map.
pub record SeatMapSeat : Type 0 where
  pub seat : CatalogSeatDefinition
  pub status : SeatMapStatus
  pub held_by_requester : Bool

pub record GetSeatMapRequest : Type 0 where
  pub trip_id : Option String
  pub hold_token : Option String

pub record SeatMap : Type 0 where
  pub trip_id : String
  pub layout_id : String
  pub layout_version : ℕ
  pub layout_name : String
  pub deck_count : ℕ
  pub seats : List SeatMapSeat
  pub generated_at : ℕ

pub record HoldSeatsRequest : Type 0 where
  pub trip_id : Option String
  pub seat_ids : Option (List String)
  pub owner : Option HoldOwner
  pub idempotency_key : Option String
  pub requested_ttl_seconds : Option Number

pub record ValidatedHoldRequest : Type 0 where
  pub trip_id : String
  pub seat_ids : List String
  pub owner : HoldOwner
  pub idempotency_key : String
  pub ttl_seconds : ℕ

-- The fields that GetHoldRequest and ReleaseHoldRequest share; a read has no key.
pub record HoldRequest : Type 0 where
  pub hold_token : Option String
  pub owner : Option HoldOwner
  pub idempotency_key : Option String

pub record ConfirmSeatsRequest : Type 0 where
  pub hold_token : Option String
  pub owner : Option HoldOwner
  pub trip_id : Option String
  pub seat_ids : Option (List String)
  pub booking_id : Option String
  pub idempotency_key : Option String

pub record ValidatedConfirmRequest : Type 0 where
  pub hold_token : String
  pub owner : HoldOwner
  pub trip_id : String
  pub seat_ids : List String
  pub booking_id : String
  pub idempotency_key : String

pub record ReleaseBookedSeatsRequest : Type 0 where
  pub booking_id : Option String
  pub trip_id : Option String
  pub seat_ids : Option (List String)
  pub idempotency_key : Option String

pub record ValidatedReleaseRequest : Type 0 where
  pub booking_id : String
  pub trip_id : String
  pub seat_ids : List String
  pub idempotency_key : String

pub record SeatAdminActor : Type 0 where
  pub id : String
  pub role : String

pub record SetSeatBlockedRequest : Type 0 where
  pub trip_id : Option String
  pub seat_ids : Option (List String)
  pub blocked : Option Bool
  pub reason : Option String
  pub idempotency_key : Option String
  pub actor : Option SeatAdminActor
  pub request_id : Option String
  pub trace_id : Option String

pub record ValidatedBlockRequest : Type 0 where
  pub trip_id : String
  pub seat_ids : List String
  pub blocked : Bool
  pub reason : String
  pub actor_id : String
  pub idempotency_key : String

pub data HoldStatus : Type 0 where
  active expired : HoldStatus

pub record SeatHoldView : Type 0 where
  pub hold : ActiveSeatHold
  pub remaining_ttl_seconds : ℕ
  pub status : HoldStatus

pub record ReleaseHoldResponse : Type 0 where
  pub released : Bool
  pub trip_id : Option String
  pub seat_ids : List String
  pub released_at : Option ℕ

pub record ConfirmSeatsResponse : Type 0 where
  pub confirmed : Bool
  pub trip_id : String
  pub seat_ids : List String
  pub booking_id : String
  pub confirmed_at : ℕ

pub record ReleaseBookedSeatsResponse : Type 0 where
  pub released : Bool
  pub booking_id : String
  pub trip_id : String
  pub seat_ids : List String
  pub released_at : ℕ

-- The errors that the calls throw; `store_failed` is the plain error of the repository.
pub data SeatInventoryError : Type 0 where
  seat_map_validation hold_expired hold_ownership : SeatInventoryError
  idempotency_conflict confirmation_conflict release_conflict block_conflict : SeatInventoryError
  admin_forbidden store_failed : SeatInventoryError
  seat_unavailable : List String → SeatInventoryError
  catalog_failed : CatalogError → SeatInventoryError

-- What the fingerprints are taken of.
pub record HoldSource : Type 0 where
  pub trip_id : String
  pub seat_ids : List String
  pub owner : HoldOwner
  pub unit_price_vnd : ℕ

pub record ConfirmationSource : Type 0 where
  pub hold_token_hash : String
  pub owner : HoldOwner
  pub trip_id : String
  pub seat_ids : List String
  pub booking_id : String

pub record BookedReleaseSource : Type 0 where
  pub booking_id : String
  pub trip_id : String
  pub seat_ids : List String

pub record BlockSource : Type 0 where
  pub trip_id : String
  pub seat_ids : List String
  pub blocked : Bool
  pub reason : String

-- `createHash('sha256')` of each of them, and of a token.
pub record Digests : Type 0 where
  pub hold : Digest HoldSource
  pub confirmation : Digest ConfirmationSource
  pub booked_release : Digest BookedReleaseSource
  pub block : Digest BlockSource
  pub hold_release : Digest ReleaseSource
  pub token : Digest String

-- What the service works on: the holds in Redis and the durable tables.
pub record Inventory : Type 0 where
  pub holds : HoldStore
  pub tables : SeatStateTables
