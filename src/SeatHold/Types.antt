-- ===== src/SeatHold/Types.antt =====
-- The data of services/seat-inventory-service/src/seat-hold.store.ts: holds, the records and the
-- events that the scripts write. Instants are milliseconds; texts that hold JSON are the values.
use bus_ai_booking.Prelude.{
  ℕ, String, ◌≡◌, ◌↔◌, Bool, true, ◌&&◌, Option, List, arith, Eq, ◌==◌, string_eq, eq_iff,
}

pub record HoldOwner : Type 0 where
  pub type : String
  pub id : String

abbrev pub same_owner : HoldOwner → HoldOwner → Bool
same_owner a b = a.type == b.type && a.id == b.id

pub record ActiveSeatHold : Type 0 where
  pub token : String
  pub trip_id : String
  pub seat_ids : List String
  pub owner : HoldOwner
  pub idempotency_key : String
  pub expires_at : ℕ
  pub unit_price_vnd : ℕ
  pub total_price_vnd : ℕ

pub data AcquireHoldResult : Type 0 where
  acquired replayed : ActiveSeatHold → AcquireHoldResult
  seat_unavailable : String → AcquireHoldResult
  idempotency_conflict : AcquireHoldResult

pub data ReleaseHoldResult : Type 0 where
  released replay : ActiveSeatHold → ℕ → ReleaseHoldResult
  not_active owner_mismatch release_conflict : ReleaseHoldResult

pub data ConsumeResult : Type 0 where
  consumed hold_not_active hold_owner_mismatch : ConsumeResult

-- The key of a seat, `...:trip:<tripId>:seat:<seatId>`.
pub record SeatKey : Type 0 where
  pub trip_id : String
  pub seat_id : String

-- The key of a request, `...:<owner type>:<owner id>:<idempotency key>`.
pub record RequestKey : Type 0 where
  pub owner : HoldOwner
  pub key : String

abbrev pub same_seat : SeatKey → SeatKey → Bool
same_seat a b = a.trip_id == b.trip_id && a.seat_id == b.seat_id

pub same_seat_iff : (a b : SeatKey) → (same_seat a b ≡ true) ↔ (a ≡ b)
same_seat_iff a b = (
  λ h. ground (arith, eq_iff a.trip_id b.trip_id, eq_iff a.seat_id b.seat_id),
  λ h. ground (arith, h, eq_iff a.trip_id b.trip_id, eq_iff a.seat_id b.seat_id),
)

instance abbrev pub seat_key_eq : Eq SeatKey
seat_key_eq = record { is_same = same_seat; is_same_iff = same_seat_iff }

abbrev pub same_request : RequestKey → RequestKey → Bool
same_request a b = same_owner a.owner b.owner && a.key == b.key

pub same_request_iff : (a b : RequestKey) → (same_request a b ≡ true) ↔ (a ≡ b)
same_request_iff a b = (
  λ h.
      ground
        (arith, eq_iff a.owner.type b.owner.type, eq_iff a.owner.id b.owner.id, eq_iff a.key b.key),
  λ h. ground (
    arith,
    h,
    eq_iff a.owner.type b.owner.type,
    eq_iff a.owner.id b.owner.id,
    eq_iff a.key b.key,
  ),
)

instance abbrev pub request_key_eq : Eq RequestKey
request_key_eq = record { is_same = same_request; is_same_iff = same_request_iff }

-- What ACQUIRE_HOLD_SCRIPT leaves for an idempotency key.
pub record IdempotencyRecord : Type 0 where
  pub fingerprint : String
  pub hold : ActiveSeatHold

-- What a release left for its idempotency key.
pub data ReleaseOutcome : Type 0 where
  was_not_active : ReleaseOutcome
  was_released : ActiveSeatHold → ℕ → ReleaseOutcome

pub record ReleaseRecord : Type 0 where
  pub fingerprint : String
  pub outcome : ReleaseOutcome

pub record ExpiryMetadata : Type 0 where
  pub token : String
  pub trip_id : String
  pub seat_ids : List String
  pub expiry_event_id : String

pub data SeatStatus : Type 0 where
  held available booked blocked : SeatStatus

-- SeatStatusChangedV1 and SeatStatusChangedV2, by the version of the event.
pub record SeatStatusChanged : Type 0 where
  pub event_id : String
  pub event_version : ℕ
  pub occurred_at : ℕ
  pub trip_id : String
  pub seat_ids : List String
  pub status : SeatStatus
  pub expires_at : Option ℕ
  pub version : ℕ
