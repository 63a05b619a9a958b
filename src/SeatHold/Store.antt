-- ===== src/SeatHold/Store.antt =====
-- What seat-hold.store.ts keeps in Redis, and the parts that its scripts share. What a call draws from
-- the process (its clock and random ids) is the record `Call`.
pub mod Laws
use bus_ai_booking.Prelude.{
  ℕ, zero, suc, String, ◌+◌, ◌*◌, Bool, true, false, not, ◌&&◌, Option, none, some, List, [], ◌∷◌,
  ◌==◌, string_eq, if◌then◌else◌, find, is_some, take, length, map,
}
use bus_ai_booking.Prelude.Digest.{Digest}
use bus_ai_booking.Redis.{Keyspace, SortedSet, get, set, del, zadd, zrem, zrangebyscore}
use bus_ai_booking.SeatHold.Types.{
  HoldOwner, same_owner, ActiveSeatHold, AcquireHoldResult, acquired, replayed, seat_unavailable,
  idempotency_conflict, ReleaseHoldResult, released, replay, not_active, owner_mismatch,
  release_conflict, ConsumeResult, consumed, hold_not_active, hold_owner_mismatch, SeatKey,
  RequestKey, IdempotencyRecord, ReleaseOutcome, was_not_active, was_released, ReleaseRecord,
  ExpiryMetadata, SeatStatus, held, available, booked, blocked, SeatStatusChanged, seat_key_eq,
  request_key_eq,
}

-- The keys of the namespace, a part for each form of key, and what was published, newest first.
pub record HoldStore : Type 0 where
  pub holds : Keyspace String ActiveSeatHold
  pub seats : Keyspace SeatKey String
  pub idempotency : Keyspace RequestKey IdempotencyRecord
  pub releases : Keyspace RequestKey ReleaseRecord
  pub metadata : Keyspace String ExpiryMetadata
  pub expiry : SortedSet
  pub versions : String → ℕ
  pub published : List SeatStatusChanged

pub record SeatHoldStoreOptions : Type 0 where
  pub idempotency_ttl_seconds : ℕ
  pub expiry_metadata_retention_seconds : ℕ
  pub sweep_batch_size : ℕ

-- The clock of the call, and the random ids that it draws.
pub record Call : Type 0 where
  pub now : ℕ
  pub event_id : String
  pub expiry_event_id : String

abbrev pub seat_key : String → String → SeatKey
seat_key trip_id seat_id = record { trip_id = trip_id; seat_id = seat_id }

abbrev pub request_key : HoldOwner → String → RequestKey
request_key owner key = record { owner = owner; key = key }

-- INCR of the version of the trip, and PUBLISH of the event with it.
unfoldable pub publish : (ℕ → SeatStatusChanged) → String → HoldStore → HoldStore
publish event trip_id s =
    let version = s.versions trip_id + 1 in
    record s {
      versions = λ trip. if trip_id == trip then version else s.versions trip;
      published = event version ∷ s.published;
    }

unfoldable pub status_event :
    Call → ℕ → SeatStatus → Option ℕ → String → List String → ℕ → SeatStatusChanged
status_event call event_version status expires_at trip_id seat_ids version = record {
  event_id = call.event_id;
  event_version = event_version;
  occurred_at = call.now;
  trip_id = trip_id;
  seat_ids = seat_ids;
  status = status;
  expires_at = expires_at;
  version = version;
}

-- The first loop of ACQUIRE_HOLD_SCRIPT: a seat whose key is there.
unfoldable pub first_taken : ℕ → String → List String → Keyspace SeatKey String → Option String
first_taken now trip_id seat_ids seats =
    find (λ (seat : String). is_some (get now (seat_key trip_id seat) seats)) seat_ids

-- The second loop.
unfoldable pub set_seats :
    ℕ → ℕ → String → String → List String → Keyspace SeatKey String → Keyspace SeatKey String
set_seats now px token trip_id [] seats = seats
set_seats now px token trip_id (seat ∷ rest) seats =
    set_seats now px token trip_id rest (set now px (seat_key trip_id seat) token seats)

abbrev pub is_holder : String → Option String → Bool
is_holder token none = false
is_holder token (some holder) = holder == token

-- One round of the loop that deletes the keys of the seats that still hold the token.
unfoldable pub free_seat : ℕ → String → SeatKey → Keyspace SeatKey String → Keyspace SeatKey String
free_seat now token key seats = if is_holder token (get now key seats) then del key seats else seats

unfoldable pub free_seats :
    ℕ → String → String → List String → Keyspace SeatKey String → Keyspace SeatKey String
unfolding free_seat
free_seats now token trip_id [] seats = seats
free_seats now token trip_id (seat ∷ rest) seats =
    free_seats now token trip_id rest (free_seat now token (seat_key trip_id seat) seats)

-- What ends a hold: its seats, its member of the sorted set, its metadata.
unfoldable pub end_hold : ℕ → String → String → List String → HoldStore → HoldStore
end_hold now token trip_id seat_ids s = record s {
  seats = free_seats now token trip_id seat_ids s.seats;
  expiry = zrem token s.expiry;
  metadata = del token s.metadata;
}

-- The same, with the key of the hold.
unfoldable pub drop_hold : ℕ → String → String → List String → HoldStore → HoldStore
drop_hold now token trip_id seat_ids s =
    let t = end_hold now token trip_id seat_ids s in record t { holds = del token s.holds }
