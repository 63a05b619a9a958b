-- ===== src/SeatHold/Scripts.antt =====
-- The Lua scripts of seat-hold.store.ts, each run as one step of Redis.
pub mod Keeps
pub mod Cover
pub mod Order
pub mod Answers
use bus_ai_booking.Prelude.{
  ℕ, zero, suc, String, ◌+◌, ◌*◌, Bool, true, false, not, ◌&&◌, Option, none, some, List, [], ◌∷◌,
  ◌==◌, string_eq, if◌then◌else◌, find, is_some, take, length, map,
}
use bus_ai_booking.Prelude.Digest.{Digest}
use bus_ai_booking.Redis.{Keyspace, SortedSet, get, set, del, zadd, zrem, zrangebyscore}
use bus_ai_booking.SeatHold.Types.{
  HoldOwner, same_owner, ActiveSeatHold, AcquireHoldResult, acquired, replayed, seat_unavailable,
  idempotency_conflict, ReleaseHoldResult, released, replay, not_active, owner_mismatch,
  release_conflict, ConsumeResult, consumed, hold_not_active, hold_owner_mismatch, SeatKey,
  RequestKey, IdempotencyRecord, ReleaseOutcome, was_not_active, was_released, ReleaseRecord,
  ExpiryMetadata, SeatStatus, held, available, booked, blocked, SeatStatusChanged, seat_key_eq,
  request_key_eq,
}
use bus_ai_booking.SeatHold.Store.{
  HoldStore, SeatHoldStoreOptions, Call, seat_key, request_key, publish, status_event, first_taken,
  set_seats, free_seats, end_hold, drop_hold,
}

-- What the script writes for a hold whose seats are all free.
unfoldable pub place :
    SeatHoldStoreOptions → Call → ActiveSeatHold → String → ℕ → HoldStore → HoldStore
place options call hold fingerprint ttl_seconds s =
    let px = ttl_seconds * 1000 in
    let t =
      publish (status_event call 1 held (some hold.expires_at) hold.trip_id hold.seat_ids)
        hold.trip_id s in
    record t {
      seats = set_seats call.now px hold.token hold.trip_id hold.seat_ids s.seats;
      holds = set call.now px hold.token hold s.holds;
      idempotency =
          set call.now (options.idempotency_ttl_seconds * 1000)
            (request_key hold.owner hold.idempotency_key)
            (record { fingerprint = fingerprint; hold = hold }) s.idempotency;
      metadata =
          set call.now ((ttl_seconds + options.expiry_metadata_retention_seconds) * 1000) hold.token
            (record {
              token = hold.token;
              trip_id = hold.trip_id;
              seat_ids = hold.seat_ids;
              expiry_event_id = call.expiry_event_id;
            })
            s.metadata;
      expiry = zadd hold.token hold.expires_at s.expiry;
    }

-- The check of the seats, by the one that it found taken.
abbrev pub acquire_free :
    SeatHoldStoreOptions
    → Call
    → ActiveSeatHold
    → String
    → ℕ
    → HoldStore
    → Option String
    → AcquireHoldResult × HoldStore
acquire_free options call hold fingerprint ttl_seconds s (some seat) = (seat_unavailable seat, s)
acquire_free options call hold fingerprint ttl_seconds s none =
    (acquired hold, place options call hold fingerprint ttl_seconds s)

-- The check of the idempotency key, by what is stored for it.
abbrev pub acquire_fresh :
    SeatHoldStoreOptions
    → Call
    → ActiveSeatHold
    → String
    → ℕ
    → HoldStore
    → Option IdempotencyRecord
    → AcquireHoldResult × HoldStore
acquire_fresh options call hold fingerprint ttl_seconds s (some earlier) =
    if earlier.fingerprint == fingerprint
    then (replayed earlier.hold, s)
    else (idempotency_conflict, s)
acquire_fresh options call hold fingerprint ttl_seconds s none =
    acquire_free options call hold fingerprint ttl_seconds s
      (first_taken call.now hold.trip_id hold.seat_ids s.seats)

-- ACQUIRE_HOLD_SCRIPT.
unfoldable pub acquire_script :
    SeatHoldStoreOptions
    → Call
    → ActiveSeatHold
    → String
    → ℕ
    → HoldStore
    → AcquireHoldResult × HoldStore
acquire_script options call hold fingerprint ttl_seconds s =
    acquire_fresh options call hold fingerprint ttl_seconds s
      (get call.now (request_key hold.owner hold.idempotency_key) s.idempotency)

abbrev pub release_replay : ReleaseOutcome → ReleaseHoldResult
release_replay was_not_active = not_active
release_replay (was_released hold at) = replay hold at

-- What a release remembers under its idempotency key.
unfoldable pub remember_release :
    SeatHoldStoreOptions
    → Call
    → HoldOwner
    → String
    → String
    → ReleaseOutcome
    → HoldStore
    → HoldStore
remember_release options call owner key fingerprint outcome s = record s {
  releases =
      set call.now (options.idempotency_ttl_seconds * 1000) (request_key owner key)
        (record { fingerprint = fingerprint; outcome = outcome }) s.releases;
}

-- The release of a hold that is there, or the record that none is.
abbrev pub release_held :
    SeatHoldStoreOptions
    → Call
    → String
    → HoldOwner
    → String
    → String
    → HoldStore
    → Option ActiveSeatHold
    → ReleaseHoldResult × HoldStore
release_held options call token owner key fingerprint s none =
    (not_active, remember_release options call owner key fingerprint was_not_active s)
release_held options call token owner key fingerprint s (some hold) =
    if same_owner hold.owner owner
    then (
      released hold call.now,
      remember_release options call owner key fingerprint (was_released hold call.now) (
          publish (status_event call 1 available none hold.trip_id hold.seat_ids) hold.trip_id
            (drop_hold call.now token hold.trip_id hold.seat_ids s)),
    )
    else (owner_mismatch, s)

abbrev pub release_fresh :
    SeatHoldStoreOptions
    → Call
    → String
    → HoldOwner
    → String
    → String
    → HoldStore
    → Option ReleaseRecord
    → ReleaseHoldResult × HoldStore
release_fresh options call token owner key fingerprint s (some earlier) =
    if earlier.fingerprint == fingerprint
    then (release_replay earlier.outcome, s)
    else (release_conflict, s)
release_fresh options call token owner key fingerprint s none =
    release_held options call token owner key fingerprint s (get call.now token s.holds)

-- RELEASE_HOLD_SCRIPT.
unfoldable pub release_script :
    SeatHoldStoreOptions
    → Call
    → String
    → HoldOwner
    → String
    → String
    → HoldStore
    → ReleaseHoldResult × HoldStore
release_script options call token owner key fingerprint s =
    release_fresh options call token owner key fingerprint s
      (get call.now (request_key owner key) s.releases)

abbrev pub consume_held :
    Call → String → HoldOwner → HoldStore → Option ActiveSeatHold → ConsumeResult × HoldStore
consume_held call token owner s none = (hold_not_active, s)
consume_held call token owner s (some hold) =
    if same_owner hold.owner owner
    then (
      consumed,
      publish (status_event call 2 booked none hold.trip_id hold.seat_ids) hold.trip_id
          (drop_hold call.now token hold.trip_id hold.seat_ids s),
    )
    else (hold_owner_mismatch, s)

-- CONSUME_CONFIRMED_HOLD_SCRIPT.
unfoldable pub consume_confirmed_hold :
    Call → String → HoldOwner → HoldStore → ConsumeResult × HoldStore
consume_confirmed_hold call token owner s =
    consume_held call token owner s (get call.now token s.holds)

abbrev pub sweep_known : Call → String → HoldStore → Option ExpiryMetadata → HoldStore × ℕ
sweep_known call token s none = (record s { expiry = zrem token s.expiry }, 0)
sweep_known call token s (some meta) = if is_some (get call.now token s.holds) then (s, 0) else (
  publish
      (status_event (record call { event_id = meta.expiry_event_id }) 1 available none meta.trip_id
        meta.seat_ids)
      meta.trip_id (end_hold call.now token meta.trip_id meta.seat_ids s),
  1,
)

-- One round of the loop of SWEEP_EXPIRED_SCRIPT, with the count of the events published.
unfoldable pub sweep_token : Call → String → HoldStore → HoldStore × ℕ
sweep_token call token s = sweep_known call token s (get call.now token s.metadata)

unfoldable pub sweep_tokens : Call → List String → HoldStore → HoldStore × ℕ
sweep_tokens call [] s = (s, 0)
sweep_tokens call (token ∷ rest) s =
    let (t, published) = sweep_token call token s in
    let (u, more) = sweep_tokens call rest t in (u, published + more)
