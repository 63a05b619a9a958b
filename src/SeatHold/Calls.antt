-- ===== src/SeatHold/Calls.antt =====
-- The methods of seat-hold.store.ts: what they run, and what they return.
pub mod Runs
pub mod Sweep
use bus_ai_booking.Prelude.{
  ℕ, zero, suc, String, ◌+◌, ◌*◌, Bool, true, false, not, ◌&&◌, Option, none, some, List, [], ◌∷◌,
  ◌==◌, string_eq, if◌then◌else◌, find, is_some, take, length, map,
}
use bus_ai_booking.Prelude.Digest.{Digest}
use bus_ai_booking.Redis.{Keyspace, SortedSet, get, set, del, zadd, zrem, zrangebyscore}
use bus_ai_booking.SeatHold.Types.{
  HoldOwner, same_owner, ActiveSeatHold, AcquireHoldResult, acquired, replayed, seat_unavailable,
  idempotency_conflict, ReleaseHoldResult, released, replay, not_active, owner_mismatch,
  release_conflict, ConsumeResult, consumed, hold_not_active, hold_owner_mismatch, SeatKey,
  RequestKey, IdempotencyRecord, ReleaseOutcome, was_not_active, was_released, ReleaseRecord,
  ExpiryMetadata, SeatStatus, held, available, booked, blocked, SeatStatusChanged, seat_key_eq,
  request_key_eq,
}
use bus_ai_booking.SeatHold.Store.{
  HoldStore, SeatHoldStoreOptions, Call, seat_key, request_key, publish, status_event, first_taken,
  set_seats, free_seats, end_hold, drop_hold,
}
use bus_ai_booking.SeatHold.Scripts.{
  place, acquire_script, release_replay, release_script, consume_confirmed_hold, sweep_token,
  sweep_tokens,
}

-- SWEEP_EXPIRED_SCRIPT and `sweepExpired`: the tokens examined, and the events published.
unfoldable pub sweep_expired : SeatHoldStoreOptions → Call → HoldStore → HoldStore × ℕ × ℕ
sweep_expired options call s =
    let tokens = take options.sweep_batch_size (zrangebyscore call.now s.expiry) in
    let (t, published) = sweep_tokens call tokens s in (t, length tokens, published)

-- `acquire`: the sweep, and the script.
unfoldable pub acquire :
    SeatHoldStoreOptions
    → Call
    → ActiveSeatHold
    → String
    → ℕ
    → HoldStore
    → AcquireHoldResult × HoldStore
acquire options call hold fingerprint ttl_seconds s =
    acquire_script options call hold fingerprint ttl_seconds (sweep_expired options call s).0

-- `get`
unfoldable pub get_hold :
    SeatHoldStoreOptions → Call → String → HoldStore → Option ActiveSeatHold × HoldStore
get_hold options call token s =
    let t = (sweep_expired options call s).0 in (get call.now token t.holds, t)

-- What the fingerprint of a release is taken of.
pub record ReleaseSource : Type 0 where
  pub hold_token : String
  pub owner : HoldOwner

-- `release`
unfoldable pub release :
    Digest ReleaseSource
    → SeatHoldStoreOptions
    → Call
    → String
    → HoldOwner
    → String
    → HoldStore
    → ReleaseHoldResult × HoldStore
release digest options call token owner key s =
    release_script options call token owner key
      (digest.hash (record { hold_token = token; owner = owner })) s

-- PUBLISH_AVAILABLE_SCRIPT, as `publishAvailableSeats` and `publishBlockedSeats` run it, with the
-- instant that their caller gives.
unfoldable pub publish_seats : Call → ℕ → SeatStatus → String → List String → HoldStore → HoldStore
publish_seats call event_version status trip_id seat_ids s =
    publish (status_event call event_version status none trip_id seat_ids) trip_id s

unfoldable pub publish_available_seats : Call → String → List String → ℕ → HoldStore → HoldStore
publish_available_seats call trip_id seat_ids occurred_at =
    publish_seats (record call { now = occurred_at }) 1 available trip_id seat_ids

unfoldable pub publish_blocked_seats : Call → String → List String → ℕ → HoldStore → HoldStore
publish_blocked_seats call trip_id seat_ids occurred_at =
    publish_seats (record call { now = occurred_at }) 2 blocked trip_id seat_ids

abbrev pub is_requester : String → Option String → Bool
is_requester holder none = false
is_requester holder (some token) = holder == token

-- The entry of the map for one seat: a key that is there, and texts that are not empty.
abbrev pub seat_entry :
    String → Option String → Option String → List (String × Bool) → List (String × Bool)
seat_entry seat token none more = more
seat_entry seat token (some holder) more =
    if not (holder == "") && not (seat == "")
    then (seat, is_requester holder token) ∷ more
    else more

-- For each seat with a holder, whether the requester's token is the holder.
unfoldable pub seat_holds :
    ℕ → String → Option String → HoldStore → List String → List (String × Bool)
seat_holds now trip_id token s [] = []
seat_holds now trip_id token s (seat ∷ rest) =
    seat_entry seat token (get now (seat_key trip_id seat) s.seats)
      (seat_holds now trip_id token s rest)

-- `getSeatHolds`
unfoldable pub get_seat_holds :
    SeatHoldStoreOptions
    → Call
    → String
    → List String
    → Option String
    → HoldStore
    → List (String × Bool) × HoldStore
get_seat_holds options call trip_id [] token s = ([], s)
get_seat_holds options call trip_id (seat ∷ rest) token s =
    let t = (sweep_expired options call s).0 in
    (seat_holds call.now trip_id token t (seat ∷ rest), t)
