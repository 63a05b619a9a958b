-- ===== src/SeatHold/Tests.antt =====
-- seat-hold.store.ts on concrete calls.
use bus_ai_booking.Prelude.{
  ℕ, ◌+◌, ◌*◌, ltb, ◌&&◌, if◌then◌else◌, String, ◌≡◌, ◌≢◌, refl, true, false, false≢true, List, [],
  ◌∷◌, none, some, arith, eq_iff, ◌==◌, string_eq, includes,
}
use bus_ai_booking.Prelude.Text.{trim, trim_start, trim_end, is_space, in_range}
use bus_ai_booking.Prelude.Digest.{Digest}
use bus_ai_booking.Redis.{get, set, del, zrem, insert_score, zadd, zrangebyscore}
use bus_ai_booking.SeatHold.Types.{
  same_owner, SeatKey, seat_key_eq, ActiveSeatHold, HoldOwner, AcquireHoldResult, acquired,
  replayed, seat_unavailable, idempotency_conflict, ReleaseHoldResult, released, replay,
  release_conflict,
}
use bus_ai_booking.SeatHold.Store.{
  is_holder, seat_key, HoldStore, SeatHoldStoreOptions, Call, publish, status_event, first_taken,
  set_seats,
}
use bus_ai_booking.SeatHold.Scripts.{place, acquire_script, release_script, sweep_tokens}
use bus_ai_booking.SeatHold.Scripts.Order.{IsGrowing}
use bus_ai_booking.SeatHold.Scripts.Answers.{
  acquire_script_acquired, acquire_script_refused, acquire_script_again, release_script_released,
  release_script_again,
}
use bus_ai_booking.SeatHold.Calls.{sweep_expired, acquire, ReleaseSource}
use bus_ai_booking.SeatHold.Calls.Runs.{Method, acquires, after, run, exclusive, versions_grow}

digest_trimmed : trim "d1" ≡ "d1"
unfolding trim trim_start trim_end is_space in_range
digest_trimmed = refl

abbrev digest : Digest ReleaseSource
digest = record { hash = λ s. "d1"; hash_trimmed = λ s. digest_trimmed }

abbrev options : SeatHoldStoreOptions
options = record {
  idempotency_ttl_seconds = 86400;
  expiry_metadata_retention_seconds = 3600;
  sweep_batch_size = 100;
}

abbrev call_at : ℕ → Call
call_at now = record { now = now; event_id = "event"; expiry_event_id = "expiry" }

abbrev owner : HoldOwner
owner = record { type = "CUSTOMER"; id = "c1" }

abbrev hold_of : String → String → String → ActiveSeatHold
hold_of token seat key = record {
  token = token;
  trip_id = "trip";
  seat_ids = seat ∷ [];
  owner = owner;
  idempotency_key = key;
  expires_at = 600000;
  unit_price_vnd = 250000;
  total_price_vnd = 250000;
}

abbrev first_hold : ActiveSeatHold
first_hold = hold_of "h1" "A01" "k1"

abbrev second_hold : ActiveSeatHold
second_hold = hold_of "h2" "A02" "k2"

abbrev rival_hold : ActiveSeatHold
rival_hold = hold_of "h3" "A01" "k3"

abbrev empty : HoldStore
empty = record {
  holds = λ k. none;
  seats = λ k. none;
  idempotency = λ k. none;
  releases = λ k. none;
  metadata = λ k. none;
  expiry = [];
  versions = λ trip. 0;
  published = [];
}

empty_holds : (n : ℕ) (token : String) → get n token empty.holds ≡ none
unfolding get
empty_holds n token = refl

abbrev calls : List (Call × Method)
calls =
    (call_at 1000, acquires first_hold "f1" 600)
    ∷ (call_at 2000, acquires second_hold "f2" 600)
    ∷ []

first_is_held : get 3000 "h1" (run digest options empty calls).holds ≡ some first_hold
unfolding run after acquire sweep_expired sweep_tokens acquire_script place publish status_event
    first_taken set_seats get set del zadd zrem insert_score zrangebyscore
first_is_held = refl

second_is_held : get 3000 "h2" (run digest options empty calls).holds ≡ some second_hold
unfolding run after acquire sweep_expired sweep_tokens acquire_script place publish status_event
    first_taken set_seats get set del zadd zrem insert_score zrangebyscore
second_is_held = refl

tokens_differ : ◌≢◌ {A = String} "h1" "h2"
tokens_differ e = false≢true ((eq_iff "h1" "h2").1 e)

exclusive_example : includes second_hold.seat_ids "A01" ≡ false
exclusive_example =
    exclusive digest options empty calls 3000 "h1" "h2" first_hold second_hold "A01" empty_holds
      (omega arith, (omega arith, tt)) (omega arith) tokens_differ first_is_held second_is_held refl
      refl

versions_grow_example : IsGrowing (run digest options empty calls).published
versions_grow_example = versions_grow digest options empty calls refl

abbrev Acquisition : Type 0
Acquisition = AcquireHoldResult × HoldStore

abbrev acquisition : Acquisition
acquisition = acquire_script options (call_at 1000) first_hold "f1" 600 empty

first_is_acquired : acquisition.0 ≡ acquired first_hold
unfolding acquire_script place publish status_event first_taken set_seats get set
first_is_acquired = refl

rival_is_refused :
    (acquire_script options (call_at 2000) rival_hold "f3" 600 acquisition.1).0
    ≡ seat_unavailable "A01"
unfolding acquire_script place publish status_event first_taken set_seats get set
rival_is_refused = refl

acquire_script_acquired_example :
    (first_hold ≡ first_hold)
    × ((seat : String)
        → includes first_hold.seat_ids seat ≡ true
        → get 1000 (seat_key "trip" seat) empty.seats ≡ none)
    × ((m : ℕ) (k : SeatKey)
        → get m k acquisition.1.seats ≡ (
            if "trip" == k.trip_id && includes first_hold.seat_ids k.seat_id
            then (if ltb m (1000 + 600 * 1000) then some "h1" else none)
            else get m k empty.seats))
acquire_script_acquired_example =
    acquire_script_acquired options (call_at 1000) first_hold "f1" 600 empty first_hold
      first_is_acquired

rival_is_not_acquired :
    (h : ActiveSeatHold)
    → (acquire_script options (call_at 2000) rival_hold "f3" 600 acquisition.1).0 ≢ acquired h
rival_is_not_acquired h e = ground (arith, e, rival_is_refused)

acquire_script_refused_example :
    (acquire_script options (call_at 2000) rival_hold "f3" 600 acquisition.1).1 ≡ acquisition.1
acquire_script_refused_example =
    acquire_script_refused options (call_at 2000) rival_hold "f3" 600 acquisition.1
      rival_is_not_acquired

acquire_script_again_example :
    acquire_script options (call_at 5000) first_hold "f1" 600 acquisition.1 ≡ (
      (if ◌==◌ {A = String} "f1" "f1" then replayed first_hold else idempotency_conflict),
      acquisition.1,
    )
acquire_script_again_example =
    acquire_script_again options (call_at 1000) first_hold "f1" 600 empty first_hold (call_at 5000)
      first_hold "f1" 600 first_is_acquired refl refl (omega arith)

abbrev release_of : ReleaseHoldResult × HoldStore
release_of = release_script options (call_at 2000) "h1" owner "r1" "d1" acquisition.1

first_is_released : release_of.0 ≡ released first_hold 2000
unfolding acquire_script place publish status_event first_taken set_seats get set release_script
first_is_released = refl

release_script_released_example :
    (get 2000 "h1" acquisition.1.holds ≡ some first_hold)
    × (same_owner owner owner ≡ true)
    × (◌≡◌ {A = ℕ} 2000 2000)
    × ((m : ℕ) → get m "h1" release_of.1.holds ≡ none)
    × ((m : ℕ) (k : SeatKey)
        → get m k release_of.1.seats ≡ (
            if "trip" == k.trip_id
              && includes first_hold.seat_ids k.seat_id
              && is_holder "h1" (get 2000 k acquisition.1.seats)
            then none
            else get m k acquisition.1.seats))
release_script_released_example =
    release_script_released options (call_at 2000) "h1" owner "r1" "d1" acquisition.1 first_hold
      2000 first_is_released

release_script_again_example :
    release_script options (call_at 4000) "h9" owner "r1" "d9" release_of.1 ≡ (
      (if ◌==◌ {A = String} "d1" "d9" then replay first_hold 2000 else release_conflict),
      release_of.1,
    )
release_script_again_example =
    release_script_again options (call_at 2000) "h1" owner "r1" "d1" acquisition.1 first_hold 2000
      (call_at 4000) "h9" "d9" first_is_released (omega arith)
