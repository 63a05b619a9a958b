-- ===== src/SeatHold/Calls/Runs.antt =====
-- Any sequence of calls of the store, by any number of processes: Redis runs one script at a time, so
-- an interleaving of their calls is a list of them.
use bus_ai_booking.Prelude.{
  ℕ, ◌≤◌, String, ◌≡◌, ◌≢◌, true, false, inl, inr, List, [], ◌∷◌, Option, none, some, arith,
  Bool-cases, string_eq, includes,
}
use bus_ai_booking.Prelude.Digest.{Digest}
use bus_ai_booking.Redis.{get}
use bus_ai_booking.SeatHold.Types.{ActiveSeatHold, HoldOwner, available, blocked, seat_key_eq}
use bus_ai_booking.SeatHold.Store.{HoldStore, SeatHoldStoreOptions, Call}
use bus_ai_booking.SeatHold.Scripts.{consume_confirmed_hold}
use bus_ai_booking.SeatHold.Scripts.Keeps.{
  Rules, acquire_script_keeps, release_script_keeps, consume_keeps, sweep_tokens_keeps,
}
use bus_ai_booking.SeatHold.Scripts.Cover.{IsCovered, IsCovered-later, IsCovered-rules}
use bus_ai_booking.SeatHold.Scripts.Order.{IsOrdered, IsOrdered-rules, IsGrowing}
use bus_ai_booking.SeatHold.Calls.{
  sweep_expired, acquire, get_hold, ReleaseSource, release, publish_seats, publish_available_seats,
  publish_blocked_seats, get_seat_holds,
}

-- The methods of SeatHoldStore that reach Redis, with their arguments.
pub data Method : Type 0 where
  acquires : ActiveSeatHold → String → ℕ → Method
  gets : String → Method
  releases : String → HoldOwner → String → Method
  consumes : String → HoldOwner → Method
  publishes_available publishes_blocked : String → List String → ℕ → Method
  gets_seats : String → List String → Option String → Method
  sweeps : Method

-- The clocks of the calls do not go back.
abbrev pub IsTimely : ℕ → List (Call × Method) → Type 0
IsTimely now [] = Unit
IsTimely now ((call, method) ∷ calls) = (now ≤ call.now) × IsTimely call.now calls

-- The instant of the last call.
abbrev pub last_instant : ℕ → List (Call × Method) → ℕ
last_instant now [] = now
last_instant now ((call, method) ∷ calls) = last_instant call.now calls

module _ (digest : Digest ReleaseSource) (options : SeatHoldStoreOptions) where
  unfoldable pub after : HoldStore → Call × Method → HoldStore
  after s (call, acquires hold fingerprint ttl) = (acquire options call hold fingerprint ttl s).1
  after s (call, gets token) = (get_hold options call token s).1
  after s (call, releases token owner key) = (release digest options call token owner key s).1
  after s (call, consumes token owner) = (consume_confirmed_hold call token owner s).1
  after s (call, publishes_available trip_id ids at) = publish_available_seats call trip_id ids at s
  after s (call, publishes_blocked trip_id ids at) = publish_blocked_seats call trip_id ids at s
  after s (call, gets_seats trip_id ids token) = (get_seat_holds options call trip_id ids token s).1
  after s (call, sweeps) = (sweep_expired options call s).0

  unfoldable pub run : HoldStore → List (Call × Method) → HoldStore
  run s [] = s
  run s (c ∷ calls) = run (after s c) calls

  sweep_keeps :
      {call : Call} {P : HoldStore → Type 0}
      → Rules call P
      → (s : HoldStore) → P s
      → P (sweep_expired options call s).0
  unfolding sweep_expired
  sweep_keeps rules s p = sweep_tokens_keeps rules _ s p

  after_keeps :
      {P : HoldStore → Type 0} (call : Call)
      → Rules call P
      → (method : Method) (s : HoldStore) → P s
      → P (after s (call, method))
  unfolding after acquire get_hold release publish_available_seats publish_blocked_seats
      publish_seats get_seat_holds
  after_keeps call rules (acquires hold fingerprint ttl) s p =
      acquire_script_keeps rules options hold fingerprint ttl _ (sweep_keeps rules s p)
  after_keeps call rules (gets token) s p = sweep_keeps rules s p
  after_keeps call rules (releases token owner key) s p =
      release_script_keeps rules options token owner key _ s p
  after_keeps call rules (consumes token owner) s p = consume_keeps rules token owner s p
  after_keeps call rules (publishes_available trip_id ids at) s p =
      rules.publish_rule (record call { now = at }) 1 available none trip_id ids s p
  after_keeps call rules (publishes_blocked trip_id ids at) s p =
      rules.publish_rule (record call { now = at }) 2 blocked none trip_id ids s p
  after_keeps call rules (gets_seats trip_id [] token) s p = p
  after_keeps call rules (gets_seats trip_id (seat ∷ ids) token) s p = sweep_keeps rules s p
  after_keeps call rules sweeps s p = sweep_keeps rules s p

  run-IsCovered :
      (now : ℕ) (s : HoldStore) (calls : List (Call × Method))
      → IsTimely now calls
      → IsCovered now s
      → IsCovered (last_instant now calls) (run s calls)
  unfolding run
  run-IsCovered now s [] t c = c
  run-IsCovered now s ((call, method) ∷ calls) t c =
      run-IsCovered call.now (after s (call, method)) calls t.1
        (after_keeps call (IsCovered-rules call) method s (IsCovered-later t.0 c))

  run-IsOrdered :
      (s : HoldStore) (calls : List (Call × Method)) → IsOrdered s → IsOrdered (run s calls)
  unfolding run
  run-IsOrdered s [] o = o
  run-IsOrdered s ((call, method) ∷ calls) o =
      run-IsOrdered (after s (call, method)) calls
        (after_keeps call (IsOrdered-rules call) method s o)

  -- Whatever calls ran one after the other, with clocks that do not go back, on a store with no hold:
  -- two holds with different tokens that are there at one later instant share no seat of a trip.
  pub exclusive :
      (s : HoldStore) (calls : List (Call × Method)) (m : ℕ) (token token' : String)
      (hold hold' : ActiveSeatHold) (seat : String)
      → ((n : ℕ) (any_token : String) → get n any_token s.holds ≡ none)
      → IsTimely 0 calls
      → last_instant 0 calls ≤ m
      → token ≢ token'
      → get m token (run s calls).holds ≡ some hold
      → get m token' (run s calls).holds ≡ some hold'
      → hold.trip_id ≡ hold'.trip_id
      → includes hold.seat_ids seat ≡ true
      → includes hold'.seat_ids seat ≡ false
  exclusive s calls m token token' hold hold' seat empty timely later differ g g' trip i =
      let cover =
        run-IsCovered 0 s calls timely
          (record { at = λ n any h le g0. absurd (ground (arith, g0, empty n any)) }) in
      elim (Bool-cases (includes hold'.seat_ids seat)) [
        | inr fine ↦ fine
        | inl both ↦
            let one = cover.at m token hold later g seat i in
            let two = cover.at m token' hold' later g' seat both in
            absurd (differ (ground (arith, one, two, trip)))
      ]

  -- Whatever calls ran on a store with nothing published, the versions of the events of each trip
  -- strictly grow in the order of publication.
  pub versions_grow :
      (s : HoldStore) (calls : List (Call × Method))
      → s.published ≡ []
      → IsGrowing (run s calls).published
  versions_grow s calls empty =
      (run-IsOrdered s calls (record { growing = rw empty tt; below = rw empty tt })).growing
