-- ===== src/SeatHold/Scripts/Answers.antt =====
-- What each answer of the scripts says of the store before and after.
use bus_ai_booking.Prelude.{
  subst, ℕ, ◌+◌, ◌*◌, ◌<◌, String, ◌≡◌, ◌≢◌, refl, true, ◌&&◌, inl, inr, none, some, arith, ◌==◌,
  string_eq, eq_refl, ltb, if◌then◌else◌, includes, Bool-cases, Option-cases,
}
use bus_ai_booking.Redis.{get, get-set, get-del}
use bus_ai_booking.SeatHold.Types.{
  ActiveSeatHold, HoldOwner, same_owner, SeatKey, RequestKey, seat_key_eq, request_key_eq,
  IdempotencyRecord, ReleaseRecord, was_released, AcquireHoldResult, ReleaseHoldResult, available,
  acquired, replayed, idempotency_conflict, released, replay, release_conflict,
}
use bus_ai_booking.SeatHold.Store.{
  HoldStore, SeatHoldStoreOptions, Call, seat_key, request_key, first_taken, is_holder, publish,
  end_hold, drop_hold, status_event,
}
use bus_ai_booking.SeatHold.Store.Laws.{get-set_seats, get-free_seats, first_taken-none}
use bus_ai_booking.SeatHold.Scripts.{
  place, acquire_script, remember_release, release_script, release_replay,
}

request_key_refl : (k : RequestKey) → (k == k) ≡ true
request_key_refl k = (request_key_eq.is_same_iff k k).1 refl

acquire_script_known :
    (options : SeatHoldStoreOptions) (call : Call) (hold : ActiveSeatHold) (fingerprint : String)
    (ttl_seconds : ℕ) (earlier : IdempotencyRecord) (s : HoldStore)
    → get call.now (request_key hold.owner hold.idempotency_key) s.idempotency ≡ some earlier
    → acquire_script options call hold fingerprint ttl_seconds s ≡ (
      (if earlier.fingerprint == fingerprint then replayed earlier.hold else idempotency_conflict),
      s,
    )
unfolding acquire_script
acquire_script_known options call hold fingerprint ttl_seconds earlier s e = rw e (ground arith)

module _ (options : SeatHoldStoreOptions) (call : Call) (hold : ActiveSeatHold)
    (fingerprint : String) (ttl_seconds : ℕ) (s : HoldStore) where
  abbrev pub acquire_result : AcquireHoldResult × HoldStore
  acquire_result = acquire_script options call hold fingerprint ttl_seconds s

  -- An acquired hold comes of the branch where the key is new and the seats are free.
  pub acquired_branch :
      (h : ActiveSeatHold)
      → acquire_result.0 ≡ acquired h
      → (first_taken call.now hold.trip_id hold.seat_ids s.seats ≡ none)
        × (acquire_result ≡ (acquired hold, place options call hold fingerprint ttl_seconds s))
  unfolding acquire_script
  acquired_branch h e =
      elim (Option-cases
        (get call.now (request_key hold.owner hold.idempotency_key) s.idempotency)) [
          | inr (r, x) ↦ absurd (ground (arith, x, e))
          | inl x ↦ elim (Option-cases (first_taken call.now hold.trip_id hold.seat_ids s.seats)) [
            | inr (seat, y) ↦ absurd (ground (arith, x, y, e))
            | inl y ↦ (y, rw x (rw y refl))
          ]
        ]

  -- If the script acquires a hold, it is the requested one; all its seats were free at the call; and
  -- afterwards exactly these seats of its trip carry its token, until its time to live is over, while
  -- the other seats are as they were.
  pub acquire_script_acquired :
      (h : ActiveSeatHold)
      → acquire_result.0 ≡ acquired h
      → (h ≡ hold)
        × ((seat : String)
            → includes hold.seat_ids seat ≡ true
            → get call.now (seat_key hold.trip_id seat) s.seats ≡ none)
        × ((m : ℕ) (k : SeatKey)
            → get m k acquire_result.1.seats ≡ (
                if hold.trip_id == k.trip_id && includes hold.seat_ids k.seat_id
                then (if ltb m (call.now + ttl_seconds * 1000) then some hold.token else none)
                else get m k s.seats))
  unfolding place
  acquire_script_acquired h e =
      let (free, answer) = acquired_branch h e in
      (
        ground (arith, answer, e),
        (λ seat i. first_taken-none call.now hold.trip_id hold.seat_ids s.seats seat free i),
        λ m k. rw answer (
            get-set_seats call.now hold.token hold.trip_id (ttl_seconds * 1000) hold.seat_ids m k
              s.seats),
      )

  -- If the script does not acquire the hold, it changes nothing.
  pub acquire_script_refused :
      ((h : ActiveSeatHold) → acquire_result.0 ≢ acquired h) → acquire_result.1 ≡ s
  unfolding acquire_script
  acquire_script_refused refused =
      elim (Option-cases
        (get call.now (request_key hold.owner hold.idempotency_key) s.idempotency)) [
          | inr (r, x) ↦ rw x (ground arith)
          | inl x ↦ elim (Option-cases (first_taken call.now hold.trip_id hold.seat_ids s.seats)) [
            | inr (seat, y) ↦ rw x (rw y refl)
            | inl y ↦ absurd (refused hold (rw x (rw y refl)))
          ]
        ]

  place-recorded :
      (later : Call)
      → later.now < call.now + options.idempotency_ttl_seconds * 1000
      → get later.now
          (request_key hold.owner hold.idempotency_key)
          (place options call hold fingerprint ttl_seconds s).idempotency
        ≡ some (record { fingerprint = fingerprint; hold = hold })
  unfolding place publish
  place-recorded later lt =
      rw
        (get-set later.now call.now (options.idempotency_ttl_seconds * 1000)
          (request_key hold.owner hold.idempotency_key)
          (request_key hold.owner hold.idempotency_key)
          (record { fingerprint = fingerprint; hold = hold }) s.idempotency)
        (rw (request_key_refl (request_key hold.owner hold.idempotency_key)) (ground (arith, lt)))

  -- While the idempotency record lives, a request with the key of an acquired hold is answered from
  -- it: with that hold if the fingerprint is the same, as a conflict if not; nothing changes.
  pub acquire_script_again :
      (h : ActiveSeatHold) (later : Call) (hold' : ActiveSeatHold) (fingerprint' : String)
      (ttl' : ℕ)
      → acquire_result.0 ≡ acquired h
      → hold'.owner ≡ hold.owner
      → hold'.idempotency_key ≡ hold.idempotency_key
      → later.now < call.now + options.idempotency_ttl_seconds * 1000
      → acquire_script options later hold' fingerprint' ttl' acquire_result.1 ≡ (
        (if fingerprint == fingerprint' then replayed hold else idempotency_conflict),
        acquire_result.1,
      )
  acquire_script_again h later hold' fingerprint' ttl' e o k lt =
      let (free, answer) = acquired_branch h e in
      acquire_script_known options later hold' fingerprint' ttl'
        (record { fingerprint = fingerprint; hold = hold }) acquire_result.1
        (rw answer (rw o (rw k (place-recorded later lt))))

release_script_known :
    (options : SeatHoldStoreOptions) (call : Call) (token : String) (owner : HoldOwner)
    (key fingerprint : String) (earlier : ReleaseRecord) (s : HoldStore)
    → get call.now (request_key owner key) s.releases ≡ some earlier
    → release_script options call token owner key fingerprint s ≡ (
      (if earlier.fingerprint == fingerprint
          then release_replay earlier.outcome
          else release_conflict),
      s,
    )
unfolding release_script
release_script_known options call token owner key fingerprint earlier s e = rw e (ground arith)

module _ (options : SeatHoldStoreOptions) (call : Call) (token : String) (owner : HoldOwner)
    (key fingerprint : String) (s : HoldStore) where
  abbrev release_result : ReleaseHoldResult × HoldStore
  release_result = release_script options call token owner key fingerprint s

  abbrev IsReleased : ActiveSeatHold → Type 0
  IsReleased h =
      (get call.now token s.holds ≡ some h)
      × (same_owner h.owner owner ≡ true)
      × (release_result ≡ (
        released h call.now,
        remember_release options call owner key fingerprint (was_released h call.now) (
            publish (status_event call 1 available none h.trip_id h.seat_ids) h.trip_id
              (drop_hold call.now token h.trip_id h.seat_ids s)),
      ))

  released_branch : (h : ActiveSeatHold) (at : ℕ) → release_result.0 ≡ released h at → IsReleased h
  unfolding release_script
  released_branch h at e = elim (Option-cases (get call.now (request_key owner key) s.releases)) [
    | inr (r, x) ↦ absurd (ground (arith, x, e))
    | inl x ↦ elim (Option-cases (get call.now token s.holds)) [
      | inl y ↦ absurd (ground (arith, x, y, e))
      | inr (g, y) ↦ elim (Bool-cases (same_owner g.owner owner)) [
        | inr z ↦ absurd (ground (arith, x, y, z, e))
        | inl z ↦ subst IsReleased (ground (arith, x, y, z, e)) (y, z, rw x (rw y (rw z refl)))
      ]
    ]
  ]

  -- A hold is released only for its owner, as the hold that was there; afterwards it is gone, no seat
  -- of it carries its token, and the key of any other seat, or with another token, is as it was.
  pub release_script_released :
      (h : ActiveSeatHold) (at : ℕ)
      → release_result.0 ≡ released h at
      → (get call.now token s.holds ≡ some h)
        × (same_owner h.owner owner ≡ true)
        × (at ≡ call.now)
        × ((m : ℕ) → get m token release_result.1.holds ≡ none)
        × ((m : ℕ) (k : SeatKey)
            → get m k release_result.1.seats ≡ (
                if h.trip_id == k.trip_id
                  && includes h.seat_ids k.seat_id
                  && is_holder token (get call.now k s.seats)
                then none
                else get m k s.seats))
  unfolding remember_release publish drop_hold end_hold
  release_script_released h at e =
      let (there, owned, answer) = released_branch h at e in
      (
        there,
        owned,
        ground (arith, answer, e),
        (λ m. rw answer (rw (get-del m token token s.holds) (ground (arith, eq_refl token)))),
        λ m k. rw answer (get-free_seats call.now token h.trip_id h.seat_ids m k s.seats),
      )

  release-recorded :
      (h : ActiveSeatHold) (at : ℕ) (later : Call)
      → release_result.0 ≡ released h at
      → later.now < call.now + options.idempotency_ttl_seconds * 1000
      → get later.now (request_key owner key) release_result.1.releases
        ≡ some (record { fingerprint = fingerprint; outcome = was_released h call.now })
  unfolding remember_release publish drop_hold end_hold
  release-recorded h at later e lt =
      let (there, owned, answer) = released_branch h at e in
      rw answer (
        rw
          (get-set later.now call.now (options.idempotency_ttl_seconds * 1000)
            (request_key owner key) (request_key owner key)
            (record { fingerprint = fingerprint; outcome = was_released h call.now }) s.releases)
          (rw (request_key_refl (request_key owner key)) (ground (arith, lt))))

  -- While the record of a release lives, a release with the same owner and key is answered from it:
  -- as the same release if the fingerprint is the same, as a conflict if not; nothing changes.
  pub release_script_again :
      (h : ActiveSeatHold) (at : ℕ) (later : Call) (token' fingerprint' : String)
      → release_result.0 ≡ released h at
      → later.now < call.now + options.idempotency_ttl_seconds * 1000
      → release_script options later token' owner key fingerprint' release_result.1 ≡ (
        (if fingerprint == fingerprint' then replay h at else release_conflict),
        release_result.1,
      )
  release_script_again h at later token' fingerprint' e lt =
      release_script_known options later token' owner key fingerprint'
        (record { fingerprint = fingerprint; outcome = was_released h at }) release_result.1
        (rw ((release_script_released h at e).2) (release-recorded h at later e lt))
