-- ===== src/SeatHold/Scripts/Cover.antt =====
-- While a hold lives, the keys of its seats carry its token: what every script keeps.
use bus_ai_booking.Prelude.{
  ℕ, ◌*◌, ◌≤◌, String, ◌≡◌, true, ◌&&◌, inl, inr, List, none, some, arith, ◌==◌, string_eq, eq_iff,
  eq_refl, includes, Bool-cases,
}
use bus_ai_booking.Redis.{get, set, del, get-set, get-del, get_earlier}
use bus_ai_booking.SeatHold.Types.{
  ActiveSeatHold, HoldOwner, seat_key_eq, SeatStatusChanged, ReleaseOutcome,
}
use bus_ai_booking.SeatHold.Store.{
  HoldStore, SeatHoldStoreOptions, Call, seat_key, set_seats, first_taken, publish, end_hold,
  drop_hold,
}
use bus_ai_booking.SeatHold.Store.Laws.{get-set_seats, get-free_seats, first_taken-none}
use bus_ai_booking.SeatHold.Scripts.{place, remember_release}
use bus_ai_booking.SeatHold.Scripts.Keeps.{Rules}

-- From an instant on, the seats of every hold that is there carry the token of the hold.
pub record IsCovered (now : ℕ) (s : HoldStore) : Type 0 where
  pub at :
      (m : ℕ) (token : String) (hold : ActiveSeatHold)
      → now ≤ m
      → get m token s.holds ≡ some hold
      → (seat : String) → includes hold.seat_ids seat ≡ true
      → get m (seat_key hold.trip_id seat) s.seats ≡ some token

pub IsCovered-later : {n m : ℕ} {s : HoldStore} → n ≤ m → IsCovered n s → IsCovered m s
IsCovered-later h c = record { at = λ k token hold le. c.at k token hold (omega arith) }

publish-IsCovered :
    (event : ℕ → SeatStatusChanged) (trip_id : String) {n : ℕ} {s : HoldStore}
    → IsCovered n s
    → IsCovered n (publish event trip_id s)
unfolding publish
publish-IsCovered event trip_id c = record { at = c.at }

module _ (options : SeatHoldStoreOptions) (call : Call) (hold : ActiveSeatHold)
    (fingerprint : String) (ttl_seconds : ℕ) (s : HoldStore)
    (free : first_taken call.now hold.trip_id hold.seat_ids s.seats ≡ none)
    (c : IsCovered call.now s) where
  -- A hold that was there keeps its seats, since none of them was free.
  place_other :
      (m : ℕ) (token : String) (h : ActiveSeatHold)
      → call.now ≤ m
      → get m token s.holds ≡ some h
      → (seat : String) → includes h.seat_ids seat ≡ true
      → get m
          (seat_key h.trip_id seat)
          (set_seats call.now (ttl_seconds * 1000) hold.token hold.trip_id hold.seat_ids s.seats)
        ≡ some token
  place_other m token h le g seat i =
      rw
        (get-set_seats call.now hold.token hold.trip_id (ttl_seconds * 1000) hold.seat_ids m
          (seat_key h.trip_id seat) s.seats)
        (elim (Bool-cases (hold.trip_id == h.trip_id && includes hold.seat_ids seat)) [
          | inr other ↦ rw other (c.at m token h le g seat i)
          | inl same ↦
              let taken =
                c.at call.now token h (omega arith) (get_earlier call.now m token h s.holds le g)
                  seat i in
              absurd (
                ground (
                  arith,
                  same,
                  taken,
                  eq_iff hold.trip_id h.trip_id,
                  first_taken-none call.now hold.trip_id hold.seat_ids s.seats seat,
                ))
        ])

  -- The new hold has the seats that were written with its token, and as long as it lives.
  place_self :
      (m : ℕ) (token : String) (h : ActiveSeatHold)
      → (hold.token == token) ≡ true
      → get m token (set call.now (ttl_seconds * 1000) hold.token hold s.holds) ≡ some h
      → (seat : String) → includes h.seat_ids seat ≡ true
      → get m
          (seat_key h.trip_id seat)
          (set_seats call.now (ttl_seconds * 1000) hold.token hold.trip_id hold.seat_ids s.seats)
        ≡ some token
  place_self m token h same g seat i = ground (
    arith,
    get-set m call.now (ttl_seconds * 1000) hold.token token hold s.holds,
    get-set_seats call.now hold.token hold.trip_id (ttl_seconds * 1000) hold.seat_ids m
        (seat_key h.trip_id seat) s.seats,
    eq_iff hold.token token,
    eq_iff hold.trip_id h.trip_id,
  )

  place-IsCovered : IsCovered call.now (place options call hold fingerprint ttl_seconds s)
  unfolding place publish
  place-IsCovered = record {
    at = λ m token h le g seat i. elim (Bool-cases (hold.token == token)) [
      | inl same ↦ place_self m token h same g seat i
      | inr other ↦ place_other m token h le (rw (get-set, other) at g) seat i
    ];
  }

-- Seats that a dead token leaves are those of no hold.
end_hold-IsCovered :
    (now : ℕ) (token trip_id : String) (ids : List String) (s : HoldStore)
    → get now token s.holds ≡ none
    → IsCovered now s
    → IsCovered now (end_hold now token trip_id ids s)
unfolding end_hold
end_hold-IsCovered now token trip_id ids s dead c = record {
  at = λ m other h le g seat i.
      let later = c.at m other h le g seat i in
      let held = get_earlier now m (seat_key h.trip_id seat) other s.seats le later in
      let lives = get_earlier now m other h s.holds le g in
      ground (
        arith,
        later,
        held,
        lives,
        eq_iff other token,
        get-free_seats now token trip_id ids m (seat_key h.trip_id seat) s.seats,
      );
}

del-IsCovered :
    (now : ℕ) (token : String) (s : HoldStore)
    → IsCovered now s
    → IsCovered now (record s { holds = del token s.holds })
del-IsCovered now token s c = record {
  at = λ m other h le g seat i.
      c.at m other h le (ground (arith, g, get-del m token other s.holds)) seat i;
}

drop_hold-IsCovered :
    (now : ℕ) (token trip_id : String) (ids : List String) (s : HoldStore)
    → IsCovered now s
    → IsCovered now (drop_hold now token trip_id ids s)
unfolding drop_hold end_hold
drop_hold-IsCovered now token trip_id ids s c =
    end_hold-IsCovered now token trip_id ids (record s { holds = del token s.holds })
      (ground (arith, get-del now token token s.holds, eq_refl token)) (del-IsCovered now token s c)

remember-IsCovered :
    (options : SeatHoldStoreOptions) (call : Call) (owner : HoldOwner) (key fingerprint : String)
    (outcome : ReleaseOutcome) (s : HoldStore)
    → IsCovered call.now s
    → IsCovered call.now (remember_release options call owner key fingerprint outcome s)
unfolding remember_release
remember-IsCovered options call owner key fingerprint outcome s c = record { at = c.at }

pub IsCovered-rules : (call : Call) → Rules call (IsCovered call.now)
IsCovered-rules call = record {
  place_rule = λ options hold fingerprint ttl s free c.
      place-IsCovered options call hold fingerprint ttl s free c;
  publish_rule = λ drawn v status exp trip ids s c. publish-IsCovered _ trip c;
  remember_rule = λ options owner key fingerprint outcome s c.
      remember-IsCovered options call owner key fingerprint outcome s c;
  drop_rule = λ token trip ids s c. drop_hold-IsCovered call.now token trip ids s c;
  end_rule = λ token trip ids s dead c. end_hold-IsCovered call.now token trip ids s dead c;
  zrem_rule = λ token s c. record { at = c.at };
}
