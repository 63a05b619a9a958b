-- ===== src/SeatInventory/Confirm.antt =====
-- A confirmation: what it takes from the holds, and what it leaves in the tables.
use bus_ai_booking.Prelude.{
  ℕ, String, ◌≡◌, ◌≤◌, refl, sym, ap, ◌∙◌, true, Option, none, some, List, [], ◌∷◌, arith, ◌==◌,
  string_eq, ℕ_eq, eq_iff, includes, length, Bool-cases, inl, inr, Result, ok, err,
}
use bus_ai_booking.Prelude.Sorting.{sort, includes-sort}
use bus_ai_booking.SeatState.Types.{SeatStateRow, SeatConfirmationRecord, SeatStateError}
use bus_ai_booking.SeatState.Types.{booked as durably_booked, confirmation_unavailable}
use bus_ai_booking.SeatState.Tables.{SeatStateTables, lookup}
use bus_ai_booking.SeatState.Repository.{find_confirmation, confirm_seats}
use bus_ai_booking.SeatState.Repository.Confirm.{confirm_seats_books}
use bus_ai_booking.Redis.{Keyspace, get, get_earlier}
use bus_ai_booking.SeatHold.Types.{ActiveSeatHold, same_owner}
use bus_ai_booking.SeatHold.Store.{SeatHoldStoreOptions, HoldStore}
use bus_ai_booking.SeatHold.Calls.{get_hold}
use bus_ai_booking.SeatHold.Calls.Sweep.{sweep_expired-holds, get_hold_found, consume_ends}
use bus_ai_booking.SeatInventory.Types.{
  ValidatedConfirmRequest, ConfirmSeatsResponse, SeatInventoryError, Digests, Inventory,
}
use bus_ai_booking.SeatInventory.Holds.{owned_hold}
use bus_ai_booking.SeatInventory.Durable.{
  ConfirmDraws, is_prefix, same_seat_set, matches_hold, confirm_input, confirmation_fingerprint,
  confirm_persisted, confirm_held, confirm_validated, clean_up,
}

is_prefix_full : (xs ys : List String) → is_prefix xs ys ≡ true → length xs ≡ length ys → xs ≡ ys
unfolding is_prefix
is_prefix_full [] [] h l = refl
is_prefix_full [] (y ∷ ys) h l = absurd (ground arith)
is_prefix_full (x ∷ xs) [] h l = absurd (ground arith)
is_prefix_full (x ∷ xs) (y ∷ ys) h l = ground (arith, eq_iff x y, is_prefix_full xs ys)

pub same_seat_set_sorted : (xs ys : List String) → same_seat_set xs ys ≡ true → sort xs ≡ ys
unfolding same_seat_set
same_seat_set_sorted xs ys h = is_prefix_full (sort xs) ys (ground (arith, h)) (ground (arith, h))

abbrev Answer : Type 0
Answer = Result SeatInventoryError ConfirmSeatsResponse × Inventory

-- A durable row of the seat, booked by the booking.
abbrev pub IsBookedFor : String → String → SeatStateTables → String → Type 0
IsBookedFor booking_id trip_id t seat_id =
    (row : SeatStateRow) × (lookup trip_id seat_id t.seats ≡ some row)
    × (row.status ≡ durably_booked)
    × (row.booking_id ≡ some booking_id)

-- An active hold of the owner, of the trip and of the very seats that are confirmed.
abbrev pub IsHeldFor : ℕ → ValidatedConfirmRequest → HoldStore → ActiveSeatHold → Type 0
IsHeldFor now v s hold =
    (get now v.hold_token s.holds ≡ some hold)
    × (hold.owner ≡ v.owner)
    × (hold.trip_id ≡ v.trip_id)
    × (sort hold.seat_ids ≡ v.seat_ids)

module _ (digests : Digests) (d : ConfirmDraws) (v : ValidatedConfirmRequest) where
  -- A confirmation that is answered, by what the repository answered.
  persisted_ok :
      (s : HoldStore) (p : Result SeatStateError SeatConfirmationRecord × SeatStateTables)
      (r : ConfirmSeatsResponse)
      → (confirm_persisted digests d v s p).0 ≡ ok r
      → (found : SeatConfirmationRecord) × (p.0 ≡ ok found)
        × (found.request_fingerprint ≡ confirmation_fingerprint digests v)
        × ((confirm_persisted digests d v s p).1 ≡ record { holds = clean_up d v s; tables = p.1 })
  persisted_ok s (err confirmation_unavailable, t) r e = absurd (ground (arith, e))
  persisted_ok s (err e', t) r e = absurd (ground (arith, e))
  persisted_ok s (ok found, t) r e =
      elim (Bool-cases (found.request_fingerprint == confirmation_fingerprint digests v)) [
        | inr x ↦ absurd (ground (arith, e, x))
        | inl x ↦ (
          found,
          refl,
          ground (arith, x, eq_iff found.request_fingerprint (confirmation_fingerprint digests v)),
          rw x refl,
        )
      ]

  owned :
      (found : Option ActiveSeatHold) (hold : ActiveSeatHold)
      → owned_hold v.owner found ≡ ok hold
      → (found ≡ some hold) × (same_owner hold.owner v.owner ≡ true)
  owned none hold e = absurd (ground (arith, e))
  owned (some h) hold e = elim (Bool-cases (same_owner h.owner v.owner)) [
    | inl x ↦ ground (arith, e, x)
    | inr x ↦ absurd (ground (arith, e, x))
  ]

  held_ok :
      (s : HoldStore) (t : SeatStateTables) (found : Option ActiveSeatHold)
      (r : ConfirmSeatsResponse)
      → (confirm_held digests d v s t (owned_hold v.owner found)).0 ≡ ok r
      → (hold : ActiveSeatHold) × (found ≡ some hold)
        × (same_owner hold.owner v.owner ≡ true)
        × (matches_hold hold v ≡ true)
        × (confirm_held digests d v s t (owned_hold v.owner found)
            ≡ confirm_persisted digests d v s
                (confirm_seats (confirm_input digests v d.confirmed_at) t))
  held_ok s t none r e = absurd (ground (arith, e))
  held_ok s t (some hold) r e = elim (Bool-cases (same_owner hold.owner v.owner)) [
    | inr x ↦ absurd (ground (arith, e, x))
    | inl x ↦ elim (Bool-cases (matches_hold hold v)) [
      | inr y ↦ absurd (ground (arith, e, x, y))
      | inl y ↦ (hold, refl, x, y, rw x (rw y refl))
    ]
  ]

  module _ (options : SeatHoldStoreOptions) (s : Inventory) where
    -- The store after the read of the hold.
    abbrev read_store : HoldStore
    read_store = (get_hold options d.get_call v.hold_token s.holds).1

    abbrev pub confirm_result : Answer
    confirm_result = confirm_validated digests options d v s

    -- What is there at the last call is what was read.
    still_owned :
        (hold : ActiveSeatHold)
        → get d.get_call.now v.hold_token s.holds.holds ≡ some hold
        → same_owner hold.owner v.owner ≡ true
        → d.get_call.now ≤ d.consume_call.now
        → (later : ActiveSeatHold)
        → get d.consume_call.now v.hold_token read_store.holds ≡ some later
        → same_owner later.owner v.owner ≡ true
    unfolding get_hold
    still_owned hold there owner timely later e =
        let earlier =
          get_earlier d.get_call.now d.consume_call.now v.hold_token later s.holds.holds timely (
            ap
              (λ (holds : Keyspace String ActiveSeatHold).
                get d.consume_call.now v.hold_token holds)
              (sym (sweep_expired-holds options d.get_call s.holds))
            ∙ e) in
        ground (arith, there, earlier, owner)

    confirm_first :
        find_confirmation v.booking_id v.idempotency_key s.tables ≡ none
        → confirm_result
          ≡ confirm_held digests d v read_store s.tables
              (owned_hold v.owner (get_hold options d.get_call v.hold_token s.holds).0)
    unfolding confirm_validated
    confirm_first new = rw new refl

    -- The tables that a first confirmation leaves are those of the repository, which answered it with
    -- its own fingerprint.
    pub confirm_tables :
        (r : ConfirmSeatsResponse)
        → find_confirmation v.booking_id v.idempotency_key s.tables ≡ none
        → confirm_result.0 ≡ ok r
        → (stored : SeatConfirmationRecord) × ((confirm_seats
              (confirm_input digests v d.confirmed_at)
              s.tables).0
            ≡ ok stored)
          × (stored.request_fingerprint ≡ confirmation_fingerprint digests v)
          × (confirm_result.1.tables
              ≡ (confirm_seats (confirm_input digests v d.confirmed_at) s.tables).1)
    confirm_tables r new e =
        let found = (get_hold options d.get_call v.hold_token s.holds).0 in
        let (hold, there, owner, matching, same) =
          held_ok read_store s.tables found r
            (ap (λ (a : Answer). a.0) (sym (confirm_first new)) ∙ e) in
        let whole = confirm_first new ∙ same in
        let (stored, p, f, left) =
          persisted_ok read_store (confirm_seats (confirm_input digests v d.confirmed_at) s.tables)
            r (ap (λ (a : Answer). a.0) (sym whole) ∙ e) in
        (
          stored,
          p,
          f,
          ap (λ (a : Answer). a.1.tables) whole ∙ ap (λ (u : Inventory). u.tables) left,
        )

    -- A first confirmation with a booking's key that is answered took an active hold of its owner, of
    -- its trip and of exactly its seats; afterwards each of these seats has a durable row booked by
    -- the booking, and, where the last call is not earlier than the read of the hold and reaches Redis,
    -- the hold is gone from then on.
    pub confirm_validated_takes :
        (r : ConfirmSeatsResponse)
        → find_confirmation v.booking_id v.idempotency_key s.tables ≡ none
        → confirm_result.0 ≡ ok r
        → (hold : ActiveSeatHold) × IsHeldFor d.get_call.now v s.holds hold
          × ((seat_id : String)
              → includes hold.seat_ids seat_id ≡ true
              → IsBookedFor v.booking_id v.trip_id confirm_result.1.tables seat_id)
          × ((m : ℕ)
              → d.reachable ≡ true
              → d.get_call.now ≤ d.consume_call.now
              → d.consume_call.now ≤ m
              → get m v.hold_token confirm_result.1.holds.holds ≡ none)
    confirm_validated_takes r new e =
        let t = s.tables in
        let input = confirm_input digests v d.confirmed_at in
        let found = (get_hold options d.get_call v.hold_token s.holds).0 in
        let (hold, there, owner, matching, same) =
          held_ok read_store t found r (ap (λ (a : Answer). a.0) (sym (confirm_first new)) ∙ e) in
        let whole = confirm_first new ∙ same in
        let (stored, p, f, left) =
          persisted_ok read_store (confirm_seats input t) r
            (ap (λ (a : Answer). a.0) (sym whole) ∙ e) in
        let after = ap (λ (a : Answer). a.1) whole ∙ left in
        let sorted = same_seat_set_sorted hold.seat_ids v.seat_ids (ground (arith, matching)) in
        let (books, others) = confirm_seats_books input t stored p f in
        (
          hold,
          (
            sym (get_hold_found options d.get_call v.hold_token s.holds) ∙ there,
            ground (
              arith,
              owner,
              eq_iff hold.owner.type v.owner.type,
              eq_iff hold.owner.id v.owner.id,
            ),
            ground (arith, matching, eq_iff hold.trip_id v.trip_id),
            sorted,
          ),
          λ seat_id i. rw after (
              books seat_id (
                ap (λ (ids : List String). includes ids seat_id) (sym sorted)
                ∙ includes-sort seat_id hold.seat_ids
                ∙ i)),
          λ m reached timely later. rw after (
              rw reached (
                consume_ends d.consume_call v.hold_token v.owner read_store m
                  (still_owned hold
                    (sym (get_hold_found options d.get_call v.hold_token s.holds) ∙ there) owner
                    timely)
                  later)),
        )
