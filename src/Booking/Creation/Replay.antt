-- ===== src/Booking/Creation/Replay.antt =====
-- A creation that is made again.
use bus_ai_booking.Prelude.{
  String, ◌≡◌, refl, true, some, find, any, arith, string_eq, Result, ok, err, Option-cases, inl,
  inr, any-find-some,
}
use bus_ai_booking.Booking.Types.{CheckoutOwner}
use bus_ai_booking.Booking.Outbox.{BookingDomainEvent}
use bus_ai_booking.Booking.Repository.{BookingTables}
use bus_ai_booking.Booking.Creation.{
  PersistBookingInput, BookingReplayRecord, CreationError, has_key, insert_booking,
  find_by_idempotency, read_created, create_or_replay,
}

-- A row found by the key is one that the insert conflicts with.
any_of_found :
    (owner : CheckoutOwner) (key : String) (t : BookingTables) (found : BookingReplayRecord)
    → find_by_idempotency owner key t ≡ some found
    → any (has_key owner key) t.bookings ≡ true
unfolding find_by_idempotency
any_of_found owner key t found e = elim (Option-cases (find (has_key owner key) t.bookings)) [
  | inl gone ↦ absurd (ground (arith, e, gone))
  | inr (row, x) ↦ any-find-some (has_key owner key) t.bookings row x
]

-- A creation that is answered leaves a booking under its key, which is the answer.
created_found :
    (input : PersistBookingInput) (before : BookingTables)
    (inserted : Result CreationError BookingTables) (found : BookingReplayRecord)
    → (read_created input before inserted).0 ≡ ok found
    → find_by_idempotency input.owner input.idempotency_key (read_created input before inserted).1
      ≡ some found
created_found input before (err e) found h = absurd (ground (arith, h))
created_found input before (ok after) found h =
    elim (Option-cases (find_by_idempotency input.owner input.idempotency_key after)) [
      | inl gone ↦ absurd (ground (arith, gone, h))
      | inr (other, x) ↦ rw x (ground (arith, x, h))
    ]

-- A creation that was answered, made again by a request with its owner and key, whatever else it asks
-- and whatever ids it draws, is given the same answer, and changes no table.
pub create_or_replay_again :
    (input other : PersistBookingInput) (event event' : BookingDomainEvent) (t : BookingTables)
    (found : BookingReplayRecord)
    → (create_or_replay input event t).0 ≡ ok found
    → other.owner ≡ input.owner
    → other.idempotency_key ≡ input.idempotency_key
    → create_or_replay other event' (create_or_replay input event t).1
      ≡ (ok found, (create_or_replay input event t).1)
unfolding create_or_replay insert_booking
create_or_replay_again input other event event' t found e owner key =
    let there = created_found input t (insert_booking input event t) found e in
    let any_there =
      any_of_found input.owner input.idempotency_key (create_or_replay input event t).1 found
        there in
    rw owner (rw key (rw any_there (rw there refl)))
