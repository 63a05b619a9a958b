-- ===== src/Booking/Creation/History.antt =====
-- A creation keeps the history of the statuses consistent, and always finds its booking.
use bus_ai_booking.Prelude.{
  ◌≡◌, refl, Bool, true, false, Option, none, some, List, [], ◌∷◌, ◌++◌, find, any, arith, eq_refl,
  eq_iff, ◌==◌, string_eq, Result, ok, err, ◌>>=◌, Bool-cases, Option-cases, inl, inr, subst,
  any-find-some, find-append-some, find-append-none, filter-none, length-filter-concat,
}
use bus_ai_booking.Booking.Types.{BookingRow, PassengerRow, StatusHistoryRow}
use bus_ai_booking.Booking.Outbox.{BookingDomainEvent}
use bus_ai_booking.Booking.Repository.{BookingTables}
use bus_ai_booking.Booking.Repository.Rows.{has_id, IsKeyed}
use bus_ai_booking.Booking.Repository.History.{IsConsistent, IsRecorded, latest-append}
use bus_ai_booking.Booking.Creation.{
  PersistBookingInput, BookingReplayRecord, CreationError, has_key, is_duplicate, booking_row,
  created_history, insert_booking, insert_passengers, with_booking, find_by_idempotency, finish,
  read_created, create_or_replay,
}

-- Where no row is a duplicate, no row has the new id.
id_is_new :
    (input : PersistBookingInput) (rows : List BookingRow)
    → any (is_duplicate input) rows ≡ false
    → any (has_id input.id) rows ≡ false
id_is_new input [] h = refl
id_is_new input (row ∷ rows) h = ground (arith, h, id_is_new input rows)

module _ (input : PersistBookingInput) (rows : List BookingRow)
    (new : any (has_id input.id) rows ≡ false) where
  append-IsKeyed : IsKeyed rows → IsKeyed (rows ++ booking_row input ∷ [])
  append-IsKeyed keyed id =
      rw (length-filter-concat (has_id id) rows (booking_row input))
        (elim (Bool-cases (input.id == id)) [
          | inr other ↦ ground (arith, other, keyed id)
          | inl same ↦
              let is : input.id ≡ id = ground (arith, same, eq_iff input.id id) in
              rw (← is) (rw (filter-none (has_id input.id) rows new) (ground arith))
        ])

  append-IsRecorded :
      (history : List StatusHistoryRow)
      → IsRecorded rows history
      → IsRecorded (rows ++ booking_row input ∷ []) (history ++ created_history input ∷ [])
  append-IsRecorded history recorded id row e =
      rw (latest-append id history (created_history input))
        (elim (Option-cases (find (has_id id) rows)) [
          | inl gone ↦
              ground (arith, e, find-append-none (has_id id) rows (booking_row input ∷ []) gone)
          | inr (old, there) ↦ ground (
            arith,
            e,
            there,
            new,
            eq_iff input.id id,
            find-append-some (has_id id) rows (booking_row input ∷ []) old there,
            any-find-some (has_id id) rows old there,
            recorded id old there,
          )
        ])

any-last :
    (p : BookingRow → Bool) (rows : List BookingRow) (row : BookingRow)
    → p row ≡ true
    → any p (rows ++ row ∷ []) ≡ true
any-last p [] row h = ground (arith, h)
any-last p (x ∷ rows) row h = ground (arith, any-last p rows row h)

module _ (input : PersistBookingInput) (event : BookingDomainEvent) (t : BookingTables)
    (c : IsConsistent t) where
  -- The tables are consistent and have a row under the key.
  abbrev IsInserted : BookingTables → Type 0
  IsInserted u =
      IsConsistent u × (any (has_key input.owner input.idempotency_key) u.bookings ≡ true)

  carry :
      (u after : BookingTables)
      → ◌≡◌ {A = Result CreationError BookingTables} (ok u) (ok after)
      → IsInserted u
      → IsInserted after
  carry u after e k = let same : u ≡ after = ground (arith, e) in subst IsInserted same k

  with_booking-IsInserted :
      (after : BookingTables) (passengers : Result CreationError (List PassengerRow))
      → any (is_duplicate input) t.bookings ≡ false
      → (passengers >>= λ rows. ok (with_booking input event t rows)) ≡ ok after
      → IsInserted after
  with_booking-IsInserted after (err e) new h = absurd (ground (arith, h))
  with_booking-IsInserted after (ok rows) new h =
      let fresh = id_is_new input t.bookings new in
      carry (with_booking input event t rows) after h (
        (
          append-IsKeyed input t.bookings fresh c.0,
          append-IsRecorded input t.bookings fresh t.history c.1,
        ),
        any-last (has_key input.owner input.idempotency_key) t.bookings (booking_row input) (
            ground (
              arith,
              eq_refl input.owner.type,
              eq_refl input.owner.id,
              eq_refl input.idempotency_key,
            )),
      )

  -- What an insert leaves is consistent, and has a row under the key.
  insert_booking-IsInserted :
      (after : BookingTables) → insert_booking input event t ≡ ok after → IsInserted after
  unfolding insert_booking
  insert_booking-IsInserted after e =
      elim (Bool-cases (any (has_key input.owner input.idempotency_key) t.bookings)) [
        | inl old ↦ carry t after (rw old at e) (c, old)
        | inr fresh ↦ elim (Bool-cases (any (is_duplicate input) t.bookings)) [
          | inl bad ↦ absurd (ground (arith, fresh, bad, e))
          | inr new ↦
              with_booking-IsInserted after
                (insert_passengers input.id input.passengers t.passengers) new
                (rw new at (rw fresh at e))
        ]
      ]

  finish-IsConsistent :
      (after : BookingTables) (found : Option BookingReplayRecord)
      → IsConsistent after
      → IsConsistent (finish t after found).1
  finish-IsConsistent after none k = c
  finish-IsConsistent after (some found) k = k

  read_created-IsConsistent :
      (inserted : Result CreationError BookingTables)
      → ((after : BookingTables) → inserted ≡ ok after → IsInserted after)
      → IsConsistent (read_created input t inserted).1
  read_created-IsConsistent (err e) k = c
  read_created-IsConsistent (ok after) k =
      finish-IsConsistent after (find_by_idempotency input.owner input.idempotency_key after)
        (k after refl).0

  -- On tables where no id has two bookings and the last entry of the history of each booking is its
  -- status, a creation leaves tables of which the same is true, whatever it answers.
  pub create_or_replay-IsConsistent : IsConsistent (create_or_replay input event t).1
  unfolding create_or_replay
  create_or_replay-IsConsistent =
      read_created-IsConsistent (insert_booking input event t) insert_booking-IsInserted
