-- ===== src/Booking/Repository/Races.antt =====
-- A payment, an expiry and a cancellation that meet: the first one decides.
use bus_ai_booking.Prelude.{
  ℕ, String, ◌≡◌, refl, ◌∙◌, Bool, true, false, Option, some, List, [], ◌∷◌, find, any, arith,
  string_eq, ℕ_eq, Bool-cases, inl, inr, find_sound, ok, Result, ap,
}
use bus_ai_booking.Booking.Types.{
  is_pending_payment, BookingRow, CheckoutOwner, BookingActor, OperationalAuditContext,
  BookingPaymentRecord, PassengerRow,
}
use bus_ai_booking.Booking.Outbox.{BookingDomainEvent}
use bus_ai_booking.Booking.Repository.{
  BookingTables, BookingStoreError, update_where, is_one, is_owned, is_pending_of, paid_row,
  expired_row, paid_tables, expired_tables, mark_paid, mark_expired, load_payment_record,
}
use bus_ai_booking.Booking.Repository.Rows.{
  IsKeyed, is_one_row, update_where_none, update_where-IsKeyed,
}
use bus_ai_booking.Booking.Repository.History.{is_owned_one}

-- The answer of a transition that changed nothing.
abbrev the_answer :
    BookingPaymentRecord
    → BookingTables
    → Result BookingStoreError (BookingPaymentRecord × Bool) × BookingTables
the_answer found t = (ok (found, false), t)

abbrev paid_answer :
    BookingPaymentRecord
    → BookingTables
    → Result BookingStoreError BookingPaymentRecord × BookingTables
paid_answer found t = (ok found, t)

module _ (id : String) (owner : CheckoutOwner) where
  -- No row of a booking that is not pending meets the condition of an UPDATE for pending ones.
  closed :
      (rows : List BookingRow) (row : BookingRow)
      → IsKeyed rows
      → find (is_owned id owner) rows ≡ some row
      → is_pending_payment row.status ≡ false
      → (is_one (is_pending_of id owner) rows ≡ false) × (any (is_pending_of id owner) rows ≡ false)
  closed rows row keyed e h =
      let (there, alone) = is_owned_one id owner rows row keyed e in
      let (one, some_one) =
        is_one_row (is_pending_of id owner) id (λ r q. ground (arith, q)) rows row (keyed id)
          there in
      (ground (arith, one, h), ground (arith, some_one, h))

  -- A payment of a booking that is not pending changes no table, and is answered with the booking as
  -- it is.
  pub mark_paid_closed :
      (attempt_id key : String) (now : ℕ) (event : BookingDomainEvent)
      (audit : Option OperationalAuditContext) (t : BookingTables) (row : BookingRow)
      → IsKeyed t.bookings
      → find (is_owned id owner) t.bookings ≡ some row
      → is_pending_payment row.status ≡ false
      → mark_paid id owner attempt_id key now event audit t
        ≡ (ok (load_payment_record row t.passengers), t)
  unfolding mark_paid paid_tables
  mark_paid_closed attempt_id key now event audit t row keyed e h =
      let (one, some_one) = closed t.bookings row keyed e h in
      rw one (
        rw
          (update_where_none (is_pending_of id owner) (paid_row attempt_id key now) (λ r. refl)
            t.bookings some_one)
          (rw e refl))

  -- An expiry of a booking that is not pending changes no table, and is answered with the booking as
  -- it is.
  pub mark_expired_closed :
      (now : ℕ) (actor : BookingActor) (event : BookingDomainEvent) (t : BookingTables)
      (row : BookingRow)
      → IsKeyed t.bookings
      → find (is_owned id owner) t.bookings ≡ some row
      → is_pending_payment row.status ≡ false
      → mark_expired id owner now actor event t
        ≡ (ok (load_payment_record row t.passengers, false), t)
  unfolding mark_expired expired_tables
  mark_expired_closed now actor event t row keyed e h =
      let (one, some_one) = closed t.bookings row keyed e h in
      rw one (
        rw
          (update_where_none (is_pending_of id owner) (expired_row now) (λ r. refl) t.bookings
            some_one)
          (rw e refl))

  -- A pending row that is owned, after an UPDATE that makes it another status.
  find-opened :
      (f : BookingRow → BookingRow) (rows : List BookingRow) (row : BookingRow)
      → ((r : BookingRow) → ((f r).id ≡ r.id) × ((f r).checkout_owner ≡ r.checkout_owner))
      → find (is_owned id owner) rows ≡ some row
      → is_pending_payment row.status ≡ true
      → find (is_owned id owner) (update_where (is_pending_of id owner) f rows) ≡ some (f row)
  find-opened f [] row keeps e h = absurd (ground (arith, e))
  find-opened f (x ∷ rows) row keeps e h = elim (Bool-cases (is_owned id owner x)) [
    | inl hit ↦ ground (arith, hit, e, h, keeps x)
    | inr miss ↦ ground (arith, miss, e, keeps x, find-opened f rows row keeps)
  ]

  opened_one :
      (rows : List BookingRow) (row : BookingRow)
      → IsKeyed rows
      → find (is_owned id owner) rows ≡ some row
      → is_pending_payment row.status ≡ true
      → is_one (is_pending_of id owner) rows ≡ true
  opened_one rows row keyed e h =
      let (there, alone) = is_owned_one id owner rows row keyed e in
      let (one, some_one) =
        is_one_row (is_pending_of id owner) id (λ r q. ground (arith, q)) rows row (keyed id)
          there in
      ground (arith, one, h, find_sound (is_owned id owner) rows row e)

  module _ (attempt_id key : String) (now : ℕ) (event : BookingDomainEvent)
      (audit : Option OperationalAuditContext) (t : BookingTables) (row : BookingRow) where
    paid-found :
        find (is_owned id owner) t.bookings ≡ some row
        → is_pending_payment row.status ≡ true
        → IsKeyed t.bookings
        → (find (is_owned id owner) (paid_tables id owner attempt_id key now event audit t).bookings
            ≡ some (paid_row attempt_id key now row))
          × IsKeyed (paid_tables id owner attempt_id key now event audit t).bookings
          × ((paid_tables id owner attempt_id key now event audit t).passengers ≡ t.passengers)
    unfolding paid_tables
    paid-found e h keyed = rw (opened_one t.bookings row keyed e h) (
      find-opened (paid_row attempt_id key now) t.bookings row (λ r. (refl, refl)) e h,
      update_where-IsKeyed (is_pending_of id owner) (paid_row attempt_id key now) (λ r. refl)
          t.bookings keyed,
      refl,
    )

    paid_result :
        IsKeyed t.bookings
        → find (is_owned id owner) t.bookings ≡ some row
        → is_pending_payment row.status ≡ true
        → ((mark_paid id owner attempt_id key now event audit t).0
            ≡ ok (load_payment_record (paid_row attempt_id key now row) t.passengers))
          × ((mark_paid id owner attempt_id key now event audit t).1
              ≡ paid_tables id owner attempt_id key now event audit t)
    unfolding mark_paid
    paid_result keyed e h =
        let (found, keys, same) = paid-found e h keyed in (rw found refl, rw found refl)

  -- Where no id has two bookings, a pending booking that is paid stays paid by that attempt: the
  -- payment is answered with the paid booking, and after it neither an expiry nor another payment changes
  -- any table; both are answered with the booking as the first payment left it.
  pub mark_paid_decides :
      (attempt_id key attempt_id' key' : String) (now now' : ℕ) (actor : BookingActor)
      (event event' event'' : BookingDomainEvent) (audit audit' : Option OperationalAuditContext)
      (t : BookingTables) (row : BookingRow)
      → IsKeyed t.bookings
      → find (is_owned id owner) t.bookings ≡ some row
      → is_pending_payment row.status ≡ true
      → let left = load_payment_record (paid_row attempt_id key now row) t.passengers in
        let u = (mark_paid id owner attempt_id key now event audit t).1 in
        ((mark_paid id owner attempt_id key now event audit t).0 ≡ ok left)
        × (mark_expired id owner now' actor event' u ≡ (ok (left, false), u))
        × (mark_paid id owner attempt_id' key' now' event'' audit' u ≡ (ok left, u))
  mark_paid_decides attempt_id key attempt_id' key' now now' actor event event' event'' audit audit'
        t row keyed e h =
      let u = paid_tables id owner attempt_id key now event audit t in
      let (found, keys, same) = paid-found attempt_id key now event audit t row e h keyed in
      let (answer, tables) = paid_result attempt_id key now event audit t row keyed e h in
      let late =
        mark_expired_closed now' actor event' u (paid_row attempt_id key now row) keys found refl in
      let again =
        mark_paid_closed attempt_id' key' now' event'' audit' u (paid_row attempt_id key now row)
          keys found refl in
      let read =
        ap
          (λ (ps : List PassengerRow).
            the_answer (load_payment_record (paid_row attempt_id key now row) ps) u)
          same in
      let read_paid =
        ap
          (λ (ps : List PassengerRow).
            paid_answer (load_payment_record (paid_row attempt_id key now row) ps) u)
          same in
      (answer, rw tables (late ∙ read), rw tables (again ∙ read_paid))
