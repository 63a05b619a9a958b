-- ===== src/Booking/Repository/Cancel.antt =====
-- A cancellation, and what meets it: the first one decides.
use bus_ai_booking.Prelude.{
  ℕ, String, ◌≡◌, refl, true, false, Option, some, List, [], ◌∷◌, ◌++◌, find, arith, string_eq,
  Bool-cases, inl, inr, ok,
}
use bus_ai_booking.Booking.Types.{
  cancelled, is_cancellable, BookingRow, CheckoutOwner, OperationalAuditContext,
}
use bus_ai_booking.Booking.Outbox.{BookingDomainEvent, enqueue_booking_event}
use bus_ai_booking.Booking.Repository.{
  BookingTables, update_where, is_owned, cancelled_row, history_row, mark_cancelled,
  load_payment_record,
}

find-update_owned :
    (id : String) (owner : CheckoutOwner) (f : BookingRow → BookingRow) (rows : List BookingRow)
    (row : BookingRow)
    → ((r : BookingRow) → ((f r).id ≡ r.id) × ((f r).checkout_owner ≡ r.checkout_owner))
    → find (is_owned id owner) rows ≡ some row
    → find (is_owned id owner) (update_where (is_owned id owner) f rows) ≡ some (f row)
find-update_owned id owner f [] row keeps e = absurd (ground (arith, e))
find-update_owned id owner f (x ∷ rows) row keeps e = elim (Bool-cases (is_owned id owner x)) [
  | inl hit ↦ ground (arith, hit, e, keeps x)
  | inr miss ↦ ground (arith, miss, e, keeps x, find-update_owned id owner f rows row keeps)
]

module _ (id : String) (owner : CheckoutOwner) (key : String) (now : ℕ) (policy : String)
    (event : BookingDomainEvent) (audit : Option OperationalAuditContext) where
  -- A cancellation of a booking that is neither paid nor issued changes no table, and is answered
  -- with the booking as it is.
  pub mark_cancelled_closed :
      (t : BookingTables) (row : BookingRow)
      → find (is_owned id owner) t.bookings ≡ some row
      → is_cancellable row.status ≡ false
      → mark_cancelled id owner key now policy event audit t
        ≡ (ok (load_payment_record row t.passengers, false), t)
  unfolding mark_cancelled
  mark_cancelled_closed t row e h = rw e (rw h refl)

  cancelled_open :
      (t : BookingTables) (row : BookingRow)
      → find (is_owned id owner) t.bookings ≡ some row
      → is_cancellable row.status ≡ true
      → ((mark_cancelled id owner key now policy event audit t).0
          ≡ ok (load_payment_record (cancelled_row key now policy row) t.passengers, true))
        × ((mark_cancelled id owner key now policy event audit t).1.bookings
            ≡ update_where (is_owned id owner) (cancelled_row key now policy) t.bookings)
        × ((mark_cancelled id owner key now policy event audit t).1.passengers ≡ t.passengers)
        × ((mark_cancelled id owner key now policy event audit t).1.history
            ≡ t.history ++ history_row id row.status cancelled "CUSTOMER" owner.id now ∷ [])
        × ((mark_cancelled id owner key now policy event audit t).1.outbox
            ≡ enqueue_booking_event event t.outbox)
  unfolding mark_cancelled
  cancelled_open t row e h =
      let found =
        find-update_owned id owner (cancelled_row key now policy) t.bookings row (λ r. (refl, refl))
          e in
      (
        rw e (rw h (rw found refl)),
        rw e (rw h (rw found refl)),
        rw e (rw h (rw found refl)),
        rw e (rw h (rw found refl)),
        rw e (rw h (rw found refl)),
      )

-- A cancellation of a paid or issued booking cancels it, with one entry in the history and its event
-- in the outbox; after it a second one, under any key, changes no table and is answered with the
-- booking as the first one left it.
pub mark_cancelled_decides :
    (id : String) (owner : CheckoutOwner) (key key' : String) (now now' : ℕ)
    (policy policy' : String) (event event' : BookingDomainEvent)
    (audit audit' : Option OperationalAuditContext) (t : BookingTables) (row : BookingRow)
    → find (is_owned id owner) t.bookings ≡ some row
    → is_cancellable row.status ≡ true
    → let left = load_payment_record (cancelled_row key now policy row) t.passengers in
      let u = (mark_cancelled id owner key now policy event audit t).1 in
      ((mark_cancelled id owner key now policy event audit t).0 ≡ ok (left, true))
      × (u.history ≡ t.history ++ history_row id row.status cancelled "CUSTOMER" owner.id now ∷ [])
      × (u.outbox ≡ enqueue_booking_event event t.outbox)
      × (mark_cancelled id owner key' now' policy' event' audit' u ≡ (ok (left, false), u))
mark_cancelled_decides id owner key key' now now' policy policy' event event' audit audit' t row e
      h =
    let (answer, rows, passengers, history, outbox) =
      cancelled_open id owner key now policy event audit t row e h in
    let found =
      find-update_owned id owner (cancelled_row key now policy) t.bookings row (λ r. (refl, refl))
        e in
    let u = (mark_cancelled id owner key now policy event audit t).1 in
    let again =
      mark_cancelled_closed id owner key' now' policy' event' audit' u
        (cancelled_row key now policy row) (rw rows found) refl in
    (answer, history, outbox, rw passengers at again)
