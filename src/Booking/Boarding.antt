-- ===== src/Booking/Boarding.antt =====
-- What the tickets and the check-ins leave of the bookings: statuses that follow one another, with
-- their history.
use bus_ai_booking.Prelude.{
  ℕ, String, ◌≡◌, refl, ap, subst, ◌∙◌, Bool, true, Option, none, some, List, [], ◌∷◌, find, arith,
  ◌==◌, string_eq, eq_iff, Bool-cases, Option-cases, inl, inr, find_sound, filter,
}
use bus_ai_booking.Booking.Types.{
  paid, ticket_issued, checked_in, is_ticket_issued, BookingRow, PassengerRow,
}
use bus_ai_booking.Booking.TicketTypes.{
  TicketReferenceRow, PersistedTicketReference, CheckInRow, StaffTicketRow, TicketCheckInCommand,
}
use bus_ai_booking.Booking.Repository.{BookingTables, is_one, history_row}
use bus_ai_booking.Booking.Repository.Rows.{has_id, update_where-IsKeyed, is_one_row}
use bus_ai_booking.Booking.Repository.History.{IsConsistent, update-IsRecorded}
use bus_ai_booking.Booking.Repository.Status.{
  IsFollowed, IsFollowed-refl, update-IsFollowed, leaves_paid, leaves_issued,
}
use bus_ai_booking.Booking.Tickets.{
  is_paid_id, is_fulfillable, issued_row, issued_tables, issue_answer, issue_inserted,
  mark_ticket_issued, insert_tickets, same_ticket_references, has_booking_id,
}
use bus_ai_booking.Booking.CheckIn.{
  is_check_in_of, joined_ticket, staff_ticket, staff_tickets, has_credential, is_issued_id,
  checked_in_row, checked_in_tables, check_in_open, check_in_fresh, check_in_found, check_in_ticket,
  is_prior, is_boarding, is_repeated,
}

-- Consistent tables whose bookings follow those of the tables before.
abbrev pub IsKept : BookingTables → BookingTables → Type 0
IsKept t u = IsConsistent u × IsFollowed t.bookings u.bookings

same-IsKept : (t : BookingTables) → IsConsistent t → IsKept t t
same-IsKept t c = (c, IsFollowed-refl t.bookings)

module _ (id : String) (now : ℕ) (actor_id : String) (t : BookingTables) (c : IsConsistent t) where
  issued_tables-IsKept :
      (rows : List TicketReferenceRow) → IsKept t (issued_tables id now actor_id rows t)
  unfolding issued_tables
  issued_tables-IsKept rows =
      let p = is_paid_id id in
      let f = issued_row now in
      let keyed = update_where-IsKeyed p f (λ row. refl) t.bookings c.0 in
      let keeps =
        update-IsRecorded p f (history_row id paid ticket_issued "SYSTEM" actor_id now)
          (λ row. refl) (λ row. refl) (λ row q. ground (arith, q)) t.bookings t.history c.0 c.1 in
      let follows =
        update-IsFollowed p f t.bookings (λ row. refl)
          (λ other row e q. leaves_paid row.status (ground (arith, q))) in
      elim (Bool-cases (is_one p t.bookings)) [
        | inl one ↦ rw one ((keyed, rw one at keeps), follows)
        | inr other ↦ rw other ((keyed, rw other at keeps), follows)
      ]

  issue_answer-IsKept :
      (u : BookingTables) (b : Bool) (o : Option BookingRow)
      → IsKept t u
      → IsKept t (issue_answer t u b o).1
  issue_answer-IsKept u b none h = same-IsKept t c
  issue_answer-IsKept u b (some row) h = h

  issue_inserted-IsKept :
      (tickets : List PersistedTicketReference) (o : Option (List TicketReferenceRow))
      → IsKept t (issue_inserted id now actor_id tickets t o).1
  issue_inserted-IsKept tickets none = same-IsKept t c
  issue_inserted-IsKept tickets (some rows) =
      elim (Bool-cases (
        same_ticket_references (filter (λ (row : TicketReferenceRow). row.booking_id == id) rows)
          tickets)) [
            | inl e ↦ rw e (issue_answer-IsKept _ _ _ (issued_tables-IsKept rows))
            | inr e ↦ rw e (same-IsKept t c)
          ]

  pub mark_ticket_issued-IsKept :
      (tickets : List PersistedTicketReference)
      → IsKept t (mark_ticket_issued id now actor_id tickets t).1
  unfolding mark_ticket_issued
  mark_ticket_issued-IsKept tickets = elim (Option-cases (find (has_booking_id id) t.bookings)) [
    | inl e ↦ rw e (same-IsKept t c)
    | inr (row, e) ↦ rw e (elim (Bool-cases (is_fulfillable row.status)) [
      | inl x ↦
          rw x
            (issue_inserted-IsKept tickets (insert_tickets id now t.passengers tickets t.tickets))
      | inr x ↦ rw x (same-IsKept t c)
    ])
  ]

pub some_same : {A : Type 0} {a b : A} → some a ≡ some b → a ≡ b
some_same e = ground (arith, e)

-- A row of the join has the status of its booking.
abbrev pub IsJoined : BookingTables → StaffTicketRow → Type 0
IsJoined t ticket =
    (row : BookingRow) × (find (has_id ticket.booking_id) t.bookings ≡ some row)
    × (row.status ≡ ticket.booking_status)

staff_ticket-IsJoined :
    (t : BookingTables) (p : StaffTicketRow → Bool) (ref : TicketReferenceRow)
    (booking : Option BookingRow) (passenger : Option PassengerRow) (more : List StaffTicketRow)
    (ticket : StaffTicketRow)
    → find (has_booking_id ref.booking_id) t.bookings ≡ booking
    → (find p more ≡ some ticket → IsJoined t ticket)
    → find p
        (staff_ticket ref booking passenger (find (is_check_in_of ref.ticket_id) t.check_ins) more)
      ≡ some ticket
    → IsJoined t ticket
staff_ticket-IsJoined t p ref none passenger more ticket b rest e = rest e
staff_ticket-IsJoined t p ref (some booking) none more ticket b rest e = rest e
staff_ticket-IsJoined t p ref (some booking) (some passenger) more ticket b rest e =
    let same : booking.id ≡ ref.booking_id = ground (
      arith,
      eq_iff booking.id ref.booking_id,
      find_sound (has_booking_id ref.booking_id) t.bookings booking b,
    ) in
    let first =
      joined_ticket ref booking passenger (find (is_check_in_of ref.ticket_id) t.check_ins) in
    elim (Bool-cases (p first)) [
      | inr miss ↦ rest (rw miss at e)
      | inl hit ↦
          subst (IsJoined t) (some_same (rw hit at e))
            (booking, ap (λ (id : String). find (has_id id) t.bookings) same ∙ b, refl)
    ]

pub staff_tickets-IsJoined :
    (t : BookingTables) (p : StaffTicketRow → Bool) (refs : List TicketReferenceRow)
    (ticket : StaffTicketRow)
    → find p (staff_tickets t refs) ≡ some ticket
    → IsJoined t ticket
unfolding staff_tickets
staff_tickets-IsJoined t p [] ticket e = absurd (ground (arith, e))
staff_tickets-IsJoined t p (ref ∷ refs) ticket e =
    staff_ticket-IsJoined t p ref (find (has_booking_id ref.booking_id) t.bookings) _
      (staff_tickets t refs) ticket refl (staff_tickets-IsJoined t p refs ticket) e

module _ (command : TicketCheckInCommand) (now : ℕ) (t : BookingTables) (c : IsConsistent t) where
  checked_in_tables-IsKept :
      (ticket : StaffTicketRow)
      → IsJoined t ticket
      → IsKept t (checked_in_tables command now ticket t)
  unfolding checked_in_tables
  checked_in_tables-IsKept ticket (row, there, status) =
      let p = is_issued_id ticket.booking_id in
      let f = checked_in_row now in
      let keyed = update_where-IsKeyed p f (λ r. refl) t.bookings c.0 in
      let keeps =
        update-IsRecorded p f
          (history_row ticket.booking_id ticket_issued checked_in command.actor.role
            command.actor.id now)
          (λ r. refl) (λ r. refl) (λ r q. ground (arith, q)) t.bookings t.history c.0 c.1 in
      let follows =
        update-IsFollowed p f t.bookings (λ r. refl)
          (λ other r e q. leaves_issued r.status (ground (arith, q))) in
      elim (Bool-cases (is_ticket_issued ticket.booking_status)) [
        | inr x ↦ rw x (same-IsKept t c)
        | inl x ↦
            let (one, some_one) =
              is_one_row p ticket.booking_id (λ r q. ground (arith, q)) t.bookings row
                (c.0 ticket.booking_id) there in
            let whole : is_one p t.bookings ≡ true =
              one
              ∙ ground
                  (arith, x, status, find_sound (has_id ticket.booking_id) t.bookings row there) in
            rw x ((keyed, rw whole at keeps), follows)
      ]

  open-IsKept :
      (ticket : StaffTicketRow) (instant : Option ℕ)
      → IsJoined t ticket
      → IsKept t (check_in_open command now ticket t instant).1
  open-IsKept ticket (some earlier) j = same-IsKept t c
  open-IsKept ticket none j = elim (Bool-cases (is_repeated command now ticket t.check_ins)) [
    | inl x ↦ rw x (same-IsKept t c)
    | inr x ↦ rw x (checked_in_tables-IsKept ticket j)
  ]

  fresh-IsKept :
      (ticket : StaffTicketRow) (prior : Option CheckInRow)
      → IsJoined t ticket
      → IsKept t (check_in_fresh command now ticket t prior).1
  fresh-IsKept ticket (some prior) j = elim (Bool-cases (prior.ticket_id == ticket.ticket_id)) [
    | inl x ↦ rw x (same-IsKept t c)
    | inr x ↦ rw x (same-IsKept t c)
  ]
  fresh-IsKept ticket none j = elim (Bool-cases (is_boarding command now ticket.booking_status)) [
    | inr x ↦ rw x (same-IsKept t c)
    | inl x ↦ rw x (open-IsKept ticket ticket.checked_in_at j)
  ]

  found-IsKept :
      (ticket : StaffTicketRow)
      → IsJoined t ticket
      → IsKept t (check_in_found command now t (some ticket)).1
  found-IsKept ticket j = elim (Bool-cases (ticket.trip_id == command.trip_id)) [
    | inr x ↦ rw x (same-IsKept t c)
    | inl x ↦ rw x (fresh-IsKept ticket (find (is_prior command now) t.check_ins) j)
  ]

  pub check_in_ticket-IsKept :
      (seen : List CheckInRow) → IsKept t (check_in_ticket command now seen t).1
  unfolding check_in_ticket
  check_in_ticket-IsKept seen =
      elim (Option-cases (
        find (has_credential command.kind command.credential)
          (staff_tickets (record t { check_ins = seen }) t.tickets))) [
            | inl e ↦ rw e (same-IsKept t c)
            | inr (ticket, e) ↦ rw e (
                found-IsKept ticket (
                  staff_tickets-IsJoined (record t { check_ins = seen })
                    (has_credential command.kind command.credential) t.tickets ticket e))
          ]
