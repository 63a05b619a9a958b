-- ===== src/Booking/CheckIn/Once.antt =====
-- No ticket is checked in twice, and no key of an actor is used for two check-ins.
use bus_ai_booking.Prelude.{
  ℕ, String, ◌≤◌, ◌≡◌, refl, sym, ap, ◌∙◌, Bool, true, ◌&&◌, Option, none, some, List, [], ◌∷◌,
  ◌++◌, find, filter, any, find-none, find-append-none, eq_refl, Result, ok, err, false, ◌||◌,
  length, arith, ◌==◌, string_eq, eq_iff, Bool-cases, Option-cases, inl, inr, length-filter-concat,
}
use mathlib.Core.Path.{ap₂}
use bus_ai_booking.Booking.Types.{is_ticket_issued}
use bus_ai_booking.Booking.TicketTypes.{
  CheckInRow, StaffTicketRow, StaffTicketView, TicketCheckInCommand, TicketError, wrong_trip,
  constraint_violated, check_in_conflict, check_in_state,
}
use bus_ai_booking.Booking.Repository.{BookingTables}
use bus_ai_booking.Booking.CheckIn.{
  is_check_in_of, staff_tickets, has_credential, checked_in_tables, check_in_row, check_in_open,
  check_in_fresh, check_in_ticket, is_prior, is_boarding, is_repeated, map_staff_ticket,
}

abbrev pub is_under : String → String → CheckInRow → Bool
is_under actor_id key row = row.actor.id == actor_id && row.idempotency_key == key

-- The primary key and the unique key of the table.
abbrev pub IsOnce : List CheckInRow → Type 0
IsOnce rows =
    ((ticket_id : String) → length (filter (is_check_in_of ticket_id) rows) ≤ 1)
    × ((actor_id key : String) → length (filter (is_under actor_id key) rows) ≤ 1)

count_none :
    (p : CheckInRow → Bool) (rows : List CheckInRow)
    → find p rows ≡ none
    → length (filter p rows) ≡ 0
count_none p [] e = refl
count_none p (row ∷ rows) e = ground (arith, e, count_none p rows)

append_once :
    (p : CheckInRow → Bool) (rows : List CheckInRow) (row : CheckInRow)
    → length (filter p rows) ≤ 1
    → (p row ≡ true → find p rows ≡ none)
    → length (filter p (rows ++ row ∷ [])) ≤ 1
append_once p rows row few new = elim (Bool-cases (p row)) [
  | inr other ↦ ground (arith, other, few, length-filter-concat p rows row)
  | inl same ↦ ground (arith, same, count_none p rows (new same), length-filter-concat p rows row)
]

any_or :
    (p q : CheckInRow → Bool) (rows : List CheckInRow)
    → any (λ (row : CheckInRow). p row || q row) rows ≡ false
    → (any p rows ≡ false) × (any q rows ≡ false)
any_or p q [] h = (refl, refl)
any_or p q (row ∷ rows) h = ground (arith, h, any_or p q rows)

module _ (command : TicketCheckInCommand) (now : ℕ) (t : BookingTables) where
  append-IsOnce :
      (ticket : StaffTicketRow)
      → find (is_check_in_of ticket.ticket_id) t.check_ins ≡ none
      → find (is_prior command now) t.check_ins ≡ none
      → IsOnce t.check_ins
      → IsOnce (t.check_ins ++ check_in_row command now ticket ∷ [])
  append-IsOnce ticket new unused (tickets, keys) = (
    λ ticket_id.
        append_once (is_check_in_of ticket_id) t.check_ins (check_in_row command now ticket)
          (tickets ticket_id)
          (λ same.
            ap (λ (id : String). find (is_check_in_of id) t.check_ins)
              (sym (ground (arith, same, eq_iff ticket.ticket_id ticket_id)))
            ∙ new),
    λ actor_id key.
        append_once (is_under actor_id key) t.check_ins (check_in_row command now ticket)
          (keys actor_id key)
          (λ same.
            ap₂ (λ (a k : String). find (is_under a k) t.check_ins)
              (sym (ground (arith, same, eq_iff command.actor.id actor_id)))
              (sym (ground (arith, same, eq_iff command.idempotency_key key)))
            ∙ unused),
  )

  written :
      (ticket : StaffTicketRow)
      → (checked_in_tables command now ticket t).check_ins
        ≡ t.check_ins ++ check_in_row command now ticket ∷ []
  unfolding checked_in_tables
  written ticket = elim (Bool-cases (is_ticket_issued ticket.booking_status)) [
    | inl y ↦ rw y refl
    | inr y ↦ rw y refl
  ]

  -- What a call leaves: no unique key is broken, and where the call answers that the ticket is checked
  -- in by its actor under its key, the row of that actor and key is the ticket's.
  abbrev IsSettled : Result TicketError (Option (StaffTicketView × Bool)) × BookingTables → Type 0
  IsSettled p =
      IsOnce p.1.check_ins
      × ((view : StaffTicketView)
          → p.0 ≡ ok (some (view, true))
          → (row : CheckInRow) × (find (is_prior command now) p.1.check_ins ≡ some row)
            × (row.ticket_id ≡ view.ticket_id))

  refused : (e : TicketError) → IsOnce t.check_ins → IsSettled (err e, t)
  refused e once = (once, λ view x. absurd (ground (arith, x)))

  open-IsSettled :
      (ticket : StaffTicketRow) (instant : Option ℕ)
      → find (is_prior command now) t.check_ins ≡ none
      → IsOnce t.check_ins
      → IsSettled (check_in_open command now ticket t instant)
  unfolding map_staff_ticket
  open-IsSettled ticket (some earlier) unused once = (once, λ view x. absurd (ground (arith, x)))
  open-IsSettled ticket none unused once =
      elim (Bool-cases (is_repeated command now ticket t.check_ins)) [
        | inl bad ↦ rw bad (refused constraint_violated once)
        | inr good ↦
            let (new, free) =
              any_or (is_check_in_of ticket.ticket_id) (is_prior command now) t.check_ins good in
            rw good (
              rw (written ticket) (
                append-IsOnce ticket (find-none _ t.check_ins new) unused once,
                λ view x. (
                  check_in_row command now ticket,
                  find-append-none (is_prior command now) t.check_ins
                        (check_in_row command now ticket ∷ []) unused
                      ∙ ground (arith, eq_refl command.actor.id, eq_refl command.idempotency_key),
                  ground (arith, x),
                ),
              ))
      ]

  check_in_fresh-IsSettled :
      (ticket : StaffTicketRow) (prior : Option CheckInRow)
      → find (is_prior command now) t.check_ins ≡ prior
      → IsOnce t.check_ins
      → IsSettled (check_in_fresh command now ticket t prior)
  unfolding map_staff_ticket
  check_in_fresh-IsSettled ticket (some prior) e once =
      elim (Bool-cases (prior.ticket_id == ticket.ticket_id)) [
        | inl x ↦ rw x (
          once,
          λ view y. (prior, e, ground (arith, x, y, eq_iff prior.ticket_id ticket.ticket_id)),
        )
        | inr x ↦ rw x (refused check_in_conflict once)
      ]
  check_in_fresh-IsSettled ticket none e once =
      elim (Bool-cases (is_boarding command now ticket.booking_status)) [
        | inr x ↦ rw x (refused (check_in_state ticket.booking_status) once)
        | inl x ↦ rw x (open-IsSettled ticket ticket.checked_in_at e once)
      ]

  -- Whatever check-ins its join saw, a check-in keeps it that no ticket has two check-ins, and no key
  -- of an actor either; and where it is answered as done, by this call or by an earlier one with its
  -- key, the check-in of its actor under its key is that of the ticket in the answer.
  pub check_in_ticket-IsOnce :
      (seen : List CheckInRow)
      → IsOnce t.check_ins
      → IsOnce (check_in_ticket command now seen t).1.check_ins
        × ((view : StaffTicketView)
            → (check_in_ticket command now seen t).0 ≡ ok (some (view, true))
            → (row : CheckInRow) × (find
                  (is_prior command now)
                  (check_in_ticket command now seen t).1.check_ins
                ≡ some row)
              × (row.ticket_id ≡ view.ticket_id))
  unfolding check_in_ticket
  check_in_ticket-IsOnce seen once =
      elim (Option-cases (
        find (has_credential command.kind command.credential)
          (staff_tickets (record t { check_ins = seen }) t.tickets))) [
            | inl e ↦ rw e (once, λ view x. absurd (ground (arith, x)))
            | inr (ticket, e) ↦ rw e (elim (Bool-cases (ticket.trip_id == command.trip_id)) [
              | inr x ↦ rw x (refused wrong_trip once)
              | inl x ↦ rw x (
                  check_in_fresh-IsSettled ticket (find (is_prior command now) t.check_ins) refl
                    once)
            ])
          ]
