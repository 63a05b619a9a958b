-- ===== src/SeatInventory/ConfirmErrors.antt =====
-- A confirmation that is refused.
use bus_ai_booking.Prelude.{
  String, ◌≡◌, refl, ap, ◌∙◌, Option, none, some, arith, ◌==◌, string_eq, eq_iff, eq_refl, find,
  all, Option-cases, Bool-cases, inl, inr, Result, ok, err,
}
use bus_ai_booking.Prelude.Text.{trim, is_seat_number}
use bus_ai_booking.SeatState.Types.{
  ConfirmDurableSeatsInput, SeatConfirmationRecord, SeatStateError, confirmation_unavailable,
}
use bus_ai_booking.SeatState.Tables.{SeatStateTables, all_booked_by}
use bus_ai_booking.SeatState.Repository.{
  has_confirmation, find_confirmation, is_request_row, confirm_seats,
}
use bus_ai_booking.SeatState.Repository.Confirm.{find-insert_confirmation, selected}
use bus_ai_booking.SeatHold.Types.{ActiveSeatHold, same_owner}
use bus_ai_booking.SeatHold.Store.{SeatHoldStoreOptions, HoldStore}
use bus_ai_booking.SeatHold.Calls.{get_hold}
use bus_ai_booking.SeatHold.Calls.Sweep.{sweep_expired-holds}
use bus_ai_booking.SeatInventory.Types.{
  ValidatedConfirmRequest, SeatInventoryError, Digests, Inventory,
}
use bus_ai_booking.SeatInventory.Holds.{owned_hold}
use bus_ai_booking.SeatInventory.Durable.{
  ConfirmDraws, matches_hold, confirm_input, confirmation_fingerprint, confirm_persisted,
  confirm_held, confirm_validated,
}

-- A new request of the repository either succeeds with its own fingerprint, or changes nothing.
abbrev IsSettled :
    String
    → SeatStateTables
    → Result SeatStateError SeatConfirmationRecord × SeatStateTables
    → Type 0
IsSettled fingerprint t (err e, u) = u ≡ t
IsSettled fingerprint t (ok found, u) = found.request_fingerprint ≡ fingerprint

confirm_seats-IsSettled :
    (input : ConfirmDurableSeatsInput) (t : SeatStateTables)
    → find (has_confirmation input.booking_id input.idempotency_key) t.confirmations ≡ none
    → trim input.request_fingerprint ≡ input.request_fingerprint
    → IsSettled input.request_fingerprint t (confirm_seats input t)
unfolding confirm_seats
confirm_seats-IsSettled input t new trimmed = rw (find-insert_confirmation input t.confirmations) (
    rw new (
      rw trimmed (
        rw (eq_refl input.request_fingerprint) (elim (Bool-cases (is_request_row input)) [
          | inr x ↦ rw x refl
          | inl x ↦ elim (Bool-cases (all is_seat_number input.seat_ids)) [
            | inr y ↦ rw x (rw y refl)
            | inl y ↦
                elim (Bool-cases
                  (all_booked_by input.booking_id input.seat_ids (selected input t))) [
                    | inl z ↦ rw x (rw y (rw z refl))
                    | inr z ↦ rw x (rw y (rw z refl))
                  ]
          ]
        ]))))

new_request :
    (booking_id key : String) (t : SeatStateTables)
    → find_confirmation booking_id key t ≡ none
    → find (has_confirmation booking_id key) t.confirmations ≡ none
unfolding find_confirmation
new_request booking_id key t e = ground (arith, e)

module _ (digests : Digests) (d : ConfirmDraws) (v : ValidatedConfirmRequest) where
  persisted_error :
      (s : HoldStore) (t : SeatStateTables)
      (p : Result SeatStateError SeatConfirmationRecord × SeatStateTables) (e : SeatInventoryError)
      → IsSettled (confirmation_fingerprint digests v) t p
      → (confirm_persisted digests d v s p).0 ≡ err e
      → (confirm_persisted digests d v s p).1 ≡ record { holds = s; tables = t }
  persisted_error s t (err confirmation_unavailable, u) e same x =
      ap (λ (tables : SeatStateTables). record { holds = s; tables = tables }) same
  persisted_error s t (err e', u) e same x =
      ap (λ (tables : SeatStateTables). record { holds = s; tables = tables }) same
  persisted_error s t (ok found, u) e same x = absurd (
      ground
        (arith, x, same, eq_iff found.request_fingerprint (confirmation_fingerprint digests v)))

  held_error :
      (s : HoldStore) (t : SeatStateTables) (found : Option ActiveSeatHold) (e : SeatInventoryError)
      → IsSettled
          (confirmation_fingerprint digests v)
          t
          (confirm_seats (confirm_input digests v d.confirmed_at) t)
      → (confirm_held digests d v s t (owned_hold v.owner found)).0 ≡ err e
      → (confirm_held digests d v s t (owned_hold v.owner found)).1
        ≡ record { holds = s; tables = t }
  held_error s t none e settled = λ x. refl
  held_error s t (some hold) e settled = elim (Bool-cases (same_owner hold.owner v.owner)) [
    | inr y ↦ rw y (λ x. refl)
    | inl y ↦ elim (Bool-cases (matches_hold hold v)) [
      | inr z ↦ rw y (rw z (λ x. refl))
      | inl z ↦ rw y (
          rw z (λ x.
            persisted_error s t (confirm_seats (confirm_input digests v d.confirmed_at) t) e settled
              x))
    ]
  ]

  -- A confirmation that is refused changes no durable table, and ends no hold.
  pub confirm_validated_refused :
      (options : SeatHoldStoreOptions) (s : Inventory) (e : SeatInventoryError)
      → (confirm_validated digests options d v s).0 ≡ err e
      → ((confirm_validated digests options d v s).1.tables ≡ s.tables)
        × ((confirm_validated digests options d v s).1.holds.holds ≡ s.holds.holds)
  unfolding confirm_validated get_hold confirmation_fingerprint
  confirm_validated_refused options s e =
      elim (Option-cases (find_confirmation v.booking_id v.idempotency_key s.tables)) [
        | inr (replay, found) ↦
            rw found
              (elim (Bool-cases
                (replay.request_fingerprint == confirmation_fingerprint digests v)) [
                  | inl x ↦ rw x (λ refused. (refl, refl))
                  | inr x ↦ rw x (λ refused. (refl, refl))
                ])
        | inl new ↦ rw new (λ refused.
            let (found, store) = get_hold options d.get_call v.hold_token s.holds in
            let after =
              held_error store s.tables found e
                (confirm_seats-IsSettled (confirm_input digests v d.confirmed_at) s.tables
                  (new_request v.booking_id v.idempotency_key s.tables new)
                  (digests.confirmation.hash_trimmed _))
                refused in
            (
              ap (λ (t : Inventory). t.tables) after,
              ap (λ (t : Inventory). t.holds.holds) after
                  ∙ sweep_expired-holds options d.get_call s.holds,
            ))
      ]
