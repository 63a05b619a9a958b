-- ===== src/SeatHold/Calls/Sweep.antt =====
-- What the sweep leaves of the holds that are active, and what a confirmation leaves of its hold.
use bus_ai_booking.Prelude.{
  ℕ, String, ◌≡◌, ◌≤◌, refl, ap, ◌∙◌, true, Option, none, some, List, [], ◌∷◌, arith, string_eq,
  eq_refl, take, Option-cases, inl, inr,
}
use bus_ai_booking.Redis.{Keyspace, get, zrangebyscore, get-del, get_later}
use bus_ai_booking.SeatHold.Types.{
  HoldOwner, ActiveSeatHold, ExpiryMetadata, RequestKey, IdempotencyRecord, same_owner,
}
use bus_ai_booking.SeatHold.Store.{
  HoldStore, SeatHoldStoreOptions, Call, publish, end_hold, drop_hold,
}
use bus_ai_booking.SeatHold.Scripts.{sweep_known, sweep_token, sweep_tokens, consume_confirmed_hold}
use bus_ai_booking.SeatHold.Calls.{sweep_expired, get_hold}

-- The parts of the store that a sweep leaves alone: holds that ended are gone by their deadlines.
abbrev kept : HoldStore → Keyspace String ActiveSeatHold × Keyspace RequestKey IdempotencyRecord
kept s = (s.holds, s.idempotency)

sweep_known-kept :
    (call : Call) (token : String) (s : HoldStore) (found : Option ExpiryMetadata)
    → kept (sweep_known call token s found).0 ≡ kept s
unfolding publish end_hold
sweep_known-kept call token s none = refl
sweep_known-kept call token s (some meta) = elim (Option-cases (get call.now token s.holds)) [
  | inl e ↦ rw e refl
  | inr (h, e) ↦ rw e refl
]

sweep_tokens-kept :
    (call : Call) (tokens : List String) (s : HoldStore)
    → kept (sweep_tokens call tokens s).0 ≡ kept s
unfolding sweep_tokens sweep_token
sweep_tokens-kept call [] s = refl
sweep_tokens-kept call (token ∷ rest) s =
    sweep_tokens-kept call rest (sweep_token call token s).0 ∙ sweep_known-kept call token s _

pub sweep_expired-holds :
    (options : SeatHoldStoreOptions) (call : Call) (s : HoldStore)
    → (sweep_expired options call s).0.holds ≡ s.holds
unfolding sweep_expired
sweep_expired-holds options call s =
    ap (λ (parts : Keyspace String ActiveSeatHold × Keyspace RequestKey IdempotencyRecord). parts.0)
      (sweep_tokens-kept call (take options.sweep_batch_size (zrangebyscore call.now s.expiry)) s)

pub sweep_expired-idempotency :
    (options : SeatHoldStoreOptions) (call : Call) (s : HoldStore)
    → (sweep_expired options call s).0.idempotency ≡ s.idempotency
unfolding sweep_expired
sweep_expired-idempotency options call s =
    ap (λ (parts : Keyspace String ActiveSeatHold × Keyspace RequestKey IdempotencyRecord). parts.1)
      (sweep_tokens-kept call (take options.sweep_batch_size (zrangebyscore call.now s.expiry)) s)

pub get_hold_found :
    (options : SeatHoldStoreOptions) (call : Call) (token : String) (s : HoldStore)
    → (get_hold options call token s).0 ≡ get call.now token s.holds
unfolding get_hold
get_hold_found options call token s = rw (sweep_expired-holds options call s) refl

-- Where the owner of the hold ends it, it is not there from then on.
pub consume_ends :
    (call : Call) (token : String) (owner : HoldOwner) (s : HoldStore) (m : ℕ)
    → ((hold : ActiveSeatHold)
        → get call.now token s.holds ≡ some hold
        → same_owner hold.owner owner ≡ true)
    → call.now ≤ m
    → get m token (consume_confirmed_hold call token owner s).1.holds ≡ none
unfolding consume_confirmed_hold drop_hold publish end_hold
consume_ends call token owner s m own later = elim (Option-cases (get call.now token s.holds)) [
  | inl e ↦ rw e (get_later call.now m token s.holds later e)
  | inr (hold, e) ↦
      rw e (rw (own hold e) (ground (arith, get-del m token token s.holds, eq_refl token)))
]
