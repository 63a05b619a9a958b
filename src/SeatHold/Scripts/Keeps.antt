-- ===== src/SeatHold/Scripts/Keeps.antt =====
-- What the parts of the scripts keep of the store, the scripts keep.
use bus_ai_booking.Prelude.{
  ℕ, String, ◌≡◌, refl, inl, inr, List, [], ◌∷◌, Option, none, some, ◌==◌, string_eq, Bool-cases,
  Option-cases,
}
use bus_ai_booking.Redis.{get, zrem}
use bus_ai_booking.SeatHold.Types.{
  ActiveSeatHold, HoldOwner, same_owner, SeatStatus, available, booked, ReleaseOutcome,
  request_key_eq, seat_key_eq, ReleaseRecord, IdempotencyRecord, ExpiryMetadata,
}
use bus_ai_booking.SeatHold.Store.{
  HoldStore, SeatHoldStoreOptions, Call, first_taken, publish, end_hold, drop_hold, status_event,
}
use bus_ai_booking.SeatHold.Scripts.{
  place, acquire_free, acquire_fresh, acquire_script, remember_release, release_held, release_fresh,
  release_script, consume_held, consume_confirmed_hold, sweep_known, sweep_token, sweep_tokens,
}

-- A property of the store at the instant of a call, with what each part of a script needs of it.
pub record Rules (call : Call) (P : HoldStore → Type 0) : Type 0 where
  pub place_rule :
      (options : SeatHoldStoreOptions) (hold : ActiveSeatHold) (fingerprint : String)
      (ttl_seconds : ℕ) (s : HoldStore)
      → first_taken call.now hold.trip_id hold.seat_ids s.seats ≡ none
      → P s
      → P (place options call hold fingerprint ttl_seconds s)
  pub publish_rule :
      (drawn : Call) (event_version : ℕ) (status : SeatStatus) (expires_at : Option ℕ)
      (trip_id : String) (ids : List String) (s : HoldStore)
      → P s
      → P (publish (status_event drawn event_version status expires_at trip_id ids) trip_id s)
  pub remember_rule :
      (options : SeatHoldStoreOptions) (owner : HoldOwner) (key fingerprint : String)
      (outcome : ReleaseOutcome) (s : HoldStore)
      → P s
      → P (remember_release options call owner key fingerprint outcome s)
  pub drop_rule :
      (token trip_id : String) (ids : List String) (s : HoldStore)
      → P s
      → P (drop_hold call.now token trip_id ids s)
  pub end_rule :
      (token trip_id : String) (ids : List String) (s : HoldStore)
      → get call.now token s.holds ≡ none
      → P s
      → P (end_hold call.now token trip_id ids s)
  pub zrem_rule :
      (token : String) (s : HoldStore) → P s → P (record s { expiry = zrem token s.expiry })

module _ {call : Call} {P : HoldStore → Type 0} (rules : Rules call P) where
  acquire_free_keeps :
      (options : SeatHoldStoreOptions) (hold : ActiveSeatHold) (fingerprint : String)
      (ttl_seconds : ℕ) (s : HoldStore) (found : Option String)
      → first_taken call.now hold.trip_id hold.seat_ids s.seats ≡ found
      → P s
      → P (acquire_free options call hold fingerprint ttl_seconds s found).1
  acquire_free_keeps options hold fingerprint ttl_seconds s (some seat) e p = p
  acquire_free_keeps options hold fingerprint ttl_seconds s none e p =
      rules.place_rule options hold fingerprint ttl_seconds s e p

  acquire_fresh_keeps :
      (options : SeatHoldStoreOptions) (hold : ActiveSeatHold) (fingerprint : String)
      (ttl_seconds : ℕ) (s : HoldStore) (found : Option IdempotencyRecord)
      → P s
      → P (acquire_fresh options call hold fingerprint ttl_seconds s found).1
  acquire_fresh_keeps options hold fingerprint ttl_seconds s (some earlier) p =
      elim (Bool-cases (earlier.fingerprint == fingerprint)) [ inl e ↦ rw e p | inr e ↦ rw e p ]
  acquire_fresh_keeps options hold fingerprint ttl_seconds s none p =
      acquire_free_keeps options hold fingerprint ttl_seconds s _ refl p

  pub acquire_script_keeps :
      (options : SeatHoldStoreOptions) (hold : ActiveSeatHold) (fingerprint : String)
      (ttl_seconds : ℕ) (s : HoldStore)
      → P s
      → P (acquire_script options call hold fingerprint ttl_seconds s).1
  unfolding acquire_script
  acquire_script_keeps options hold fingerprint ttl_seconds s p =
      acquire_fresh_keeps options hold fingerprint ttl_seconds s _ p

  release_held_keeps :
      (options : SeatHoldStoreOptions) (token : String) (owner : HoldOwner)
      (key fingerprint : String) (s : HoldStore) (found : Option ActiveSeatHold)
      → P s
      → P (release_held options call token owner key fingerprint s found).1
  release_held_keeps options token owner key fingerprint s none p =
      rules.remember_rule options owner key fingerprint _ s p
  release_held_keeps options token owner key fingerprint s (some hold) p =
      elim (Bool-cases (same_owner hold.owner owner)) [
        | inl e ↦ rw e (
            rules.remember_rule options owner key fingerprint _ _ (
              rules.publish_rule call 1 available none hold.trip_id hold.seat_ids _
                (rules.drop_rule token hold.trip_id hold.seat_ids s p)))
        | inr e ↦ rw e p
      ]

  release_fresh_keeps :
      (options : SeatHoldStoreOptions) (token : String) (owner : HoldOwner)
      (key fingerprint : String) (s : HoldStore) (found : Option ReleaseRecord)
      → P s
      → P (release_fresh options call token owner key fingerprint s found).1
  release_fresh_keeps options token owner key fingerprint s (some earlier) p =
      elim (Bool-cases (earlier.fingerprint == fingerprint)) [ inl e ↦ rw e p | inr e ↦ rw e p ]
  release_fresh_keeps options token owner key fingerprint s none p =
      release_held_keeps options token owner key fingerprint s _ p

  pub release_script_keeps :
      (options : SeatHoldStoreOptions) (token : String) (owner : HoldOwner)
      (key fingerprint : String) (s : HoldStore)
      → P s
      → P (release_script options call token owner key fingerprint s).1
  unfolding release_script
  release_script_keeps options token owner key fingerprint s p =
      release_fresh_keeps options token owner key fingerprint s _ p

  consume_held_keeps :
      (token : String) (owner : HoldOwner) (s : HoldStore) (found : Option ActiveSeatHold)
      → P s
      → P (consume_held call token owner s found).1
  consume_held_keeps token owner s none p = p
  consume_held_keeps token owner s (some hold) p = elim (Bool-cases (same_owner hold.owner owner)) [
    | inl e ↦ rw e (
        rules.publish_rule call 2 booked none hold.trip_id hold.seat_ids _
          (rules.drop_rule token hold.trip_id hold.seat_ids s p))
    | inr e ↦ rw e p
  ]

  pub consume_keeps :
      (token : String) (owner : HoldOwner) (s : HoldStore)
      → P s
      → P (consume_confirmed_hold call token owner s).1
  unfolding consume_confirmed_hold
  consume_keeps token owner s p = consume_held_keeps token owner s _ p

  sweep_known_keeps :
      (token : String) (s : HoldStore) (found : Option ExpiryMetadata)
      → P s
      → P (sweep_known call token s found).0
  sweep_known_keeps token s none p = rules.zrem_rule token s p
  sweep_known_keeps token s (some meta) p = elim (Option-cases (get call.now token s.holds)) [
    | inr (h, e) ↦ rw e p
    | inl e ↦ rw e (
        rules.publish_rule (record call { event_id = meta.expiry_event_id }) 1 available none
          meta.trip_id meta.seat_ids _ (rules.end_rule token meta.trip_id meta.seat_ids s e p))
  ]

  sweep_token_keeps : (token : String) (s : HoldStore) → P s → P (sweep_token call token s).0
  unfolding sweep_token
  sweep_token_keeps token s p = sweep_known_keeps token s _ p

  pub sweep_tokens_keeps :
      (tokens : List String) (s : HoldStore) → P s → P (sweep_tokens call tokens s).0
  unfolding sweep_tokens
  sweep_tokens_keeps [] s p = p
  sweep_tokens_keeps (token ∷ rest) s p =
      sweep_tokens_keeps rest (sweep_token call token s).0 (sweep_token_keeps token s p)
