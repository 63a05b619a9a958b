-- ===== src/SeatHold/Scripts/Order.antt =====
-- The versions of the events: those of one trip strictly grow in the order of publication.
use bus_ai_booking.Prelude.{
  ℕ, ◌+◌, ◌≤◌, ◌<◌, String, ◌≡◌, List, [], ◌∷◌, Option, some, arith, ◌==◌, string_eq, eq_iff,
  eq_refl, if◌then◌else◌, All,
}
use bus_ai_booking.SeatHold.Types.{ActiveSeatHold, SeatStatus, held, SeatStatusChanged}
use bus_ai_booking.SeatHold.Store.{
  HoldStore, SeatHoldStoreOptions, Call, publish, status_event, end_hold, drop_hold,
}
use bus_ai_booking.SeatHold.Scripts.{place, remember_release}
use bus_ai_booking.SeatHold.Scripts.Keeps.{Rules}

-- Newest first: an event's version is above those of the earlier events of its trip.
abbrev pub IsGrowing : List SeatStatusChanged → Type 0
IsGrowing [] = Unit
IsGrowing (e ∷ es) =
    All (λ (old : SeatStatusChanged). old.trip_id ≡ e.trip_id → old.version < e.version) es
    × IsGrowing es

abbrev pub IsBelow : (String → ℕ) → List SeatStatusChanged → Type 0
IsBelow versions es = All (λ (e : SeatStatusChanged). e.version ≤ versions e.trip_id) es

pub record IsOrdered (s : HoldStore) : Type 0 where
  pub growing : IsGrowing s.published
  pub below : IsBelow s.versions s.published

IsBelow-publish :
    (versions : String → ℕ) (trip_id : String) (es : List SeatStatusChanged)
    → IsBelow versions es
    → IsBelow (λ trip. if trip_id == trip then versions trip_id + 1 else versions trip) es
IsBelow-publish versions trip_id [] h = h
IsBelow-publish versions trip_id (e ∷ es) h =
    (ground (arith, h.0, eq_iff trip_id e.trip_id), IsBelow-publish versions trip_id es h.1)

above-All :
    (versions : String → ℕ) (trip_id : String) (es : List SeatStatusChanged)
    → IsBelow versions es
    → All
        (λ (old : SeatStatusChanged). old.trip_id ≡ trip_id → old.version < versions trip_id + 1)
        es
above-All versions trip_id [] h = h
above-All versions trip_id (e ∷ es) h =
    ((λ same. ground (arith, h.0, same)), above-All versions trip_id es h.1)

publish-IsOrdered :
    (drawn : Call) (event_version : ℕ) (status : SeatStatus) (expires_at : Option ℕ)
    (trip_id : String) (ids : List String) (s : HoldStore)
    → IsOrdered s
    → IsOrdered (publish (status_event drawn event_version status expires_at trip_id ids) trip_id s)
unfolding publish status_event
publish-IsOrdered drawn event_version status expires_at trip_id ids s o = record {
  growing = (above-All s.versions trip_id s.published o.below, o.growing);
  below = (ground (arith, eq_refl trip_id), IsBelow-publish s.versions trip_id s.published o.below);
}

place-IsOrdered :
    (options : SeatHoldStoreOptions) (call : Call) (hold : ActiveSeatHold) (fingerprint : String)
    (ttl_seconds : ℕ) (s : HoldStore)
    → IsOrdered s
    → IsOrdered (place options call hold fingerprint ttl_seconds s)
unfolding place
place-IsOrdered options call hold fingerprint ttl_seconds s o =
    let p = publish-IsOrdered call 1 held (some hold.expires_at) hold.trip_id hold.seat_ids s o in
    record { growing = p.growing; below = p.below }

pub IsOrdered-rules : (call : Call) → Rules call IsOrdered
unfolding remember_release drop_hold end_hold
IsOrdered-rules call = record {
  place_rule = λ options hold fingerprint ttl s free o.
      place-IsOrdered options call hold fingerprint ttl s o;
  publish_rule =
      λ drawn v status exp trip ids s o. publish-IsOrdered drawn v status exp trip ids s o;
  remember_rule =
      λ options owner key fingerprint outcome s o. record { growing = o.growing; below = o.below };
  drop_rule = λ token trip ids s o. record { growing = o.growing; below = o.below };
  end_rule = λ token trip ids s dead o. record { growing = o.growing; below = o.below };
  zrem_rule = λ token s o. record { growing = o.growing; below = o.below };
}
