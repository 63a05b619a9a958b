-- ===== src/ResourceCache/Reads.antt =====
-- What a client of the cache reads, whatever Redis does.
use bus_ai_booking.Prelude.{
  ℕ, String, ◌≡◌, ◌*◌, ◌&&◌, refl, ap, Option, none, some, List, [], ◌∷◌, map, arith, string_eq,
  Bool-cases, inl, inr, Result, ok,
}
use bus_ai_booking.Redis.{Keyspace, get, set, get-set}
use bus_ai_booking.ResourceCache.{CacheCall, Loaded, stored, looked_up, get_or_load}

module _ {E T : Type 0} (key : String) (ttl_seconds : ℕ) (loader : ℕ → Result E T) where
  -- The results of calls for one key, one after another.
  unfoldable pub results : List CacheCall → Keyspace String T → List (Result E T)
  results [] s = []
  results (call ∷ calls) s =
      let loaded = get_or_load call key ttl_seconds loader s in
      loaded.result ∷ results calls loaded.store

  module _ (value : T) where
    -- Under the key there is the value, or nothing that is alive.
    abbrev pub Agrees : Keyspace String T → Type 0
    Agrees s = (now : ℕ) (cached : T) → get now key s ≡ some cached → cached ≡ value

    set-Agrees : (now px : ℕ) (s : Keyspace String T) → Agrees s → Agrees (set now px key value s)
    set-Agrees now px s agrees m cached h =
        ground (arith, h, agrees m cached, get-set m now px key key value s)

    module _ (answers : (n : ℕ) → loader n ≡ ok value) where
      -- A call ends with the value, and leaves nothing else under the key.
      abbrev IsSound : Loaded E T → Type 0
      IsSound loaded = (loaded.result ≡ ok value) × Agrees loaded.store

      stored-IsSound :
          (call : CacheCall) (s : Keyspace String T)
          → Agrees s
          → IsSound (stored call key ttl_seconds loader (ok value) s)
      stored-IsSound call s agrees = elim (Bool-cases call.writes) [
        | inl e ↦ rw e (refl, set-Agrees call.now (ttl_seconds * 1000) s agrees)
        | inr e ↦ rw e (answers 1, agrees)
      ]

      looked_up-IsSound :
          (call : CacheCall) (s : Keyspace String T) (cached : Option T)
          → get call.now key s ≡ cached
          → Agrees s
          → IsSound (looked_up call key ttl_seconds loader cached s)
      looked_up-IsSound call s none h agrees = rw (answers 0) (stored-IsSound call s agrees)
      looked_up-IsSound call s (some cached) h agrees = (ap ok (agrees call.now cached h), agrees)

      get_or_load-IsSound :
          (call : CacheCall) (s : Keyspace String T)
          → Agrees s
          → IsSound (get_or_load call key ttl_seconds loader s)
      unfolding get_or_load
      get_or_load-IsSound call s agrees = elim (Bool-cases (call.connects && call.reads)) [
        | inl e ↦ rw e (looked_up-IsSound call s (get call.now key s) refl agrees)
        | inr e ↦ rw e (answers 0, agrees)
      ]

      -- Where the loader answers each of its calls with one value, and the key holds that value or
      -- nothing that is alive, calls of getOrLoad for the key, one after another, each end with that
      -- value, whether the connection, GET and SET of each call answer or fail, and at any instants.
      pub results_lem :
          (calls : List CacheCall) (s : Keyspace String T)
          → Agrees s
          → results calls s ≡ map (λ (call : CacheCall). ok value) calls
      unfolding results
      results_lem [] s agrees = refl
      results_lem (call ∷ calls) s agrees =
          let step = get_or_load-IsSound call s agrees in
          rw step.0
            (rw (results_lem calls (get_or_load call key ttl_seconds loader s).store step.1) refl)
