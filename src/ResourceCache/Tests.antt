-- ===== src/ResourceCache/Tests.antt =====
-- The cache of resources on concrete calls.
use bus_ai_booking.Prelude.{
  ℕ, String, ◌≡◌, refl, true, false, none, List, [], ◌∷◌, Result, ok, err, string_eq, arith,
}
use bus_ai_booking.Redis.{Keyspace, get, set}
use bus_ai_booking.ResourceCache.{CacheCall, Loaded, get_or_load}
use bus_ai_booking.ResourceCache.Reads.{Agrees, results, results_lem}

abbrev call_at : ℕ → CacheCall
call_at now = record { now = now; connects = true; reads = true; writes = true }

abbrev empty : Keyspace String String
empty = λ key. none

abbrev routes : ℕ → Result String String
routes n = ok "routes"

abbrev down : ℕ → Result String String
down n = err "down"

abbrev filled : Loaded String String
filled = get_or_load (call_at 1000) "routes-key" 60 routes empty

filled_calls : filled.loader_calls ≡ 1
unfolding get_or_load get
filled_calls = refl

-- Up to the deadline the loader is not called, also where it is down.
hit : (get_or_load (call_at 60999) "routes-key" 60 down filled.store).result ≡ ok "routes"
unfolding get_or_load get set
hit = refl

missed : (get_or_load (call_at 61000) "routes-key" 60 down filled.store).result ≡ err "down"
unfolding get_or_load get set
missed = refl

-- A loader that fails is called again, though Redis answers.
called_twice : (get_or_load (call_at 61000) "routes-key" 60 down filled.store).loader_calls ≡ 2
unfolding get_or_load get set
called_twice = refl

abbrev calls : List CacheCall
calls =
    call_at 1000
    ∷ record (call_at 2000) { connects = false }
    ∷ call_at 60000
    ∷ record (call_at 70000) { writes = false }
    ∷ []

empty-Agrees : Agrees "routes-key" 60 routes "routes" empty
unfolding get
empty-Agrees now cached h = ground (arith, h)

results_lem_example :
    results "routes-key" 60 routes calls empty
    ≡ ok "routes" ∷ ok "routes" ∷ ok "routes" ∷ ok "routes" ∷ []
results_lem_example =
    results_lem "routes-key" 60 routes "routes" (λ n. refl) calls empty empty-Agrees
