-- ===== src/ResourceCache.antt =====
-- The cache of resources of apps/mcp-server/src/resource-cache.ts. A text of JSON is the value that it
-- holds; a command of Redis that fails changes nothing.
pub mod Reads
mod Tests
use bus_ai_booking.Prelude.{
  ℕ, String, ◌+◌, ◌*◌, Bool, true, false, Option, none, some, List, [], ◌∷◌, string_eq, ◌==◌, ◌&&◌,
  if◌then◌else◌, Result, ok, err,
}
use bus_ai_booking.Redis.{Keyspace, get, set}

-- What Redis does in a call: the connection, GET and SET each answer or fail.
pub record CacheCall : Type 0 where
  pub now : ℕ
  pub connects : Bool
  pub reads : Bool
  pub writes : Bool

-- How a call ends, how often it called the loader, and the keys at its end.
pub record Loaded (E T : Type 0) : Type 0 where
  pub result : Result E T
  pub loader_calls : ℕ
  pub store : Keyspace String T

module _ {E T : Type 0} where
  -- The `catch`: the loader is called, whatever was called before.
  abbrev pub caught : ℕ → (ℕ → Result E T) → Keyspace String T → Loaded E T
  caught calls loader s = record { result = loader calls; loader_calls = calls + 1; store = s }

  -- From the first answer of the loader on; an error of the loader is caught too.
  abbrev pub stored :
      CacheCall → String → ℕ → (ℕ → Result E T) → Result E T → Keyspace String T → Loaded E T
  stored call key ttl_seconds loader (err e) s = caught 1 loader s
  stored call key ttl_seconds loader (ok value) s =
      if call.writes
      then record {
        result = ok value;
        loader_calls = 1;
        store = set call.now (ttl_seconds * 1000) key value s;
      }
      else caught 1 loader s

  -- From the answer of GET on.
  abbrev pub looked_up :
      CacheCall → String → ℕ → (ℕ → Result E T) → Option T → Keyspace String T → Loaded E T
  looked_up call key ttl_seconds loader (some cached) s = record {
    result = ok cached;
    loader_calls = 0;
    store = s;
  }
  looked_up call key ttl_seconds loader none s = stored call key ttl_seconds loader (loader 0) s

  -- `getOrLoad`: the loader answers its n-th call, from zero.
  unfoldable pub get_or_load :
      CacheCall → String → ℕ → (ℕ → Result E T) → Keyspace String T → Loaded E T
  get_or_load call key ttl_seconds loader s =
      if call.connects && call.reads
      then looked_up call key ttl_seconds loader (get call.now key s) s
      else caught 0 loader s
