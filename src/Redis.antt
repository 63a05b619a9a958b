-- ===== src/Redis.antt =====
-- The Redis commands that the scripts of the repository run: values under keys that expire (GET,
-- EXISTS, SET with PX or EX, DEL), and a set of members ordered by scores (ZADD, ZREM,
-- ZRANGEBYSCORE). A key whose deadline has come is as one that was never written.
use bus_ai_booking.Prelude.{
  ℕ, String, ◌≡◌, ◌≤◌, ◌+◌, Option, none, some, List, [], ◌∷◌, arith, Eq, ◌==◌, string_eq, ltb, leb,
  if◌then◌else◌, not, filter, map,
}

pub record Stored (V : Type 0) : Type 0 where
  pub value : V
  pub deadline : ℕ

abbrev pub Keyspace : Type 0 → Type 0 → Type 0
Keyspace K V = K → Option (Stored V)

abbrev live : {V : Type 0} → ℕ → Option (Stored V) → Option V
live now none = none
live now (some e) = if ltb now e.deadline then some e.value else none

module _ {K V : Type 0} where
  -- GET at an instant, in milliseconds.
  unfoldable pub get : ℕ → K → Keyspace K V → Option V
  get now k s = live now (s k)

  module _ ⦃e : Eq K⦄ where
    -- SET with PX: the deadline is the instant of the call and the milliseconds.
    unfoldable pub set : ℕ → ℕ → K → V → Keyspace K V → Keyspace K V
    set now px k v s = λ j. if k == j then some (record { value = v; deadline = now + px }) else s j

    unfoldable pub del : K → Keyspace K V → Keyspace K V
    del k s = λ j. if k == j then none else s j

    pub get-set :
        (m now px : ℕ) (k j : K) (v : V) (s : Keyspace K V)
        → get m j (set now px k v s)
          ≡ (if k == j then (if ltb m (now + px) then some v else none) else get m j s)
    unfolding get set
    get-set m now px k j v s = ground arith

    pub get-del :
        (m : ℕ) (k j : K) (s : Keyspace K V)
        → get m j (del k s) ≡ (if k == j then none else get m j s)
    unfolding get del
    get-del m k j s = ground arith

  -- What is there later was there before, if nothing was written meanwhile.
  pub get_earlier :
      (n m : ℕ) (k : K) (v : V) (s : Keyspace K V) → n ≤ m → get m k s ≡ some v → get n k s ≡ some v
  unfolding get
  get_earlier n m k v s h g = ground arith

  -- What is gone stays gone, if nothing was written meanwhile.
  pub get_later : (n m : ℕ) (k : K) (s : Keyspace K V) → n ≤ m → get n k s ≡ none → get m k s ≡ none
  unfolding get
  get_later n m k s h g = ground arith

-- A sorted set, in the order of the scores; members of one score are in the order of their arrival.
abbrev pub SortedSet : Type 0
SortedSet = List (String × ℕ)

unfoldable pub zrem : String → SortedSet → SortedSet
zrem member s = filter (λ (entry : String × ℕ). not (entry.0 == member)) s

unfoldable pub insert_score : String → ℕ → SortedSet → SortedSet
insert_score member score [] = (member, score) ∷ []
insert_score member score ((m, s) ∷ rest) =
    if ltb score s then (member, score) ∷ (m, s) ∷ rest else (m, s) ∷ insert_score member score rest

unfoldable pub zadd : String → ℕ → SortedSet → SortedSet
unfolding zrem insert_score
zadd member score s = insert_score member score (zrem member s)

-- The members with a score up to the bound, lowest first.
unfoldable pub zrangebyscore : ℕ → SortedSet → List String
zrangebyscore bound s =
    map (λ (entry : String × ℕ). entry.0) (filter (λ (entry : String × ℕ). leb entry.1 bound) s)
