-- ===== src/Prelude/Text.antt =====
-- What the services use of texts: trimming, the formats of ids, keys and tokens, and counts of
-- characters. A class of characters with a range of lengths stands for `/^[...]{m,n}$/`; all classes
-- are ASCII, so code points and code units agree on them.
use Prim.Native.Nat.{ℕ, zero, suc}
use Prim.Native.String.{String}
use Prim.Native.Char.{Char, code}
use mathlib.Core.Bool.{Bool, true, false, ◌&&◌, ◌||◌}
use mathlib.Core.List.{List, [], ◌∷◌}
use bus_ai_booking.Prelude.Tests.{leb, nat_eq, if◌then◌else◌}
use bus_ai_booking.Prelude.Lists.{length, all}

abbrev pub codes : String → List ℕ
codes String.[] = []
codes (String.◌∷◌ c s) = code c ∷ codes s

-- `${s}${t}`
unfoldable pub joined : String → String → String
joined String.[] t = t
joined (String.◌∷◌ c s) t = String.◌∷◌ c (joined s t)

unfoldable pub in_range : ℕ → ℕ → ℕ → Bool
in_range lo hi c = leb lo c && leb c hi

-- The white space of `trim`, by ECMA-262.
unfoldable pub is_space : ℕ → Bool
unfolding in_range
is_space c =
    in_range 9 13 c
    || nat_eq c 32
    || nat_eq c 160
    || nat_eq c 0x1680
    || in_range 0x2000 0x200a c
    || nat_eq c 0x2028
    || nat_eq c 0x2029
    || nat_eq c 0x202f
    || nat_eq c 0x205f
    || nat_eq c 0x3000
    || nat_eq c 0xfeff

unfoldable pub trim_start : String → String
unfolding is_space
trim_start String.[] = String.[]
trim_start (String.◌∷◌ c s) =
    let rest = trim_start s in if is_space (code c) then rest else String.◌∷◌ c s

abbrev pub prepend : Char → String → String
prepend c String.[] = if is_space (code c) then String.[] else String.◌∷◌ c String.[]
prepend c (String.◌∷◌ d s) = String.◌∷◌ c (String.◌∷◌ d s)

unfoldable pub trim_end : String → String
unfolding is_space
trim_end String.[] = String.[]
trim_end (String.◌∷◌ c s) = prepend c (trim_end s)

-- `value.trim()`
unfoldable pub trim : String → String
unfolding trim_start trim_end
trim s = trim_end (trim_start s)

unfoldable pub is_digit : ℕ → Bool
unfolding in_range
is_digit = in_range b'0' b'9'

unfoldable pub is_alphanumeric : ℕ → Bool
unfolding is_digit in_range
is_alphanumeric c = is_digit c || in_range b'A' b'Z' c || in_range b'a' b'z' c

-- `[A-Za-z0-9._-]`
unfoldable pub is_key_char : ℕ → Bool
unfolding is_alphanumeric
is_key_char c = is_alphanumeric c || nat_eq c b'.' || nat_eq c b'_' || nat_eq c b'-'

-- `[0-9a-f]` with the flag `i`
unfoldable pub is_hex : ℕ → Bool
unfolding is_digit in_range
is_hex c = is_digit c || in_range b'a' b'f' c || in_range b'A' b'F' c

-- `/^[A-Za-z0-9._-]{m,n}$/`
unfoldable pub is_key : ℕ → ℕ → String → Bool
unfolding is_key_char
is_key m n s = let cs = codes s in leb m (length cs) && leb (length cs) n && all is_key_char cs

-- The four kinds of places of a UUID of versions 1 to 5.
pub data Place : Type 0 where
  hex dash version variant : Place

abbrev pub fits : Place → ℕ → Bool
fits hex c = is_hex c
fits dash c = nat_eq c b'-'
fits version c = in_range b'1' b'5' c
fits variant c =
    nat_eq c b'8'
    || nat_eq c b'9'
    || nat_eq c b'a'
    || nat_eq c b'b'
    || nat_eq c b'A'
    || nat_eq c b'B'

unfoldable pub matches : List Place → List ℕ → Bool
unfolding is_hex in_range
matches [] [] = true
matches [] (c ∷ cs) = false
matches (p ∷ ps) [] = false
matches (p ∷ ps) (c ∷ cs) = fits p c && matches ps cs

abbrev pub times : ℕ → List Place → List Place
times zero ps = ps
times (suc n) ps = hex ∷ times n ps

-- 8-4-4-4-12
abbrev pub uuid_places : List Place
uuid_places =
    times 8
      (dash ∷ times 4 (dash ∷ version ∷ times 3 (dash ∷ variant ∷ times 3 (dash ∷ times 12 []))))

unfoldable pub is_uuid : String → Bool
unfolding matches
is_uuid s = matches uuid_places (codes s)

abbrev pub column_places : List Place
column_places = times 8 (dash ∷ times 4 (dash ∷ times 4 (dash ∷ times 4 (dash ∷ times 12 []))))

-- A UUID of any version, as a column of the type uuid reads it; PostgreSQL also reads other spellings,
-- which no validator of the services lets through.
unfoldable pub is_column_uuid : String → Bool
unfolding matches
is_column_uuid s = matches column_places (codes s)

unfoldable pub lower_hex : Char → Char
lower_hex c =
    if nat_eq (code c) b'A'
    then "a"
    else if nat_eq (code c) b'B'
    then "b"
    else if nat_eq (code c) b'C'
    then "c"
    else if nat_eq (code c) b'D'
    then "d"
    else if nat_eq (code c) b'E'
    then "e"
    else if nat_eq (code c) b'F'
    then "f"
    else c

-- What a column of the type uuid holds of a text: its digits in lower case.
unfoldable pub uuid_text : String → String
unfolding lower_hex
uuid_text String.[] = String.[]
uuid_text (String.◌∷◌ c s) = String.◌∷◌ (lower_hex c) (uuid_text s)

-- `^[A-Z][0-9]{2}$`
abbrev pub is_seat_code : List ℕ → Bool
is_seat_code (a ∷ b ∷ c ∷ []) = in_range b'A' b'Z' a && (is_digit b && is_digit c)
is_seat_code _ = false

unfoldable pub is_seat_number : String → Bool
unfolding in_range is_digit
is_seat_number s = is_seat_code (codes s)
