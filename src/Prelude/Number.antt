-- ===== src/Prelude/Number.antt =====
-- A JavaScript number as the services test it. All values for which `Number.isInteger` is false
-- (fractions, NaN, the infinities) are treated alike, and are one constructor.
use Prim.Native.Nat.{ℕ}
use mathlib.Core.Bool.{◌&&◌}
use mathlib.Core.Option.{Option, none, some}
use bus_ai_booking.Prelude.Tests.{leb, if◌then◌else◌}

-- `negative n` is the integer -(n + 1).
pub data Number : Type 0 where
  whole : ℕ → Number
  negative : ℕ → Number
  fractional : Number

-- `Number.isInteger(x) && lo <= x && x <= hi`, and then the value.
unfoldable pub integer_between : ℕ → ℕ → Number → Option ℕ
integer_between lo hi (whole n) = if leb lo n && leb n hi then some n else none
integer_between lo hi (negative n) = none
integer_between lo hi fractional = none
