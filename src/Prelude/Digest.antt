-- ===== src/Prelude/Digest.antt =====
-- `createHash('sha256').update(JSON.stringify(value)).digest('hex')`, of node:crypto: a text for each
-- value, of hexadecimal digits, so that `trim` leaves it as it is.
use Prim.Native.String.{String}
use mathlib.Core.Path.{◌≡◌}
use bus_ai_booking.Prelude.Text.{trim}

pub record Digest (A : Type 0) : Type 0 where
  pub hash : A → String
  pub hash_trimmed : (a : A) → trim (hash a) ≡ hash a
