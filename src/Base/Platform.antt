-- ===== src/Base/Platform.antt =====
-- What the JavaScript platform supplies: time stamps, hashing. An instant is a number of milliseconds since the
-- epoch, and is not negative.
use Prim.Native.Nat.{ℕ}
use Prim.Native.String.{String}
use mathlib.Core.Option.{Option}

pub record Platform : Type 0 where
  -- `Date.parse`, with `none` for NaN.
  pub date_parse : String → Option ℕ
  -- `new Date(ms).toISOString()`
  pub to_iso : ℕ → String
  -- `createHash('sha256').update(text, 'utf8').digest('hex').slice(0, 8)`
  pub sha256_head : String → String
  -- `String(n)`
  pub show_number : ℕ → String
