-- ===== src/Loop/Defs.antt =====
-- `ep__waittime` of src/ep.h, over the timers.
use libep.Base.{ℕ, Bool, true, false, ◌||◌, not, ltb, if◌then◌else◌, Cmd, ◌>>=◌, pure}
use libep.Base.Int.{ℤ, pos, negsuc, is_nonnegative}
use libep.ListHead.{Ptr}
use libep.Timer.{Timers, updatetime, nearest_diff}

-- `a < b`
abbrev pub less : ℤ → ℤ → Bool
less (pos a) (pos b) = ltb a b
less (pos a) (negsuc b) = false
less (negsuc a) (pos b) = true
less (negsuc a) (negsuc b) = ltb b a

unfoldable pub waittime : (fuel : ℕ) (sl : Ptr) (hint : ℤ) → Cmd Timers ℤ
waittime fuel sl hint = do
  now ← updatetime
  time ← nearest_diff fuel sl
  (if is_nonnegative time
      then pure (if not (is_nonnegative hint) || less time hint then time else hint)
      else pure hint)
