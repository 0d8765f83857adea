-- ===== src/Poll/Flags.antt =====
-- The event bits and the timeouts of src/ep_pollapi.h and its engines. An `int events` or a
-- `uint32_t events` is its bit pattern.
use Prim.Native.Nat.{bit_and, bit_or}
use libep.Base.{ℕ, ◌*◌, ◌/◌, ◌%◌, Bool, not, Option, none, some, ◌==◌, if◌then◌else◌}
use libep.Base.Int.{ℤ, pos, negsuc}

abbrev pub ep_none : ℕ
ep_none = 0

abbrev pub ep_readable : ℕ
ep_readable = 1

abbrev pub ep_writable : ℕ
ep_writable = 2

abbrev pub ep_except : ℕ
ep_except = 4

abbrev pub ep_error : ℕ
ep_error = 8

-- `events & flag`, as a condition
abbrev pub has : ℕ → ℕ → Bool
has events flag = not (bit_and events flag == 0)

-- `if (on) events |= flag`
abbrev pub add_if : Bool → ℕ → ℕ → ℕ
add_if on flag events = if on then bit_or events flag else events

-- `struct timeval` or `struct timespec`: seconds, and a fraction in the unit of the call.
pub record Time : Type 0 where
  pub seconds : ℕ
  pub fraction : ℕ

-- `timeout / 1000` and `timeout % 1000 * unit` for a timeout that is not negative; a negative one
-- passes NULL.
unfoldable pub time_of : ℕ → ℤ → Option Time
time_of unit (pos t) = some (record { seconds = t / 1000; fraction = t % 1000 * unit })
time_of unit (negsuc t) = none
