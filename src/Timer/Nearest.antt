-- ===== src/Timer/Nearest.antt =====
-- `ep_timer_nearest_diff` of src/ep_timer.h.
use libep.Base.{
  ℕ, ◌-◌, ◌^◌, ◌<◌, ◌≡◌, refl, ap, sym, ltb, List, [], ◌∷◌, arith, ==_of_ne, ok, if◌then◌else◌,
}
use libep.Base.Int.{ℤ, pos, minus_one}
use libep.ListHead.{Ptr, null}
use libep.Skiplist.Defs.{get_forward, get_score}
use libep.Skiplist.Entries.{Entry, IsSkiplist}
use libep.Skiplist.Walk.{get_forward-ok, get_score-ok}
use libep.Skiplist.Taken.{bottom}
use libep.Timer.Defs.{Timers, levels, to_int, nearest_diff}
use libep.Timer.Memory.{on_nodes-ok}

-- The time until the first entry is due, 0 if it is, and -1 without entries.
abbrev pub until : ℕ → List Entry → ℤ
until now [] = minus_one
until now (e ∷ es) = pos (e.score - now)

-- The first entry is due within what an `int` holds.
abbrev pub IsNear : ℕ → List Entry → Type 0
IsNear now [] = Unit
IsNear now (e ∷ es) = e.score - now < 2 ^ 31

to_int-until :
    (now nearest : ℕ)
    → nearest - now < 2 ^ 31
    → to_int (if ltb now nearest then nearest - now else 0) ≡ pos (nearest - now)
to_int-until now nearest h = ground arith

-- `ep_timer_nearest_diff` returns the milliseconds until the first timer is due, 0 if it is due,
-- and -1 if there is no timer, provided that the first is due within 2^31 milliseconds; it changes
-- nothing.
pub nearest_diff-until :
    (fuel : ℕ) (sl : Ptr) (s : Timers) (es : List Entry)
    → IsSkiplist levels s.nodes sl es
    → IsNear s.now es
    → nearest_diff fuel sl s ≡ ok (until s.now es) s
unfolding nearest_diff
nearest_diff-until fuel sl s [] i near =
    rw
      (on_nodes-ok (get_forward 0 sl) s
        (get_forward-ok s.nodes 0 sl (bottom levels s.nodes sl [] (omega arith) i)))
      refl
nearest_diff-until fuel sl s (e ∷ es) i near =
    rw
      (
        on_nodes-ok (get_forward 0 sl) s
            (get_forward-ok s.nodes 0 sl (bottom levels s.nodes sl (e ∷ es) (omega arith) i).0),
        ==_of_ne {a = e.addr} {b = null} (λ q. i.nonnull.1.0 (sym q)),
        on_nodes-ok (get_score e.addr) s (get_score-ok s.nodes e.addr i.scores.0),
      )
      (ap (λ z. ok z s) (to_int-until s.now e.score near))
