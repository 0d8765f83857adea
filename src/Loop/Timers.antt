-- ===== src/Loop/Timers.antt =====
-- What the timers do in a turn of the loop of src/ep.h: `ep_timer_execute_now` and `ep__waittime`.
use libep.Base.{ℕ, ◌+◌, ◌-◌, ◌*◌, ◌/◌, ◌<◌, ◌≡◌, refl, List, [], ◌∷◌, length, Returns, returns}
use libep.Base.Int.{ℤ}
use libep.ListHead.{Ptr}
use libep.Skiplist.Entries.{Entry, IsSkiplist}
use libep.Skiplist.UpTo.{up_to, beyond}
use libep.Timer.{Timers, levels, execute_now}
use libep.Timer.Execute.{quiet}
use libep.Timer.Items.{Item, entries, Holds, Slots, Rounds}
use libep.Timer.Due.{Ran, execute-Ran}
use libep.Timer.Nearest.{IsNear, nearest_diff-until}
use libep.Loop.Defs.{waittime}
use libep.Loop.Wait.{updatetime-now, Waits, choice-Waits}

-- Seconds and microseconds in milliseconds.
abbrev pub millis : ℕ × ℕ → ℕ
millis (sec, usec) = sec * 1000 + usec / 1000

-- How long the loop waits for the timers `es`: as the hint says when there is none.
abbrev pub WaitsFor : ℕ → List Entry → (hint w : ℤ) → Type 0
WaitsFor now [] hint w = w ≡ hint
WaitsFor now (e ∷ es) hint w = Waits (e.score - now) hint w

pub execute_now-Ran :
    (fuel : ℕ) (sl : Ptr) (es : List Entry) (due : List Item) (max : ℤ) (later : List Entry)
    (s : Timers) (at : ℕ × ℕ) (rest : List (ℕ × ℕ))
    → s.clock ≡ at ∷ rest
    → IsSkiplist levels s.nodes sl es
    → entries due ≡ up_to (millis at) es
    → Holds s.info due
    → Slots s.nodes (entries due)
    → Rounds max s.draws due (beyond (millis at) es) later
    → length es < fuel
    → Returns
        (λ _. Ran sl due max later (record s { now = millis at; clock = rest }))
        (execute_now quiet fuel sl max s)
unfolding execute_now
execute_now-Ran fuel sl es due max later s (sec, usec) rest clock list split held slots rounds
      enough =
    rw (updatetime-now s sec usec rest clock) (
      execute-Ran fuel sl es due (sec * 1000 + usec / 1000) max later _ list split held slots rounds
        enough)

-- Only the time is changed.
pub record Timed (now : ℕ) (es : List Entry) (hint : ℤ) (s : Timers) (w : ℤ) (t : Timers)
    : Type 0 where
  pub waits : WaitsFor now es hint w
  pub nodes : t.nodes ≡ s.nodes
  pub info : t.info ≡ s.info
  pub calls : t.calls ≡ s.calls

pub waittime-Timed :
    (fuel : ℕ) (sl : Ptr) (hint : ℤ) (s : Timers) (es : List Entry) (at : ℕ × ℕ)
    (rest : List (ℕ × ℕ))
    → s.clock ≡ at ∷ rest
    → IsSkiplist levels s.nodes sl es
    → IsNear (millis at) es
    → Returns (Timed (millis at) es hint s) (waittime fuel sl hint s)
unfolding waittime
waittime-Timed fuel sl hint s [] (sec, usec) rest clock list near =
    rw
      (
        updatetime-now s sec usec rest clock,
        nearest_diff-until fuel sl (record s { now = millis (sec, usec); clock = rest }) [] list
            near,
      )
      (returns record { waits = refl; nodes = refl; info = refl; calls = refl })
waittime-Timed fuel sl hint s (e ∷ es) (sec, usec) rest clock list near =
    rw
      (
        updatetime-now s sec usec rest clock,
        nearest_diff-until fuel sl (record s { now = millis (sec, usec); clock = rest }) (e ∷ es)
            list near,
      )
      (returns record {
        waits = choice-Waits (e.score - millis (sec, usec)) hint;
        nodes = refl;
        info = refl;
        calls = refl;
      })
