-- ===== src/Loop/Wait.antt =====
-- `ep__waittime` of src/ep.h, against the timers that are set.
use libep.Base.{
  ℕ, ◌+◌, ◌-◌, ◌*◌, ◌/◌, ◌≤◌, ◌≡◌, refl, List, ◌∷◌, arith, ok, Returns, returns, ◌⊎◌, inl, inr, not,
  ◌||◌, ltb, if◌then◌else◌, Bool-cases,
}
use libep.Base.Int.{ℤ, pos, negsuc, is_nonnegative}
use libep.ListHead.{Ptr}
use libep.Skiplist.Entries.{Entry, IsSkiplist}
use libep.Timer.{Timers, levels, updatetime}
use libep.Timer.Nearest.{IsNear, nearest_diff-until}
use libep.Loop.Defs.{less, waittime}

-- `w` is no longer than `limit`, where a negative limit is none.
abbrev pub WithinHint : ℕ → ℤ → Type 0
WithinHint w (pos h) = w ≤ h
WithinHint w (negsuc h) = Unit

pub updatetime-now :
    (s : Timers) (sec usec : ℕ) (rest : List (ℕ × ℕ))
    → s.clock ≡ (sec, usec) ∷ rest
    → updatetime s
      ≡ ok (sec * 1000 + usec / 1000) (record s { now = sec * 1000 + usec / 1000; clock = rest })
unfolding updatetime
updatetime-now s sec usec rest h = rw (h, updatetime)

-- `w` is a number that does not exceed `d` nor the hint, and is one of the two.
pub record Waits (d : ℕ) (hint w : ℤ) : Type 0 where
  pub wait : ℕ
  pub value : w ≡ pos wait
  pub in_time : wait ≤ d
  pub within : WithinHint wait hint
  pub exact : (wait ≡ d) ⊎ (pos wait ≡ hint)

pub choice-Waits :
    (d : ℕ) (hint : ℤ)
    → Waits d hint (if not (is_nonnegative hint) || less (pos d) hint then pos d else hint)
choice-Waits d (negsuc h) = record {
  wait = d;
  value = refl;
  in_time = omega arith;
  within = tt;
  exact = inl refl;
}
choice-Waits d (pos h) = elim (Bool-cases (ltb d h)) [
  | inl t ↦ record {
    wait = d;
    value = rw t refl;
    in_time = omega arith;
    within = ground arith;
    exact = inl refl;
  }
  | inr f ↦ record {
    wait = h;
    value = rw f refl;
    in_time = ground arith;
    within = omega arith;
    exact = inr refl;
  }
]

-- With timers set of which the first is due within 2^31 milliseconds, the loop does not wait past
-- it nor longer than a hint that is not negative, and waits until one of the two.
pub waittime-Waits :
    (fuel : ℕ) (sl : Ptr) (hint : ℤ) (s : Timers) (e : Entry) (es : List Entry) (sec usec : ℕ)
    (rest : List (ℕ × ℕ))
    → s.clock ≡ (sec, usec) ∷ rest
    → IsSkiplist levels s.nodes sl (e ∷ es)
    → IsNear (sec * 1000 + usec / 1000) (e ∷ es)
    → Returns (λ w _. Waits (e.score - (sec * 1000 + usec / 1000)) hint w) (waittime fuel sl hint s)
unfolding waittime
waittime-Waits fuel sl hint s e es sec usec rest clock i near =
    let now = sec * 1000 + usec / 1000 in
    let t : Timers = record s { now = now; clock = rest } in
    rw (updatetime-now s sec usec rest clock, nearest_diff-until fuel sl t (e ∷ es) i near)
      (returns (choice-Waits (e.score - now) hint))
