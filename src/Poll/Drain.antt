-- ===== src/Poll/Drain.antt =====
-- The loop of a client of the poll interface, `while (ep_pollapi_fetch(...) > 0)`, over the `fetch`
-- of any engine (src/ep_select.h, src/ep_epoll.h, src/ep_kqueue.h).
use mathlib.Core.List.{reverse, reverse-append, map-append}
use libep.Base.{ℕ, zero, suc, ◌<◌, ◌≤◌, ◌≡◌, Option, none, some, List, [], ◌∷◌, map, arith, length}
use libep.Base.Int.{ℤ, pos}
use libep.Base.Arrays.{get_elem?, take, take_snoc}

-- A `fetch` returns its result, the event that it stores through its out parameters if there is
-- one, and the new state; `none` is a read outside the array.
abbrev pub Fetch : Type 0 → Type 0 → Type 0
Fetch S E = S → Option (ℤ × Option E × S)

module _ {S E : Type 0} (fetch : Fetch S E) where
  -- The events in the order that the client sees them; `none` also if the fuel runs out.
  unfoldable pub fetch_all : ℕ → S → Option (List E)
  fetch_all zero s = none
  fetch_all (suc k) s = elim (fetch s) [
    | none ↦ none
    | some (ret, none, t) ↦ some []
    | some (ret, some e, t) ↦ elim (fetch_all k t) [ none ↦ none | some es ↦ some (e ∷ es) ]
  ]

  fetch_all-stop :
      (k : ℕ) (s t : S) (ret : ℤ) → fetch s ≡ some (ret, none, t) → fetch_all (suc k) s ≡ some []
  unfolding fetch_all
  fetch_all-stop k s t ret h = rw (h, fetch_all)

  fetch_all-more :
      (k : ℕ) (s t : S) (ret : ℤ) (e : E) (es : List E)
      → fetch s ≡ some (ret, some e, t)
      → fetch_all k t ≡ some es
      → fetch_all (suc k) s ≡ some (e ∷ es)
  unfolding fetch_all
  fetch_all-more k s t ret e es h r = ground arith

  -- An engine that hands out the slots of an array from `n - 1` down to 0, each as `view` shows it:
  -- the loop ends, and the client sees the first `n` slots, last one first.
  module _ {R : Type 0} (view : R → E) (at : ℕ → S) (slots : List R)
      (stop : fetch (at 0) ≡ some (pos 0, none, at 0))
      (step : (n : ℕ) (e : R)
        → get_elem? slots n ≡ some e
        → fetch (at (suc n)) ≡ some (pos (suc n), some (view e), at n)) where
    pub fetch_all-reverse :
        (k n : ℕ)
        → n ≤ length slots
        → n < k
        → fetch_all k (at n) ≡ some (reverse (map view (take n slots)))
    fetch_all-reverse zero n room fuel = absurd (omega arith)
    fetch_all-reverse (suc k) zero room fuel = fetch_all-stop k (at 0) (at 0) (pos 0) stop
    fetch_all-reverse (suc k) (suc n) room fuel =
        let (e, here, snoc) = take_snoc slots n room in
        rw
          (
            snoc,
            map-append view (take n slots) (e ∷ []),
            reverse-append (map view (take n slots)) (view e ∷ []),
          )
          (fetch_all-more k (at (suc n)) (at n) (pos (suc n)) (view e)
            (reverse (map view (take n slots))) (step n e here)
            (fetch_all-reverse k n (omega arith) (omega arith)))
