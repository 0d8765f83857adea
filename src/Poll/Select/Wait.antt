-- ===== src/Poll/Select/Wait.antt =====
-- `ep_select_wait` of src/ep_select.h, then `ep_select_fetch` until it has no more.
use mathlib.Core.List.{reverse}
use libep.Base.{
  ℕ, suc, ◌<◌, ◌≤◌, ◌≡◌, ◌∙◌, refl, ap, Option, none, some, List, [], ◌∷◌, map, arith, length,
}
use libep.Base.Int.{ℤ, pos, pos_part, add_one}
use libep.Base.Arrays.{get_elem?, take}
use libep.Poll.Drain.{fetch_all, fetch_all-reverse}
use libep.Poll.Flags.{Time, time_of}
use libep.Poll.Select.Defs.{FdSet, Event, State, Selected, fini, wait, fetch, collect}
use libep.Poll.Select.Invariant.{IsValid}
use libep.Poll.Select.Collect.{
  ready_events, length-collect, collect_rest, take-collect, length-ready_events,
}

fetch-none : (s : State) (z : ℤ) → s.ready ≡ z → pos_part z ≡ 0 → fetch s ≡ some (pos 0, none, s)
unfolding fetch
fetch-none s z e h = ground arith

fetch-some :
    (s : State) (n : ℕ) (e : Event)
    → s.ready ≡ pos (suc n)
    → get_elem? s.ee n ≡ some e
    → fetch s ≡ some (pos (suc n), some e, record s { ready = pos n })
unfolding fetch
fetch-some s n e r g = ground arith

map_same : (es : List Event) → map (λ e. e) es ≡ es
map_same [] = refl
map_same (e ∷ es) = ap (λ l. e ∷ l) (map_same es)

-- After `ep_select_fini`, a fetch of an event that was left reads freed memory.
fini_fetch :
    (s : State) (n : ℕ) → s.ready ≡ pos (suc n) → ((fini s).0 ≡ pos 0) × (fetch (fini s).1 ≡ none)
unfolding fini fetch
fini_fetch s n r = (refl, rw r refl)

module _ (size : ℕ) (select : ℤ → FdSet → FdSet → FdSet → Option Time → Selected) where
  -- What the `select` call of a wait returns.
  abbrev pub outcome : State → ℤ → Selected
  outcome s timeout = select (add_one s.maxfd) s.rfds s.wfds s.efds (time_of 1000 timeout)

  -- The events that a wait should report.
  abbrev pub reported : State → ℤ → List Event
  reported s timeout = ready_events (outcome s timeout) s.values size 0

  -- `ep_select_wait` keeps the invariant and returns what `select` returned.
  pub wait-IsValid :
      (s : State) (timeout : ℤ)
      → IsValid size s
      → IsValid size (wait size select s timeout).1
        × ((wait size select s timeout).0 ≡ (outcome s timeout).ret)
  unfolding wait
  wait-IsValid s timeout v = (
    record {
      covered = v.covered;
      bounded = v.bounded;
      values_size = v.values_size;
      ee_size = length-collect (outcome s timeout) s.values size 0 0 s.ee ∙ v.ee_size;
      unused = v.unused;
    },
    refl,
  )

  -- When `select` counts one event for each ready descriptor, a wait and the fetches after it
  -- report each ready descriptor once, with its events and its data, the highest descriptor first,
  -- and read inside the array.
  pub wait-fetch_all :
      (s : State) (timeout : ℤ) (k : ℕ)
      → IsValid size s
      → (outcome s timeout).ret ≡ pos (length (reported s timeout))
      → length (reported s timeout) < k
      → fetch_all fetch k (wait size select s timeout).1 ≡ some (reverse (reported s timeout))
  unfolding wait
  wait-fetch_all s timeout k v counted fuel =
      let r = outcome s timeout in
      let n = length (reported s timeout) in
      let filled = collect r s.values size 0 0 s.ee in
      let at : ℕ → State = λ m. record s { ready = pos m; ee = filled } in
      let room : n ≤ length filled = omega (
        arith,
        length-collect r s.values size 0 0 s.ee,
        v.ee_size,
        length-ready_events r s.values size 0,
      ) in
      ap (λ z. fetch_all fetch k (record s { ready = z; ee = filled })) counted
      ∙ fetch_all-reverse fetch (λ e. e) at filled (fetch-none (at 0) (pos 0) refl refl)
          (λ m e h. fetch-some (at (suc m)) m e refl h) k n room fuel
      ∙ ap (λ l. some (reverse l)) (map_same (take n filled))
      ∙ ap (λ l. some (reverse l))
          (take-collect r s.values size 0 0 s.ee n (omega arith)
            (omega (arith, v.ee_size, length-ready_events r s.values size 0))
            (let c : pos_part r.ret ≡ n = ap pos_part counted in omega arith))

  -- When `select` counts more events than there are ready descriptors, as it does for a descriptor
  -- that is both readable and writable, the first fetch after the wait reports what the slot held
  -- before the wait.
  pub wait_stale :
      (s : State) (timeout : ℤ) (n : ℕ) (e : Event)
      → (outcome s timeout).ret ≡ pos (suc n)
      → length (reported s timeout) ≤ n
      → get_elem? s.ee n ≡ some e
      → let t = (wait size select s timeout).1 in
        fetch t ≡ some (pos (suc n), some e, record t { ready = pos n })
  unfolding wait
  wait_stale s timeout n e counted few old =
      fetch-some _ n e counted
        (collect_rest (outcome s timeout) s.values size 0 0 s.ee n (omega arith) ∙ old)
