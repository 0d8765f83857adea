-- ===== src/Poll/Epoll/Wait.antt =====
-- `ep_epoll_init`, and `ep_epoll_wait` with the fetches after it (src/ep_epoll.h).
use mathlib.Core.List.{reverse}
use libep.Base.{ℕ, suc, ◌<◌, ◌≤◌, ◌≡◌, ◌∙◌, refl, ap, none, some, List, map, arith, length}
use libep.Base.Int.{ℤ, pos, minus_one}
use libep.Base.Arrays.{get_elem?, fill, length-fill, take-fill}
use libep.Poll.Drain.{fetch_all, fetch_all-reverse}
use libep.Poll.Epoll.Defs.{Event, Kernel, State, wait, fetch, report}
use libep.Poll.Epoll.Register.{KernelLaws}

-- The array has a slot for each event that `epoll_wait` may return.
pub record IsValid (s : State) : Type 0 where
  pub ee_size : length s.ee ≡ s.sz

pub fetch-some :
    (s : State) (n : ℕ) (e : Event)
    → s.ready ≡ pos (suc n)
    → get_elem? s.ee n ≡ some e
    → fetch s ≡ some (pos (suc n), some (report e), record s { ready = pos n })
unfolding fetch
fetch-some s n e r g = ground arith

module _ {K : Type 0} (kernel : Kernel K) (laws : KernelLaws kernel) where
  -- What a wait makes of the state, when `epoll_wait` returns the events `es`.
  wait-ok :
      (s : State) (timeout : ℤ) (k : K) (es : List Event)
      → (kernel.epoll_wait s.efd s.sz timeout k).0 ≡ some es
      → (wait kernel s timeout k).1 ≡ record s { ready = pos (length es); ee = fill es s.ee }
  unfolding wait
  wait-ok s timeout k es e = ground arith

  -- A wait and the fetches after it report each event that the kernel returned, once, with its
  -- data, last one first, and read inside the array; and the state stays valid.
  pub wait-report_all :
      (s : State) (timeout : ℤ) (k : K) (es : List Event) (fuel : ℕ)
      → IsValid s
      → (kernel.epoll_wait s.efd s.sz timeout k).0 ≡ some es
      → length es < fuel
      → let t = (wait kernel s timeout k).1 in
        (fetch_all fetch fuel t ≡ some (reverse (map report es))) × IsValid t
  unfolding fetch
  wait-report_all s timeout k es fuel v e enough =
      let room : length es ≤ length s.ee =
        omega (arith, laws.wait_bounded k s.efd s.sz timeout es e, v.ee_size) in
      let at : ℕ → State = λ n. record s { ready = pos n; ee = fill es s.ee } in
      let seen =
        fetch_all-reverse fetch report at (fill es s.ee) refl
          (λ n e h. fetch-some (at (suc n)) n e refl h) fuel (length es)
          (omega (arith, length-fill es s.ee)) enough in
      rw (wait-ok s timeout k es e) (
        seen ∙ ap (λ l. some (reverse (map report l))) (take-fill es s.ee room),
        record { ee_size = length-fill es s.ee ∙ v.ee_size },
      )

  -- When `epoll_wait` fails, `ep_epoll_wait` returns -1 and the next fetch reports nothing.
  pub wait_failed :
      (s : State) (timeout : ℤ) (k : K)
      → (kernel.epoll_wait s.efd s.sz timeout k).0 ≡ none
      → let (ret, t, k') = wait kernel s timeout k in
        (ret ≡ minus_one) × (fetch t ≡ some (pos 0, none, t))
  unfolding wait fetch
  wait_failed s timeout k e = (ground arith, ground arith)
