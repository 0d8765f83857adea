-- ===== src/Poll/Kqueue/Tests.antt =====
-- The theorems on src/ep_kqueue.h over a small kernel.
use libep.Base.{
  ℕ, zero, suc, ◌≤◌, ◌≡◌, refl, ap, Bool, true, false, Option, none, some, List, [], ◌∷◌, arith,
  ◌==◌, if◌then◌else◌, length,
}
use libep.Base.Int.{ℤ, pos}
use libep.Base.Arrays.{take}
use libep.Poll.Drain.{fetch_all}
use libep.Poll.Flags.{Time}
use libep.Poll.Kqueue.Defs.{
  evfilt_read, is_read, ev_add, ev_eof, Kevent, Kernel, State, from_kqueue, wait, fetch,
}
use libep.Poll.Kqueue.Register.{KernelLaws}
use libep.Poll.Kqueue.Wait.{IsValid, wait-report_kevents}

-- A kernel with one queue: the data of the filters.
record Filters : Type 0 where
  reads : ℕ → Option ℕ
  writes : ℕ → Option ℕ

abbrev put : ℕ → Option ℕ → (ℕ → Option ℕ) → ℕ → Option ℕ
put fd v f i = if i == fd then v else f i

abbrev delete_read_at : Option ℕ → ℕ → Filters → Bool × Filters
delete_read_at none fd k = (false, k)
delete_read_at (some v) fd k = (true, record k { reads = put fd none k.reads })

abbrev delete_write_at : Option ℕ → ℕ → Filters → Bool × Filters
delete_write_at none fd k = (false, k)
delete_write_at (some v) fd k = (true, record k { writes = put fd none k.writes })

abbrev apply : Kevent → Filters → Bool × Filters
apply e k =
    if e.flags == ev_add
    then (if is_read e.filter
        then (true, record k { reads = put e.ident (some e.udata) k.reads })
        else (true, record k { writes = put e.ident (some e.udata) k.writes }))
    else (if is_read e.filter
        then delete_read_at (k.reads e.ident) e.ident k
        else delete_write_at (k.writes e.ident) e.ident k)

abbrev ready_of : Option ℕ → List Kevent
ready_of none = []
ready_of (some v) = record { ident = 4; filter = evfilt_read; flags = ev_eof; udata = v } ∷ []

abbrev small : Kernel Filters
small = record {
  kqueue = λ k. (pos 3, k);
  close = λ fd k. k;
  kevent = λ efd e t k. apply e k;
  kevent_wait = λ efd n t k. (some (take n (ready_of (k.reads 4))), k);
}

length-take : (n : ℕ) (es : List Kevent) → length (take n es) ≤ n
length-take zero es = ground arith
length-take (suc n) [] = omega arith
length-take (suc n) (e ∷ es) = omega (arith, length-take n es)

small_bounded :
    (k : Filters) (efd : ℤ) (n : ℕ) (timeout : Option Time) (es : List Kevent)
    → (small.kevent_wait efd n timeout k).0 ≡ some es
    → length es ≤ n
small_bounded k efd n timeout es e = ground (arith, length-take n (ready_of (k.reads 4)), e)

abbrev small-KernelLaws : KernelLaws small
small-KernelLaws = record {
  reads = λ k efd fd. k.reads fd;
  writes = λ k efd fd. k.writes fd;
  add_read = λ k efd fd value. (refl, λ i. refl, λ i. refl);
  add_write = λ k efd fd value. (refl, λ i. refl, λ i. refl);
  delete_read = λ k efd fd old h.
      let e : delete_read_at (k.reads fd) fd k ≡ (true, record k { reads = put fd none k.reads }) =
        ap (λ o. delete_read_at o fd k) h in
      (ap (λ r. r.0) e, λ i. ap (λ r. r.1.reads i) e, λ i. ap (λ r. r.1.writes i) e);
  delete_write = λ k efd fd old h.
      let e : delete_write_at (k.writes fd) fd k
          ≡ (true, record k { writes = put fd none k.writes }) =
        ap (λ o. delete_write_at o fd k) h in
      (ap (λ r. r.0) e, λ i. ap (λ r. r.1.reads i) e, λ i. ap (λ r. r.1.writes i) e);
  delete_no_read = λ k efd fd h. ap (λ o. delete_read_at o fd k) h;
  wait_bounded = small_bounded;
}

abbrev engine : State
engine = record {
  efd = pos 3;
  ready = pos 0;
  sz = 1;
  ee = record { ident = 0; filter = evfilt_read; flags = 0; udata = 0 } ∷ [];
}

abbrev empty : Filters
empty = record { reads = λ i. none; writes = λ i. none }

abbrev four : Filters
four = record { reads = put 4 (some 40) (λ i. none); writes = put 4 (some 40) (λ i. none) }

wait-report_kevents_example :
    let t = (wait small engine (pos 5) four).1 in
    (fetch_all fetch 2 t ≡ some (record { events = 1; value = 40 } ∷ [])) × IsValid t
unfolding from_kqueue
wait-report_kevents_example =
    wait-report_kevents small small-KernelLaws engine (pos 5) four (ready_of (some 40)) 2
      (record { ee_size = refl }) refl (omega arith)
