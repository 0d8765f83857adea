-- ===== src/Poll/Kqueue/Register.antt =====
-- The registrations of src/ep_kqueue.h, against what kqueue(2) says of `kevent`.
use libep.Base.{
  ℕ, ◌≡◌, ◌∙◌, true, false, ◌&&◌, Option, none, some, List, arith, ◌==◌, if◌then◌else◌, length, ◌≤◌,
}
use libep.Base.Int.{ℤ, pos}
use libep.Poll.Flags.{ep_readable, ep_writable, has, Time}
use libep.Poll.Kqueue.Defs.{
  evfilt_read, evfilt_write, Kevent, Kernel, State, ev_set, ev_add, ev_delete, add, del,
}

-- `value k efd fd filter` is the data of the filter that the queue `efd` has for `fd`, if it has
-- one. A change that adds a filter always succeeds; one that deletes a filter that is not there
-- fails and changes nothing.
pub record KernelLaws {K : Type 0} (kernel : Kernel K) : Type 0 where
  pub reads : K → ℤ → ℕ → Option ℕ
  pub writes : K → ℤ → ℕ → Option ℕ
  pub add_read :
      (k : K) (efd : ℤ) (fd value : ℕ)
      → let (done, k') = kernel.kevent efd (ev_set fd evfilt_read ev_add value) none k in
        (done ≡ true)
        × ((i : ℕ) → reads k' efd i ≡ (if i == fd then some value else reads k efd i))
        × ((i : ℕ) → writes k' efd i ≡ writes k efd i)
  pub add_write :
      (k : K) (efd : ℤ) (fd value : ℕ)
      → let (done, k') = kernel.kevent efd (ev_set fd evfilt_write ev_add value) none k in
        (done ≡ true)
        × ((i : ℕ) → reads k' efd i ≡ reads k efd i)
        × ((i : ℕ) → writes k' efd i ≡ (if i == fd then some value else writes k efd i))
  pub delete_read :
      (k : K) (efd : ℤ) (fd old : ℕ)
      → reads k efd fd ≡ some old
      → let (done, k') = kernel.kevent efd (ev_set fd evfilt_read ev_delete 0) none k in
        (done ≡ true)
        × ((i : ℕ) → reads k' efd i ≡ (if i == fd then none else reads k efd i))
        × ((i : ℕ) → writes k' efd i ≡ writes k efd i)
  pub delete_write :
      (k : K) (efd : ℤ) (fd old : ℕ)
      → writes k efd fd ≡ some old
      → let (done, k') = kernel.kevent efd (ev_set fd evfilt_write ev_delete 0) none k in
        (done ≡ true)
        × ((i : ℕ) → reads k' efd i ≡ reads k efd i)
        × ((i : ℕ) → writes k' efd i ≡ (if i == fd then none else writes k efd i))
  pub delete_no_read :
      (k : K) (efd : ℤ) (fd : ℕ)
      → reads k efd fd ≡ none
      → kernel.kevent efd (ev_set fd evfilt_read ev_delete 0) none k ≡ (false, k)
  pub wait_bounded :
      (k : K) (efd : ℤ) (n : ℕ) (timeout : Option Time) (es : List Kevent)
      → (kernel.kevent_wait efd n timeout k).0 ≡ some es
      → length es ≤ n

module _ {K : Type 0} (kernel : Kernel K) (laws : KernelLaws kernel) (s : State) (fd : ℕ) where
  open laws use {reads, writes}

  -- `ep_kqueue_add` returns 0, and registers the read filter and the write filter exactly as far as
  -- they are wanted; every other filter stays as it was.
  pub add_filters :
      (events value : ℕ) (k : K)
      → let (ret, k') = add kernel s fd events value k in
        (ret ≡ pos 0)
        × ((i : ℕ)
            → reads k' s.efd i
              ≡ (if (i == fd) && has events ep_readable then some value else reads k s.efd i))
        × ((i : ℕ)
            → writes k' s.efd i
              ≡ (if (i == fd) && has events ep_writable then some value else writes k s.efd i))
  unfolding add
  add_filters events value k =
      let r = laws.add_read k s.efd fd value in
      let k' = (kernel.kevent s.efd (ev_set fd evfilt_read ev_add value) none k).1 in
      let w = laws.add_write k' s.efd fd value in
      let w' = laws.add_write k s.efd fd value in
      (
        ground (arith, r.0, w.0, w'.0),
        λ i. ground (arith, r.0, w.0, w'.0, r.1 i, w.1 i, w'.1 i),
        λ i. ground (arith, r.0, w.0, w'.0, r.2 i, w.2 i, w'.2 i),
      )

  -- Of a descriptor with both filters, `ep_kqueue_del` returns 0 and deletes both, and no other.
  pub del_both :
      (k : K) (old old' : ℕ)
      → reads k s.efd fd ≡ some old
      → writes k s.efd fd ≡ some old'
      → let (ret, k') = del kernel s fd k in
        (ret ≡ pos 0)
        × ((i : ℕ) → reads k' s.efd i ≡ (if i == fd then none else reads k s.efd i))
        × ((i : ℕ) → writes k' s.efd i ≡ (if i == fd then none else writes k s.efd i))
  unfolding del
  del_both k old old' hr hw =
      let r = laws.delete_read k s.efd fd old hr in
      let k' = (kernel.kevent s.efd (ev_set fd evfilt_read ev_delete 0) none k).1 in
      let w = laws.delete_write k' s.efd fd old' (r.2 fd ∙ hw) in
      (
        ground (arith, r.0, w.0),
        λ i. ground (arith, r.0, w.0, r.1 i, w.1 i),
        λ i. ground (arith, r.0, w.0, r.2 i, w.2 i),
      )
