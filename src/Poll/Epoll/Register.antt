-- ===== src/Poll/Epoll/Register.antt =====
-- The registrations of src/ep_epoll.h, against what the kernel documents of `epoll_ctl`.
use libep.Base.{ℕ, ◌≡◌, Option, none, some, List, arith, ◌==◌, if◌then◌else◌, length, ◌≤◌}
use libep.Base.Int.{ℤ, pos, minus_one}
use libep.Poll.Epoll.Defs.{
  Event, ctl_add, ctl_mod, ctl_del, Kernel, State, to_epoll, add, mod_events, del,
}

-- What epoll_ctl(2) and epoll_wait(2) say. `interest k efd fd` is what the instance `efd` is asked
-- to watch `fd` for, and the data that goes with it.
pub record KernelLaws {K : Type 0} (kernel : Kernel K) : Type 0 where
  pub interest : K → ℤ → ℕ → Option Event
  pub add_new :
      (k : K) (efd : ℤ) (fd : ℕ) (e : Event)
      → interest k efd fd ≡ none
      → let (ret, k') = kernel.epoll_ctl efd ctl_add fd (some e) k in
        (ret ≡ pos 0)
        × ((i : ℕ) → interest k' efd i ≡ (if i == fd then some e else interest k efd i))
  pub add_old :
      (k : K) (efd : ℤ) (fd : ℕ) (e old : Event)
      → interest k efd fd ≡ some old
      → kernel.epoll_ctl efd ctl_add fd (some e) k ≡ (minus_one, k)
  pub mod_old :
      (k : K) (efd : ℤ) (fd : ℕ) (e old : Event)
      → interest k efd fd ≡ some old
      → let (ret, k') = kernel.epoll_ctl efd ctl_mod fd (some e) k in
        (ret ≡ pos 0)
        × ((i : ℕ) → interest k' efd i ≡ (if i == fd then some e else interest k efd i))
  pub mod_new :
      (k : K) (efd : ℤ) (fd : ℕ) (e : Event)
      → interest k efd fd ≡ none
      → kernel.epoll_ctl efd ctl_mod fd (some e) k ≡ (minus_one, k)
  pub del_old :
      (k : K) (efd : ℤ) (fd : ℕ) (old : Event)
      → interest k efd fd ≡ some old
      → let (ret, k') = kernel.epoll_ctl efd ctl_del fd none k in
        (ret ≡ pos 0) × ((i : ℕ) → interest k' efd i ≡ (if i == fd then none else interest k efd i))
  pub del_new :
      (k : K) (efd : ℤ) (fd : ℕ)
      → interest k efd fd ≡ none
      → kernel.epoll_ctl efd ctl_del fd none k ≡ (minus_one, k)
  pub wait_bounded :
      (k : K) (efd : ℤ) (n : ℕ) (timeout : ℤ) (es : List Event)
      → (kernel.epoll_wait efd n timeout k).0 ≡ some es
      → length es ≤ n

module _ {K : Type 0} (kernel : Kernel K) (laws : KernelLaws kernel) (s : State) (fd : ℕ) where
  open laws use {interest}

  -- The request that `events` and `value` stand for.
  abbrev pub request : (events value : ℕ) → Event
  request events value = record { events = to_epoll events; value = value }

  -- A descriptor that is not watched: `ep_epoll_add` starts to watch it for the wanted events with
  -- its data and then `ep_epoll_del` stops it again, each returning 0, with every other descriptor
  -- watched as before.
  pub add-del :
      (events value : ℕ) (k : K)
      → interest k s.efd fd ≡ none
      → let (ret, k') = add kernel s fd events value k in
        let (ret', k'') = del kernel s fd k' in
        (ret ≡ pos 0)
        × (interest k' s.efd fd ≡ some (request events value))
        × (ret' ≡ pos 0)
        × ((i : ℕ) → interest k'' s.efd i ≡ interest k s.efd i)
  unfolding add del
  add-del events value k new =
      let added = laws.add_new k s.efd fd (request events value) new in
      let k' = (kernel.epoll_ctl s.efd ctl_add fd (some (request events value)) k).1 in
      let there : interest k' s.efd fd ≡ some (request events value) = ground (arith, added.1 fd) in
      let gone = laws.del_old k' s.efd fd (request events value) there in
      (added.0, there, gone.0, λ i. ground (arith, gone.1 i, added.1 i))

  -- A descriptor that is watched: `ep_epoll_add` fails and changes nothing, and `ep_epoll_mod`
  -- replaces what it is watched for and its data, whatever that was.
  pub add_mod_watched :
      (events value : ℕ) (k : K) (old : Event)
      → interest k s.efd fd ≡ some old
      → (add kernel s fd events value k ≡ (minus_one, k))
        × (let (ret, k') = mod_events kernel s fd events value k in
            (ret ≡ pos 0)
            × ((i : ℕ)
                → interest k' s.efd i
                  ≡ (if i == fd then some (request events value) else interest k s.efd i)))
  unfolding add mod_events
  add_mod_watched events value k old there = (
    laws.add_old k s.efd fd (request events value) old there,
    laws.mod_old k s.efd fd (request events value) old there,
  )

  -- A descriptor that is not watched: `ep_epoll_mod` and `ep_epoll_del` fail and change nothing.
  pub mod_del_unwatched :
      (events value : ℕ) (k : K)
      → interest k s.efd fd ≡ none
      → (mod_events kernel s fd events value k ≡ (minus_one, k))
        × (del kernel s fd k ≡ (minus_one, k))
  unfolding mod_events del
  mod_del_unwatched events value k new =
      (laws.mod_new k s.efd fd (request events value) new, laws.del_new k s.efd fd new)
