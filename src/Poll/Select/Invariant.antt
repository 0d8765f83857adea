-- ===== src/Poll/Select/Invariant.antt =====
-- The invariant of `ep_select_state_t`, and what the registrations of src/ep_select.h keep of it.
use libep.Base.{
  ℕ, ◌<◌, ◌≤◌, ◌≡◌, refl, Bool, true, false, ◌||◌, none, some, List, arith, ◌==◌, if◌then◌else◌,
  length,
}
use libep.Base.Int.{pos, minus_one, exceeds, pos_part, add_one}
use libep.Base.Arrays.{get_or, length-set, get_or-set}
use libep.Poll.Flags.{ep_readable, ep_writable, ep_except, has}
use libep.Poll.Select.Defs.{FdSet, fd_put, Event, State, init, add, mod_events}

-- What a client has asked for: a descriptor is in one of the three sets.
abbrev pub is_watched : State → ℕ → Bool
is_watched s i = s.rfds i || (s.wfds i || s.efds i)

-- The descriptors that are watched lie below `maxfd + 1`, which is what `select` is told to look
-- at, and below FD_SETSIZE; the arrays have a slot for each.
pub record IsValid (size : ℕ) (s : State) : Type 0 where
  pub covered : (i : ℕ) → is_watched s i ≡ true → exceeds i s.maxfd ≡ false
  pub bounded : pos_part (add_one s.maxfd) ≤ size
  pub values_size : length s.values ≡ size
  pub ee_size : length s.ee ≡ size
  pub unused : (i : ℕ) → s.fds i ≡ false

-- What a registration of `fd` makes of a set: the other descriptors stay as they were.
abbrev pub Sets : FdSet → FdSet → ℕ → Bool → Type 0
Sets before after fd b = (i : ℕ) → after i ≡ (if i == fd then b else before i)

module _ (size : ℕ) where
  -- `ep_select_init`, when both allocations succeed, succeeds, watches nothing and is valid; when
  -- either fails, it fails.
  pub init-IsValid :
      (values : List ℕ) (ee : List Event)
      → length values ≡ size
      → length ee ≡ size
      → (s : State) × (init (some values) (some ee) ≡ some s)
        × IsValid size s
        × ((i : ℕ) → is_watched s i ≡ false)
        × (init none (some ee) ≡ none)
        × (init (some values) none ≡ none)
  unfolding init
  init-IsValid values ee hv he = (
    _,
    refl,
    record {
      covered = λ i w. cc;
      bounded = omega arith;
      values_size = hv;
      ee_size = he;
      unused = λ i. refl;
    },
    λ i. refl,
    refl,
    refl,
  )

  module _ (s : State) (fd events value : ℕ) where
    covered-add :
        IsValid size s
        → (i : ℕ) → is_watched (add size s fd events value).1 i ≡ true
        → exceeds i (add size s fd events value).1.maxfd ≡ false
    unfolding add fd_put
    covered-add v i w = ground (arith, v.covered i)

    bounded-add : IsValid size s → pos_part (add_one (add size s fd events value).1.maxfd) ≤ size
    unfolding add
    bounded-add v = ground arith

    -- `ep_select_add` keeps the invariant, on every branch.
    pub add-IsValid : IsValid size s → IsValid size (add size s fd events value).1
    add-IsValid v = record {
      covered = covered-add v;
      bounded = bounded-add v;
      values_size = unfold add in ground (arith, length-set s.values fd value);
      ee_size = unfold add in ground arith;
      unused = unfold add in λ i. ground (arith, v.unused i);
    }

    covered-mod :
        IsValid size s
        → exceeds fd s.maxfd ≡ false
        → (i : ℕ) → is_watched (mod_events size s fd events value).1 i ≡ true
        → exceeds i (mod_events size s fd events value).1.maxfd ≡ false
    unfolding mod_events fd_put
    covered-mod v known i w = ground (arith, v.covered i)

    -- `ep_select_mod` keeps the invariant if the descriptor is not above `maxfd`, as one that was
    -- added is not.
    pub mod_events-IsValid :
        IsValid size s
        → exceeds fd s.maxfd ≡ false
        → IsValid size (mod_events size s fd events value).1
    mod_events-IsValid v known = record {
      covered = covered-mod v known;
      bounded = unfold mod_events in ground arith;
      values_size = unfold mod_events in ground (arith, length-set s.values fd value);
      ee_size = unfold mod_events in ground arith;
      unused = unfold mod_events in λ i. ground (arith, v.unused i);
    }

    room : IsValid size s → fd < size → fd < length s.values
    room v h = omega (arith, v.values_size)

    -- `ep_select_add` of a descriptor in range returns 0, adds the wanted events of that descriptor
    -- to what is watched (it withdraws none), and stores its data; nothing else changes.
    pub add_registers :
        IsValid size s
        → fd < size
        → let (ret, t) = add size s fd events value in
          (ret ≡ pos 0)
          × Sets s.rfds t.rfds fd (s.rfds fd || has events ep_readable)
          × Sets s.wfds t.wfds fd (s.wfds fd || has events ep_writable)
          × Sets s.efds t.efds fd (s.efds fd || has events ep_except)
          × ((i : ℕ) → get_or t.values i 0 ≡ (if i == fd then value else get_or s.values i 0))
    unfolding add fd_put
    add_registers v h = (
      ground arith,
      λ i. ground arith,
      λ i. ground arith,
      λ i. ground arith,
      λ i. ground (arith, get_or-set s.values fd i value 0 (room v h)),
    )

    -- `ep_select_mod` of a descriptor in range returns 0, watches exactly the wanted events of that
    -- descriptor, and stores its data; nothing else changes.
    pub mod_events_registers :
        IsValid size s
        → fd < size
        → let (ret, t) = mod_events size s fd events value in
          (ret ≡ pos 0)
          × Sets s.rfds t.rfds fd (has events ep_readable)
          × Sets s.wfds t.wfds fd (has events ep_writable)
          × Sets s.efds t.efds fd (has events ep_except)
          × ((i : ℕ) → get_or t.values i 0 ≡ (if i == fd then value else get_or s.values i 0))
    unfolding mod_events fd_put
    mod_events_registers v h = (
      ground arith,
      λ i. ground arith,
      λ i. ground arith,
      λ i. ground arith,
      λ i. ground (arith, get_or-set s.values fd i value 0 (room v h)),
    )

    -- Both refuse a descriptor out of range, and change nothing.
    pub out_of_range :
        size ≤ fd
        → (add size s fd events value ≡ (minus_one, s))
          × (mod_events size s fd events value ≡ (minus_one, s))
    unfolding add mod_events
    out_of_range h = (ground arith, ground arith)
