-- ===== src/Poll/Select/Reach.antt =====
-- What a client of src/ep_select.h can bring about: the states that its calls lead to.
use libep.Base.{
  ℕ, ◌≡◌, Bool, false, ◌||◌, Option, some, List, [], ◌∷◌, leb, ◌==◌, if◌then◌else◌, length,
}
use libep.Base.Int.{ℤ, exceeds, is_nat}
use libep.Base.Arrays.{get_or}
use libep.Poll.Flags.{ep_readable, ep_writable, ep_except, has, Time}
use libep.Poll.Select.Defs.{FdSet, Event, State, Selected, init, add, mod_events, del, wait, fetch}
use libep.Poll.Select.Invariant.{IsValid}

-- The calls that register, with the descriptor, the events and the data.
pub data Call : Type 0 where
  adds : (fd events value : ℕ) → Call
  modifies : (fd events value : ℕ) → Call
  deletes : (fd : ℕ) → Call

-- Whether the calls, the latest one first, ask for the event `bit` of descriptor `i`. A call on a
-- descriptor that is out of range asks for nothing.
unfoldable pub wants : (size : ℕ) → List Call → (bit i : ℕ) → Bool
wants size [] bit i = false
wants size (adds fd events value ∷ calls) bit i =
    let before = wants size calls bit i in
    if leb size fd then before else if i == fd then before || has events bit else before
wants size (modifies fd events value ∷ calls) bit i =
    let before = wants size calls bit i in
    if leb size fd then before else if i == fd then has events bit else before
wants size (deletes fd ∷ calls) bit i =
    let before = wants size calls bit i in if i == fd then false else before

-- The data that the calls leave with descriptor `i`; memory from `calloc` is 0.
unfoldable pub stored : (size : ℕ) → List Call → (i : ℕ) → ℕ
stored size [] i = 0
stored size (adds fd events value ∷ calls) i =
    let before = stored size calls i in
    if leb size fd then before else if i == fd then value else before
stored size (modifies fd events value ∷ calls) i =
    let before = stored size calls i in
    if leb size fd then before else if i == fd then value else before
stored size (deletes fd ∷ calls) i = stored size calls i

module _ (size : ℕ) (select : ℤ → FdSet → FdSet → FdSet → Option Time → Selected) where
  -- The calls of a client that modifies no descriptor above `maxfd` and never deletes `maxfd`.
  pub data Reaches : List Call → State → Type 0 where
    starts :
        (values : List ℕ) (ee : List Event) {s : State}
        → length values ≡ size
        → length ee ≡ size
        → ((i : ℕ) → get_or values i 0 ≡ 0)
        → init (some values) (some ee) ≡ some s
        → Reaches [] s
    adding :
        {calls : List Call} {s : State} (fd events value : ℕ)
        → Reaches calls s
        → Reaches (adds fd events value ∷ calls) (add size s fd events value).1
    modifying :
        {calls : List Call} {s : State} (fd events value : ℕ)
        → exceeds fd s.maxfd ≡ false
        → Reaches calls s
        → Reaches (modifies fd events value ∷ calls) (mod_events size s fd events value).1
    deleting :
        {calls : List Call} {s : State} (fd : ℕ)
        → is_nat fd s.maxfd ≡ false
        → Reaches calls s
        → Reaches (deletes fd ∷ calls) (del s fd).1
    waiting :
        {calls : List Call} {s : State} (timeout : ℤ)
        → Reaches calls s
        → Reaches calls (wait size select s timeout).1
    fetching :
        {calls : List Call} {s t : State} {ret : ℤ} {event : Option Event}
        → fetch s ≡ some (ret, event, t)
        → Reaches calls s
        → Reaches calls t

  -- The sets and the data are what the calls ask for, on top of the invariant.
  pub record Watches (calls : List Call) (s : State) : Type 0 where
    pub valid : IsValid size s
    pub read : (i : ℕ) → s.rfds i ≡ wants size calls ep_readable i
    pub write : (i : ℕ) → s.wfds i ≡ wants size calls ep_writable i
    pub except : (i : ℕ) → s.efds i ≡ wants size calls ep_except i
    pub value : (i : ℕ) → get_or s.values i 0 ≡ stored size calls i
