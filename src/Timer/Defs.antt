-- ===== src/Timer/Defs.antt =====
-- The operations of src/ep_timer.h. A timer node is an address in the memory of the skip list; its
-- members `ms`, `cb` and `arg` are in `info`. `malloc` hands out the addresses of `available` in
-- turn; `random` returns the numbers of `draws`, and `gettimeofday` the seconds and microseconds of
-- `clock`. `fuel` bounds the loops.
use libep.Base.{
  false, leb, zero, suc, ◌++◌, ℕ, ◌+◌, ◌-◌, ◌*◌, ◌/◌, ◌%◌, ◌^◌, Bool, Option, none, some, List, [],
  ◌∷◌, ltb, ◌==◌, if◌then◌else◌, Cmd, ok, fault, out_of_fuel, ◌>>=◌, ◌>>◌, pure,
}
use libep.Base.Int.{ℤ, pos, negsuc, minus_one}
use libep.ListHead.{Ptr, null, update}
use libep.Skiplist.Defs.{
  extract_lte, Nodes, node_init, random_level, insert, delete, get_forward, get_score,
}

-- `SKIPLIST_DECLARE_TYPE(timer, 8, uint64_t, 0.25)`
abbrev pub levels : ℕ
levels = 8

-- `(r & 0xFFFF) < 0.25 * 0xFFFF`
abbrev pub passes : ℕ → Bool
passes r = ltb (r % 65536) 16384

pub record Info : Type 0 where
  pub ms : ℕ
  pub cb : ℕ
  pub arg : ℕ

pub record Timers : Type 0 where
  pub nodes : Nodes
  pub info : Ptr → Option Info
  pub now : ℕ
  pub available : List Ptr
  pub draws : List ℕ
  pub clock : List (ℕ × ℕ)
  pub calls : List (ℕ × ℕ)

-- A step on the skip list.
unfoldable pub on_nodes : {A : Type 0} → Cmd Nodes A → Cmd Timers A
on_nodes c s = elim (c s.nodes) [
  | ok a m ↦ ok a (record s { nodes = m })
  | fault ↦ fault
  | out_of_fuel ↦ out_of_fuel
]

-- `ep__timer_node_create`
unfoldable pub create : Cmd Timers Ptr
create s = elim s.available [
  | [] ↦ ok null s
  | p ∷ rest ↦
      if p == null
      then ok null (record s { available = rest })
      else ok p (record s {
        available = rest;
        info = update s.info p (some (record { ms = 0; cb = 0; arg = 0 }));
      })
]

-- The memory of a skip list node given back.
abbrev pub without : Ptr → Nodes → Nodes
without p m = record { score = update m.score p none; forward = λ i. update (m.forward i) p none }

-- `ep__timer_node_destroy`
unfoldable pub destroy : Ptr → Cmd Timers (Unit {0})
destroy p s = elim (s.info p) [
  | none ↦ fault
  | some _ ↦ ok tt (record s { info = update s.info p none; nodes = without p s.nodes })
]

unfoldable pub get_info : Ptr → Cmd Timers Info
get_info p s = elim (s.info p) [ none ↦ fault | some i ↦ ok i s ]

unfoldable pub set_info : Ptr → Info → Cmd Timers (Unit {0})
set_info p i s = elim (s.info p) [
  | none ↦ fault
  | some _ ↦ ok tt (record s { info = update s.info p (some i) })
]

-- `ep_timer_updatetime`; the clock runs as long as it is read.
unfoldable pub updatetime : Cmd Timers ℕ
updatetime s = elim s.clock [
  | [] ↦ out_of_fuel
  | (sec, usec) ∷ clock ↦
      let t = sec * 1000 + usec / 1000 in ok t (record s { now = t; clock = clock })
]

-- `ep_timer_gettime`
abbrev pub gettime : Timers → ℕ
gettime s = s.now

-- `ret` as the `int` that the function returns.
abbrev pub to_int : ℕ → ℤ
to_int n = let r = n % 2 ^ 32 in if ltb r (2 ^ 31) then pos r else negsuc (2 ^ 32 - 1 - r)

module _ (fuel : ℕ) (sl : Ptr) where
  -- `skiplist_insert(timer, ...)`, with the level that it draws.
  unfoldable pub insert_drawn : Ptr → Cmd Timers (Unit {0})
  insert_drawn node s = elim (random_level passes s.draws 1) [
    | none ↦ out_of_fuel
    | some (l, draws) ↦ on_nodes (insert fuel levels l sl node) (record s { draws = draws })
  ]

  -- `ep_timer_run_after` and `ep_timer_run_every`, which differ in `node->ms`.
  unfoldable pub start : (period delay cb arg : ℕ) → Cmd Timers Ptr
  start period delay cb arg = do
    node ← create
    if node == null then pure null else (λ s.
        (do
          on_nodes (λ m. ok tt (node_init levels node ((gettime s + delay) % 2 ^ 64) m))
          set_info node (record { ms = period; cb = cb; arg = arg })
          insert_drawn node
          pure node)
          s)

  unfoldable pub run_after : (ms cb arg : ℕ) → Cmd Timers Ptr
  unfolding start
  run_after ms cb arg = start 0 ms cb arg

  unfoldable pub run_every : (ms cb arg : ℕ) → Cmd Timers Ptr
  unfolding start
  run_every ms cb arg = start ms ms cb arg

  unfoldable pub nearest_diff : Cmd Timers ℤ
  nearest_diff = do
    first ← on_nodes (get_forward 0 sl)
    if first == null then pure minus_one else (λ s.
        (do
          nearest ← on_nodes (get_score first)
          pure (to_int (let now = gettime s in if ltb now nearest then nearest - now else 0)))
          s)

  unfoldable pub clear : Ptr → Cmd Timers (Unit {0})
  clear id = on_nodes (delete fuel levels sl id) >> destroy id

  unfoldable pub cleartimeout : Ptr → Cmd Timers (Unit {0})
  cleartimeout id = clear id

  unfoldable pub clearinterval : Ptr → Cmd Timers (Unit {0})
  clearinterval id = clear id

  -- `ep_timer_settimeout` and `ep_timer_setinterval`
  unfoldable pub settimeout : (ms cb arg : ℕ) → Cmd Timers Ptr
  settimeout ms cb arg = do t ← updatetime; run_after ms cb arg

  unfoldable pub setinterval : (ms cb arg : ℕ) → Cmd Timers Ptr
  setinterval ms cb arg = do t ← updatetime; run_every ms cb arg

-- `n ? n->forward[0] : NULL`
unfoldable pub next_or_null : Ptr → Cmd Timers Ptr
next_or_null n = if n == null then pure null else on_nodes (get_forward 0 n)

-- `max_times >= 0 && --max_times <= 0`, and `max_times` after it.
abbrev pub stops : ℤ → Bool
stops (pos m) = leb m 1
stops (negsuc m) = false

abbrev pub lowered : ℤ → ℤ
lowered (pos m) = pos (m - 1)
lowered (negsuc m) = negsuc m

-- `timer_node->n.score += timer_node->ms`
unfoldable pub postpone : Ptr → ℕ → Cmd Timers (Unit {0})
postpone p ms = do
  score ← on_nodes (get_score p)
  (λ s. ok tt (record s {
    nodes = record s.nodes { score = update s.nodes.score p (some ((score + ms) % 2 ^ 64)) };
  }))

-- The record that a callback was made.
abbrev pub record_call : ℕ → ℕ → Cmd Timers (Unit {0})
record_call cb arg s = ok tt (record s { calls = s.calls ++ (cb, arg) ∷ [] })

-- The functions that call back, over what the client's functions do.
module _ (client : (cb arg : ℕ) → Cmd Timers (Unit {0})) (fuel : ℕ) (sl : Ptr) where
  unfoldable pub execute_body : Ptr → Cmd Timers (Unit {0})
  execute_body node = do
    i ← get_info node
    record_call i.cb i.arg
    client i.cb i.arg
    j ← get_info node
    if ltb 0 j.ms then (do postpone node j.ms; insert_drawn fuel sl node) else destroy node

  unfoldable pub execute_from : ℕ → ℤ → (node n : Ptr) → Cmd Timers (Unit {0})
  execute_from zero max_times node n = λ _. out_of_fuel
  execute_from (suc k) max_times node n =
      if node == null
      then pure tt
      else (execute_body node
          >> (if stops max_times
              then pure tt
              else do m ← next_or_null n; execute_from k (lowered max_times) n m))

  unfoldable pub execute : (now : ℕ) (max_times : ℤ) → Cmd Timers (Unit {0})
  execute now max_times = do
    node ← on_nodes (extract_lte fuel levels sl now)
    n ← next_or_null node
    execute_from fuel max_times node n

  unfoldable pub execute_now : (limit : ℤ) → Cmd Timers (Unit {0})
  execute_now limit = do now ← updatetime; execute now limit

-- The loop of `skiplist_for_each_clear`.
unfoldable pub fini_from : ℕ → Ptr → Cmd Timers (Unit {0})
fini_from zero node = λ _. out_of_fuel
fini_from (suc k) node =
    if node == null
    then pure tt
    else do n ← on_nodes (get_forward 0 node); destroy node; fini_from k n

-- `ep_timer_init` and the end of `ep_timer_fini`: the header is zeroed.
unfoldable pub init : (sl : Ptr) → Cmd Timers (Unit {0})
init sl = on_nodes (λ m. ok tt (libep.Skiplist.Defs.init levels sl m))

unfoldable pub fini : ℕ → (sl : Ptr) → Cmd Timers (Unit {0})
fini fuel sl = do first ← on_nodes (get_forward 0 sl); fini_from fuel first; init sl
