-- ===== src/TaskQueue/Defs.antt =====
-- The operations of src/ep_task_queue.h. `malloc` and `free` are those of the C library: `malloc`
-- hands out the addresses of `available` in turn, and null when none is left or the next is null.
use libep.Base.{
  ℕ, Option, none, some, List, [], ◌∷◌, ◌++◌, ◌==◌, if◌then◌else◌, Cmd, ok, fault, out_of_fuel,
  ◌>>=◌, ◌>>◌, pure,
}
use libep.ListHead
use libep.ListHead.{Ptr, null, Links, update}
use libep.ListHead.Loop

-- The members `fn` and `arg` of `struct ep_callback_s`; its member `list` is in `Links`.
pub record Callback : Type 0 where
  pub fn : ℕ
  pub arg : ℕ

-- The memory. `calls` records the callbacks made so far.
pub record Store : Type 0 where
  pub links : Links
  pub callback : Ptr → Option Callback
  pub available : List Ptr
  pub calls : List Callback

unfoldable pub on_links : {A : Type 0} → Cmd Links A → Cmd Store A
on_links c s = elim (c s.links) [
  | ok a m ↦ ok a (record s { links = m })
  | fault ↦ fault
  | out_of_fuel ↦ out_of_fuel
]

-- A new object's fields hold something, and are written before they are read.
abbrev pub allocated : Ptr → List Ptr → Store → Store
allocated p rest s = record s {
  links = record {
    next = update s.links.next p (some null);
    prev = update s.links.prev p (some null);
  };
  callback = update s.callback p (some (record { fn = 0; arg = 0 }));
  available = rest;
}

unfoldable pub malloc : Cmd Store Ptr
malloc s = elim s.available [
  | [] ↦ ok null s
  | p ∷ rest ↦
      if p == null then ok null (record s { available = rest }) else ok p (allocated p rest s)
]

abbrev pub released : Ptr → Store → Store
released p s = record s {
  links = record { next = update s.links.next p none; prev = update s.links.prev p none };
  callback = update s.callback p none;
}

unfoldable pub free : Ptr → Cmd Store (Unit {0})
free p s = elim (s.callback p) [ none ↦ fault | some _ ↦ ok tt (released p s) ]

unfoldable pub get_callback : Ptr → Cmd Store Callback
get_callback p s = elim (s.callback p) [ none ↦ fault | some c ↦ ok c s ]

-- `cb->fn = fn; cb->arg = arg`
unfoldable pub set_callback : Ptr → Callback → Cmd Store (Unit {0})
set_callback p c s = elim (s.callback p) [
  | none ↦ fault
  | some _ ↦ ok tt (record s { callback = update s.callback p (some c) })
]

unfoldable pub init : Ptr → Cmd Store (Unit {0})
init q = on_links (ListHead.init q)

unfoldable pub push : Ptr → Callback → Cmd Store Ptr
push q c = do
  cb ← malloc
  if cb == null then pure null else do
    on_links (ListHead.init cb)
    on_links (ListHead.add_tail cb q)
    set_callback cb c
    pure cb

unfoldable pub cancel : Ptr → Cmd Store (Unit {0})
cancel id = on_links (ListHead.del id) >> free id

unfoldable pub fini_body : Ptr → Cmd Store (Unit {0})
fini_body pos = on_links (ListHead.del pos) >> free pos

unfoldable pub fini : ℕ → Ptr → Cmd Store (Unit {0})
unfolding fini_body
fini k q = Loop.for_each_safe (λ p. on_links (ListHead.get_next p)) fini_body q k

-- The record that a callback was made.
abbrev pub record_call : Callback → Cmd Store (Unit {0})
record_call c s = ok tt (record s { calls = s.calls ++ c ∷ [] })

-- The functions that call back, over what the client's functions do.
module _ (client : Callback → Cmd Store (Unit {0})) where
  -- `ep_call`
  unfoldable pub call : Callback → Cmd Store (Unit {0})
  call c = record_call c >> client c

  unfoldable pub run_body : Ptr → Cmd Store (Unit {0})
  run_body pos = do on_links (ListHead.del pos); c ← get_callback pos; call c; free pos

  unfoldable pub run : ℕ → Ptr → Cmd Store (Unit {0})
  run k q = Loop.for_each_safe (λ p. on_links (ListHead.get_next p)) run_body q k

  unfoldable pub run_keep_body : Ptr → Cmd Store (Unit {0})
  run_keep_body pos = do c ← get_callback pos; call c

  unfoldable pub run_keep : ℕ → Ptr → Cmd Store (Unit {0})
  run_keep k q = Loop.for_each (λ p. on_links (ListHead.get_next p)) run_keep_body q k

  unfoldable pub run_once : Ptr → Cmd Store (Unit {0})
  run_once q = do
    nothing ← on_links (ListHead.empty q)
    if nothing then pure tt else do pos ← on_links (ListHead.get_next q); run_body pos
