-- ===== src/SinglyList/Defs.antt =====
-- The operations of src/singly_list.h. A list head holds `begin` and `end`, and `end` points to a
-- pointer: to the head's own `begin` or to a node's `next`.
use libep.Base.{Bool, Option, none, some, ◌==◌, if◌then◌else◌, Cmd, ok, fault, ◌>>=◌, ◌>>◌, pure}
use libep.ListHead.{Ptr, null, update}

pub data Slot : Type 0 where
  begin_of next_of : Ptr → Slot

pub record Lists : Type 0 where
  pub next : Ptr → Option Ptr
  pub begin : Ptr → Option Ptr
  pub end : Ptr → Option Slot

unfoldable pub get_next : Ptr → Cmd Lists Ptr
get_next p m = elim (m.next p) [ none ↦ fault | some q ↦ ok q m ]

unfoldable pub set_next : Ptr → Ptr → Cmd Lists (Unit {0})
set_next p q m = elim (m.next p) [
  | none ↦ fault
  | some _ ↦ ok tt (record m { next = update m.next p (some q) })
]

unfoldable pub get_begin : Ptr → Cmd Lists Ptr
get_begin h m = elim (m.begin h) [ none ↦ fault | some q ↦ ok q m ]

unfoldable pub set_begin : Ptr → Ptr → Cmd Lists (Unit {0})
set_begin h q m = elim (m.begin h) [
  | none ↦ fault
  | some _ ↦ ok tt (record m { begin = update m.begin h (some q) })
]

unfoldable pub get_end : Ptr → Cmd Lists Slot
get_end h m = elim (m.end h) [ none ↦ fault | some e ↦ ok e m ]

unfoldable pub set_end : Ptr → Slot → Cmd Lists (Unit {0})
set_end h e m = elim (m.end h) [
  | none ↦ fault
  | some _ ↦ ok tt (record m { end = update m.end h (some e) })
]

-- `*slot = q`
unfoldable pub write : Slot → Ptr → Cmd Lists (Unit {0})
write (begin_of h) q = set_begin h q
write (next_of p) q = set_next p q

unfoldable pub init : Ptr → Cmd Lists (Unit {0})
init head = set_begin head null >> set_end head (begin_of head)

unfoldable pub init_node : Ptr → Cmd Lists (Unit {0})
init_node p = set_next p null

unfoldable pub push : (new_node head : Ptr) → Cmd Lists (Unit {0})
push new_node head = do
  end ← get_end head
  write end new_node
  set_end head (next_of new_node)
  set_next new_node null

unfoldable pub unshift : (new_node head : Ptr) → Cmd Lists (Unit {0})
unshift new_node head = do
  first ← get_begin head
  if first == null
      then (do set_begin head new_node; set_end head (next_of new_node); set_next new_node null)
      else (do set_next new_node first; set_begin head new_node)

unfoldable pub shift : (head : Ptr) → Cmd Lists Ptr
shift head = do
  first ← get_begin head
  if first == null then pure null else do
    second ← get_next first
    set_begin head second
    if second == null then pure first else do set_end head (begin_of head); pure first

unfoldable pub empty : (head : Ptr) → Cmd Lists Bool
empty head = do first ← get_begin head; pure (first == null)

unfoldable pub splice_nonempty : (list head : Ptr) → Cmd Lists (Unit {0})
splice_nonempty list head = do end ← get_end head; first ← get_begin list; write end first

unfoldable pub splice : (list head : Ptr) → Cmd Lists (Unit {0})
splice list head = do nothing ← empty list; if nothing then pure tt else splice_nonempty list head

unfoldable pub splice_init : (list head : Ptr) → Cmd Lists (Unit {0})
splice_init list head = do
  nothing ← empty list
  if nothing then pure tt else do splice_nonempty list head; init list
