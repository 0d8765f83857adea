-- ===== src/ListHead/Defs.antt =====
-- The operations of src/list.h, one function for each. `__list_add`, `__list_del` and
-- `__list_splice` are `add_between`, `del_between` and `splice_nonempty`.
use libep.Base.{ℕ, Bool, Option, none, some, ◌==◌, if◌then◌else◌, Cmd, ok, fault, ◌>>=◌, ◌>>◌, pure}

abbrev pub Ptr : Type 0
Ptr = ℕ

abbrev pub null : Ptr
null = 0

-- `struct list_head`, for every address at once.
pub record Links : Type 0 where
  pub next : Ptr → Option Ptr
  pub prev : Ptr → Option Ptr

unfoldable pub update {ℓ} : {A : Type ℓ} → (Ptr → A) → Ptr → A → Ptr → A
update f p v a = if a == p then v else f a

-- `p->next` and `p->prev`
unfoldable pub get_next : Ptr → Cmd Links Ptr
get_next p m = elim (m.next p) [ none ↦ fault | some q ↦ ok q m ]

unfoldable pub get_prev : Ptr → Cmd Links Ptr
get_prev p m = elim (m.prev p) [ none ↦ fault | some q ↦ ok q m ]

-- `p->next = q` and `p->prev = q`
unfoldable pub set_next : Ptr → Ptr → Cmd Links (Unit {0})
set_next p q m = elim (m.next p) [
  | none ↦ fault
  | some _ ↦ ok tt (record m { next = update m.next p (some q) })
]

unfoldable pub set_prev : Ptr → Ptr → Cmd Links (Unit {0})
set_prev p q m = elim (m.prev p) [
  | none ↦ fault
  | some _ ↦ ok tt (record m { prev = update m.prev p (some q) })
]

unfoldable pub init : Ptr → Cmd Links (Unit {0})
init p = set_next p p >> set_prev p p

unfoldable pub add_between : (new_node prev next : Ptr) → Cmd Links (Unit {0})
add_between new_node prev next =
    set_prev next new_node
    >> (set_next new_node next >> (set_prev new_node prev >> set_next prev new_node))

unfoldable pub add : (new_node head : Ptr) → Cmd Links (Unit {0})
add new_node head = do next ← get_next head; add_between new_node head next

unfoldable pub add_tail : (new_node head : Ptr) → Cmd Links (Unit {0})
add_tail new_node head = do prev ← get_prev head; add_between new_node prev head

unfoldable pub del_between : (prev next : Ptr) → Cmd Links (Unit {0})
del_between prev next = set_prev next prev >> set_next prev next

-- `__list_del(entry->prev, entry->next)`
unfoldable pub unlink : Ptr → Cmd Links (Unit {0})
unlink entry = do prev ← get_prev entry; next ← get_next entry; del_between prev next

unfoldable pub del : Ptr → Cmd Links (Unit {0})
del entry = unlink entry >> (set_next entry null >> set_prev entry null)

unfoldable pub del_init : Ptr → Cmd Links (Unit {0})
del_init entry = unlink entry >> init entry

unfoldable pub move : (entry head : Ptr) → Cmd Links (Unit {0})
move entry head = unlink entry >> add entry head

unfoldable pub move_tail : (entry head : Ptr) → Cmd Links (Unit {0})
move_tail entry head = unlink entry >> add_tail entry head

unfoldable pub empty : Ptr → Cmd Links Bool
empty head = do next ← get_next head; pure (next == head)

unfoldable pub is_last : (entry head : Ptr) → Cmd Links Bool
is_last entry head = do next ← get_next entry; pure (next == head)

unfoldable pub splice_nonempty : (list head : Ptr) → Cmd Links (Unit {0})
splice_nonempty list head = do
  first ← get_next list
  last ← get_prev list
  at ← get_next head
  set_prev first head
  set_next head first
  set_next last at
  set_prev at last

unfoldable pub splice : (list head : Ptr) → Cmd Links (Unit {0})
splice list head = do
  none_there ← empty list
  if none_there then pure tt else splice_nonempty list head

unfoldable pub splice_init : (list head : Ptr) → Cmd Links (Unit {0})
splice_init list head = do
  none_there ← empty list
  if none_there then pure tt else (splice_nonempty list head >> init list)
