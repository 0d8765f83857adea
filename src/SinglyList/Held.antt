-- ===== src/SinglyList/Held.antt =====
-- What a list head of src/singly_list.h holds.
use libep.Base.{
  ◌≡◌, ◌∙◌, sym, Option, some, List, [], ◌∷◌, ◌++◌, ◌∉◌, Distinct, last, first, last-ne, ok,
}
use libep.ListHead.{Ptr, null, update}
use libep.ListHead.Linked.{update_self, update_ne}
use libep.Skiplist.Chain.{Chain}
use libep.SinglyList.Defs.{
  Slot, begin_of, next_of, Lists, get_next, get_begin, get_end, set_next, set_begin, set_end,
}

-- Where the pointer to the node behind the list is.
abbrev pub end_slot : Ptr → List Ptr → Slot
end_slot h [] = begin_of h
end_slot h (x ∷ xs) = next_of (last x xs)

-- From the first node the pointers lead through the others to null.
abbrev pub Nodes : Lists → List Ptr → Type 0
Nodes m [] = Unit
Nodes m (x ∷ xs) = Chain m.next x xs

pub record Holds (m : Lists) (h : Ptr) (xs : List Ptr) : Type 0 where
  pub begins : m.begin h ≡ some (first xs null)
  pub nodes : Nodes m xs
  pub ends : m.end h ≡ some (end_slot h xs)
  pub distinct : Distinct xs
  pub nonnull : null ∉ xs

-- A node put behind the last one, in the order of the two writes in `push`.
pub Chain-snoc :
    (f : Ptr → Option Ptr) (n p : Ptr) (xs : List Ptr)
    → Distinct (p ∷ xs)
    → n ∉ (p ∷ xs)
    → Chain f p xs
    → Chain (update (update f (last p xs) (some n)) n (some null)) p (xs ++ n ∷ [])
Chain-snoc f n p [] d out c = (
  update_ne _ n (some null) (λ e. out.0 (sym e)) ∙ update_self f p (some n),
  update_self _ n (some null),
)
Chain-snoc f n p (x ∷ xs) d out c = (
  update_ne _ n (some null) (λ e. out.0 (sym e))
      ∙ update_ne f (last x xs) (some n) (last-ne x p xs d.0.0 d.0.1)
      ∙ c.0,
  Chain-snoc f n x xs d.1 out.1 c.1,
)

pub get_next-ok : (m : Lists) (p : Ptr) {q : Ptr} → m.next p ≡ some q → get_next p m ≡ ok q m
unfolding get_next
get_next-ok m p h = rw (h, get_next)

pub get_begin-ok : (m : Lists) (p : Ptr) {q : Ptr} → m.begin p ≡ some q → get_begin p m ≡ ok q m
unfolding get_begin
get_begin-ok m p h = rw (h, get_begin)

pub get_end-ok : (m : Lists) (p : Ptr) {e : Slot} → m.end p ≡ some e → get_end p m ≡ ok e m
unfolding get_end
get_end-ok m p h = rw (h, get_end)

pub set_next-ok :
    (m : Lists) (p q : Ptr) {v : Ptr}
    → m.next p ≡ some v
    → set_next p q m ≡ ok tt (record m { next = update m.next p (some q) })
unfolding set_next
set_next-ok m p q h = rw (h, set_next)

pub set_begin-ok :
    (m : Lists) (p q : Ptr) {v : Ptr}
    → m.begin p ≡ some v
    → set_begin p q m ≡ ok tt (record m { begin = update m.begin p (some q) })
unfolding set_begin
set_begin-ok m p q h = rw (h, set_begin)

pub set_end-ok :
    (m : Lists) (p : Ptr) (e : Slot) {v : Slot}
    → m.end p ≡ some v
    → set_end p e m ≡ ok tt (record m { end = update m.end p (some e) })
unfolding set_end
set_end-ok m p e h = rw (h, set_end)
