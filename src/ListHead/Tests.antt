-- ===== src/ListHead/Tests.antt =====
-- Runs of src/list.h on small memories, and its theorems at them.
use libep.Base.{
  ◌≡◌, refl, false, Option, none, some, List, [], ◌∷◌, arith, ◌==◌, if◌then◌else◌, ok, fault,
  and_then, Returns, returns, Apart,
}
use libep.ListHead.Defs.{
  Ptr, null, Links, update, get_next, get_prev, set_next, set_prev, add_between, add, add_tail,
  del_between, unlink, del, move, empty, splice_init,
}
use libep.ListHead.Loop.{for_each}
use libep.ListHead.Linked.{Ring, Allocated, overwrite}
use libep.ListHead.Insert.{inserted}
use libep.ListHead.Remove.{unlinked, del-remove}
use libep.ListHead.Transfer.{move_across-cons}
use libep.ListHead.Splice.{joined, splice_init-append}
use libep.ListHead.Walk.{follow, see, next_of, prev_of, for_each-visits, for_each_prev-visits}

abbrev at : List (Ptr × Ptr) → Ptr → Option Ptr
at [] p = none
at ((a, b) ∷ rest) p = if p == a then some b else at rest p

-- The list at 1 holds 2 and 3, the list at 5 holds 6, the list at 7 is empty, and 4 is a node of
-- its own.
abbrev memory : Links
memory = record {
  next = at ((1, 2) ∷ (2, 3) ∷ (3, 1) ∷ (4, 4) ∷ (5, 6) ∷ (6, 5) ∷ (7, 7) ∷ []);
  prev = at ((2, 1) ∷ (3, 2) ∷ (1, 3) ∷ (4, 4) ∷ (6, 5) ∷ (5, 6) ∷ (7, 7) ∷ []);
}

one : Ring memory 1 (2 ∷ 3 ∷ [])
one = record { linked = ((refl, refl), ((refl, refl), (refl, refl))); distinct = omega arith }

five : Ring memory 5 (6 ∷ [])
five = record { linked = ((refl, refl), (refl, refl)); distinct = omega arith }

seven : Ring memory 7 []
seven = record { linked = (refl, refl); distinct = omega arith }

four : Allocated memory 4
four = record { next_value = 4; prev_value = 4; has_next = refl; has_prev = refl }

apart : Apart (1 ∷ 2 ∷ 3 ∷ []) (5 ∷ 6 ∷ [])
apart = omega arith

-- Three operations in a row, and the list that they leave.
script :
    Returns
      (λ b m. (b ≡ false) × (m.next 1 ≡ some 3) × (m.next 3 ≡ some 4) × (m.next 4 ≡ some 1))
      (and_then
        (add_tail 4 1 memory)
        λ _ m. and_then (move 3 1 m) λ _ m. and_then (del 2 m) λ _. empty 1)
unfolding add_tail move del empty unlink del_between add add_between get_next get_prev set_next
    set_prev update
script = returns (refl, refl, refl, refl)

-- Deleting a node twice goes through null.
del_twice : and_then (del 2 memory) (λ _. del 2) ≡ fault
unfolding del unlink del_between get_next get_prev set_next set_prev update
del_twice = refl

del-remove_example :
    let after = overwrite 2 (some null) (some null) (unlinked [] 2 (3 ∷ []) one) in
    (del 2 memory ≡ ok tt after) × Ring after 1 (3 ∷ [])
del-remove_example = del-remove [] 2 (3 ∷ []) one

move_across-cons_example :
    let after = inserted 5 3 6 (unlinked (2 ∷ []) 3 [] one) in
    (move 3 5 memory ≡ ok tt after) × Ring after 1 (2 ∷ []) × Ring after 5 (3 ∷ 6 ∷ [])
move_across-cons_example = move_across-cons (2 ∷ []) 3 [] one five apart

splice_init-append_example :
    let after = overwrite 1 (some 1) (some 1) (joined 5 2 (3 ∷ []) (6 ∷ []) one five apart) in
    (splice_init 1 5 memory ≡ ok tt after) × Ring after 5 (2 ∷ 3 ∷ 6 ∷ []) × Ring after 1 []
splice_init-append_example = splice_init-append 5 2 (3 ∷ []) (6 ∷ []) one five apart

for_each-visits_example :
    Returns (λ _ w. w ≡ (memory, 2 ∷ 3 ∷ [])) (for_each (follow next_of) see 1 3 (memory, []))
for_each-visits_example = for_each-visits 3 one (omega arith)

for_each_prev-visits_example :
    Returns (λ _ w. w ≡ (memory, 3 ∷ 2 ∷ [])) (for_each (follow prev_of) see 1 3 (memory, []))
for_each_prev-visits_example = for_each_prev-visits 3 one (omega arith)
