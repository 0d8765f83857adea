-- ===== src/ListHead/Transfer.antt =====
-- `list_move` and `list_move_tail` of src/list.h from one list to another.
use libep.Base.{
  ◌≡◌, List, [], ◌∷◌, ◌++◌, Apart, last, first, ok, last-∉, first-∉, Apart-symm, Apart-append,
  Apart_append_left, Apart_append_right,
}
use libep.ListHead.Defs.{Ptr, Links, move, move_tail}
use libep.ListHead.Linked.{Ring, Ring_join}
use libep.ListHead.Insert.{inserted, add-cons, add_tail-append}
use libep.ListHead.Remove.{unlinked, Ring_unlinked, unlinked_out, unlinked-Allocated, unlink-ok}

module _ {m : Links} {head : Ptr} (xs : List Ptr) (e : Ptr) (ys : List Ptr)
    (r : Ring m head (xs ++ e ∷ ys)) {to : Ptr} {zs : List Ptr} (t : Ring m to zs)
    (apart : Apart (head ∷ xs ++ e ∷ ys) (to ∷ zs)) where
  right_apart : Apart (e ∷ ys) (to ∷ zs)
  right_apart = Apart_append_right (head ∷ xs) (e ∷ ys) (to ∷ zs) apart

  -- The target is not touched when the entry leaves its list.
  target : Ring (unlinked xs e ys r) to zs
  target =
      Ring_join (last head xs) (first ys head) t
        (last-∉ head xs (to ∷ zs) (Apart_append_left (head ∷ xs) (e ∷ ys) (to ∷ zs) apart))
        (first-∉ head ys (to ∷ zs) (apart.0, right_apart.1))

  -- The rest of the source list is not touched when the entry goes elsewhere.
  source_apart : Apart (to ∷ zs) (head ∷ xs ++ ys)
  source_apart = Apart-symm (head ∷ xs ++ ys) (to ∷ zs) (
      Apart-append (head ∷ xs) ys (to ∷ zs) (Apart_append_left (head ∷ xs) (e ∷ ys) (to ∷ zs) apart)
        right_apart.1)

  -- `list_move` to another list that shares no node takes the entry out of the one list and puts
  -- it in front of the other.
  pub move_across-cons :
      let after = inserted to e (first zs to) (unlinked xs e ys r) in
      (move e to m ≡ ok tt after) × Ring after head (xs ++ ys) × Ring after to (e ∷ zs)
  unfolding move
  move_across-cons =
      let put = add-cons e target (unlinked-Allocated xs e ys r) right_apart.0 in
      let out = unlinked_out xs e ys r in
      (
        rw (unlink-ok xs e ys r) put.0,
        Ring_join to e
            (Ring_join e (first zs to) (Ring_unlinked xs e ys r) out
              (first-∉ to zs (head ∷ xs ++ ys) source_apart))
            source_apart.0 out,
        put.1,
      )

  -- `list_move_tail` to another list that shares no node takes the entry out of the one list and
  -- puts it last in the other.
  pub move_tail_across-append :
      let after = inserted (last to zs) e to (unlinked xs e ys r) in
      (move_tail e to m ≡ ok tt after) × Ring after head (xs ++ ys) × Ring after to (zs ++ e ∷ [])
  unfolding move_tail
  move_tail_across-append =
      let put = add_tail-append e target (unlinked-Allocated xs e ys r) right_apart.0 in
      let out = unlinked_out xs e ys r in
      (
        rw (unlink-ok xs e ys r) put.0,
        Ring_join (last to zs) e (Ring_join e to (Ring_unlinked xs e ys r) out source_apart.0)
            (last-∉ to zs (head ∷ xs ++ ys) source_apart) out,
        put.1,
      )
