-- ===== src/ListHead/Loop.antt =====
-- The loop macros of src/list.h, over any state in which `next` reads the field that the loop
-- follows (`list_for_each_prev` follows the other one).
use libep.Base.{ℕ, zero, suc, ◌==◌, if◌then◌else◌, Cmd, out_of_fuel, ◌>>=◌, ◌>>◌, pure}
use libep.ListHead.Defs.{Ptr}

module _ {S : Type 0} (next : Ptr → Cmd S Ptr) (body : Ptr → Cmd S (Unit {0})) (head : Ptr) where
  -- `for (; pos != head; pos = pos->next) body`
  unfoldable pub for_each_from : ℕ → Ptr → Cmd S (Unit {0})
  for_each_from zero pos = λ _. out_of_fuel
  for_each_from (suc k) pos =
      if pos == head then pure tt else (body pos >> (do n ← next pos; for_each_from k n))

  unfoldable pub for_each : ℕ → Cmd S (Unit {0})
  unfolding for_each_from
  for_each k = do pos ← next head; for_each_from k pos

  -- `for (; pos != head; pos = n, n = pos->next) body`
  unfoldable pub for_each_safe_from : ℕ → (pos n : Ptr) → Cmd S (Unit {0})
  for_each_safe_from zero pos n = λ _. out_of_fuel
  for_each_safe_from (suc k) pos n =
      if pos == head then pure tt else (body pos >> (do m ← next n; for_each_safe_from k n m))

  unfoldable pub for_each_safe : ℕ → Cmd S (Unit {0})
  unfolding for_each_safe_from
  for_each_safe k = do pos ← next head; n ← next pos; for_each_safe_from k pos n
