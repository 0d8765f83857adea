-- ===== src/SinglyList/Tests.antt =====
-- The theorems on src/singly_list.h at a list of two nodes.
use libep.Base.{refl, none, some, [], ◌∷◌, arith, ◌==◌, if◌then◌else◌, Returns, ◌>>◌}
use libep.SinglyList.Defs.{next_of, Lists, push, shift}
use libep.SinglyList.Held.{Holds}
use libep.SinglyList.Shrink.{shift-push_loses}

-- The head 1 holds 5 and 6; 7 is new.
abbrev two : Lists
two = record {
  next = λ p. if p == 5 then some 6 else if p == 6 then some 0 else if p == 7 then some 0 else none;
  begin = λ h. if h == 1 then some 5 else none;
  end = λ h. if h == 1 then some (next_of 6) else none;
}

two-Holds : Holds two 1 (5 ∷ 6 ∷ [])
two-Holds = record {
  begins = refl;
  nodes = (refl, refl);
  ends = refl;
  distinct = ((omega arith, tt), (tt, tt));
  nonnull = (omega arith, (omega arith, tt));
}

shift-push_loses_example : Returns (λ _ t. Holds t 1 (7 ∷ [])) ((shift 1 >> push 7 1) two)
shift-push_loses_example = shift-push_loses two 1 5 6 [] 7 two-Holds refl (omega arith)
