-- ===== src/Skiplist/Tests.antt =====
-- Runs of src/skiplist.h on a small list of two levels, and its theorems at it.
use libep.Base.{
  fault, ℕ, zero, suc, ◌<◌, ◌≤◌, ◌≡◌, refl, none, some, [], ◌∷◌, arith, ◌==◌, if◌then◌else◌,
  Returns,
}
use libep.ListHead.{Ptr, null}
use libep.Skiplist.Defs.{extract, Nodes, insert, delete, extract_lte, shift}
use libep.Skiplist.Chain.{Chain}
use libep.Skiplist.Entries.{Entry, addrs, tall, IsSkiplist}
use libep.Skiplist.Sorted.{IsNew, insert-insert_sorted}
use libep.Skiplist.Taken.{Taken, extract_lte-up_to}
use libep.Skiplist.Removed.{delete-IsSkiplist}
use libep.Skiplist.Range.{extract_faults}
use libep.Skiplist.Shift.{shifted, shift-shifted}

-- The header is 1; 5 has the score 10 and one level, 7 the score 20 and two; 6, of score 20, is new.
abbrev low : Entry
low = record { addr = 5; score = 10; height = 1 }

abbrev high : Entry
high = record { addr = 7; score = 20; height = 2 }

abbrev fresh : Entry
fresh = record { addr = 6; score = 20; height = 2 }

abbrev two : Nodes
two = record {
  score =
      λ a. if a == 5 then some 10 else if a == 6 then some 20 else if a == 7 then some 20 else none;
  forward = λ i a.
      if i == 0
      then (if a == 1
          then some 5
          else if a == 5
          then some 7
          else if a == 6
          then some 0
          else if a == 7
          then some 0
          else none)
      else (if a == 1
          then some 7
          else if a == 5
          then some 0
          else if a == 6
          then some 0
          else if a == 7
          then some 0
          else none);
}

two_chains : (i : ℕ) → i < 2 → Chain (two.forward i) 1 (addrs (tall i (low ∷ high ∷ [])))
two_chains zero h = (refl, (refl, refl))
two_chains (suc zero) h = (refl, refl)
two_chains (suc (suc i)) h = absurd (omega arith)

two-IsSkiplist : IsSkiplist 2 two 1 (low ∷ high ∷ [])
two-IsSkiplist = record {
  chains = two_chains;
  scores = (refl, (refl, tt));
  distinct = ((omega arith, (omega arith, tt)), ((omega arith, tt), (tt, tt)));
  nonnull = (omega arith, (omega arith, (omega arith, tt)));
  sorted = ((omega arith, tt), (tt, tt));
  proper = (omega arith, (omega arith, tt));
}

fresh_old : (j : ℕ) → j < 2 → (v : Ptr) × (two.forward j 6 ≡ some v)
fresh_old zero h = (0, refl)
fresh_old (suc zero) h = (0, refl)
fresh_old (suc (suc j)) h = absurd (omega arith)

fresh-IsNew : IsNew 2 two 1 fresh (low ∷ high ∷ [])
fresh-IsNew = record {
  score = refl;
  old = fresh_old;
  new = (omega arith, (omega arith, (omega arith, tt)));
  nonnull = omega arith;
  positive = omega arith;
}

insert-insert_sorted_example :
    Returns (λ _ t. IsSkiplist 2 t 1 (low ∷ high ∷ fresh ∷ [])) (insert 3 2 4 1 6 two)
insert-insert_sorted_example =
    insert-insert_sorted 3 2 4 two 1 fresh (low ∷ high ∷ []) refl two-IsSkiplist fresh-IsNew
      (omega arith)

delete-IsSkiplist_example : Returns (λ _ t. IsSkiplist 2 t 1 (low ∷ [])) (delete 2 2 1 7 two)
delete-IsSkiplist_example =
    delete-IsSkiplist 2 2 two 1 (low ∷ []) high [] two-IsSkiplist (omega arith)

extract_lte-up_to_example : Returns (Taken 2 1 (low ∷ []) (high ∷ [])) (extract_lte 3 2 1 10 two)
extract_lte-up_to_example =
    extract_lte-up_to 3 2 10 two 1 (low ∷ high ∷ []) (omega arith) two-IsSkiplist (omega arith)

low_cleared : (j : ℕ) → 1 ≤ j → j < 2 → two.forward j 5 ≡ some null
low_cleared zero h k = absurd (omega arith)
low_cleared (suc zero) h k = refl
low_cleared (suc (suc j)) h k = absurd (omega arith)

shift-shifted_example :
    Returns
      (λ r t.
        (r ≡ 5) × ((j : ℕ) → j < 2 → Chain (t.forward j) 1 (addrs (shifted j low (high ∷ [])))))
      (shift 2 1 two)
shift-shifted_example =
    shift-shifted 2 two 1 low (high ∷ []) (omega arith) two-IsSkiplist low_cleared

extract_faults_example : extract 3 2 1 30 40 two ≡ fault
extract_faults_example =
    extract_faults 3 2 30 40 two 1 (low ∷ high ∷ []) (omega arith) two-IsSkiplist
      (omega arith, (omega arith, tt)) refl (omega arith)
