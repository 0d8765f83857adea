-- ===== src/ListHead/Walk.antt =====
-- The loop macros of src/list.h on a circular list.
use mathlib.Core.List.{reverse, reverse-append}
use libep.Base.{
  ℕ, zero, suc, ◌<◌, ◌≡◌, ◌∙◌, sym, refl, subst, Option, none, some, List, [], ◌∷◌, ◌++◌, arith,
  ◌∉◌, ==_of_ne, ==_self, first, length, append-nil, append_assoc, ok, fault, Cmd, Returns, returns,
  bind, ∉-reverse, length-reverse,
}
use libep.ListHead.Defs.{Ptr, Links}
use libep.ListHead.Loop.{for_each_from, for_each}
use libep.ListHead.Linked.{Linked, Ring, Linked-append}

-- The loop rule: an invariant on the entries visited so far, for a body that leaves the entry's
-- successor where it was.
module _ {S : Type 0} (next : Ptr → Cmd S Ptr) (body : Ptr → Cmd S (Unit {0})) (head : Ptr)
    (I : List Ptr → S → Type 0) (all : List Ptr)
    (step : (done : List Ptr) (x : Ptr) (rest : List Ptr) (s : S)
      → all ≡ done ++ x ∷ rest
      → I done s
      → Returns
          (λ _ t. I (done ++ x ∷ []) t × (next x t ≡ ok (first rest head) t))
          (body x s)) where
  for_each_from_rule :
      (k : ℕ) (done rest : List Ptr) (s : S)
      → all ≡ done ++ rest
      → head ∉ rest
      → length rest < k
      → I done s
      → Returns (λ _. I all) (for_each_from next body head k (first rest head) s)
  unfolding for_each_from
  for_each_from_rule zero done rest s e out fuel i = absurd (omega arith)
  for_each_from_rule (suc k) done [] s e out fuel i =
      rw (==_self head) (returns (subst (λ l. I l s) (sym (e ∙ append-nil done)) i))
  for_each_from_rule (suc k) done (x ∷ rest) s e out fuel i =
      rw (==_of_ne {a = x} {b = head} (λ f. out.0 (sym f))) (
        bind (step done x rest s e i) λ _ t (j, n). rw n (
          for_each_from_rule k (done ++ x ∷ []) rest t (e ∙ sym (append_assoc done (x ∷ []) rest))
            out.1 (omega arith) j))

  -- `list_for_each` keeps the invariant on every list, if the fuel exceeds the list's length.
  pub for_each_rule :
      (k : ℕ) (s : S)
      → next head s ≡ ok (first all head) s
      → head ∉ all
      → length all < k
      → I [] s
      → Returns (λ _. I all) (for_each next body head k s)
  unfolding for_each
  for_each_rule k s n out fuel i = rw n (for_each_from_rule k [] all s refl out fuel i)

-- The state of a walk that only looks: the links, and the entries seen so far.
abbrev pub Walk : Type 0
Walk = Links × List Ptr

abbrev pub follow : (Links → Ptr → Option Ptr) → Ptr → Cmd Walk Ptr
follow field p w = elim (field w.0 p) [ none ↦ fault | some q ↦ ok q w ]

abbrev pub see : Ptr → Cmd Walk (Unit {0})
see p w = ok tt (w.0, w.1 ++ p ∷ [])

abbrev pub next_of : Links → Ptr → Option Ptr
next_of m = m.next

abbrev pub prev_of : Links → Ptr → Option Ptr
prev_of m = m.prev

-- One field leads from `p` through `xs` to `q`.
abbrev Chain : (Ptr → Option Ptr) → Ptr → List Ptr → Ptr → Type 0
Chain f p [] q = f p ≡ some q
Chain f p (x ∷ xs) q = (f p ≡ some x) × Chain f x xs q

Chain-start :
    (f : Ptr → Option Ptr) (p : Ptr) (xs : List Ptr) (q : Ptr)
    → Chain f p xs q
    → f p ≡ some (first xs q)
Chain-start f p [] q c = c
Chain-start f p (x ∷ xs) q c = c.0

Chain-at :
    (f : Ptr → Option Ptr) (p : Ptr) (done : List Ptr) (x : Ptr) (rest : List Ptr) (q : Ptr)
    → Chain f p (done ++ x ∷ rest) q
    → f x ≡ some (first rest q)
Chain-at f p [] x rest q c = Chain-start f x rest q c.1
Chain-at f p (y ∷ done) x rest q c = Chain-at f y done x rest q c.1

Linked-Chain :
    (m : Links) (p : Ptr) (xs : List Ptr) (q : Ptr) → Linked m p xs q → Chain m.next p xs q
Linked-Chain m p [] q l = l.0
Linked-Chain m p (x ∷ xs) q l = (l.0.0, Linked-Chain m x xs q l.1)

-- The two fields exchanged.
abbrev flip : Links → Links
flip m = record { next = m.prev; prev = m.next }

Linked-flip :
    (m : Links) (p : Ptr) (xs : List Ptr) (q : Ptr)
    → Linked m p xs q
    → Linked (flip m) q (reverse xs) p
Linked-flip m p [] q l = (l.1, l.0)
Linked-flip m p (x ∷ xs) q l =
    rw (reverse-append (x ∷ []) xs)
      (Linked-append (flip m) q (reverse xs) x [] p (Linked-flip m x xs q l.1) (l.0.1, l.0.0))

follow-ok :
    (field : Links → Ptr → Option Ptr) (m : Links) (seen : List Ptr) (p q : Ptr)
    → field m p ≡ some q
    → follow field p (m, seen) ≡ ok q (m, seen)
follow-ok field m seen p q h = ground arith

Chain-walk :
    (field : Links → Ptr → Option Ptr) (m : Links) (head : Ptr) (xs : List Ptr) (k : ℕ)
    → Chain (field m) head xs head
    → head ∉ xs
    → length xs < k
    → Returns (λ _ w. w ≡ (m, xs)) (for_each (follow field) see head k (m, []))
Chain-walk field m head xs k c out fuel =
    for_each_rule (follow field) see head (λ done w. w ≡ (m, done)) xs
      (λ done x rest w e i. rw i (
        returns (
          refl,
          follow-ok field m (done ++ x ∷ []) x (first rest head) (
              Chain-at (field m) head done x rest head
                (subst (λ l. Chain (field m) head l head) e c)),
        )))
      k (m, []) (follow-ok field m [] head (first xs head) (Chain-start (field m) head xs head c))
      out fuel refl

-- `list_for_each` over a circular list, with more fuel than it has entries, sees exactly its
-- entries, in their order, and ends.
pub for_each-visits :
    {m : Links} {head : Ptr} {xs : List Ptr} (k : ℕ)
    → Ring m head xs
    → length xs < k
    → Returns (λ _ w. w ≡ (m, xs)) (for_each (follow next_of) see head k (m, []))
for_each-visits {m} {head} {xs} k r fuel =
    Chain-walk next_of m head xs k (Linked-Chain m head xs head r.linked) r.distinct.0 fuel

-- `list_for_each_prev` sees the same entries in reverse order, and ends.
pub for_each_prev-visits :
    {m : Links} {head : Ptr} {xs : List Ptr} (k : ℕ)
    → Ring m head xs
    → length xs < k
    → Returns (λ _ w. w ≡ (m, reverse xs)) (for_each (follow prev_of) see head k (m, []))
for_each_prev-visits {m} {head} {xs} k r fuel =
    Chain-walk prev_of m head (reverse xs) k
      (Linked-Chain (flip m) head (reverse xs) head (Linked-flip m head xs head r.linked))
      (∉-reverse head xs r.distinct.0) (omega (arith, length-reverse xs))
