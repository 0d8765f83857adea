-- ===== src/Skiplist/Place.antt =====
-- Where the search of `skiplist_delete` of src/skiplist.h stands at one level.
use libep.Base.{
  ℕ, ◌<◌, ◌≡◌, ◌∙◌, refl, sym, ap, subst, List, [], ◌∷◌, ◌++◌, arith, ltb, ◌∉◌, length,
  length-append, last, last-append, first, if◌then◌else◌, Bool-cases, inl, inr, ok, append_assoc,
  ∉_append_right,
}
use libep.ListHead.{Ptr, null}
use libep.Skiplist.Defs.{Nodes, walk}
use libep.Skiplist.Chain.{Chain, Chain-last}
use libep.Skiplist.Entries.{
  Entry, addrs, tall, Scored, AtLeast, AtMost, IsSorted, length-tall, addrs-append, AtMost-tall,
}
use libep.Skiplist.Walk.{In, head, tail, At, At-Split, Split, Stops, Scored-right}
use libep.Skiplist.Find.{Equal, Stopped, walk-Stopped}

drop_head {ℓ} : {A : Type ℓ} → List A → List A
drop_head [] = []
drop_head (x ∷ xs) = xs

-- The last node of a first part is a position of the level.
pub split-At :
    (i : ℕ) (p : Ptr) (es pre post : List Entry)
    → tall i es ≡ pre ++ post
    → At i p es (last p (addrs pre))
unfolding drop_head
split-At i p es [] post h = inl refl
split-At i p [] (e ∷ pre) post h = absurd (omega (arith, ap length h))
split-At i p (x ∷ es) (e ∷ pre) post h = elim (Bool-cases (ltb i x.height)) [
  | inl t ↦
      let g : x ∷ tall i es ≡ e ∷ pre ++ post =
        subst (λ b. (if b then x ∷ tall i es else tall i es) ≡ e ∷ pre ++ post) t h in
      let same : x ≡ e = ap (λ l. first l x) g in
      elim (split-At i x.addr es pre post (ap drop_head g)) [
        | inl q ↦ inr (
            head (ground arith)
              (subst (λ z. last z (addrs pre) ≡ x.addr) (ap (λ w. w.addr) same) q))
        | inr q ↦ inr (tail (subst (λ z. In i (last z (addrs pre)) es) (ap (λ w. w.addr) same) q))
      ]
  | inr f ↦
      let g : tall i es ≡ e ∷ pre ++ post =
        subst (λ b. (if b then x ∷ tall i es else tall i es) ≡ e ∷ pre ++ post) f h in
      elim (split-At i p es (e ∷ pre) post g) [ inl q ↦ inl q | inr q ↦ inr (tail q) ]
]

AtLeast-tall : (s i : ℕ) (es : List Entry) → AtLeast s es → AtLeast s (tall i es)
AtLeast-tall s i [] h = tt
AtLeast-tall s i (e ∷ es) h = elim (Bool-cases (ltb i e.height)) [
  | inl t ↦ rw t (h.0, AtLeast-tall s i es h.1)
  | inr f ↦ rw f (AtLeast-tall s i es h.1)
]

IsSorted-tall : (i : ℕ) (es : List Entry) → IsSorted es → IsSorted (tall i es)
IsSorted-tall i [] h = tt
IsSorted-tall i (e ∷ es) h = elim (Bool-cases (ltb i e.height)) [
  | inl t ↦ rw t (AtLeast-tall e.score i es h.0, IsSorted-tall i es h.1)
  | inr f ↦ rw f (IsSorted-tall i es h.1)
]

pub Stops-lt : (s i : ℕ) (es : List Entry) → AtLeast s es → Stops (λ t. ltb t s) (tall i es)
Stops-lt s i [] h = tt
Stops-lt s i (e ∷ es) h = elim (Bool-cases (ltb i e.height)) [
  | inl t ↦ rw t (ground (arith, h.0))
  | inr f ↦ rw f (Stops-lt s i es h.1)
]

AtMost_right : (s : ℕ) (es fs : List Entry) → AtMost s (es ++ fs) → AtMost s fs
AtMost_right s [] fs h = h
AtMost_right s (e ∷ es) fs h = AtMost_right s es fs h.1

IsSorted-suffix : (es fs : List Entry) → IsSorted (es ++ fs) → IsSorted fs
IsSorted-suffix [] fs h = h
IsSorted-suffix (e ∷ es) fs h = IsSorted-suffix es fs h.1

Equal-between : (s t : ℕ) (es : List Entry) → t ≡ s → AtLeast t es → AtMost s es → Equal s es
Equal-between s t [] h a b = tt
Equal-between s t (e ∷ es) h a b = (omega (arith, a.0, b.0, h), Equal-between s t es h a.1 b.1)

-- Sorted scores up to `s` of which the first is not below `s`.
Equal-stop :
    (s : ℕ) (es : List Entry) → Stops (λ t. ltb t s) es → IsSorted es → AtMost s es → Equal s es
Equal-stop s [] f h a = tt
Equal-stop s (e ∷ es) f h a =
    let q : e.score ≡ s = ground (arith, a.0, f) in (q, Equal-between s e.score es q h.0 a.1)

-- The search ends at `y`, a position of the level; only nodes of score `s` are left of `lo`.
pub record Place (s k i : ℕ) (m : Nodes) (p x : Ptr) (lo : List Entry) : Type 0 where
  pub pre : List Entry
  pub rest : List Entry
  pub whole : tall i lo ≡ pre ++ rest
  pub equal : Equal s rest
  pub walked : walk (λ t. ltb t s) k i x m ≡ ok (last p (addrs pre)) m

pub walk-Place :
    (s k i : ℕ) (m : Nodes) (p : Ptr) {x : Ptr} (lo hi : List Entry)
    → At i p lo x
    → Chain (m.forward i) p (addrs (tall i lo) ++ addrs (tall i hi))
    → null ∉ addrs (tall i lo)
    → null ∉ addrs (tall i hi)
    → Scored m (tall i lo)
    → Scored m (tall i hi)
    → AtMost s lo
    → IsSorted lo
    → AtLeast s hi
    → length lo < k
    → Place s k i m p x lo
walk-Place s k i m p {x} lo hi at c nl nh sl sh low sorted high fuel = record {
  pre = r.pre ++ w.pre;
  rest = w.post;
  whole = whole;
  equal =
      Equal-stop s w.post w.fails
        (IsSorted-suffix (r.pre ++ w.pre) w.post
          (subst (λ l. IsSorted l) whole (IsSorted-tall i lo sorted)))
        (AtMost_right s (r.pre ++ w.pre) w.post
          (subst (λ l. AtMost s l) whole (AtMost-tall s i lo low)));
  walked =
      subst (λ z. walk (λ t. ltb t s) k i x m ≡ ok z m) (sym ends)
        (subst (λ z. walk (λ t. ltb t s) k i z m ≡ ok (last z (addrs w.pre)) m) (sym r.here)
          w.result);
}
  where
    r : Split i p lo x
    r = At-Split i p lo at

    here : Ptr
    here = last p (addrs r.pre)

    w : Stopped (λ t. ltb t s) k i m (last p (addrs r.pre)) r.post
    w =
        walk-Stopped (λ t. ltb t s) k i m (last p (addrs r.pre)) r.post (tall i hi)
          (Chain-last (m.forward i) p (addrs r.pre) (addrs r.post ++ addrs (tall i hi)) (
            subst (λ l. Chain (m.forward i) p l)
              (ap (λ l. addrs l ++ addrs (tall i hi)) r.split
                ∙ ap (λ l. l ++ addrs (tall i hi)) (addrs-append r.pre r.post)
                ∙ append_assoc (addrs r.pre) (addrs r.post) (addrs (tall i hi)))
              c))
          (∉_append_right null (addrs r.pre) (addrs r.post)
            (subst (λ l. null ∉ l) (ap addrs r.split ∙ addrs-append r.pre r.post) nl))
          nh (Scored-right m r.pre r.post (subst (λ l. Scored m l) r.split sl)) sh
          (Stops-lt s i hi high)
          (omega (arith, length-tall i lo, ap length r.split, length-append r.pre r.post))

    whole : tall i lo ≡ (r.pre ++ w.pre) ++ w.post
    whole = r.split ∙ ap (λ l. r.pre ++ l) w.whole ∙ sym (append_assoc r.pre w.pre w.post)

    ends : last p (addrs (r.pre ++ w.pre)) ≡ last x (addrs w.pre)
    ends =
        ap (λ l. last p l) (addrs-append r.pre w.pre)
        ∙ last-append p (addrs r.pre) (addrs w.pre)
        ∙ ap (λ z. last z (addrs w.pre)) (sym r.here)
