-- ===== src/Skiplist/Sorted.antt =====
-- `skiplist_insert` of src/skiplist.h on the sorted list of entries that a skip list stands for.
use libep.Base.{
  ℕ, suc, ◌<◌, ◌≤◌, ◌≡◌, ◌≢◌, refl, sym, ap, subst, some, List, [], ◌∷◌, ◌++◌, arith, leb, ltb, ◌∉◌,
  Distinct, length, length-append, if◌then◌else◌, Bool-cases, inl, inr, Returns, mono,
}
use libep.ListHead.{Ptr, null}
use libep.Skiplist.Defs.{Nodes, insert}
use libep.Skiplist.Chain.{Chain}
use libep.Skiplist.Entries.{
  Entry, addrs, tall, Scored, AtLeast, AtMost, Above, IsSorted, IsProper, IsSkiplist,
}
use libep.Skiplist.Walk.{get_score-ok}
use libep.Skiplist.Write.{Scored-same, level-append}
use libep.Skiplist.Level.{Before, Inserted}
use libep.Skiplist.Insert.{insert_from-Inserted}

-- The sorted list with `e` behind every entry whose score is not above its own.
abbrev pub insert_sorted : Entry → List Entry → List Entry
insert_sorted e [] = e ∷ []
insert_sorted e (x ∷ xs) = if leb x.score e.score then x ∷ insert_sorted e xs else e ∷ x ∷ xs

-- Where `insert_sorted` cuts a sorted list.
pub record Cut (e : Entry) (es : List Entry) : Type 0 where
  pub lo : List Entry
  pub hi : List Entry
  pub whole : es ≡ lo ++ hi
  pub placed : insert_sorted e es ≡ lo ++ e ∷ hi
  pub low : AtMost e.score lo
  pub high : Above e.score hi

pub Above-AtLeast : (s t : ℕ) (es : List Entry) → s < t → AtLeast t es → Above s es
Above-AtLeast s t [] h a = tt
Above-AtLeast s t (e ∷ es) h a = (omega (arith, a.0), Above-AtLeast s t es h a.1)

pub cut : (e : Entry) (es : List Entry) → IsSorted es → Cut e es
cut e [] s = record { lo = []; hi = []; whole = refl; placed = refl; low = tt; high = tt }
cut e (x ∷ xs) s = elim (Bool-cases (leb x.score e.score)) [
  | inl t ↦
      let c = cut e xs s.1 in
      record {
        lo = x ∷ c.lo;
        hi = c.hi;
        whole = ap (λ l. x ∷ l) c.whole;
        placed = rw t (ap (λ l. x ∷ l) c.placed);
        low = (ground arith, c.low);
        high = c.high;
      }
  | inr f ↦ record {
    lo = [];
    hi = x ∷ xs;
    whole = refl;
    placed = rw f refl;
    low = tt;
    high = (ground arith, Above-AtLeast e.score x.score xs (ground arith) s.0);
  }
]

AtLeast-insert_sorted :
    (s : ℕ) (e : Entry) (es : List Entry)
    → s ≤ e.score
    → AtLeast s es
    → AtLeast s (insert_sorted e es)
AtLeast-insert_sorted s e [] h a = (h, tt)
AtLeast-insert_sorted s e (x ∷ xs) h a = elim (Bool-cases (leb x.score e.score)) [
  | inl t ↦ rw t (a.0, AtLeast-insert_sorted s e xs h a.1)
  | inr f ↦ rw f (h, a)
]

AtLeast-mono : (s t : ℕ) (es : List Entry) → s ≤ t → AtLeast t es → AtLeast s es
AtLeast-mono s t [] h a = tt
AtLeast-mono s t (e ∷ es) h a = (omega (arith, a.0), AtLeast-mono s t es h a.1)

pub insert_sorted-IsSorted :
    (e : Entry) (es : List Entry) → IsSorted es → IsSorted (insert_sorted e es)
insert_sorted-IsSorted e [] s = (tt, tt)
insert_sorted-IsSorted e (x ∷ xs) s = elim (Bool-cases (leb x.score e.score)) [
  | inl t ↦
      rw t (AtLeast-insert_sorted x.score e xs (ground arith) s.0, insert_sorted-IsSorted e xs s.1)
  | inr f ↦ rw f ((ground arith, AtLeast-mono e.score x.score xs (ground arith) s.0), s)
]

IsProper-insert_sorted :
    (e : Entry) (es : List Entry) → 0 < e.height → IsProper es → IsProper (insert_sorted e es)
IsProper-insert_sorted e [] h p = (h, tt)
IsProper-insert_sorted e (x ∷ xs) h p = elim (Bool-cases (leb x.score e.score)) [
  | inl t ↦ rw t (p.0, IsProper-insert_sorted e xs h p.1)
  | inr f ↦ rw f (h, p)
]

Scored-insert_sorted :
    (m : Nodes) (e : Entry) (es : List Entry)
    → m.score e.addr ≡ some e.score
    → Scored m es
    → Scored m (insert_sorted e es)
Scored-insert_sorted m e [] h s = (h, tt)
Scored-insert_sorted m e (x ∷ xs) h s = elim (Bool-cases (leb x.score e.score)) [
  | inl t ↦ rw t (s.0, Scored-insert_sorted m e xs h s.1)
  | inr f ↦ rw f (h, s)
]

pub ∉-insert_sorted :
    (a : Ptr) (e : Entry) (es : List Entry)
    → a ≢ e.addr
    → a ∉ addrs es
    → a ∉ addrs (insert_sorted e es)
∉-insert_sorted a e [] h n = (h, tt)
∉-insert_sorted a e (x ∷ xs) h n = elim (Bool-cases (leb x.score e.score)) [
  | inl t ↦ rw t (n.0, ∉-insert_sorted a e xs h n.1)
  | inr f ↦ rw f (h, n)
]

pub length-insert_sorted :
    (e : Entry) (es : List Entry) → length (insert_sorted e es) ≡ suc (length es)
length-insert_sorted e [] = refl
length-insert_sorted e (x ∷ xs) = elim (Bool-cases (leb x.score e.score)) [
  | inl t ↦ rw t (ap suc (length-insert_sorted e xs))
  | inr f ↦ rw f refl
]

Distinct-insert_sorted :
    (e : Entry) (es : List Entry)
    → e.addr ∉ addrs es
    → Distinct (addrs es)
    → Distinct (addrs (insert_sorted e es))
Distinct-insert_sorted e [] h d = (tt, tt)
Distinct-insert_sorted e (x ∷ xs) h d = elim (Bool-cases (leb x.score e.score)) [
  | inl t ↦
      rw t (∉-insert_sorted x.addr e xs (λ q. h.0 (sym q)) d.0, Distinct-insert_sorted e xs h.1 d.1)
  | inr f ↦ rw f (h, d)
]

pub Scored-left : (m : Nodes) (es fs : List Entry) → Scored m (es ++ fs) → Scored m es
Scored-left m [] fs h = tt
Scored-left m (e ∷ es) fs h = (h.0, Scored-left m es fs h.1)

pub Scored-right : (m : Nodes) (es fs : List Entry) → Scored m (es ++ fs) → Scored m fs
Scored-right m [] fs h = h
Scored-right m (e ∷ es) fs h = Scored-right m es fs h.1

-- A new object, of `levels` pointers, that is neither the header nor in the list.
pub record IsNew (levels : ℕ) (m : Nodes) (sl : Ptr) (e : Entry) (es : List Entry) : Type 0 where
  pub score : m.score e.addr ≡ some e.score
  pub old : (j : ℕ) → j < levels → (v : Ptr) × (m.forward j e.addr ≡ some v)
  pub new : e.addr ∉ (sl ∷ addrs es)
  pub nonnull : null ≢ e.addr
  pub positive : 0 < e.height

Inserted-IsSkiplist :
    (levels : ℕ) (m t : Nodes) (sl : Ptr) (e : Entry) (es : List Entry) (c : Cut e es)
    → IsSkiplist levels m sl es
    → IsNew levels m sl e es
    → Inserted sl e c.lo c.hi levels m t
    → IsSkiplist levels t sl (insert_sorted e es)
Inserted-IsSkiplist levels m t sl e es c i n r = record {
  chains =
      λ j h. subst (λ l. Chain (t.forward j) sl (addrs (tall j l))) (sym c.placed) (r.below j h);
  scores =
      Scored-same m t r.same_score (insert_sorted e es)
        (Scored-insert_sorted m e es n.score i.scores);
  distinct = (
    ∉-insert_sorted sl e es (λ q. n.new.0 (sym q)) i.distinct.0,
    Distinct-insert_sorted e es n.new.1 i.distinct.1,
  );
  nonnull = (i.nonnull.0, ∉-insert_sorted null e es n.nonnull i.nonnull.1);
  sorted = insert_sorted-IsSorted e es i.sorted;
  proper = IsProper-insert_sorted e es n.positive i.proper;
}

Before-Cut :
    (levels : ℕ) (m : Nodes) (sl : Ptr) (e : Entry) (es : List Entry) (c : Cut e es)
    → IsSkiplist levels m sl es
    → IsNew levels m sl e es
    → Before sl e c.lo c.hi levels m
Before-Cut levels m sl e es c i n = record {
  chains = λ j h.
      subst (λ l. Chain (m.forward j) sl l) (level-append j c.lo c.hi)
        (subst (λ l. Chain (m.forward j) sl (addrs (tall j l))) c.whole (i.chains j h));
  old = n.old;
  low_scores = Scored-left m c.lo c.hi (subst (λ l. Scored m l) c.whole i.scores);
  high_scores = Scored-right m c.lo c.hi (subst (λ l. Scored m l) c.whole i.scores);
}

-- The list with the entry, and what the insertion leaves alone.
pub record Placed (levels : ℕ) (m : Nodes) (sl : Ptr) (e : Entry) (es : List Entry) (t : Nodes)
    : Type 0 where
  pub list : IsSkiplist levels t sl (insert_sorted e es)
  pub same_score : t.score ≡ m.score
  pub other : (j : ℕ) (a : Ptr) → a ∉ (sl ∷ addrs es) → a ≢ e.addr → t.forward j a ≡ m.forward j a

pub insert-Placed :
    (fuel levels l : ℕ) (m : Nodes) (sl : Ptr) (e : Entry) (es : List Entry)
    → e.height ≡ (if ltb levels l then levels else l)
    → IsSkiplist levels m sl es
    → IsNew levels m sl e es
    → length es < fuel
    → Returns (λ _. Placed levels m sl e es) (insert fuel levels l sl e.addr m)
unfolding insert
insert-Placed fuel levels l m sl e es height i n enough =
    let c = cut e es i.sorted in
    rw (get_score-ok m e.addr n.score, sym height)
      (mono
        (insert_from-Inserted sl e c.lo c.hi c.low c.high
          (subst (λ l. Distinct (sl ∷ addrs l)) c.whole i.distinct)
          (subst (λ l. null ∉ addrs l) c.whole i.nonnull.1)
          (subst (λ l. e.addr ∉ (sl ∷ addrs l)) c.whole n.new) levels fuel m
          (Before-Cut levels m sl e es c i n) (inl refl)
          (omega (arith, ap length c.whole, length-append c.lo c.hi)))
        (λ _ t r. record {
          list = Inserted-IsSkiplist levels m t sl e es c i n r;
          same_score = r.same_score;
          other = λ j a out. r.other j a (subst (λ l. a ∉ (sl ∷ addrs l)) c.whole out);
        }))

-- Inserting an allocated node that a skip list does not hold, with more fuel than the list has
-- nodes, ends with the sorted list that has the node behind every entry whose score is not above
-- its own, at each level below its height: the level that was drawn, or all levels if that is
-- more.
pub insert-insert_sorted :
    (fuel levels l : ℕ) (m : Nodes) (sl : Ptr) (e : Entry) (es : List Entry)
    → e.height ≡ (if ltb levels l then levels else l)
    → IsSkiplist levels m sl es
    → IsNew levels m sl e es
    → length es < fuel
    → Returns
        (λ _ t. IsSkiplist levels t sl (insert_sorted e es))
        (insert fuel levels l sl e.addr m)
insert-insert_sorted fuel levels l m sl e es height i n enough =
    mono (insert-Placed fuel levels l m sl e es height i n enough) (λ _ t p. p.list)
