-- ===== src/ListHead/Linked.antt =====
-- Runs of links, and what joining two nodes does to them.
use libep.Base.{
  ◌≡◌, ◌≢◌, ◌∙◌, sym, some, List, [], ◌∷◌, ◌++◌, arith, Option, ok, ◌∉◌, Distinct, last, first,
  last-ne,
}
use libep.ListHead.Defs.{Ptr, Links, update, get_next, get_prev}

-- `q` follows `p`, by both fields.
abbrev pub Adjacent : Links → Ptr → Ptr → Type 0
Adjacent m p q = (m.next p ≡ some q) × (m.prev q ≡ some p)

-- From `p` the links lead through `xs` to `q`, forwards by `next` and back by `prev`.
abbrev pub Linked : Links → Ptr → List Ptr → Ptr → Type 0
Linked m p [] q = Adjacent m p q
Linked m p (x ∷ xs) q = Adjacent m p x × Linked m x xs q

-- The circular list behind `head` holds the distinct entries `xs`, in this order.
pub record Ring (m : Links) (head : Ptr) (xs : List Ptr) : Type 0 where
  pub linked : Linked m head xs head
  pub distinct : Distinct (head ∷ xs)

-- `a->next = b; b->prev = a`
abbrev pub join : Ptr → Ptr → Links → Links
join a b m = record { next = update m.next a (some b); prev = update m.prev b (some a) }

pub update_self {ℓ} : {A : Type ℓ} (f : Ptr → A) (p : Ptr) (v : A) → update f p v p ≡ v
unfolding update
update_self f p v = ground arith

pub update_ne {ℓ} :
    {A : Type ℓ} (f : Ptr → A) (p : Ptr) (v : A) {a : Ptr} → a ≢ p → update f p v a ≡ f a
unfolding update
update_ne f p v h = ground arith

pub Linked-next_last :
    (m : Links) (p : Ptr) (xs : List Ptr) (q : Ptr) → Linked m p xs q → m.next (last p xs) ≡ some q
Linked-next_last m p [] q l = l.0
Linked-next_last m p (x ∷ xs) q l = Linked-next_last m x xs q l.1

pub Linked-prev_end :
    (m : Links) (p : Ptr) (xs : List Ptr) (q : Ptr) → Linked m p xs q → m.prev q ≡ some (last p xs)
Linked-prev_end m p [] q l = l.1
Linked-prev_end m p (x ∷ xs) q l = Linked-prev_end m x xs q l.1

pub Linked-next_start :
    (m : Links) (p : Ptr) (xs : List Ptr) (q : Ptr) → Linked m p xs q → m.next p ≡ some (first xs q)
Linked-next_start m p [] q l = l.0
Linked-next_start m p (x ∷ xs) q l = l.0.0

pub Linked-prev_first :
    (m : Links) (p : Ptr) (xs : List Ptr) (q : Ptr) → Linked m p xs q → m.prev (first xs q) ≡ some p
Linked-prev_first m p [] q l = l.1
Linked-prev_first m p (x ∷ xs) q l = l.0.1

pub Linked-append :
    (m : Links) (p : Ptr) (xs : List Ptr) (e : Ptr) (ys : List Ptr) (q : Ptr)
    → Linked m p xs e
    → Linked m e ys q
    → Linked m p (xs ++ e ∷ ys) q
Linked-append m p [] e ys q l r = (l, r)
Linked-append m p (x ∷ xs) e ys q l r = (l.0, Linked-append m x xs e ys q l.1 r)

pub Linked-split_left :
    (m : Links) (p : Ptr) (xs : List Ptr) (e : Ptr) (ys : List Ptr) (q : Ptr)
    → Linked m p (xs ++ e ∷ ys) q
    → Linked m p xs e
Linked-split_left m p [] e ys q l = l.0
Linked-split_left m p (x ∷ xs) e ys q l = (l.0, Linked-split_left m x xs e ys q l.1)

pub Linked-split_right :
    (m : Links) (p : Ptr) (xs : List Ptr) (e : Ptr) (ys : List Ptr) (q : Ptr)
    → Linked m p (xs ++ e ∷ ys) q
    → Linked m e ys q
Linked-split_right m p [] e ys q l = l.1
Linked-split_right m p (x ∷ xs) e ys q l = Linked-split_right m x xs e ys q l.1

-- Joining `a` to `b` spares a run that neither leaves `a` forwards nor `b` backwards.
pub Linked-join_frame :
    (m : Links) (a b p : Ptr) (xs : List Ptr) (q : Ptr)
    → a ≢ p
    → a ∉ xs
    → b ∉ xs
    → b ≢ q
    → Linked m p xs q
    → Linked (join a b m) p xs q
unfolding update
Linked-join_frame m a b p [] q np na nb nq l = ground arith
Linked-join_frame m a b p (x ∷ xs) q np na nb nq l =
    (ground arith, Linked-join_frame m a b x xs q na.0 na.1 nb.1 nq l.1)

-- Joining the last node of a run to `b` makes the run end at `b`.
pub Linked-join-last :
    (m : Links) (b p : Ptr) (xs : List Ptr) (q : Ptr)
    → Distinct (p ∷ xs)
    → b ∉ xs
    → Linked m p xs q
    → Linked (join (last p xs) b m) p xs b
Linked-join-last m b p [] q d nb l = (update_self m.next p (some b), update_self m.prev b (some p))
Linked-join-last m b p (x ∷ xs) q d nb l =
    let other : p ≢ last x xs = last-ne x p xs d.0.0 d.0.1 in
    (
      (
        update_ne m.next (last x xs) (some b) other ∙ l.0.0,
        update_ne m.prev b (some (last x xs)) (λ e. nb.0 (sym e)) ∙ l.0.1,
      ),
      Linked-join-last m b x xs q d.1 nb.1 l.1,
    )

-- An object at `p`: both fields can be read and written.
pub record Allocated (m : Links) (p : Ptr) : Type 0 where
  pub next_value : Ptr
  pub prev_value : Ptr
  pub has_next : m.next p ≡ some next_value
  pub has_prev : m.prev p ≡ some prev_value

module _ (m : Links) (p : Ptr) {q : Ptr} where
  pub get_next-ok : m.next p ≡ some q → get_next p m ≡ ok q m
  unfolding get_next
  get_next-ok h = ground arith

  pub get_prev-ok : m.prev p ≡ some q → get_prev p m ≡ ok q m
  unfolding get_prev
  get_prev-ok h = ground arith

-- Both fields of one node replaced, whatever is written to them.
abbrev pub overwrite : Ptr → Option Ptr → Option Ptr → Links → Links
overwrite e v w m = record { next = update m.next e v; prev = update m.prev e w }

pub Linked-overwrite :
    (m : Links) (e : Ptr) (v w : Option Ptr) (p : Ptr) (xs : List Ptr) (q : Ptr)
    → e ≢ p
    → e ∉ xs
    → e ≢ q
    → Linked m p xs q
    → Linked (overwrite e v w m) p xs q
unfolding update
Linked-overwrite m e v w p [] q np nx nq l = ground arith
Linked-overwrite m e v w p (x ∷ xs) q np nx nq l =
    (ground arith, Linked-overwrite m e v w x xs q nx.0 nx.1 nq l.1)

-- A circular list survives any change of a node outside it.
pub Ring_overwrite :
    {m : Links} {head : Ptr} {xs : List Ptr} (e : Ptr) (v w : Option Ptr)
    → Ring m head xs
    → e ∉ (head ∷ xs)
    → Ring (overwrite e v w m) head xs
Ring_overwrite {m} {head} {xs} e v w r out = record {
  linked = Linked-overwrite m e v w head xs head out.0 out.1 out.0 r.linked;
  distinct = r.distinct;
}

-- A circular list survives the joining of two nodes outside it.
pub Ring_join :
    {m : Links} {head : Ptr} {xs : List Ptr} (a b : Ptr)
    → Ring m head xs
    → a ∉ (head ∷ xs)
    → b ∉ (head ∷ xs)
    → Ring (join a b m) head xs
Ring_join {m} {head} {xs} a b r na nb = record {
  linked = Linked-join_frame m a b head xs head na.0 na.1 nb.1 nb.0 r.linked;
  distinct = r.distinct;
}
