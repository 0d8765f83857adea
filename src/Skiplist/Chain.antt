-- ===== src/Skiplist/Chain.antt =====
-- Runs of nodes at one level of a skip list of src/skiplist.h, and the two ways in which a pointer
-- is rewritten.
use libep.Base.{
  ◌≡◌, ◌≢◌, ◌∙◌, sym, Option, some, List, [], ◌∷◌, ◌++◌, ◌∉◌, Distinct, last, first, last-ne,
  ∉_append_left, ∉_append_right,
}
use libep.ListHead.{Ptr, null, update}
use libep.ListHead.Linked.{update_self, update_ne}

-- From `p` the pointers lead through `xs` to null.
abbrev pub Chain : (Ptr → Option Ptr) → Ptr → List Ptr → Type 0
Chain f p [] = f p ≡ some null
Chain f p (x ∷ xs) = (f p ≡ some x) × Chain f x xs

pub Chain-first :
    (f : Ptr → Option Ptr) (p : Ptr) (xs : List Ptr) → Chain f p xs → f p ≡ some (first xs null)
Chain-first f p [] c = c
Chain-first f p (x ∷ xs) c = c.0

-- What the last node of a run points to.
pub Chain-last :
    (f : Ptr → Option Ptr) (p : Ptr) (xs ys : List Ptr)
    → Chain f p (xs ++ ys)
    → Chain f (last p xs) ys
Chain-last f p [] ys c = c
Chain-last f p (x ∷ xs) ys c = Chain-last f x xs ys c.1

-- A write to another node.
pub Chain-update :
    (f : Ptr → Option Ptr) (a : Ptr) (v : Option Ptr) (p : Ptr) (xs : List Ptr)
    → a ≢ p
    → a ∉ xs
    → Chain f p xs
    → Chain (update f a v) p xs
Chain-update f a v p [] np nx c = update_ne f a v (λ e. np (sym e)) ∙ c
Chain-update f a v p (x ∷ xs) np nx c =
    (update_ne f a v (λ e. np (sym e)) ∙ c.0, Chain-update f a v x xs nx.0 nx.1 c.1)

-- The pointers once the node `n` stands between `a` and what followed it.
abbrev pub linked_in : (a n next : Ptr) → (Ptr → Option Ptr) → Ptr → Option Ptr
linked_in a n next f = update (update f n (some next)) a (some n)

pub Chain-linked_in :
    (f : Ptr → Option Ptr) (n p : Ptr) (xs ys : List Ptr)
    → Distinct (p ∷ xs ++ ys)
    → n ≢ p
    → n ∉ (xs ++ ys)
    → Chain f p (xs ++ ys)
    → Chain (linked_in (last p xs) n (first ys null) f) p (xs ++ n ∷ ys)
Chain-linked_in f n p [] [] d np nx c =
    (update_self _ p (some n), update_ne _ p (some n) np ∙ update_self f n (some null))
Chain-linked_in f n p [] (y ∷ ys) d np nx c = (
  update_self _ p (some n),
  (
    update_ne _ p (some n) np ∙ update_self f n (some y),
    Chain-update (update f n (some y)) p (some n) y ys d.0.0 d.0.1
        (Chain-update f n (some y) y ys nx.0 nx.1 c.1),
  ),
)
Chain-linked_in f n p (x ∷ xs) ys d np nx c = (
  update_ne _ (last x xs) (some n) (last-ne x p xs d.0.0 (∉_append_left p xs ys d.0.1))
      ∙ update_ne f n (some (first ys null)) (λ e. np (sym e))
      ∙ c.0,
  Chain-linked_in f n x xs ys d.1 nx.0 nx.1 c.1,
)

-- The pointers once the start of a run points past its first part.
pub Chain-skip :
    (f : Ptr → Option Ptr) (p : Ptr) (xs ys : List Ptr)
    → Distinct (p ∷ xs ++ ys)
    → Chain f p (xs ++ ys)
    → Chain (update f p (some (first ys null))) p ys
Chain-skip f p xs [] d c = update_self f p (some null)
Chain-skip f p xs (y ∷ ys) d c =
    let out = ∉_append_right p xs (y ∷ ys) d.0 in
    (
      update_self f p (some y),
      Chain-update f p (some y) y ys out.0 out.1 (Chain-last f p xs (y ∷ ys) c).1,
    )

-- The pointers once the last node of the first part points to null.
pub Chain-cut :
    (f : Ptr → Option Ptr) (p : Ptr) (xs ys : List Ptr)
    → Distinct (p ∷ xs ++ ys)
    → Chain f p (xs ++ ys)
    → Chain (update f (last p xs) (some null)) p xs
Chain-cut f p [] ys d c = update_self f p (some null)
Chain-cut f p (x ∷ xs) ys d c = (
  update_ne f (last x xs) (some null) (last-ne x p xs d.0.0 (∉_append_left p xs ys d.0.1)) ∙ c.0,
  Chain-cut f x xs ys d.1 c.1,
)

-- Another map that agrees everywhere but at `h`.
pub Chain-same :
    (f g : Ptr → Option Ptr) (h p : Ptr) (xs : List Ptr)
    → ((a : Ptr) → a ≢ h → g a ≡ f a)
    → h ∉ (p ∷ xs)
    → Chain f p xs
    → Chain g p xs
Chain-same f g h p [] same out c = same p (λ e. out.0 (sym e)) ∙ c
Chain-same f g h p (x ∷ xs) same out c =
    (same p (λ e. out.0 (sym e)) ∙ c.0, Chain-same f g h x xs same out.1 c.1)

-- The pointers once the node in front of `n` points to what followed `n`.
pub Chain-unlinked :
    (f : Ptr → Option Ptr) (n p : Ptr) (xs ys : List Ptr)
    → Distinct (p ∷ xs ++ n ∷ ys)
    → Chain f p (xs ++ n ∷ ys)
    → Chain (update f (last p xs) (some (first ys null))) p (xs ++ ys)
Chain-unlinked f n p [] ys d c = Chain-skip f p (n ∷ []) ys d c
Chain-unlinked f n p (x ∷ xs) ys d c = (
  update_ne f (last x xs) (some (first ys null))
        (last-ne x p xs d.0.0 (∉_append_left p xs (n ∷ ys) d.0.1))
      ∙ c.0,
  Chain-unlinked f n x xs ys d.1 c.1,
)
