-- ===== src/Skiplist/Write.antt =====
-- Writes of `p->forward[i]` in src/skiplist.h, and the levels of a list that is split in two.
use libep.Base.{ℕ, ◌≡◌, ◌≢◌, ◌∙◌, ap, some, List, [], ◌∷◌, ◌++◌, ok}
use libep.ListHead.{Ptr, update}
use libep.ListHead.Linked.{update_self, update_ne}
use libep.Skiplist.Defs.{Nodes, with_forward, set_forward}
use libep.Skiplist.Entries.{Entry, addrs, tall, Scored, tall-append, addrs-append}

pub set_forward-ok :
    (i : ℕ) (p q : Ptr) (m : Nodes) {v : Ptr}
    → m.forward i p ≡ some v
    → set_forward i p q m ≡ ok tt (with_forward i p q m)
unfolding set_forward
set_forward-ok i p q m h = rw (h, set_forward)

pub with_forward_self :
    (i : ℕ) (p q : Ptr) (m : Nodes)
    → (with_forward i p q m).forward i ≡ update (m.forward i) p (some q)
with_forward_self i p q m = update_self m.forward i (update (m.forward i) p (some q))

pub with_forward_other :
    (i : ℕ) (p q : Ptr) (m : Nodes) {j : ℕ} → j ≢ i → (with_forward i p q m).forward j ≡ m.forward j
with_forward_other i p q m h = update_ne m.forward i (update (m.forward i) p (some q)) h

pub Scored-same : (m t : Nodes) → t.score ≡ m.score → (es : List Entry) → Scored m es → Scored t es
Scored-same m t h [] s = tt
Scored-same m t h (e ∷ es) s = (ap (λ f. f e.addr) h ∙ s.0, Scored-same m t h es s.1)

-- The addresses of one level, split where the list is.
pub level-append :
    (i : ℕ) (es fs : List Entry)
    → addrs (tall i (es ++ fs)) ≡ addrs (tall i es) ++ addrs (tall i fs)
level-append i es fs = ap addrs (tall-append i es fs) ∙ addrs-append (tall i es) (tall i fs)
