-- ===== src/Timer/Start.antt =====
-- `ep_timer_run_after` and `ep_timer_run_every` of src/ep_timer.h.
use libep.Base.{
  ℕ, ◌+◌, ◌%◌, ◌^◌, ◌<◌, ◌≤◌, ◌≡◌, ◌≢◌, ◌∙◌, refl, ap, sym, subst, List, [], ◌∷◌, arith, ◌∉◌,
  length, ok, some, Returns, returns, bind, Bool, true, ltb, if◌then◌else◌, Bool-cases, inl, inr,
  ==_of_ne,
}
use libep.ListHead.{Ptr, null, update}
use libep.ListHead.Linked.{update_self}
use libep.Skiplist.Defs.{Nodes, node_init, random_level, insert}
use libep.Skiplist.Entries.{Entry, addrs, IsSkiplist}
use libep.Skiplist.Sorted.{insert_sorted, IsNew, insert-insert_sorted}
use libep.Timer.Defs.{on_nodes, Timers, Info, levels, passes, create, set_info, insert_drawn, start}
use libep.Timer.Memory.{node_init-IsSkiplist, on_nodes-ok, on_nodes-Returns}

-- A drawn level is at least the level that the loop starts at.
pub random_level-le :
    (test : ℕ → Bool) (draws : List ℕ) (n l : ℕ) (rest : List ℕ)
    → random_level test draws n ≡ some (l, rest)
    → n ≤ l
unfolding random_level
random_level-le test [] n l rest h = absurd (cc h)
random_level-le test (r ∷ draws) n l rest h = elim (Bool-cases (test r)) [
  | inl t ↦
      let more : random_level test draws (n + 1) ≡ some (l, rest) =
        subst
          (λ b. (if b then random_level test draws (n + 1) else some (n, draws)) ≡ some (l, rest)) t
          h in
      omega (arith, random_level-le test draws (n + 1) l rest more)
  | inr f ↦
      let here : some (n, draws) ≡ some (l, rest) =
        subst
          (λ b. (if b then random_level test draws (n + 1) else some (n, draws)) ≡ some (l, rest)) f
          h in
      ground (arith, here)
]

node_init-score : (m : Nodes) (a : Ptr) (s : ℕ) → (node_init levels a s m).score a ≡ some s
unfolding node_init
node_init-score m a s = update_self m.score a (some s)

pub node_init-old :
    (m : Nodes) (a : Ptr) (s j : ℕ) → j < levels → (node_init levels a s m).forward j a ≡ some null
unfolding node_init
node_init-old m a s j h =
    let t : ltb j levels ≡ true = ground (arith, h) in
    rw t (update_self (m.forward j) a (some null))

create-ok :
    (s : Timers) (p : Ptr) (rest : List Ptr)
    → s.available ≡ p ∷ rest
    → null ≢ p
    → create s
      ≡ ok p (record s {
        available = rest;
        info = update s.info p (some (record { ms = 0; cb = 0; arg = 0 }));
      })
unfolding create
create-ok s p rest h nn = rw (h, ==_of_ne {a = p} {b = null} (λ q. nn (sym q))) refl

set_info-ok :
    (p : Ptr) (i : Info) (s : Timers) {v : Info}
    → s.info p ≡ some v
    → set_info p i s ≡ ok tt (record s { info = update s.info p (some i) })
unfolding set_info
set_info-ok p i s h = rw (h, set_info)

pub insert_drawn-ok :
    (fuel : ℕ) (sl p : Ptr) (s : Timers) (l : ℕ) (draws : List ℕ)
    → random_level passes s.draws 1 ≡ some (l, draws)
    → insert_drawn fuel sl p s ≡ on_nodes (insert fuel levels l sl p) (record s { draws = draws })
unfolding insert_drawn
insert_drawn-ok fuel sl p s l draws h = rw (h, insert_drawn)

-- The entry of a new timer whose level was drawn as `l`.
abbrev pub entry : ℕ → ℕ → ℕ → Ptr → Entry
entry now delay l p = record {
  addr = p;
  score = (now + delay) % 2 ^ 64;
  height = if ltb levels l then levels else l;
}

-- The memory before the insertion.
abbrev pub prepared : ℕ → Ptr → Timers → Nodes
prepared delay p s = node_init levels p ((s.now + delay) % 2 ^ 64) s.nodes

prepared-IsNew :
    (sl : Ptr) (s : Timers) (es : List Entry) (delay l : ℕ) (p : Ptr)
    → 1 ≤ l
    → null ≢ p
    → p ∉ (sl ∷ addrs es)
    → IsNew levels (prepared delay p s) sl (entry s.now delay l p) es
prepared-IsNew sl s es delay l p pos nn out = record {
  score = node_init-score s.nodes p ((s.now + delay) % 2 ^ 64);
  old = λ j h. (null, node_init-old s.nodes p ((s.now + delay) % 2 ^ 64) j h);
  new = out;
  nonnull = nn;
  positive = ground arith;
}

-- Starting a timer, if `malloc` succeeds and `random` ends the drawing of a level, returns the new
-- node; it then stands in the skip list at the time when it is due, modulo 2^64, behind the timers
-- that are due no later, with its period, its callback and its argument.
pub start-insert_sorted :
    (fuel : ℕ) (sl : Ptr) (s : Timers) (es : List Entry) (p : Ptr) (rest : List Ptr) (l : ℕ)
    (draws : List ℕ) (period delay cb arg : ℕ)
    → IsSkiplist levels s.nodes sl es
    → s.available ≡ p ∷ rest
    → null ≢ p
    → p ∉ (sl ∷ addrs es)
    → random_level passes s.draws 1 ≡ some (l, draws)
    → length es < fuel
    → Returns
        (λ r t.
          (r ≡ p)
          × IsSkiplist levels t.nodes sl (insert_sorted (entry s.now delay l p) es)
          × (t.info p ≡ some (record { ms = period; cb = cb; arg = arg })))
        (start fuel sl period delay cb arg s)
unfolding start
start-insert_sorted fuel sl s es p rest l draws period delay cb arg i avail nn out drawn enough =
    let made : Timers = record s {
      available = rest;
      info = update s.info p (some (record { ms = 0; cb = 0; arg = 0 }));
    } in
    let zeroed : Timers = record made { nodes = prepared delay p s } in
    let filled : Timers = record zeroed {
      info = update made.info p (some (record { ms = period; cb = cb; arg = arg }));
    } in
    rw
      (
        create-ok s p rest avail nn,
        ==_of_ne {a = p} {b = null} (λ q. nn (sym q)),
        on_nodes-ok (λ m. ok tt (node_init levels p ((s.now + delay) % 2 ^ 64) m)) made refl,
        set_info-ok p (record { ms = period; cb = cb; arg = arg }) zeroed
            (update_self s.info p (some (record { ms = 0; cb = 0; arg = 0 }))),
        insert_drawn-ok fuel sl p filled l draws drawn,
      )
      (bind
        (on_nodes-Returns (insert fuel levels l sl p) (record filled { draws = draws })
          (insert-insert_sorted fuel levels l (prepared delay p s) sl (entry s.now delay l p) es
            refl (node_init-IsSkiplist levels s.nodes sl p ((s.now + delay) % 2 ^ 64) es out i)
            (prepared-IsNew sl s es delay l p (random_level-le passes s.draws 1 l draws drawn) nn
              out)
            enough))
        (λ _ t q. returns (
          refl,
          q.0,
          ap (λ z. z.info p) q.1
              ∙ update_self made.info p (some (record { ms = period; cb = cb; arg = arg })),
        )))
