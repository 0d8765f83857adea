-- ===== src/Timer/Execute.antt =====
-- `ep_timer_execute` of src/ep_timer.h, for timers that run once.
use libep.Base.{
  ℕ, zero, suc, ◌+◌, ◌<◌, ◌≤◌, ◌≡◌, ◌≢◌, ◌∙◌, refl, ap, sym, subst, List, [], ◌∷◌, ◌++◌, arith, ◌∉◌,
  Distinct, Apart, length, first, ok, some, none, Option, Returns, returns, mono, bind, pure,
  ==_of_ne, ==_self, if◌then◌else◌, Bool, true, false, Bool-cases, inl, inr, append_assoc,
  append-nil, ∉_append_left, Distinct-append_left, Distinct_append_apart, Apart-cons, length-append,
}
use libep.Base.Int.{ℤ}
use libep.ListHead.{Ptr, null, update}
use libep.ListHead.Linked.{update_ne}
use libep.Skiplist.Defs.{Nodes, get_forward, extract_lte}
use libep.Skiplist.Chain.{Chain-first, Chain-update}
use libep.Skiplist.Entries.{Entry, addrs, addrs-append, IsSkiplist}
use libep.Skiplist.Walk.{get_forward-ok}
use libep.Skiplist.UpTo.{up_to, beyond, up_to-beyond}
use libep.Skiplist.Taken.{Linked0, extract_lte-up_to}
use libep.Timer.Defs.{
  Timers, Info, levels, without, get_info, next_or_null, stops, lowered, execute_body, execute_from,
  execute,
}
use libep.Timer.Memory.{without-IsSkiplist, on_nodes-ok, on_nodes-Returns}
use libep.Timer.Clear.{destroy-ok}

-- The timers `es` run once, with the callbacks `cs`.
abbrev pub RunOnce : (Ptr → Option Info) → List Entry → List (ℕ × ℕ) → Type 0
RunOnce f [] [] = Unit
RunOnce f [] (c ∷ cs) = ⊥
RunOnce f (e ∷ es) [] = ⊥
RunOnce f (e ∷ es) (c ∷ cs) =
    (f e.addr ≡ some (record { ms = 0; cb = c.0; arg = c.1 })) × RunOnce f es cs

-- How many of a list the loop gets to.
abbrev pub reached : {A : Type 0} → ℤ → List A → List A
reached max [] = []
reached max (x ∷ xs) = x ∷ (if stops max then [] else reached (lowered max) xs)

-- The nodes `xs` given back.
abbrev pub freed : List Ptr → (Ptr → Option Info) → Ptr → Option Info
freed [] f = f
freed (x ∷ xs) f = freed xs (update f x none)

-- The client's functions do nothing to the timers.
abbrev pub quiet : (cb arg : ℕ) → Timers → libep.Base.Run Timers (Unit {0})
quiet cb arg s = ok tt s

pub get_info-ok : (p : Ptr) (s : Timers) {i : Info} → s.info p ≡ some i → get_info p s ≡ ok i s
unfolding get_info
get_info-ok p s h = rw (h, get_info)

RunOnce-update :
    (f : Ptr → Option Info) (a : Ptr) (es : List Entry) (cs : List (ℕ × ℕ))
    → a ∉ addrs es
    → RunOnce f es cs
    → RunOnce (update f a none) es cs
RunOnce-update f a [] [] out h = tt
RunOnce-update f a [] (c ∷ cs) out h = elim h [ ]
RunOnce-update f a (e ∷ es) [] out h = elim h [ ]
RunOnce-update f a (e ∷ es) (c ∷ cs) out h =
    (update_ne f a none (λ q. out.0 (sym q)) ∙ h.0, RunOnce-update f a es cs out.1 h.1)

-- One timer: its callback is made and its memory given back.
abbrev pub done : Entry → ℕ × ℕ → Timers → Timers
done e c s = record s {
  calls = s.calls ++ c ∷ [];
  info = update s.info e.addr none;
  nodes = without e.addr s.nodes;
}

execute_body-done :
    (fuel : ℕ) (sl : Ptr) (e : Entry) (c : ℕ × ℕ) (s : Timers)
    → s.info e.addr ≡ some (record { ms = 0; cb = c.0; arg = c.1 })
    → execute_body quiet fuel sl e.addr s ≡ ok tt (done e c s)
unfolding execute_body
execute_body-done fuel sl e c s h =
    rw
      (
        get_info-ok e.addr s h,
        get_info-ok e.addr (record s { calls = s.calls ++ c ∷ [] }) h,
        destroy-ok e.addr (record s { calls = s.calls ++ c ∷ [] }) h,
      )
      refl

abbrev pub second : List Entry → Ptr
second [] = null
second (e ∷ es) = first (addrs es) null

-- What the loop reads as the next node but one.
pub next_or_null-second :
    (s : Timers) (es : List Entry)
    → Linked0 s.nodes es
    → null ∉ addrs es
    → next_or_null (first (addrs es) null) s ≡ ok (second es) s
unfolding next_or_null
next_or_null-second s [] l n = refl
next_or_null-second s (e ∷ es) l n = rw (==_of_ne {a = e.addr} {b = null} (λ q. n.0 (sym q))) (
    on_nodes-ok (get_forward 0 e.addr) s
      (get_forward-ok s.nodes 0 e.addr (Chain-first (s.nodes.forward 0) e.addr (addrs es) l)))

pub Linked0-without :
    (m : Nodes) (a : Ptr) (es : List Entry) → a ∉ addrs es → Linked0 m es → Linked0 (without a m) es
Linked0-without m a [] out l = tt
Linked0-without m a (e ∷ es) out l =
    Chain-update (m.forward 0) a none e.addr (addrs es) out.0 out.1 l

pub Linked0-tail : (m : Nodes) (e : Entry) (es : List Entry) → Linked0 m (e ∷ es) → Linked0 m es
Linked0-tail m e [] l = tt
Linked0-tail m e (x ∷ es) l = l.1

-- The callbacks that were made, the nodes that were given back, and the list.
pub record Executed (sl : Ptr) (es : List Entry) (cs : List (ℕ × ℕ)) (hi : List Entry) (max : ℤ)
    (s t : Timers) : Type 0 where
  pub calls : t.calls ≡ s.calls ++ reached max cs
  pub info : t.info ≡ freed (addrs (reached max es)) s.info
  pub list : IsSkiplist levels t.nodes sl hi
  pub clock : t.clock ≡ s.clock

execute_from-Executed :
    (fuel k : ℕ) (sl : Ptr) (es : List Entry) (cs : List (ℕ × ℕ)) (hi : List Entry) (max : ℤ)
    (s : Timers)
    → Linked0 s.nodes es
    → RunOnce s.info es cs
    → Distinct (addrs es)
    → null ∉ addrs es
    → Apart (addrs es) (sl ∷ addrs hi)
    → IsSkiplist levels s.nodes sl hi
    → length es < k
    → Returns
        (λ _. Executed sl es cs hi max s)
        (execute_from quiet fuel sl k max (first (addrs es) null) (second es) s)
unfolding execute_from
execute_from-Executed fuel zero sl es cs hi max s l o d n a i enough = absurd (omega arith)
execute_from-Executed fuel (suc k) sl [] (c ∷ cs) hi max s l o d n a i enough = elim o [ ]
execute_from-Executed fuel (suc k) sl (e ∷ es) [] hi max s l o d n a i enough = elim o [ ]
execute_from-Executed fuel (suc k) sl [] [] hi max s l o d n a i enough =
    returns record { calls = sym (append-nil s.calls); info = refl; list = i; clock = refl }
execute_from-Executed fuel (suc k) sl (e ∷ es) (c ∷ cs) hi max s l o d n a i enough =
    elim (Bool-cases (stops max)) [
      | inl halt ↦
          rw
            (
              ==_of_ne {a = e.addr} {b = null} (λ q. n.0 (sym q)),
              execute_body-done fuel sl e c s o.0,
              halt,
            )
            (returns record {
              calls = rw halt refl;
              info = rw halt refl;
              list = without-IsSkiplist levels s.nodes sl e.addr hi a.0 i;
              clock = refl;
            })
      | inr more ↦
          let t = done e c s in
          let l' = Linked0-without s.nodes e.addr es d.0 (Linked0-tail s.nodes e es l) in
          rw
            (
              ==_of_ne {a = e.addr} {b = null} (λ q. n.0 (sym q)),
              execute_body-done fuel sl e c s o.0,
              more,
              next_or_null-second t es l' n.1,
            )
            (mono
              (execute_from-Executed fuel k sl es cs hi (lowered max) t l'
                (RunOnce-update s.info e.addr es cs d.0 o.1) d.1 n.1 a.1
                (without-IsSkiplist levels s.nodes sl e.addr hi a.0 i) (omega arith))
              (λ _ u r. record {
                calls =
                    rw more (r.calls ∙ append_assoc s.calls (c ∷ []) (reached (lowered max) cs));
                info = rw more r.info;
                list = r.list;
                clock = r.clock;
              }))
    ]

-- `ep_timer_execute`, where the timers that are due all run once and their callbacks leave the
-- timers alone, and with more fuel than there are timers, ends, makes the callbacks of the due timers in the order of their times as far as
-- `max_times` lets it, each once, and gives the memory of those timers back. The list is left with
-- the timers that are not due: the due ones that `max_times` cut off are in it no more, were not
-- called, and are not given back.
pub execute-reached :
    (fuel : ℕ) (sl : Ptr) (es : List Entry) (cs : List (ℕ × ℕ)) (now : ℕ) (max_times : ℤ)
    (s : Timers)
    → IsSkiplist levels s.nodes sl es
    → RunOnce s.info (up_to now es) cs
    → length es < fuel
    → Returns
        (λ _. Executed sl (up_to now es) cs (beyond now es) max_times s)
        (execute quiet fuel sl now max_times s)
unfolding execute
execute-reached fuel sl es cs now max s i once enough =
    let lo = up_to now es in
    let hi = beyond now es in
    let whole : es ≡ lo ++ hi = up_to-beyond now es in
    let all : addrs es ≡ addrs lo ++ addrs hi = ap addrs whole ∙ addrs-append lo hi in
    let d : Distinct (sl ∷ addrs lo ++ addrs hi) = subst (λ l. Distinct (sl ∷ l)) all i.distinct in
    let n : null ∉ addrs lo =
      ∉_append_left null (addrs lo) (addrs hi) (subst (λ l. null ∉ l) all i.nonnull.1) in
    let apart =
      Apart-cons (addrs lo) sl (addrs hi) (∉_append_left sl (addrs lo) (addrs hi) d.0)
        (Distinct_append_apart (addrs lo) (addrs hi) d.1) in
    bind
      (on_nodes-Returns (extract_lte fuel levels sl now) s
        (extract_lte-up_to fuel levels now s.nodes sl es (omega arith) i enough))
      (λ r t q.
        rw (q.0.taken, next_or_null-second t lo q.0.run n)
          (mono
            (execute_from-Executed fuel fuel sl lo cs hi max t q.0.run
              (subst (λ f. RunOnce f lo cs) (sym (ap (λ z. z.info) q.1)) once)
              (Distinct-append_left (addrs lo) (addrs hi) d.1) n apart q.0.left
              (omega (arith, ap length whole, length-append lo hi)))
            (λ _ u x. record {
              calls = x.calls ∙ ap (λ z. z.calls ++ reached max cs) q.1;
              info = x.info ∙ ap (λ z. freed (addrs (reached max lo)) z.info) q.1;
              list = x.list;
              clock = x.clock ∙ ap (λ z. z.clock) q.1;
            })))
