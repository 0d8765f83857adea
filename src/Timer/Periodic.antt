-- ===== src/Timer/Periodic.antt =====
-- One timer of `ep_timer_execute` of src/ep_timer.h, run once or put back.
use libep.Base.{
  ℕ, suc, ◌+◌, ◌%◌, ◌^◌, ◌<◌, ◌≤◌, ◌≡◌, ◌≢◌, ◌∙◌, refl, ap, List, [], ◌∷◌, ◌++◌, arith, ◌∉◌, length,
  ok, some, none, Option, Returns, returns, mono, if◌then◌else◌, true, false, ltb,
}
use libep.ListHead.{Ptr, null, update}
use libep.ListHead.Linked.{update_self, update_ne}
use libep.Skiplist.Defs.{Nodes, random_level, insert, get_score}
use libep.Skiplist.Entries.{Entry, addrs, IsSkiplist}
use libep.Skiplist.Walk.{get_score-ok}
use libep.Skiplist.Sorted.{
  insert_sorted, ∉-insert_sorted, length-insert_sorted, IsNew, insert-Placed,
}
use libep.Timer.Defs.{Timers, Info, levels, passes, postpone, execute_body}
use libep.Timer.Memory.{IsSkiplist-except, without-IsSkiplist, on_nodes-ok, on_nodes-Returns}
use libep.Timer.Clear.{destroy-ok}
use libep.Timer.Start.{random_level-le, insert_drawn-ok}
use libep.Timer.Execute.{quiet, get_info-ok}

-- The entry of a periodic timer that ran, when its level is drawn as `l`.
abbrev pub again : Entry → Info → ℕ → Entry
again e i l = record {
  addr = e.addr;
  score = (e.score + i.ms) % 2 ^ 64;
  height = if ltb levels l then levels else l;
}

-- What becomes of the other timers `es` and of the numbers left to `random`, after one more timer
-- ran: one that ran once is gone, and a periodic one is put back at its next time, with the level
-- that is drawn.
pub data Settles (draws : List ℕ) (e : Entry) (i : Info) (es : List Entry)
    : List Entry → List ℕ → Type 0 where
  gone : ltb 0 i.ms ≡ false → Settles draws e i es es draws
  put_back :
      (l : ℕ) {rest : List ℕ}
      → ltb 0 i.ms ≡ true
      → random_level passes draws 1 ≡ some (l, rest)
      → Settles draws e i es (insert_sorted (again e i l) es) rest

-- The memory of a timer that ran once is given back.
abbrev pub info_after : Entry → Info → (Ptr → Option Info) → Ptr → Option Info
info_after e i f = if ltb 0 i.ms then f else update f e.addr none

-- What one timer does: `es` are the other timers and `next` those after it.
pub record Settled (sl : Ptr) (e : Entry) (i : Info) (es next : List Entry) (draws : List ℕ)
    (s t : Timers) : Type 0 where
  pub calls : t.calls ≡ s.calls ++ (i.cb, i.arg) ∷ []
  pub info : t.info ≡ info_after e i s.info
  pub list : IsSkiplist levels t.nodes sl next
  pub draws_left : t.draws ≡ draws
  pub clock : t.clock ≡ s.clock
  pub keeps : (a : Ptr) → a ∉ (sl ∷ addrs es) → a ≢ e.addr → a ∉ (sl ∷ addrs next)
  pub longer : length next ≤ suc (length es)
  pub other_score : (a : Ptr) → a ≢ e.addr → t.nodes.score a ≡ s.nodes.score a
  pub other :
      (j : ℕ) (a : Ptr)
      → a ∉ (sl ∷ addrs es)
      → a ≢ e.addr
      → t.nodes.forward j a ≡ s.nodes.forward j a

-- A node that was taken out of the list: its score and its pointers are still there.
pub record IsOut (sl : Ptr) (e : Entry) (es : List Entry) (m : Nodes) : Type 0 where
  pub score : m.score e.addr ≡ some e.score
  pub slots : (j : ℕ) → j < levels → (v : Ptr) × (m.forward j e.addr ≡ some v)
  pub new : e.addr ∉ (sl ∷ addrs es)
  pub nonnull : null ≢ e.addr

module _ (fuel : ℕ) (sl : Ptr) (e : Entry) (i : Info) (es : List Entry) (s : Timers) where
  -- The memory with the call recorded, and with the score raised.
  abbrev called : Timers
  called = record s { calls = s.calls ++ (i.cb, i.arg) ∷ [] }

  abbrev raised : Nodes
  raised = record s.nodes { score = update s.nodes.score e.addr (some ((e.score + i.ms) % 2 ^ 64)) }

  postpone-ok :
      s.nodes.score e.addr ≡ some e.score
      → postpone e.addr i.ms called ≡ ok tt (record called { nodes = raised })
  unfolding postpone
  postpone-ok h = rw (on_nodes-ok (get_score e.addr) called (get_score-ok s.nodes e.addr h)) refl

  body_once :
      s.info e.addr ≡ some i
      → ltb 0 i.ms ≡ false
      → IsSkiplist levels s.nodes sl es
      → IsOut sl e es s.nodes
      → Returns (λ _. Settled sl e i es es s.draws s) (execute_body quiet fuel sl e.addr s)
  unfolding execute_body
  body_once h f list out =
      rw (get_info-ok e.addr s h, get_info-ok e.addr called h, f, destroy-ok e.addr called h)
        (returns record {
          calls = refl;
          info = rw f refl;
          list = without-IsSkiplist levels s.nodes sl e.addr es out.new list;
          draws_left = refl;
          clock = refl;
          keeps = λ a o ne. o;
          longer = omega arith;
          other_score = λ a ne. update_ne s.nodes.score e.addr none ne;
          other = λ j a o ne. update_ne (s.nodes.forward j) e.addr none ne;
        })

  body_again :
      (l : ℕ) (rest : List ℕ)
      → s.info e.addr ≡ some i
      → ltb 0 i.ms ≡ true
      → random_level passes s.draws 1 ≡ some (l, rest)
      → IsSkiplist levels s.nodes sl es
      → IsOut sl e es s.nodes
      → length es < fuel
      → Returns
          (λ _. Settled sl e i es (insert_sorted (again e i l) es) rest s)
          (execute_body quiet fuel sl e.addr s)
  unfolding execute_body
  body_again l rest h t drawn list out enough =
      let still : IsSkiplist levels raised sl es =
        IsSkiplist-except levels s.nodes raised sl e.addr es (λ j p ne. refl)
          (λ p ne. update_ne s.nodes.score e.addr (some ((e.score + i.ms) % 2 ^ 64)) ne) out.new
          list in
      let new : IsNew levels raised sl (again e i l) es = record {
        score = update_self s.nodes.score e.addr (some ((e.score + i.ms) % 2 ^ 64));
        old = out.slots;
        new = out.new;
        nonnull = out.nonnull;
        positive = ground (arith, random_level-le passes s.draws 1 l rest drawn);
      } in
      let ready : Timers = record called { nodes = raised } in
      rw
        (
          get_info-ok e.addr s h,
          get_info-ok e.addr called h,
          t,
          postpone-ok out.score,
          insert_drawn-ok fuel sl e.addr ready l rest drawn,
        )
        (mono
          (on_nodes-Returns (insert fuel levels l sl e.addr) (record ready { draws = rest })
            (insert-Placed fuel levels l raised sl (again e i l) es refl still new enough))
          (λ _ u q. record {
            calls = ap (λ z. z.calls) q.1;
            info = rw t (ap (λ z. z.info) q.1);
            list = q.0.list;
            draws_left = ap (λ z. z.draws) q.1;
            clock = ap (λ z. z.clock) q.1;
            keeps = λ a o ne. (o.0, ∉-insert_sorted a (again e i l) es ne o.1);
            longer = omega (arith, length-insert_sorted (again e i l) es);
            other_score =
                λ a ne. ap (λ f. f a) q.0.same_score ∙ update_ne s.nodes.score e.addr _ ne;
            other = λ j a o ne. q.0.other j a o ne;
          }))

  -- The body of the loop on one timer.
  pub execute_body-Settled :
      {next : List Entry} {rest : List ℕ}
      → Settles s.draws e i es next rest
      → s.info e.addr ≡ some i
      → IsSkiplist levels s.nodes sl es
      → IsOut sl e es s.nodes
      → length es < fuel
      → Returns (λ _. Settled sl e i es next rest s) (execute_body quiet fuel sl e.addr s)
  execute_body-Settled (gone f) h list out enough = body_once h f list out
  execute_body-Settled (put_back l t drawn) h list out enough =
      body_again l _ h t drawn list out enough
