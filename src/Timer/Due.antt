-- ===== src/Timer/Due.antt =====
-- `ep_timer_execute` of src/ep_timer.h, for timers that run once and for periodic ones.
use libep.Base.{
  ℕ, zero, suc, ◌+◌, ◌<◌, ◌≡◌, ◌∙◌, refl, ap, sym, subst, List, [], ◌∷◌, ◌++◌, arith, ◌∉◌, Distinct,
  length, length-append, first, Returns, returns, mono, bind, ==_of_ne, append_assoc, append-nil,
  ∉_append_left, Distinct-append_left, Distinct_append_apart, Apart-cons,
}
use libep.Base.Int.{ℤ}
use libep.ListHead.{Ptr, null}
use libep.Skiplist.Defs.{extract_lte}
use libep.Skiplist.Entries.{Entry, addrs, addrs-append, Scored, IsSkiplist}
use libep.Skiplist.UpTo.{up_to, beyond, up_to-beyond}
use libep.Skiplist.Kept.{Returns-Kept, extract_lte-Kept}
use libep.Skiplist.Sorted.{Scored-left}
use libep.Skiplist.Taken.{Linked0, extract_lte-up_to}
use libep.Timer.Defs.{Timers, levels, lowered, execute_from, execute}
use libep.Timer.Memory.{on_nodes-Returns}
use libep.Timer.Execute.{quiet, reached, second, next_or_null-second}
use libep.Timer.Periodic.{Settles, execute_body-Settled}
use libep.Timer.Items.{
  Slots, Item, entries, length-entries, calls_of, Holds, infos_after, Rounds, over, cut_short,
  round,
}
use libep.Timer.Ahead.{Ahead, AllOut-Kept, Ahead-after}

-- The callbacks that were made, the memory that is left, and the list.
pub record Ran (sl : Ptr) (xs : List Item) (max : ℤ) (final : List Entry) (s t : Timers)
    : Type 0 where
  pub calls : t.calls ≡ s.calls ++ reached max (calls_of xs)
  pub info : t.info ≡ infos_after (reached max xs) s.info
  pub list : IsSkiplist levels t.nodes sl final
  pub clock : t.clock ≡ s.clock

execute_from-Ran :
    (fuel k : ℕ) (sl : Ptr) {max : ℤ} {draws : List ℕ} {xs : List Item} {es final : List Entry}
    (s : Timers)
    → Ahead sl xs es s
    → s.draws ≡ draws
    → Rounds max draws xs es final
    → length xs < k
    → length es + length xs < fuel
    → Returns
        (λ _. Ran sl xs max final s)
        (execute_from quiet fuel sl k max (first (addrs (entries xs)) null) (second (entries xs)) s)
unfolding execute_from
execute_from-Ran fuel zero sl s a d r enough room = absurd (omega arith)
execute_from-Ran fuel (suc k) sl s a d over enough room =
    returns record { calls = sym (append-nil s.calls); info = refl; list = a.list; clock = refl }
execute_from-Ran fuel (suc k) sl {max} s a d (cut_short {rest} {e} {i} {xs} {es} {next} halt st)
      enough room =
    rw (==_of_ne {a = e.addr} {b = null} (λ q. a.nonnull.0 (sym q))) (
      bind
        (execute_body-Settled fuel sl e i es s (subst (λ l. Settles l e i es next rest) (sym d) st)
          a.held.0 a.list a.outs.0 (omega arith))
        (λ _ t h. rw halt (
          returns record {
            calls = rw halt h.calls;
            info = rw halt h.info;
            list = h.list;
            clock = h.clock;
          })))
execute_from-Ran fuel (suc k) sl {max} s a d (round {rest} {e} {i} {xs} {es} {next} more st later)
      enough room =
    rw (==_of_ne {a = e.addr} {b = null} (λ q. a.nonnull.0 (sym q))) (
      bind
        (execute_body-Settled fuel sl e i es s (subst (λ l. Settles l e i es next rest) (sym d) st)
          a.held.0 a.list a.outs.0 (omega arith))
        (λ _ t h.
          let b = Ahead-after h xs a in
          rw (more, next_or_null-second t (entries xs) b.run b.nonnull)
            (mono
              (execute_from-Ran fuel k sl t b h.draws_left later (omega arith)
                (omega (arith, h.longer)))
              (λ _ u r. record {
                calls = rw more (
                    r.calls
                    ∙ ap (λ l. l ++ reached (lowered max) (calls_of xs)) h.calls
                    ∙ append_assoc s.calls ((i.cb, i.arg) ∷ [])
                        (reached (lowered max) (calls_of xs)));
                info = rw more (r.info ∙ ap (infos_after (reached (lowered max) xs)) h.info);
                list = r.list;
                clock = r.clock ∙ h.clock;
              }))))

-- `ep_timer_execute`, when the callbacks leave the timers alone and with more fuel than there are
-- timers, ends, and makes the callbacks of the due timers in the order of their times, each once,
-- as far as `max_times` lets it. It gives the memory of those that ran once back, and puts the
-- periodic ones into the list again, each at its next time; `Rounds` says what list this is. The
-- due timers `due` are described with what their nodes hold, and their nodes have all pointers.
pub execute-Ran :
    (fuel : ℕ) (sl : Ptr) (es : List Entry) (due : List Item) (now : ℕ) (max_times : ℤ)
    (final : List Entry) (s : Timers)
    → IsSkiplist levels s.nodes sl es
    → entries due ≡ up_to now es
    → Holds s.info due
    → Slots s.nodes (entries due)
    → Rounds max_times s.draws due (beyond now es) final
    → length es < fuel
    → Returns (λ _. Ran sl due max_times final s) (execute quiet fuel sl now max_times s)
unfolding execute
execute-Ran fuel sl es due now max final s i split held slots rounds enough =
    let lo = entries due in
    let hi = beyond now es in
    let whole : es ≡ lo ++ hi = up_to-beyond now es ∙ ap (λ l. l ++ hi) (sym split) in
    let all : addrs es ≡ addrs lo ++ addrs hi = ap addrs whole ∙ addrs-append lo hi in
    let d : Distinct (sl ∷ addrs lo ++ addrs hi) = subst (λ l. Distinct (sl ∷ l)) all i.distinct in
    let n : null ∉ addrs lo =
      ∉_append_left null (addrs lo) (addrs hi) (subst (λ l. null ∉ l) all i.nonnull.1) in
    let apart =
      Apart-cons (addrs lo) sl (addrs hi) (∉_append_left sl (addrs lo) (addrs hi) d.0)
        (Distinct_append_apart (addrs lo) (addrs hi) d.1) in
    let scored : Scored s.nodes lo =
      Scored-left s.nodes lo hi (subst (Scored s.nodes) whole i.scores) in
    bind
      (on_nodes-Returns (extract_lte fuel levels sl now) s (
        Returns-Kept (extract_lte-up_to fuel levels now s.nodes sl es (omega arith) i enough)
          (extract_lte-Kept s.nodes fuel levels sl now)))
      (λ r t q.
        let run : Linked0 t.nodes lo = subst (Linked0 t.nodes) (sym split) q.0.0.run in
        let a : Ahead sl due hi t = record {
          run = run;
          held = subst (λ f. Holds f due) (sym (ap (λ z. z.info) q.1)) held;
          outs = AllOut-Kept sl due hi q.0.1 scored slots apart n;
          distinct = Distinct-append_left (addrs lo) (addrs hi) d.1;
          nonnull = n;
          list = q.0.0.left;
        } in
        rw (q.0.0.taken, ← split, next_or_null-second t lo run n)
          (mono
            (execute_from-Ran fuel fuel sl t a (ap (λ z. z.draws) q.1) rounds
              (omega (arith, ap length whole, length-append lo hi, length-entries due))
              (omega (arith, ap length whole, length-append lo hi, length-entries due)))
            (λ _ u x. record {
              calls = x.calls ∙ ap (λ z. z.calls ++ reached max (calls_of due)) q.1;
              info = x.info ∙ ap (λ z. infos_after (reached max due) z.info) q.1;
              list = x.list;
              clock = x.clock ∙ ap (λ z. z.clock) q.1;
            })))
