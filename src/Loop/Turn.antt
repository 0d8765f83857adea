-- ===== src/Loop/Turn.antt =====
-- What a turn of the loop of src/ep.h does when no event is pending: the task queues, the timers
-- and the wait.
use libep.Base.{
  ℕ, suc, ◌+◌, ◌≤◌, ◌≡◌, ◌∙◌, refl, sym, ap, subst, List, [], ◌∷◌, ◌++◌, Apart, length, Run, Cmd,
  ok, fault, out_of_fuel, Returns, returns, bind, arith,
}
use libep.Base.Int.{ℤ, pos}
use libep.Skiplist.Entries.{Entry, IsSkiplist}
use libep.Skiplist.UpTo.{up_to, beyond}
use libep.TaskQueue.{Callback, Store}
use libep.TaskQueue.Queue.{Task, addrs, IsQueue}
use libep.TaskQueue.Client.{spawning, IsReady}
use libep.TaskQueue.Drain.{drain, rounds}
use libep.TaskQueue.Ticks.{AllLeaves, Ticked, run-RanBeside, run_keep-Ticked}
use libep.Timer.{Timers, levels}
use libep.Timer.Execute.{quiet, reached}
use libep.Timer.Items.{Item, entries, calls_of, Holds, Slots, Rounds}
use libep.Timer.Nearest.{IsNear}
use libep.Poll.Engine.{Engine, EngineLaws}
use libep.Loop.Timers.{millis, WaitsFor, execute_now-Ran, waittime-Timed}
use libep.Loop.Iterate.{Members, State, on_store, on_timers, on_engine, turn}

module _ {P A : Type 0} where
  -- A command on a part of the state leaves the other parts alone.
  on_store-Returns :
      {Q : A → Store → Type 0} (c : Cmd Store A) (s : State P)
      → Returns Q (c s.store)
      → Returns (λ a t. Q a t.store × (t.ps ≡ s.ps) × (t.timers ≡ s.timers)) (on_store c s)
  unfolding on_store
  on_store-Returns {Q} c s h = go (c s.store) h
    where
      go :
          (r : Run Store A)
          → Returns Q r
          → Returns
              (λ a t. Q a t.store × (t.ps ≡ s.ps) × (t.timers ≡ s.timers))
              (elim r [
                | ok a t ↦ ok a (record s { store = t })
                | fault ↦ fault
                | out_of_fuel ↦ out_of_fuel
              ])
      go (ok a t) (returns q) = returns (q, refl, refl)
      go fault h = elim h [ ]
      go out_of_fuel h = elim h [ ]

  on_timers-Returns :
      {Q : A → Timers → Type 0} (c : Cmd Timers A) (s : State P)
      → Returns Q (c s.timers)
      → Returns (λ a t. Q a t.timers × (t.ps ≡ s.ps) × (t.store ≡ s.store)) (on_timers c s)
  unfolding on_timers
  on_timers-Returns {Q} c s h = go (c s.timers) h
    where
      go :
          (r : Run Timers A)
          → Returns Q r
          → Returns
              (λ a t. Q a t.timers × (t.ps ≡ s.ps) × (t.store ≡ s.store))
              (elim r [
                | ok a t ↦ ok a (record s { timers = t })
                | fault ↦ fault
                | out_of_fuel ↦ out_of_fuel
              ])
      go (ok a t) (returns q) = returns (q, refl, refl)
      go fault h = elim h [ ]
      go out_of_fuel h = elim h [ ]

module _ {P E : Type 0} {engine : Engine P E} (laws : EngineLaws engine) (members : Members)
    (spawn : Callback → List Callback) where
  -- No event is pending; the queues hold the tasks `ts` and `kept`, apart from each other, and the
  -- timers are `es`, of which `due` are due. `later` are the timers once these have run. The clock
  -- shows `first` and then `second`.
  pub record IsIdle (ts kept : List Task) (es : List Entry) (due : List Item) (later : List Entry)
      (first second : ℕ × ℕ) (s : State P) : Type 0 where
    pub pending : laws.IsPending s.ps []
    pub next : IsReady s.store members.nexttick ts
    pub every : IsQueue s.store members.everytick kept
    pub apart : Apart (members.everytick ∷ addrs kept) (members.nexttick ∷ addrs ts)
    pub leaves : AllLeaves spawn kept
    pub list : IsSkiplist levels s.timers.nodes members.timer es
    pub split : entries due ≡ up_to (millis first) es
    pub held : Holds s.timers.info due
    pub slots : Slots s.timers.nodes (entries due)
    pub rounds : Rounds (pos 128) s.timers.draws due (beyond (millis first) es) later
    pub near : IsNear (millis second) later
    pub rest : List (ℕ × ℕ)
    pub clock : s.timers.clock ≡ first ∷ second ∷ rest

  -- The tasks were called, then the timers that were due, and then the wait was no longer than the
  -- hint and the next timer allow; its answer is pending.
  pub record Turned (k : ℕ) (ts kept : List Task) (es : List Entry) (due : List Item)
      (later : List Entry) (first second : ℕ × ℕ) (hint : ℤ) (answer : ℤ → List E) (s : State P)
      (ret : ℤ) (t : State P) : Type 0 where
    pub tasks :
        Ticked s.store members.nexttick members.everytick
          (drain spawn k s.store.available ts)
          kept
          t.store
    pub calls : t.timers.calls ≡ s.timers.calls ++ reached (pos 128) (calls_of due)
    pub list : IsSkiplist levels t.timers.nodes members.timer later
    pub timeout : ℤ
    pub waits : WaitsFor (millis second) later hint timeout
    pub result : ret ≡ pos (length (answer timeout))
    pub pending : laws.IsPending t.ps (answer timeout)

  pub turn-Turned :
      (k : ℕ) (ts kept : List Task) (es : List Entry) (due : List Item) (later : List Entry)
      (first second : ℕ × ℕ) (hint : ℤ) (answer : ℤ → List E) (s : State P)
      → IsIdle ts kept es due later first second s
      → ((timeout : ℤ) → laws.Answers timeout s.ps (answer timeout))
      → rounds s.store.available ts + length kept ≤ k
      → length es ≤ k
      → Returns
          (Turned k ts kept es due later first second hint answer s)
          (turn engine members (spawning members.nexttick spawn) quiet (suc k) hint s)
  unfolding turn on_engine
  turn-Turned k ts kept es due later first second hint answer s i answers tasks_fuel timers_fuel =
      bind
        (on_store-Returns _ s (
          run-RanBeside k members.nexttick members.everytick spawn ts kept s.store i.next i.every
            i.apart (omega arith)))
        (λ _ t h.
          bind
            (on_store-Returns _ t (
              run_keep-Ticked k members.nexttick members.everytick spawn ts kept s.store _ t.store
                h.0 i.leaves (omega arith)))
            (λ _ u j.
              let same : u.timers ≡ s.timers = j.2 ∙ h.2 in
              bind
                (on_timers-Returns _ u (
                  execute_now-Ran (suc k) members.timer es due (pos 128) later u.timers first
                    (second ∷ i.rest) (ap (λ z. z.clock) same ∙ i.clock)
                    (subst (λ z. IsSkiplist levels z.nodes members.timer es) (sym same) i.list)
                    i.split (subst (λ z. Holds z.info due) (sym same) i.held)
                    (subst (λ z. Slots z.nodes (entries due)) (sym same) i.slots)
                    (subst (λ z. Rounds (pos 128) z.draws due (beyond (millis first) es) later)
                      (sym same) i.rounds)
                    (omega arith)))
                (λ _ v x.
                  bind
                    (on_timers-Returns _ v (
                      waittime-Timed (suc k) members.timer hint v.timers later second i.rest
                        x.0.clock x.0.list i.near))
                    (λ w y z.
                      let ps : y.ps ≡ s.ps = z.1 ∙ x.1 ∙ j.1 ∙ h.1 in
                      let got =
                        laws.wait_answers y.ps w (answer w)
                          (subst (λ p. laws.IsPending p []) (sym ps) i.pending)
                          (subst (λ p. laws.Answers w p (answer w)) (sym ps) (answers w)) in
                      rw got.1 (
                        returns record {
                          tasks =
                              subst
                                (Ticked s.store members.nexttick members.everytick
                                  (drain spawn k s.store.available ts) kept)
                                (sym (z.2 ∙ x.2)) j.0;
                          calls =
                              z.0.calls
                              ∙ x.0.calls
                              ∙ ap (λ z. z.calls ++ reached (pos 128) (calls_of due)) same;
                          list =
                              subst (λ n. IsSkiplist levels n members.timer later) (sym z.0.nodes)
                                x.0.list;
                          timeout = w;
                          waits = z.0.waits;
                          result = refl;
                          pending = got.2;
                        })))))
