-- ===== src/Loop/Iterate.antt =====
-- The functions of src/ep.h that put the parts together. The task queues share one memory, and the
-- timers have another one; a callback of a task works on the task queues, and one of a timer on the
-- timers.
use libep.Base.{
  ℕ, zero, suc, Option, none, some, List, [], ◌∷◌, if◌then◌else◌, Cmd, ok, fault, out_of_fuel,
  ◌>>=◌, ◌>>◌, pure,
}
use libep.Base.Int.{ℤ, pos, minus_one, is_positive, is_nonnegative}
use libep.ListHead.{Ptr}
use libep.TaskQueue
use libep.TaskQueue.{Callback, Store}
use libep.Timer
use libep.Timer.{Timers, levels}
use libep.Poll.Engine.{Engine}
use libep.Loop.Defs.{waittime}

-- `ep_state_t`: the engine's state, and where the queues and the header of the timers stand.
pub record Members : Type 0 where
  pub nexttick : Ptr
  pub everytick : Ptr
  pub timer : Ptr

pub record State (P : Type 0) : Type 0 where
  pub ps : P
  pub store : Store
  pub timers : Timers

module _ {P A : Type 0} where
  unfoldable pub on_store : Cmd Store A → Cmd (State P) A
  on_store c s = elim (c s.store) [
    | ok a t ↦ ok a (record s { store = t })
    | fault ↦ fault
    | out_of_fuel ↦ out_of_fuel
  ]

  unfoldable pub on_timers : Cmd Timers A → Cmd (State P) A
  on_timers c s = elim (c s.timers) [
    | ok a t ↦ ok a (record s { timers = t })
    | fault ↦ fault
    | out_of_fuel ↦ out_of_fuel
  ]

  unfoldable pub on_engine : (P → A × P) → Cmd (State P) A
  on_engine c s = let (a, p) = c s.ps in ok a (record s { ps = p })

module _ {P E : Type 0} (engine : Engine P E) (members : Members) where
  open members use {nexttick, everytick, timer}

  unfoldable pub init : Cmd (State P) ℤ
  init = do
    ret ← on_engine engine.init
    on_store (TaskQueue.init nexttick)
    on_store (TaskQueue.init everytick)
    on_timers (Timer.init timer)
    pure (if is_nonnegative ret then pos 0 else minus_one)

  unfoldable pub fini : ℕ → Cmd (State P) ℤ
  fini fuel = do
    on_engine (λ p. (tt, engine.fini p))
    on_timers (Timer.fini fuel timer)
    on_store (TaskQueue.fini fuel nexttick)
    on_store (TaskQueue.fini fuel everytick)
    pure (pos 0)

  unfoldable pub add : (fd events value : ℕ) → Cmd (State P) ℤ
  add fd events value = on_engine (engine.add fd events value)

  unfoldable pub mod_events : (fd events value : ℕ) → Cmd (State P) ℤ
  mod_events fd events value = on_engine (engine.mod_events fd events value)

  unfoldable pub del : (fd : ℕ) → Cmd (State P) ℤ
  del fd = on_engine (engine.del fd)

  -- `ep_pollapi_fetch`, with the event that it stores.
  unfoldable pub fetch : Cmd (State P) (ℤ × Option E)
  fetch s = elim (engine.fetch s.ps) [
    | none ↦ fault
    | some (ret, event, p) ↦ ok (ret, event) (record s { ps = p })
  ]

  unfoldable pub settimeout : ℕ → (ms cb arg : ℕ) → Cmd (State P) Ptr
  settimeout fuel ms cb arg = do
    now ← on_timers Timer.updatetime
    on_timers (Timer.run_after fuel timer ms cb arg)

  unfoldable pub setinterval : ℕ → (ms cb arg : ℕ) → Cmd (State P) Ptr
  setinterval fuel ms cb arg = do
    now ← on_timers Timer.updatetime
    on_timers (Timer.run_every fuel timer ms cb arg)

  unfoldable pub cleartimeout : ℕ → Ptr → Cmd (State P) (Unit {0})
  cleartimeout fuel id = on_timers (Timer.clear fuel timer id)

  unfoldable pub clearinterval : ℕ → Ptr → Cmd (State P) (Unit {0})
  clearinterval fuel id = on_timers (Timer.clear fuel timer id)

  unfoldable pub nexttick_push : Callback → Cmd (State P) Ptr
  nexttick_push c = on_store (TaskQueue.push nexttick c)

  unfoldable pub everytick_push : Callback → Cmd (State P) Ptr
  everytick_push c = on_store (TaskQueue.push everytick c)

  unfoldable pub cleartask : Ptr → Cmd (State P) (Unit {0})
  cleartask id = on_store (TaskQueue.cancel id)

  module _ (client : Callback → Cmd Store (Unit {0}))
      (timer_client : (cb arg : ℕ) → Cmd Timers (Unit {0})) (fuel : ℕ) where
    -- The calls before the wait, and the wait.
    unfoldable pub turn : (hint : ℤ) → Cmd (State P) ℤ
    turn hint = do
      on_store (TaskQueue.run client fuel nexttick)
      on_store (TaskQueue.run_keep client fuel everytick)
      on_timers (Timer.execute_now timer_client fuel timer (pos 128))
      time ← on_timers (waittime fuel timer hint)
      on_engine (engine.wait time)

    -- `ep__for_each_start`
    unfoldable pub for_each_start : (hint : ℤ) → Cmd (State P) (Unit {0})
    for_each_start hint = do ret ← turn hint; pure tt

    -- The result of the last fetch is not looked at, only what it stores.
    unfoldable pub iterate : (hint : ℤ) → Cmd (State P) (ℤ × Option E)
    iterate hint = do
      (ret, event) ← fetch
      if is_positive ret then pure (ret, event) else do
        got ← turn hint
        if is_positive got
            then (do (again, stored) ← fetch; pure (got, stored))
            else pure (got, event)

    -- So many calls of `ep_iterate`, and the events that they store.
    unfoldable pub iterates : (hint : ℤ) → ℕ → Cmd (State P) (List (Option E))
    iterates hint zero = pure []
    iterates hint (suc n) = do
      (ret, event) ← iterate hint
      events ← iterates hint n
      pure (event ∷ events)
