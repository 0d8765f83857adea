-- ===== src/Loop/Events.antt =====
-- What `ep_iterate` of src/ep.h returns.
use libep.Base.{
  ℕ, ◌≡◌, ◌∙◌, refl, ap, Option, none, some, List, [], ◌∷◌, map, length, Cmd, Returns, returns,
  bind, ◌>>=◌,
}
use libep.Base.Int.{ℤ, pos}
use libep.Skiplist.Entries.{Entry}
use libep.TaskQueue.{Callback, Store}
use libep.TaskQueue.Queue.{Task}
use libep.Timer.{Timers}
use libep.Timer.Items.{Item}
use libep.Poll.Engine.{Engine, EngineLaws}
use libep.Loop.Iterate.{Members, State, fetch, iterate, iterates}
use libep.Loop.Turn.{Turned}

module _ {P E : Type 0} {engine : Engine P E} (laws : EngineLaws engine) where
  -- The first of the events, with their number, or 0 when there is none; the others stay pending.
  pub record First (es : List E) (r : ℤ × Option E) (t : State P) : Type 0 where
    pub result : r.0 ≡ pos (length es)
    pub event : r.1 ≡ elim es [ [] ↦ none | e ∷ _ ↦ some e ]
    pub pending : laws.IsPending t.ps (elim es [ [] ↦ [] | _ ∷ rest ↦ rest ])

  fetch-First :
      (members : Members) (es : List E) (s : State P)
      → laws.IsPending s.ps es
      → Returns
          (λ r t. First es r t × (t.store ≡ s.store) × (t.timers ≡ s.timers))
          (fetch engine members s)
  unfolding fetch
  fetch-First members [] s h =
      rw (laws.fetch_none s.ps h, fetch)
        (returns (record { result = refl; event = refl; pending = h }, refl, refl))
  fetch-First members (e ∷ es) s h =
      let next = laws.fetch_next s.ps e es h in
      rw (next.1, fetch)
        (returns (record { result = refl; event = refl; pending = next.2 }, refl, refl))

module _ {P E : Type 0} {engine : Engine P E} (laws : EngineLaws engine) (members : Members)
    (client : Callback → Cmd Store (Unit {0})) (timer_client : (cb arg : ℕ) → Cmd Timers (Unit {0}))
    (fuel : ℕ) (hint : ℤ) where
  -- With events pending, `ep_iterate` returns the first of them and makes no callback.
  pub iterate_pending :
      (e : E) (es : List E) (s : State P)
      → laws.IsPending s.ps (e ∷ es)
      → Returns
          (λ r t. First laws (e ∷ es) r t × (t.store ≡ s.store) × (t.timers ≡ s.timers))
          (iterate engine members client timer_client fuel hint s)
  unfolding iterate
  iterate_pending e es s h = bind (fetch-First laws members (e ∷ es) s h) (λ r t f.
      rw f.0.result
        (returns (record { result = refl; event = f.0.event; pending = f.0.pending }, f.1, f.2)))

  -- As many calls of `ep_iterate` as there are pending events store each of these, once and in
  -- turn, and make no callback; after them no event is pending.
  pub iterates-map :
      (es : List E) (s : State P)
      → laws.IsPending s.ps es
      → Returns
          (λ events t.
            (events ≡ map some es)
            × laws.IsPending t.ps []
            × (t.store ≡ s.store)
            × (t.timers ≡ s.timers))
          (iterates engine members client timer_client fuel hint (length es) s)
  unfolding iterates
  iterates-map [] s h = returns (refl, h, refl, refl)
  iterates-map (e ∷ es) s h = bind (iterate_pending e es s h) (λ r t f.
      bind (iterates-map es t f.0.pending) (λ events u g.
        returns
          (ap (λ x. x ∷ events) f.0.event ∙ ap (λ l. some e ∷ l) g.0, g.1, g.2 ∙ f.1, g.3 ∙ f.2)))

module _ {P E : Type 0} {engine : Engine P E} (laws : EngineLaws engine) (members : Members)
    (spawn : Callback → List Callback) where
  -- A turn was made, and the first event of the answer was returned.
  pub record Iterated (k : ℕ) (ts kept : List Task) (es : List Entry) (due : List Item)
      (later : List Entry) (first second : ℕ × ℕ) (hint : ℤ) (answer : ℤ → List E) (s : State P)
      (r : ℤ × Option E) (t : State P) : Type 0 where
    pub ret : ℤ
    pub turned : State P
    pub turn :
        Turned laws members spawn k ts kept es due later first second hint answer s ret turned
    pub first_event : First laws (answer turn.timeout) r t
    pub store : t.store ≡ turned.store
    pub timers : t.timers ≡ turned.timers
