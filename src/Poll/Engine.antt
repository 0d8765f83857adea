-- ===== src/Poll/Engine.antt =====
-- The interface through which src/ep.h uses an engine, as src/ep_pollapi.h names it.
use libep.Base.{ℕ, suc, ◌≡◌, Option, none, some, List, [], ◌∷◌, length}
use libep.Base.Int.{ℤ, pos}

-- The engine's state, which contains the kernel's, is `P`, and `E` is an event with its data. `fetch`
-- also gives the event that it stores, if any; `none` is a read outside the array.
pub record Engine (P E : Type 0) : Type 0 where
  pub init : P → ℤ × P
  pub fini : P → P
  pub add : (fd events value : ℕ) → P → ℤ × P
  pub mod_events : (fd events value : ℕ) → P → ℤ × P
  pub del : (fd : ℕ) → P → ℤ × P
  pub wait : (timeout : ℤ) → P → ℤ × P
  pub fetch : P → Option (ℤ × Option E × P)

-- What the loop relies on: fetches hand out the pending events in turn, and a wait without pending
-- events makes those pending that the system answers with.
pub record EngineLaws {P E : Type 0} (engine : Engine P E) : Type 1 where
  pub IsPending : P → List E → Type 0
  pub Answers : ℤ → P → List E → Type 0
  pub fetch_none : (p : P) → IsPending p [] → engine.fetch p ≡ some (pos 0, none, p)
  pub fetch_next :
      (p : P) (e : E) (es : List E)
      → IsPending p (e ∷ es)
      → (p' : P) × (engine.fetch p ≡ some (pos (suc (length es)), some e, p')) × IsPending p' es
  pub wait_answers :
      (p : P) (timeout : ℤ) (es : List E)
      → IsPending p []
      → Answers timeout p es
      → (p' : P) × (engine.wait timeout p ≡ (pos (length es), p')) × IsPending p' es
