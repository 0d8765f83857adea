-- ===== src/Poll/Epoll/Engine.antt =====
-- src/ep_epoll.h as the engine of the event loop.
use mathlib.Core.List.{reverse, reverse-append, map-append}
use libep.Base.{
  ℕ, zero, suc, ◌≤◌, ◌≡◌, ◌∙◌, refl, sym, ap, Option, none, some, List, [], ◌∷◌, ◌++◌, map, arith,
  length, length-reverse,
}
use libep.Base.Int.{ℤ, pos, minus_one}
use libep.Base.Arrays.{take, take_snoc, fill, length-fill, take-fill}
use libep.Poll.Engine.{Engine, EngineLaws}
use libep.Poll.Epoll.Defs.{
  Event, Kernel, State, init, fini, add, mod_events, del, wait, fetch, report,
}
use libep.Poll.Epoll.Register.{KernelLaws}
use libep.Poll.Epoll.Wait.{IsValid, fetch-some}

-- The events that a fetch shows of the first slots, last one first.
abbrev pub shown : ℕ → List Event → List Event
shown n ee = reverse (map report (take n ee))

-- The first `n` slots are to be handed out.
pub record IsPending (s : State) (es : List Event) : Type 0 where
  pub valid : IsValid s
  pub n : ℕ
  pub ready : s.ready ≡ pos n
  pub room : n ≤ length s.ee
  pub events : es ≡ shown n s.ee

length-map {ℓ} : {A B : Type ℓ} (f : A → B) (xs : List A) → length (map f xs) ≡ length xs
length-map f [] = refl
length-map f (x ∷ xs) = ap suc (length-map f xs)

length-take {ℓ} : {A : Type ℓ} (n : ℕ) (xs : List A) → n ≤ length xs → length (take n xs) ≡ n
length-take zero xs h = refl
length-take (suc n) [] h = absurd (omega arith)
length-take (suc n) (x ∷ xs) h = ap suc (length-take n xs (omega arith))

length-shown : (n : ℕ) (ee : List Event) → n ≤ length ee → length (shown n ee) ≡ n
length-shown n ee h =
    length-reverse (map report (take n ee)) ∙ length-map report (take n ee) ∙ length-take n ee h

shown_snoc :
    (n : ℕ) (ee : List Event) (v : Event)
    → take (suc n) ee ≡ take n ee ++ v ∷ []
    → shown (suc n) ee ≡ report v ∷ shown n ee
shown_snoc n ee v h =
    rw
      (
        h,
        map-append report (take n ee) (v ∷ []),
        reverse-append (map report (take n ee)) (report v ∷ []),
      )
      refl

abbrev tail : List Event → List Event
tail [] = []
tail (e ∷ es) = es

abbrev head : Event → List Event → Event
head d [] = d
head d (e ∷ es) = e

fetch-zero : (s : State) → s.ready ≡ pos 0 → fetch s ≡ some (pos 0, none, s)
unfolding fetch
fetch-zero s h = ground arith

pub nothing_pending : {s : State} → IsPending s [] → fetch s ≡ some (pos 0, none, s)
nothing_pending {s} h =
    fetch-zero s (h.ready ∙ ap pos (sym (length-shown h.n s.ee h.room) ∙ ap length (sym h.events)))

-- The last slot is handed out, and the others stay.
pub next-IsPending :
    {s : State} {e : Event} {es : List Event}
    → IsPending s (e ∷ es)
    → (t : State) × (fetch s ≡ some (pos (suc (length es)), some e, t)) × IsPending t es
next-IsPending {s} {e} {es} h =
    let m = length es in
    let count : h.n ≡ suc m = sym (length-shown h.n s.ee h.room) ∙ ap length (sym h.events) in
    let (v, here, snoc) = take_snoc s.ee m (omega arith) in
    let seen : e ∷ es ≡ report v ∷ shown m s.ee =
      h.events ∙ ap (λ n. shown n s.ee) count ∙ shown_snoc m s.ee v snoc in
    (
      record s { ready = pos m },
      rw (ap (head e) seen) (fetch-some s m v (h.ready ∙ ap pos count) here),
      record {
        valid = record { ee_size = h.valid.ee_size };
        n = m;
        ready = refl;
        room = omega arith;
        events = ap tail seen;
      },
    )

module _ {K : Type 0} (kernel : Kernel K) where
  -- `array` is what `calloc` returns.
  abbrev pub epoll_engine : Option (List Event) → Engine (State × K) Event
  epoll_engine array = record {
    init = λ p.
        let (made, k) = init kernel array p.1 in
        elim made [ none ↦ (minus_one, (p.0, k)) | some s ↦ (pos 0, (s, k)) ];
    fini = λ p. (p.0, (fini kernel p.0 p.1).1);
    add = λ fd events value p. let (ret, k) = add kernel p.0 fd events value p.1 in (ret, (p.0, k));
    mod_events = λ fd events value p.
        let (ret, k) = mod_events kernel p.0 fd events value p.1 in (ret, (p.0, k));
    del = λ fd p. let (ret, k) = del kernel p.0 fd p.1 in (ret, (p.0, k));
    wait = λ timeout p. let (ret, s, k) = wait kernel p.0 timeout p.1 in (ret, (s, k));
    fetch =
        λ p. elim (fetch p.0) [ none ↦ none | some (ret, event, s) ↦ some (ret, event, (s, p.1)) ];
  }

  -- The answer of `epoll_wait`, as the fetches show it.
  abbrev pub Answers : ℤ → State × K → List Event → Type 0
  Answers timeout p es =
      (reported : List Event) × ((kernel.epoll_wait p.0.efd p.0.sz timeout p.1).0 ≡ some reported)
      × (es ≡ reverse (map report reported))

  pub wait-IsPending :
      (laws : KernelLaws kernel) (p : State × K) (timeout : ℤ) (es : List Event)
      → IsPending p.0 []
      → Answers timeout p es
      → (t : State) × (l : K) × (wait kernel p.0 timeout p.1 ≡ (pos (length es), t, l))
        × IsPending t es
  unfolding wait
  wait-IsPending laws (s, k) timeout es h (reported, e, shows) =
      let room : length reported ≤ length s.ee =
        omega (arith, laws.wait_bounded k s.efd s.sz timeout reported e, h.valid.ee_size) in
      let count : length es ≡ length reported =
        ap length shows ∙ length-reverse (map report reported) ∙ length-map report reported in
      (
        record s { ready = pos (length reported); ee = fill reported s.ee },
        (kernel.epoll_wait s.efd s.sz timeout k).1,
        rw (e, count, wait) refl,
        record {
          valid = record { ee_size = length-fill reported s.ee ∙ h.valid.ee_size };
          n = length reported;
          ready = refl;
          room = omega (arith, length-fill reported s.ee);
          events = shows ∙ ap (λ l. reverse (map report l)) (sym (take-fill reported s.ee room));
        },
      )

  -- The epoll engine keeps the promises that the event loop relies on.
  abbrev pub epoll_laws :
      KernelLaws kernel → (array : Option (List Event)) → EngineLaws (epoll_engine array)
  epoll_laws laws array = record {
    IsPending = λ p. IsPending p.0;
    Answers = Answers;
    fetch_none = λ p h. rw (epoll_engine, nothing_pending h) refl;
    fetch_next = λ p e es h.
        let (t, seen, rest) = next-IsPending h in ((t, p.1), rw (epoll_engine, seen) refl, rest);
    wait_answers = λ p timeout es h a.
        let (t, l, made, rest) = wait-IsPending laws p timeout es h a in
        ((t, l), rw (epoll_engine, made) refl, rest);
  }
