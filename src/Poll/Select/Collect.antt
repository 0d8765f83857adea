-- ===== src/Poll/Select/Collect.antt =====
-- The loop of `ep_select_wait` of src/ep_select.h against the list of ready descriptors.
use libep.Base.{
  ℕ, zero, suc, ◌+◌, ◌≤◌, ◌≡◌, ◌∙◌, refl, sym, ap, List, [], ◌∷◌, ◌++◌, arith, ltb, ◌==◌,
  if◌then◌else◌, length, append-nil, append_assoc, Bool-cases, inl, inr,
}
use libep.Base.Int.{pos_part}
use libep.Base.Arrays.{get_elem?, get_or, set, take, length-set, take-set, get_elem?-set_ne}
use libep.Poll.Select.Defs.{Event, Selected, events_at, collect}

-- The events of the ready descriptors among the `n` from `i` on, in their order.
unfoldable pub ready_events : Selected → List ℕ → (n i : ℕ) → List Event
ready_events r values zero i = []
ready_events r values (suc n) i =
    if events_at r i == 0
    then ready_events r values n (i + 1)
    else record { events = events_at r i; value = get_or values i 0 }
      ∷ ready_events r values n (i + 1)

pub length-collect :
    (r : Selected) (values : List ℕ) (n i j : ℕ) (ee : List Event)
    → length (collect r values n i j ee) ≡ length ee
unfolding collect
length-collect r values zero i j ee = refl
length-collect r values (suc n) i j ee = ground (
  arith,
  length-collect r values n (i + 1) j ee,
  length-collect r values n (i + 1) (j + 1)
      (set ee j (record { events = events_at r i; value = get_or values i 0 })),
  length-set ee j (record { events = events_at r i; value = get_or values i 0 }),
)

-- Slots past those that are filled keep what they held.
pub collect_rest :
    (r : Selected) (values : List ℕ) (n i j : ℕ) (ee : List Event) (m : ℕ)
    → j + length (ready_events r values n i) ≤ m
    → get_elem? (collect r values n i j ee) m ≡ get_elem? ee m
unfolding collect ready_events
collect_rest r values zero i j ee m h = refl
collect_rest r values (suc n) i j ee m h = ground (
  arith,
  collect_rest r values n (i + 1) j ee m,
  collect_rest r values n (i + 1) (j + 1)
      (set ee j (record { events = events_at r i; value = get_or values i 0 })) m,
  get_elem?-set_ne ee j m (record { events = events_at r i; value = get_or values i 0 }),
)

empty_of_length : {A : Type 0} (xs : List A) → length xs ≡ 0 → xs ≡ []
empty_of_length [] h = refl
empty_of_length (x ∷ xs) h = absurd (omega arith)

-- The filled slots are the events of the ready descriptors, if `select` counted no fewer.
pub take-collect :
    (r : Selected) (values : List ℕ) (n i j : ℕ) (ee : List Event) (m : ℕ)
    → j + length (ready_events r values n i) ≡ m
    → m ≤ length ee
    → m ≤ pos_part r.ret
    → take m (collect r values n i j ee) ≡ take j ee ++ ready_events r values n i
unfolding collect ready_events
take-collect r values zero i j ee m e room enough = ground (arith, append-nil (take j ee))
take-collect r values (suc n) i j ee m e room enough = elim (Bool-cases (ltb j (pos_part r.ret))) [
  | inl more ↦ elim (Bool-cases (events_at r i == 0)) [
    | inl idle ↦ rw (more, idle) (take-collect r values n (i + 1) j ee m (ground arith) room enough)
    | inr busy ↦
        let event : Event = record { events = events_at r i; value = get_or values i 0 } in
        let next : j + 1 ≡ suc j = omega arith in
        rw (more, busy, next)
          (take-collect r values n (i + 1) (suc j) (set ee j event) m (ground arith)
              (omega (arith, length-set ee j event)) enough
            ∙ ap (λ l. l ++ ready_events r values n (i + 1)) (take-set ee j event (ground arith))
            ∙ append_assoc (take j ee) (event ∷ []) (ready_events r values n (i + 1)))
  ]
  | inr stop ↦
      let none_left : length (ready_events r values (suc n) i) ≡ 0 = ground arith in
      let nothing = empty_of_length (ready_events r values (suc n) i) none_left in
      let same : m ≡ j = omega arith in
      rw (stop, same) (sym (append-nil (take j ee)) ∙ ap (λ l. take j ee ++ l) (sym nothing))
]

-- At most one event for each descriptor.
pub length-ready_events :
    (r : Selected) (values : List ℕ) (n i : ℕ) → length (ready_events r values n i) ≤ n
unfolding ready_events
length-ready_events r values zero i = omega arith
length-ready_events r values (suc n) i = ground (arith, length-ready_events r values n (i + 1))
