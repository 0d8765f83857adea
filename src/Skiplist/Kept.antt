-- ===== src/Skiplist/Kept.antt =====
-- What the operations of src/skiplist.h that only move pointers leave alone: the scores, and which
-- pointers there are.
use libep.Base.{
  ℕ, zero, suc, ◌≡◌, refl, subst, Bool, true, false, Option, none, some, Cmd, Run, ok, fault,
  out_of_fuel, and_then, Returns, returns, Bool-cases, inl, inr, ◌==◌, if◌then◌else◌, leb, arith,
}
use libep.ListHead.{Ptr, null, update}
use libep.Skiplist.Defs.{
  Nodes, with_forward, get_forward, get_score, set_forward, walk, extract_from, extract_lte,
}

pub record Kept (m t : Nodes) : Type 0 where
  pub same_score : t.score ≡ m.score
  pub still : (j : ℕ) (a v : Ptr) → m.forward j a ≡ some v → (w : Ptr) × (t.forward j a ≡ some w)

-- If the run ends, it keeps the memory.
abbrev pub KeptBy : {A : Type 0} → Nodes → Run Nodes A → Type 0
KeptBy m (ok a t) = Kept m t
KeptBy m fault = Unit
KeptBy m out_of_fuel = Unit

pub Returns-Kept :
    {A : Type 0} {P : A → Nodes → Type 0} {m : Nodes} {r : Run Nodes A}
    → Returns P r
    → KeptBy m r
    → Returns (λ a t. P a t × Kept m t) r
Returns-Kept (returns p) k = returns (p, k)

module _ (m : Nodes) where
  Kept-refl : Kept m m
  Kept-refl = record { same_score = refl; still = λ j a v h. (v, h) }

  Kept-bind :
      {A B : Type 0} (r : Run Nodes A) (k : A → Cmd Nodes B)
      → KeptBy m r
      → ((a : A) (t : Nodes) → Kept m t → KeptBy m (k a t))
      → KeptBy m (and_then r k)
  Kept-bind (ok a t) k h next = next a t h
  Kept-bind fault k h next = tt
  Kept-bind out_of_fuel k h next = tt

  get_forward-Kept : (i : ℕ) (p : Ptr) (t : Nodes) → Kept m t → KeptBy m (get_forward i p t)
  unfolding get_forward
  get_forward-Kept i p t k = go (t.forward i p)
    where
      go :
          (v : Option Ptr)
          → KeptBy m (elim v as (λ x. Run Nodes Ptr) [ none ↦ fault | some q ↦ ok q t ])
      go none = tt
      go (some q) = k

  get_score-Kept : (p : Ptr) (t : Nodes) → Kept m t → KeptBy m (get_score p t)
  unfolding get_score
  get_score-Kept p t k = go (t.score p)
    where
      go :
          (v : Option ℕ)
          → KeptBy m (elim v as (λ x. Run Nodes ℕ) [ none ↦ fault | some q ↦ ok q t ])
      go none = tt
      go (some q) = k

  with_forward-Kept : (i : ℕ) (p q : Ptr) (t : Nodes) → Kept m t → Kept m (with_forward i p q t)
  unfolding update
  with_forward-Kept i p q t k = record {
    same_score = k.same_score;
    still = λ j a v h. elim (Bool-cases (j == i)) [
      | inl y ↦ elim (Bool-cases (a == p)) [
        | inl z ↦ (q, rw (y, z) refl)
        | inr z ↦
            let e : j ≡ i = ground arith in
            let w = k.still i a v (subst (λ j. m.forward j a ≡ some v) e h) in (w.0, rw (y, z) w.1)
      ]
      | inr n ↦ rw n (k.still j a v h)
    ];
  }

  set_forward-Kept : (i : ℕ) (p q : Ptr) (t : Nodes) → Kept m t → KeptBy m (set_forward i p q t)
  unfolding set_forward
  set_forward-Kept i p q t k = go (t.forward i p)
    where
      go :
          (v : Option Ptr)
          → KeptBy m (elim v as (λ x. Run Nodes (Unit {0})) [
            | none ↦ fault
            | some _ ↦ ok tt (with_forward i p q t)
          ])
      go none = tt
      go (some _) = with_forward-Kept i p q t k

  if_Kept :
      {A : Type 0} (b : Bool) (c d : Cmd Nodes A) (t : Nodes)
      → KeptBy m (c t)
      → KeptBy m (d t)
      → KeptBy m ((if b then c else d) t)
  if_Kept true c d t h k = h
  if_Kept false c d t h k = k

  walk-Kept :
      (test : ℕ → Bool) (fuel i : ℕ) (x : Ptr) (t : Nodes)
      → Kept m t
      → KeptBy m (walk test fuel i x t)
  unfolding walk
  walk-Kept test zero i x t k = tt
  walk-Kept test (suc fuel) i x t k = Kept-bind _ _ (get_forward-Kept i x t k) (λ y u k.
      if_Kept (y == null) _ _ u k (
        Kept-bind _ _ (get_score-Kept y u k)
          (λ s v k. if_Kept (test s) _ _ v (walk-Kept test fuel i y v k) k)))

  extract_from-Kept :
      (fuel : ℕ) (sl : Ptr) (s i : ℕ) (last : Ptr) (t : Nodes)
      → Kept m t
      → KeptBy m (extract_from fuel sl s i last t)
  unfolding extract_from
  extract_from-Kept fuel sl s zero last t k = k
  extract_from-Kept fuel sl s (suc i) last t k =
      Kept-bind _ _ (walk-Kept (λ t. leb t s) fuel i last t k) (λ x u k.
        Kept-bind _ _ (get_forward-Kept i x u k) (λ y v k.
          Kept-bind _ _ (set_forward-Kept i sl y v k)
            (λ _ w k. extract_from-Kept fuel sl s i x w k)))

  pub extract_lte-Kept :
      (fuel levels : ℕ) (sl : Ptr) (s : ℕ) → KeptBy m (extract_lte fuel levels sl s m)
  unfolding extract_lte
  extract_lte-Kept fuel levels sl s = Kept-bind _ _ (get_forward-Kept 0 sl m Kept-refl) (λ x u k.
      if_Kept (x == null) _ _ u k (
        Kept-bind _ _ (extract_from-Kept fuel sl s levels sl u k) (λ y v k.
          if_Kept (y == sl) _ _ v k (Kept-bind _ _ (set_forward-Kept 0 y null v k) (λ _ w k. k)))))
