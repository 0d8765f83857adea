-- ===== src/Skiplist/Entries.antt =====
-- What a skip list of src/skiplist.h stands for: its nodes in order, with their scores and heights.
use libep.Base.{
  ℕ, ◌<◌, ◌≤◌, ◌≡◌, refl, ap, some, List, [], ◌∷◌, ◌++◌, arith, ltb, ◌∉◌, Distinct, length,
  if◌then◌else◌, Bool-cases, inl, inr,
}
use libep.ListHead.{Ptr, null}
use libep.Skiplist.Defs.{Nodes}
use libep.Skiplist.Chain.{Chain}

pub record Entry : Type 0 where
  pub addr : Ptr
  pub score : ℕ
  pub height : ℕ

abbrev pub addrs : List Entry → List Ptr
addrs [] = []
addrs (e ∷ es) = e.addr ∷ addrs es

-- The entries that stand at level `i`.
abbrev pub tall : ℕ → List Entry → List Entry
tall i [] = []
tall i (e ∷ es) = if ltb i e.height then e ∷ tall i es else tall i es

abbrev pub Scored : Nodes → List Entry → Type 0
Scored m [] = Unit
Scored m (e ∷ es) = (m.score e.addr ≡ some e.score) × Scored m es

-- Each score is at least `s`; at most `s`; above `s`.
abbrev pub AtLeast : ℕ → List Entry → Type 0
AtLeast s [] = Unit
AtLeast s (e ∷ es) = (s ≤ e.score) × AtLeast s es

abbrev pub AtMost : ℕ → List Entry → Type 0
AtMost s [] = Unit
AtMost s (e ∷ es) = (e.score ≤ s) × AtMost s es

abbrev pub Above : ℕ → List Entry → Type 0
Above s [] = Unit
Above s (e ∷ es) = (s < e.score) × Above s es

abbrev pub IsSorted : List Entry → Type 0
IsSorted [] = Unit
IsSorted (e ∷ es) = AtLeast e.score es × IsSorted es

-- Every entry stands at level 0.
abbrev pub IsProper : List Entry → Type 0
IsProper [] = Unit
IsProper (e ∷ es) = (0 < e.height) × IsProper es

-- At each level the header leads through the entries of that level; the scores are in order.
pub record IsSkiplist (levels : ℕ) (m : Nodes) (sl : Ptr) (es : List Entry) : Type 0 where
  pub chains : (i : ℕ) → i < levels → Chain (m.forward i) sl (addrs (tall i es))
  pub scores : Scored m es
  pub distinct : Distinct (sl ∷ addrs es)
  pub nonnull : null ∉ (sl ∷ addrs es)
  pub sorted : IsSorted es
  pub proper : IsProper es

pub tall-append : (i : ℕ) (es fs : List Entry) → tall i (es ++ fs) ≡ tall i es ++ tall i fs
tall-append i [] fs = refl
tall-append i (e ∷ es) fs = ground (arith, tall-append i es fs)

pub addrs-append : (es fs : List Entry) → addrs (es ++ fs) ≡ addrs es ++ addrs fs
addrs-append [] fs = refl
addrs-append (e ∷ es) fs = ap (λ l. e.addr ∷ l) (addrs-append es fs)

pub ∉-tall : (a : Ptr) (i : ℕ) (es : List Entry) → a ∉ addrs es → a ∉ addrs (tall i es)
∉-tall a i [] h = tt
∉-tall a i (e ∷ es) h = elim (Bool-cases (ltb i e.height)) [
  | inl t ↦ rw t (h.0, ∉-tall a i es h.1)
  | inr f ↦ rw f (∉-tall a i es h.1)
]

pub Distinct-tall : (i : ℕ) (es : List Entry) → Distinct (addrs es) → Distinct (addrs (tall i es))
Distinct-tall i [] d = tt
Distinct-tall i (e ∷ es) d = elim (Bool-cases (ltb i e.height)) [
  | inl t ↦ rw t (∉-tall e.addr i es d.0, Distinct-tall i es d.1)
  | inr f ↦ rw f (Distinct-tall i es d.1)
]

pub Scored-tall : (m : Nodes) (i : ℕ) (es : List Entry) → Scored m es → Scored m (tall i es)
Scored-tall m i [] h = tt
Scored-tall m i (e ∷ es) h = elim (Bool-cases (ltb i e.height)) [
  | inl t ↦ rw t (h.0, Scored-tall m i es h.1)
  | inr f ↦ rw f (Scored-tall m i es h.1)
]

pub AtMost-tall : (s i : ℕ) (es : List Entry) → AtMost s es → AtMost s (tall i es)
AtMost-tall s i [] h = tt
AtMost-tall s i (e ∷ es) h = elim (Bool-cases (ltb i e.height)) [
  | inl t ↦ rw t (h.0, AtMost-tall s i es h.1)
  | inr f ↦ rw f (AtMost-tall s i es h.1)
]

pub Above-tall : (s i : ℕ) (es : List Entry) → Above s es → Above s (tall i es)
Above-tall s i [] h = tt
Above-tall s i (e ∷ es) h = elim (Bool-cases (ltb i e.height)) [
  | inl t ↦ rw t (h.0, Above-tall s i es h.1)
  | inr f ↦ rw f (Above-tall s i es h.1)
]

pub length-tall : (i : ℕ) (es : List Entry) → length (tall i es) ≤ length es
length-tall i [] = omega arith
length-tall i (e ∷ es) = ground (arith, length-tall i es)
