-- ===== src/Skiplist/UpTo.antt =====
-- A sorted list of entries, cut behind a score: what `skiplist_extract_lte` of src/skiplist.h
-- takes away and what it leaves.
use libep.Base.{
  ℕ, ◌≡◌, refl, ap, List, [], ◌∷◌, ◌++◌, arith, leb, if◌then◌else◌, Bool-cases, inl, inr,
}
use libep.Skiplist.Entries.{Entry, AtMost, Above, IsSorted, IsProper}
use libep.Skiplist.Sorted.{Above-AtLeast}

abbrev pub up_to : ℕ → List Entry → List Entry
up_to s [] = []
up_to s (e ∷ es) = if leb e.score s then e ∷ up_to s es else []

abbrev pub beyond : ℕ → List Entry → List Entry
beyond s [] = []
beyond s (e ∷ es) = if leb e.score s then beyond s es else e ∷ es

pub up_to-beyond : (s : ℕ) (es : List Entry) → es ≡ up_to s es ++ beyond s es
up_to-beyond s [] = refl
up_to-beyond s (e ∷ es) = elim (Bool-cases (leb e.score s)) [
  | inl t ↦ rw t (ap (λ l. e ∷ l) (up_to-beyond s es))
  | inr f ↦ rw f refl
]

pub up_to-AtMost : (s : ℕ) (es : List Entry) → AtMost s (up_to s es)
up_to-AtMost s [] = tt
up_to-AtMost s (e ∷ es) = elim (Bool-cases (leb e.score s)) [
  | inl t ↦ rw t (ground arith, up_to-AtMost s es)
  | inr f ↦ rw f tt
]

pub beyond-Above : (s : ℕ) (es : List Entry) → IsSorted es → Above s (beyond s es)
beyond-Above s [] h = tt
beyond-Above s (e ∷ es) h = elim (Bool-cases (leb e.score s)) [
  | inl t ↦ rw t (beyond-Above s es h.1)
  | inr f ↦ rw f (ground arith, Above-AtLeast s e.score es (ground arith) h.0)
]

pub beyond-IsSorted : (s : ℕ) (es : List Entry) → IsSorted es → IsSorted (beyond s es)
beyond-IsSorted s [] h = tt
beyond-IsSorted s (e ∷ es) h = elim (Bool-cases (leb e.score s)) [
  | inl t ↦ rw t (beyond-IsSorted s es h.1)
  | inr f ↦ rw f h
]

pub beyond-IsProper : (s : ℕ) (es : List Entry) → IsProper es → IsProper (beyond s es)
beyond-IsProper s [] h = tt
beyond-IsProper s (e ∷ es) h = elim (Bool-cases (leb e.score s)) [
  | inl t ↦ rw t (beyond-IsProper s es h.1)
  | inr f ↦ rw f h
]

pub up_to-IsProper : (s : ℕ) (es : List Entry) → IsProper es → IsProper (up_to s es)
up_to-IsProper s [] h = tt
up_to-IsProper s (e ∷ es) h = elim (Bool-cases (leb e.score s)) [
  | inl t ↦ rw t (h.0, up_to-IsProper s es h.1)
  | inr f ↦ rw f tt
]
