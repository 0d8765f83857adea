-- ===== src/Base/Arrays.antt =====
-- C arrays as lists with native indices.
use Prim.Native.Nat.{ℕ, zero, suc, ◌<◌, ◌≤◌}
use mathlib.Core.Path.{◌≡◌, refl, ap, sym, subst}
use mathlib.Core.Logic.{◌≢◌, inl, inr}
use mathlib.Core.List.{List, [], ◌∷◌, ◌++◌}
use mathlib.Core.Option.{Option, none, some}
use native.Mathlib.Omega.{arith}
use libep.Base.Tests.{◌==◌, if◌then◌else◌, Bool-cases}
use libep.Base.Lists.{length}

module _ {ℓ} {A : Type ℓ} where
  abbrev pub get_elem? : List A → ℕ → Option A
  get_elem? [] i = none
  get_elem? (x ∷ xs) zero = some x
  get_elem? (x ∷ xs) (suc i) = get_elem? xs i

  abbrev pub get_or : List A → ℕ → A → A
  get_or [] i d = d
  get_or (x ∷ xs) zero d = x
  get_or (x ∷ xs) (suc i) d = get_or xs i d

  -- A write out of bounds changes nothing.
  abbrev pub set : List A → ℕ → A → List A
  set [] i v = []
  set (x ∷ xs) zero v = v ∷ xs
  set (x ∷ xs) (suc i) v = x ∷ set xs i v

  abbrev pub take : ℕ → List A → List A
  take zero xs = []
  take (suc n) [] = []
  take (suc n) (x ∷ xs) = x ∷ take n xs

  pub length-set : (xs : List A) (i : ℕ) (v : A) → length (set xs i v) ≡ length xs
  length-set [] i v = refl
  length-set (x ∷ xs) zero v = refl
  length-set (x ∷ xs) (suc i) v = ap suc (length-set xs i v)

  pub get_elem?-set_self :
      (xs : List A) (i : ℕ) (v : A) → i < length xs → get_elem? (set xs i v) i ≡ some v
  get_elem?-set_self [] i v h = elim h [ ]
  get_elem?-set_self (x ∷ xs) zero v h = refl
  get_elem?-set_self (x ∷ xs) (suc i) v h = get_elem?-set_self xs i v (omega arith)

  pub get_elem?-set_ne :
      (xs : List A) (i j : ℕ) (v : A) → i ≢ j → get_elem? (set xs i v) j ≡ get_elem? xs j
  get_elem?-set_ne [] i j v h = refl
  get_elem?-set_ne (x ∷ xs) zero zero v h = absurd (h refl)
  get_elem?-set_ne (x ∷ xs) zero (suc j) v h = refl
  get_elem?-set_ne (x ∷ xs) (suc i) zero v h = refl
  get_elem?-set_ne (x ∷ xs) (suc i) (suc j) v h = get_elem?-set_ne xs i j v (λ e. h (ap suc e))

  pub get_or-set_self :
      (xs : List A) (i : ℕ) (v d : A) → i < length xs → get_or (set xs i v) i d ≡ v
  get_or-set_self [] i v d h = elim h [ ]
  get_or-set_self (x ∷ xs) zero v d h = refl
  get_or-set_self (x ∷ xs) (suc i) v d h = get_or-set_self xs i v d (omega arith)

  pub get_or-set_ne :
      (xs : List A) (i j : ℕ) (v d : A) → i ≢ j → get_or (set xs i v) j d ≡ get_or xs j d
  get_or-set_ne [] i j v d h = refl
  get_or-set_ne (x ∷ xs) zero zero v d h = absurd (h refl)
  get_or-set_ne (x ∷ xs) zero (suc j) v d h = refl
  get_or-set_ne (x ∷ xs) (suc i) zero v d h = refl
  get_or-set_ne (x ∷ xs) (suc i) (suc j) v d h = get_or-set_ne xs i j v d (λ e. h (ap suc e))

  pub get_or-set :
      (xs : List A) (i j : ℕ) (v d : A)
      → i < length xs
      → get_or (set xs i v) j d ≡ (if j == i then v else get_or xs j d)
  get_or-set xs i j v d h = elim (Bool-cases (j == i)) [
    | inl t ↦
        let e : j ≡ i = ground arith in
        rw t (subst (λ k. get_or (set xs i v) k d ≡ v) (sym e) (get_or-set_self xs i v d h))
    | inr f ↦ rw f (get_or-set_ne xs i j v d (ground arith))
  ]

  -- Writing at the end of a prefix extends it.
  pub take-set :
      (xs : List A) (n : ℕ) (v : A)
      → n < length xs
      → take (suc n) (set xs n v) ≡ take n xs ++ v ∷ []
  take-set [] n v h = elim h [ ]
  take-set (x ∷ xs) zero v h = refl
  take-set (x ∷ xs) (suc n) v h = ap (λ l. x ∷ l) (take-set xs n v (omega arith))

  -- The slot behind a prefix, and the prefix that it extends.
  pub take_snoc :
      (xs : List A) (n : ℕ)
      → n < length xs
      → (v : A) × (get_elem? xs n ≡ some v) × (take (suc n) xs ≡ take n xs ++ v ∷ [])
  take_snoc [] n h = elim h [ ]
  take_snoc (x ∷ xs) zero h = (x, refl, refl)
  take_snoc (x ∷ xs) (suc n) h =
      let (v, here, snoc) = take_snoc xs n (omega arith) in (v, here, ap (λ l. x ∷ l) snoc)

  -- What a call that fills an array from its start leaves in it.
  abbrev pub fill : List A → List A → List A
  fill [] xs = xs
  fill (v ∷ vs) [] = []
  fill (v ∷ vs) (x ∷ xs) = v ∷ fill vs xs

  pub length-fill : (vs xs : List A) → length (fill vs xs) ≡ length xs
  length-fill [] xs = refl
  length-fill (v ∷ vs) [] = refl
  length-fill (v ∷ vs) (x ∷ xs) = ap suc (length-fill vs xs)

  pub take-fill : (vs xs : List A) → length vs ≤ length xs → take (length vs) (fill vs xs) ≡ vs
  take-fill [] xs h = refl
  take-fill (v ∷ vs) [] h = absurd (omega arith)
  take-fill (v ∷ vs) (x ∷ xs) h = ap (λ l. v ∷ l) (take-fill vs xs (omega arith))
