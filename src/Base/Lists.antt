-- ===== src/Base/Lists.antt =====
-- Lists of addresses: absence, distinctness, apartness, and their first and last elements.
use Prim.Native.Nat.{ℕ, suc, ◌+◌}
use mathlib.Core.Path.{◌≡◌, refl, sym}
use mathlib.Core.Logic.{◌≢◌}
use mathlib.Core.List.{List, [], ◌∷◌, ◌++◌, reverse, reverse-append}
use native.Mathlib.Omega.{arith}

abbrev pub length {ℓ} : {A : Type ℓ} → List A → ℕ
length [] = 0
length (x ∷ xs) = suc (length xs)

pub length-append {ℓ} : {A : Type ℓ} (xs ys : List A) → length (xs ++ ys) ≡ length xs + length ys
length-append [] ys = omega arith
length-append (x ∷ xs) ys = omega (arith, length-append xs ys)

-- The element before a position: `p` if nothing else precedes it.
abbrev pub last {ℓ} : {A : Type ℓ} → A → List A → A
last p [] = p
last p (x ∷ xs) = last x xs

-- The element after a position: `q` if nothing else follows it.
abbrev pub first {ℓ} : {A : Type ℓ} → List A → A → A
first [] q = q
first (x ∷ xs) q = x

infix 40 ◌∉◌
abbrev pub ◌∉◌ : ℕ → List ℕ → Type 0
a ∉ [] = Unit
a ∉ (x ∷ xs) = (a ≢ x) × (a ∉ xs)

abbrev pub Distinct : List ℕ → Type 0
Distinct [] = Unit
Distinct (x ∷ xs) = (x ∉ xs) × Distinct xs

-- No element of `xs` is in `ys`.
abbrev pub Apart : List ℕ → List ℕ → Type 0
Apart [] ys = Unit
Apart (x ∷ xs) ys = (x ∉ ys) × Apart xs ys

pub ∉-append : (a : ℕ) (xs ys : List ℕ) → a ∉ xs → a ∉ ys → a ∉ (xs ++ ys)
∉-append a [] ys h k = k
∉-append a (x ∷ xs) ys h k = (h.0, ∉-append a xs ys h.1 k)

pub ∉_append_left : (a : ℕ) (xs ys : List ℕ) → a ∉ (xs ++ ys) → a ∉ xs
∉_append_left a [] ys h = tt
∉_append_left a (x ∷ xs) ys h = (h.0, ∉_append_left a xs ys h.1)

pub ∉_append_right : (a : ℕ) (xs ys : List ℕ) → a ∉ (xs ++ ys) → a ∉ ys
∉_append_right a [] ys h = h
∉_append_right a (x ∷ xs) ys h = ∉_append_right a xs ys h.1

pub Distinct-append_left : (xs ys : List ℕ) → Distinct (xs ++ ys) → Distinct xs
Distinct-append_left [] ys d = tt
Distinct-append_left (x ∷ xs) ys d = (∉_append_left x xs ys d.0, Distinct-append_left xs ys d.1)

pub Distinct-append_right : (xs ys : List ℕ) → Distinct (xs ++ ys) → Distinct ys
Distinct-append_right [] ys d = d
Distinct-append_right (x ∷ xs) ys d = Distinct-append_right xs ys d.1

pub Distinct_append_apart : (xs ys : List ℕ) → Distinct (xs ++ ys) → Apart xs ys
Distinct_append_apart [] ys d = tt
Distinct_append_apart (x ∷ xs) ys d = (∉_append_right x xs ys d.0, Distinct_append_apart xs ys d.1)

pub Distinct-append :
    (xs ys : List ℕ) → Distinct xs → Distinct ys → Apart xs ys → Distinct (xs ++ ys)
Distinct-append [] ys d e a = e
Distinct-append (x ∷ xs) ys d e a = (∉-append x xs ys d.0 a.0, Distinct-append xs ys d.1 e a.1)

pub Apart-nil : (xs : List ℕ) → Apart xs []
Apart-nil [] = tt
Apart-nil (x ∷ xs) = (tt, Apart-nil xs)

pub Apart_tail : (xs : List ℕ) (y : ℕ) (ys : List ℕ) → Apart xs (y ∷ ys) → Apart xs ys
Apart_tail [] y ys a = tt
Apart_tail (x ∷ xs) y ys a = (a.0.1, Apart_tail xs y ys a.1)

pub Apart_head : (xs : List ℕ) (y : ℕ) (ys : List ℕ) → Apart xs (y ∷ ys) → y ∉ xs
Apart_head [] y ys a = tt
Apart_head (x ∷ xs) y ys a = ((λ e. a.0.0 (sym e)), Apart_head xs y ys a.1)

pub Apart-cons : (xs : List ℕ) (y : ℕ) (ys : List ℕ) → y ∉ xs → Apart xs ys → Apart xs (y ∷ ys)
Apart-cons [] y ys h a = tt
Apart-cons (x ∷ xs) y ys h a = (((λ e. h.0 (sym e)), a.0), Apart-cons xs y ys h.1 a.1)

pub Apart-symm : (xs ys : List ℕ) → Apart xs ys → Apart ys xs
Apart-symm xs [] a = tt
Apart-symm xs (y ∷ ys) a = (Apart_head xs y ys a, Apart-symm xs ys (Apart_tail xs y ys a))

pub last-∉ : (p : ℕ) (xs ys : List ℕ) → Apart (p ∷ xs) ys → last p xs ∉ ys
last-∉ p [] ys a = a.0
last-∉ p (x ∷ xs) ys a = last-∉ x xs ys a.1

pub last-append : (p : ℕ) (xs ys : List ℕ) → last p (xs ++ ys) ≡ last (last p xs) ys
last-append p [] ys = refl
last-append p (x ∷ xs) ys = last-append x xs ys

pub last-ne : (p a : ℕ) (xs : List ℕ) → a ≢ p → a ∉ xs → a ≢ last p xs
last-ne p a [] h k = h
last-ne p a (x ∷ xs) h k = last-ne x a xs k.0 k.1

pub first-ne : (a : ℕ) (xs ys : List ℕ) (q : ℕ) → a ∉ (xs ++ ys) → a ≢ q → a ≢ first ys q
first-ne a xs [] q h k = k
first-ne a xs (y ∷ ys) q h k = (∉_append_right a xs (y ∷ ys) h).0

pub Distinct-insert :
    (n : ℕ) (xs ys : List ℕ) → Distinct (xs ++ ys) → n ∉ (xs ++ ys) → Distinct (xs ++ n ∷ ys)
Distinct-insert n [] ys d h = (h, d)
Distinct-insert n (x ∷ xs) ys d h = (
  ∉-append x xs (n ∷ ys) (∉_append_left x xs ys d.0)
      ((λ e. h.0 (sym e)), ∉_append_right x xs ys d.0),
  Distinct-insert n xs ys d.1 h.1,
)

pub Distinct-remove : (e : ℕ) (xs ys : List ℕ) → Distinct (xs ++ e ∷ ys) → Distinct (xs ++ ys)
Distinct-remove e [] ys d = d.1
Distinct-remove e (x ∷ xs) ys d = (
  ∉-append x xs ys (∉_append_left x xs (e ∷ ys) d.0) (∉_append_right x xs (e ∷ ys) d.0).1,
  Distinct-remove e xs ys d.1,
)

pub ∉_remove : (e : ℕ) (xs ys : List ℕ) → Distinct (xs ++ e ∷ ys) → e ∉ (xs ++ ys)
∉_remove e [] ys d = d.0
∉_remove e (x ∷ xs) ys d =
    ((λ f. (∉_append_right x xs (e ∷ ys) d.0).0 (sym f)), ∉_remove e xs ys d.1)

pub Apart_append_left : (xs ys zs : List ℕ) → Apart (xs ++ ys) zs → Apart xs zs
Apart_append_left [] ys zs a = tt
Apart_append_left (x ∷ xs) ys zs a = (a.0, Apart_append_left xs ys zs a.1)

pub Apart_append_right : (xs ys zs : List ℕ) → Apart (xs ++ ys) zs → Apart ys zs
Apart_append_right [] ys zs a = a
Apart_append_right (x ∷ xs) ys zs a = Apart_append_right xs ys zs a.1

pub first-∉ : (q : ℕ) (xs ys : List ℕ) → Apart (q ∷ xs) ys → first xs q ∉ ys
first-∉ q [] ys a = a.0
first-∉ q (x ∷ xs) ys a = a.1.0

pub Apart-append : (xs ys zs : List ℕ) → Apart xs zs → Apart ys zs → Apart (xs ++ ys) zs
Apart-append [] ys zs a b = b
Apart-append (x ∷ xs) ys zs a b = (a.0, Apart-append xs ys zs a.1 b)

pub ∉-reverse : (a : ℕ) (xs : List ℕ) → a ∉ xs → a ∉ reverse xs
∉-reverse a [] h = tt
∉-reverse a (x ∷ xs) h =
    rw (reverse-append (x ∷ []) xs)
      (∉-append a (reverse xs) (x ∷ []) (∉-reverse a xs h.1) (h.0, tt))

pub length-reverse {ℓ} : {A : Type ℓ} (xs : List A) → length (reverse xs) ≡ length xs
length-reverse [] = refl
length-reverse (x ∷ xs) =
    rw (reverse-append (x ∷ []) xs)
      (omega (arith, length-append (reverse xs) (x ∷ []), length-reverse xs))
