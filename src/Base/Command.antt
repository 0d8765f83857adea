-- ===== src/Base/Command.antt =====
-- Commands over an explicit state: a result, a fault (a read or a write through a pointer to no
-- object), or a loop that used up its fuel. `Returns` is total correctness.
use mathlib.Core.Bool.{Bool, true, false}
use mathlib.Core.Option.{Option, none, some}

pub data Run (S A : Type 0) : Type 0 where
  ok : A → S → Run S A
  fault : Run S A
  out_of_fuel : Run S A

abbrev pub Cmd : Type 0 → Type 0 → Type 0
Cmd S A = S → Run S A

abbrev pub and_then : {S A B : Type 0} → Run S A → (A → Cmd S B) → Run S B
and_then (ok a s) k = k a s
and_then fault k = fault
and_then out_of_fuel k = out_of_fuel

infixl 5 ◌>>=◌ ◌>>◌
abbrev pub ◌>>=◌ : {S A B : Type 0} → Cmd S A → (A → Cmd S B) → Cmd S B
◌>>=◌ m k s = and_then (m s) k

abbrev pub ◌>>◌ : {S A B : Type 0} → Cmd S A → Cmd S B → Cmd S B
◌>>◌ m n s = and_then (m s) (λ _. n)

abbrev pub pure : {S A : Type 0} → A → Cmd S A
pure a s = ok a s

-- The run ends with a result, and the result and the state satisfy `P`.
pub data Returns {S A : Type 0} (P : A → S → Type 0) : Run S A → Type 0 where
  returns : {a : A} {s : S} → P a s → Returns P (ok a s)

module _ {S A : Type 0} {P : A → S → Type 0} where
  pub bind :
      {B : Type 0} {Q : B → S → Type 0} {r : Run S A} {k : A → Cmd S B}
      → Returns P r
      → ((a : A) (s : S) → P a s → Returns Q (k a s))
      → Returns Q (and_then r k)
  bind (returns p) next = next _ _ p

  pub mono :
      {Q : A → S → Type 0} {r : Run S A}
      → Returns P r
      → ((a : A) (s : S) → P a s → Q a s)
      → Returns Q r
  mono (returns p) weaken = returns (weaken _ _ p)

-- The rule for a result that is tested next.
module _ {S B : Type 0} {Q : B → S → Type 0} where
  pub bind_bool :
      {P : Bool → S → Type 0} {r : Run S Bool} (k : Bool → Cmd S B)
      → Returns P r
      → ((s : S) → P true s → Returns Q (k true s))
      → ((s : S) → P false s → Returns Q (k false s))
      → Returns Q (and_then r k)
  bind_bool k (returns {a = true} p) then_so else_so = then_so _ p
  bind_bool k (returns {a = false} p) then_so else_so = else_so _ p

  pub bind_option :
      {A : Type 0} {P : Option A → S → Type 0} {r : Run S (Option A)} (k : Option A → Cmd S B)
      → Returns P r
      → ((s : S) → P none s → Returns Q (k none s))
      → ((a : A) (s : S) → P (some a) s → Returns Q (k (some a) s))
      → Returns Q (and_then r k)
  bind_option k (returns {a = none} p) none_so some_so = none_so _ p
  bind_option k (returns {a = some a} p) none_so some_so = some_so a _ p
