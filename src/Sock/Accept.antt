-- ===== src/Sock/Accept.antt =====
-- `ep_genericaccept` of src/ep_sock.h, which is repeated while it is interrupted.
use libep.Base.{
  ℕ, zero, suc, ◌<◌, ◌≡◌, ◌∙◌, refl, ap, ◌≢◌, false, Option, none, some, ◌∷◌, arith, ◌==◌, ==_of_ne,
  if◌then◌else◌, Cmd, ok, out_of_fuel, ◌>>=◌, pure, Returns, returns, mono,
}
use libep.Sock.System.{SockAddr, Reply, done, failed, System, World, opened, get_errno}

abbrev pub eintr : ℕ
eintr = 4

-- What a call of `accept` returns, with the peer's address.
abbrev pub peer : Reply → SockAddr → Option (ℕ × SockAddr)
peer (done fd) sa = some (fd, sa)
peer (failed e) sa = none

module _ {K : Type 0} where
  -- The result is that of a call that answers `r`, which is no interruption.
  pub data Accepted (w : World K) (sa : SockAddr)
      : Reply → Option (ℕ × SockAddr) → World K → Type 0 where
    accepted :
        {fd : ℕ} {t : World K} → t.live ≡ fd ∷ w.live → Accepted w sa (done fd) (some (fd, sa)) t
    rejected :
        {e : ℕ} {t : World K} → t.live ≡ w.live → t.errno ≡ e → Accepted w sa (failed e) none t

  -- What a call gives from a world with the same descriptors.
  Accepted-from :
      {w v t : World K} {sa : SockAddr} {r : Reply} {a : Option (ℕ × SockAddr)}
      → v.live ≡ w.live
      → Accepted v sa r a t
      → Accepted w sa r a t
  Accepted-from h (accepted {fd} l) = accepted (l ∙ ap (λ l. fd ∷ l) h)
  Accepted-from h (rejected l e) = rejected (l ∙ h) e

module _ {K : Type 0} (sys : System K) where
  unfoldable pub accept_once : ℕ → Cmd (World K) (Option (ℕ × SockAddr))
  accept_once s w = let (r, sa, k) = sys.accept s w.kernel in ok (peer r sa) (opened r k w)

  unfoldable pub genericaccept : (fuel s : ℕ) → Cmd (World K) (Option (ℕ × SockAddr))
  genericaccept zero s = λ w. out_of_fuel
  genericaccept (suc fuel) s = do
    fd ← accept_once s
    elim fd [
      | some new ↦ pure (some new)
      | none ↦ do errno ← get_errno; if errno == eintr then genericaccept fuel s else pure none
    ]

  -- So many calls are interrupted, one after the other, and lead from one kernel to another.
  pub data Interrupted (s : ℕ) : ℕ → K → K → Type 0 where
    at_once : {k : K} → Interrupted s 0 k k
    again :
        {n : ℕ} {k l m : K} {sa : SockAddr}
        → sys.accept s k ≡ (failed eintr, sa, l)
        → Interrupted s n l m
        → Interrupted s (suc n) k m

  genericaccept-peer :
      (fuel s : ℕ) (w : World K) (r : Reply) (sa : SockAddr) (k : K)
      → sys.accept s w.kernel ≡ (r, sa, k)
      → r ≢ failed eintr
      → Returns (Accepted w sa r) (genericaccept (suc fuel) s w)
  unfolding genericaccept accept_once get_errno
  genericaccept-peer fuel s w (done fd) sa k h n = rw h (returns (accepted refl))
  genericaccept-peer fuel s w (failed e) sa k h n =
      let f : (e == eintr) ≡ false = ==_of_ne (λ y. n (ap failed y)) in
      rw (h, f) (returns (rejected refl refl))

  genericaccept_from :
      (fuel s n : ℕ) (w : World K) (j k l : K) (r : Reply) (sa : SockAddr)
      → w.kernel ≡ j
      → Interrupted s n j k
      → sys.accept s k ≡ (r, sa, l)
      → r ≢ failed eintr
      → n < fuel
      → Returns (Accepted w sa r) (genericaccept fuel s w)
  unfolding genericaccept accept_once get_errno
  genericaccept_from zero s n w j k l r sa e i h d f = absurd (omega arith)
  genericaccept_from (suc fuel) s n w j k l r sa e at_once h d f =
      genericaccept-peer fuel s w r sa l (ap (sys.accept s) e ∙ h) d
  genericaccept_from (suc fuel) s n w j k l r sa e (again {l = m} g i) h d f =
      let c : sys.accept s w.kernel ≡ _ = ap (sys.accept s) e ∙ g in
      rw c (
        mono
          (genericaccept_from fuel s _ (record w { kernel = m; errno = eintr }) m k l r sa refl i h
            d (omega arith))
          (λ a t. Accepted-from refl))

  -- `ep_genericaccept` returns what the first call of `accept` answers that is not interrupted: its
  -- descriptor, which is open then, with the peer's address, or -1 with its `errno`. The fuel is
  -- more than the number of interrupted calls.
  pub genericaccept-Accepted :
      (fuel s n : ℕ) (w : World K) (k l : K) (r : Reply) (sa : SockAddr)
      → Interrupted s n w.kernel k
      → sys.accept s k ≡ (r, sa, l)
      → r ≢ failed eintr
      → n < fuel
      → Returns (Accepted w sa r) (genericaccept fuel s w)
  genericaccept-Accepted fuel s n w k l r sa i h d f =
      genericaccept_from fuel s n w w.kernel k l r sa refl i h d f
