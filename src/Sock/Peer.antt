-- ===== src/Sock/Peer.antt =====
-- What the functions of src/ep_sock.h write to the caller's variables for an address.
use libep.Base.{
  ℕ, ◌<◌, ◌≡◌, refl, ap, ◌≢◌, Bool, true, Bool-cases, inl, inr, Option, none, some, List, ◌∷◌, ◌==◌,
  if◌then◌else◌, Cmd, ok, pure, Returns, returns, bind,
}
use libep.Sock.System.{SockAddr, AddrInfo, Reply, done, failed, System, World}
use libep.Sock.Frame.{getaddrinfo_found, freeaddrinfo-Frees}
use libep.Sock.Options.{sock_stream}
use libep.Sock.Server.{af_inet, af_inet6}
use libep.Sock.Accept.{eintr, Interrupted, Accepted, accepted, rejected, genericaccept-Accepted}
use libep.Sock.Address.{
  Text, Outs, ai_numerichost, inet_ntop, getinetinfo, genericresolve, tcpaccept, tcppeername,
}

-- The family that an address is printed as.
abbrev pub printed : ℕ → ℕ
printed family = if family == af_inet then af_inet else af_inet6

module _ {K : Type 0} (sys : System K) (text : Text) where
  -- When `getpeername` succeeds, `ep_tcppeername` writes what `ep_getinetinfo` writes for the
  -- address that it gives, and returns 0; null pointers are skipped.
  pub tcppeername-getinetinfo :
      (fd ip_len : ℕ) (outs : Outs) (w : World K) (n : ℕ) (sa : SockAddr) (k : K)
      → sys.getpeername fd w.kernel ≡ (done n, sa, k)
      → tcppeername sys text fd ip_len outs w
        ≡ ok (true, getinetinfo text sa ip_len outs) (record w { kernel = k })
  unfolding tcppeername getinetinfo
  tcppeername-getinetinfo fd ip_len outs w n sa k h = elim (Bool-cases (sa.family == af_inet)) [
    | inl y ↦ rw (tcppeername, h, h, getinetinfo, y) refl
    | inr y ↦ rw (tcppeername, h, h, getinetinfo, y) refl
  ]

  -- When `getaddrinfo` finds addresses, `ep_genericresolve` frees them, keeps the descriptors, and
  -- writes the first one as text, as an IPv6 address if it is none of AF_INET.
  pub genericresolve-inet_ntop :
      (host ipbuf : List ℕ) (len : ℕ) (ip_only : Bool) (w : World K) (p : AddrInfo)
      (ps : List AddrInfo)
      → (sys.getaddrinfo
          (some host)
          none
          record {
            flags = if ip_only then ai_numerichost else 0;
            family = 0;
            socktype = sock_stream;
          }
          w.kernel).0
        ≡ some (p ∷ ps)
      → Returns
          (λ r t.
            (r ≡ (true, inet_ntop text (printed p.family) p.addr.host len ipbuf))
            × (t.live ≡ w.live)
            × (t.infos ≡ w.infos))
          (genericresolve sys text host ipbuf len ip_only w)
  unfolding genericresolve
  genericresolve-inet_ntop host ipbuf len ip_only w p ps h =
      rw (getaddrinfo_found sys (some host) none _ w (p ∷ ps) h) (
        bind (freeaddrinfo-Frees _ w.infos refl)
          (λ x y e. returns (refl, ap (λ y. y.live) e, ap (λ y. y.infos) e)))

  -- What `ep_tcpaccept` gives for the answer of `accept`.
  pub data Greeted (w : World K) (ip_len : ℕ) (outs : Outs) (sa : SockAddr)
      : Reply → Option ℕ × Outs → World K → Type 0 where
    greeted :
        {fd : ℕ} {t : World K}
        → t.live ≡ fd ∷ w.live
        → Greeted w ip_len outs sa (done fd) (some fd, getinetinfo text sa ip_len outs) t
    turned_away :
        {e : ℕ} {t : World K}
        → t.live ≡ w.live
        → t.errno ≡ e
        → Greeted w ip_len outs sa (failed e) (none, outs) t

  -- `ep_tcpaccept` returns what the first call of `accept` answers that is not interrupted: its
  -- descriptor, and then it writes the peer's address as `ep_getinetinfo` does, or -1, and then it
  -- writes nothing. The fuel is more than the number of interrupted calls.
  pub tcpaccept-Greeted :
      (fuel s n ip_len : ℕ) (outs : Outs) (w : World K) (k l : K) (r : Reply) (sa : SockAddr)
      → Interrupted sys s n w.kernel k
      → sys.accept s k ≡ (r, sa, l)
      → r ≢ failed eintr
      → n < fuel
      → Returns (Greeted w ip_len outs sa r) (tcpaccept sys text fuel s ip_len outs w)
  unfolding tcpaccept
  tcpaccept-Greeted fuel s n ip_len outs w k l r sa i h d f =
      bind (genericaccept-Accepted sys fuel s n w k l r sa i h d f) (λ a t c. go r a t c)
    where
      go :
          (r : Reply) (a : Option (ℕ × SockAddr)) (t : World K)
          → Accepted w sa r a t
          → Returns (Greeted w ip_len outs sa r) (
              (elim a as (λ x. Cmd (World K) (Option ℕ × Outs)) [
                | none ↦ pure (none, outs)
                | some (fd, sa) ↦ pure (some fd, getinetinfo text sa ip_len outs)
              ])
                t)
      go _ _ t (accepted l) = returns (greeted l)
      go _ _ t (rejected l e) = returns (turned_away l e)
