-- ===== src/Sock/Outcome.antt =====
-- How the connecting functions of src/ep_sock.h end.
use libep.Base.{
  ℕ, suc, ◌≡◌, ◌∙◌, refl, sym, subst, Bool, true, false, ◌&&◌, Option, none, some, List, [], ◌∷◌,
  inl, inr, Bool-cases, ◌==◌, arith, if◌then◌else◌, Cmd, ◌>>◌, pure, and_then, ok, Returns, returns,
  bind, mono, bind_bool, bind_option,
}
use libep.Sock.System.{
  AddrInfo, Hints, System, World, Deed, connected, close, get_errno, freeaddrinfo,
}
use libep.Sock.Frame.{
  Owns, Owns-Performed, open_by-Owns, close-Owns, perform-Performed, getaddrinfo-Resolved,
  freeaddrinfo-Frees,
}
use libep.Sock.Connect.{
  einprogress, portstr, Next, proceed, to_err, to_ret, prepare, give_up, tcp_loop,
  generictcpconnect, udp_loop, genericudpconnect,
}
use libep.Sock.Prepare.{prepared, prepare-Prepared, Went-proceed, Went-ret, bind_next}
use libep.Sock.Tried.{
  Outcome, Tried, Owns-Prepared, Outcome-from, Tried-from, Outcome-freed, connected-Tried, refused,
  pending, unbound,
}

module _ {K : Type 0} (sys : System K) where
  -- A socket that is closed before the next step.
  close-then :
      {A : Type 0} {P : A → World K → Type 0} (fd : ℕ) (w v : World K) (next : Cmd (World K) A)
      → Owns w (some fd) v
      → ((t : World K) → Owns w none t → Returns P (next t))
      → Returns P ((close sys fd >> next) v)
  close-then fd w v next h go = bind (close-Owns sys fd w v h) (λ u t o. go t o)

module _ {K : Type 0} (sys : System K) {source : Option (List ℕ)} {nb allowed : Bool} where
  give_up-Tried :
      (fd : ℕ) (w v : World K)
      → Owns w (some fd) v
      → Returns (Tried source nb allowed w) (give_up sys (some fd) v)
  unfolding give_up
  give_up-Tried fd w v h =
      close-then sys fd w v (pure none) h
        (λ t o. returns record { infos = o.infos; outcome = refused o.live })

  -- The body on a socket that was opened just before, with the call of `connect` and what follows
  -- when it fails.
  body-Tried :
      (hints : Hints) (fd : ℕ) (w v : World K) (k : Next → Cmd (World K) (Option ℕ))
      → Owns w (some fd) v
      → ((t : World K)
          → Owns w (some fd) t
          → t.deeds ≡ prepared source nb fd v.deeds
          → Returns (Tried source nb allowed w) (k proceed t))
      → ((t : World K) → k to_err t ≡ give_up sys (some fd) t)
      → ((t : World K) → k to_ret t ≡ ok (some fd) t)
      → Returns (Tried source nb allowed w) (and_then (prepare sys source nb hints fd v) k)
  body-Tried hints fd w v k o go err ret =
      bind_next k (prepare-Prepared sys source nb hints fd v)
        (λ t p. go t (Owns-Prepared o p) (Went-proceed p.went))
        (λ t p. rw (err t) (give_up-Tried fd w t (Owns-Prepared o p)))
        (λ t p.
          let h = Owns-Prepared o p in
          rw (ret t) (
            returns record {
              infos = h.infos;
              outcome = unbound v.deeds h.live (Went-ret p.went).1 (Went-ret p.went).0;
            }))

module _ {K : Type 0} (sys : System K) (source : Option (List ℕ)) (nb : Bool) where
  -- The call of `connect` failed; `next` tries the other addresses.
  failed-Tried :
      (fd : ℕ) (ds : List Deed) (w u : World K) (next : Cmd (World K) (Option ℕ))
      → Owns w (some fd) u
      → u.deeds ≡ prepared source nb fd ds
      → ((t : World K) → Owns w none t → Returns (Tried source nb nb w) (next t))
      → Returns
          (Tried source nb nb w)
          ((if (u.errno == einprogress) && nb then pure (some fd) else (close sys fd >> next)) u)
  failed-Tried fd ds w u next o d go = elim (Bool-cases ((u.errno == einprogress) && nb)) [
    | inl y ↦
        let waits : (u.errno ≡ einprogress) × (nb ≡ true) = ground arith in
        rw y (returns record { infos = o.infos; outcome = pending ds o.live d waits.0 waits.1 })
    | inr n ↦ rw n (close-then sys fd w u next o go)
  ]

  tcp_loop-Tried :
      (hints : Hints) (ps : List AddrInfo) (w : World K)
      → Returns (Tried source nb nb w) (tcp_loop sys source nb hints none ps w)
  unfolding tcp_loop give_up get_errno
  tcp_loop-Tried hints [] w = returns record { infos = refl; outcome = refused refl }
  tcp_loop-Tried hints (p ∷ ps) w =
      bind_option _ (open_by-Owns (sys.socket p.family p.socktype p.protocol) w)
        (λ v o. mono (tcp_loop-Tried hints ps v) (λ r t. Tried-from o.live o.infos))
        (λ fd v o.
          body-Tried sys hints fd w v _ o
            (λ t h d.
              bind_bool _ (perform-Performed (some (connected fd)) (sys.connect fd p.addr) t)
                (λ u c. returns (connected-Tried fd v.deeds w t u h d c))
                (λ u c.
                  failed-Tried fd v.deeds w u (tcp_loop sys source nb hints none ps)
                    (Owns-Performed h c) (c.deeds ∙ d)
                    (λ x q. mono (tcp_loop-Tried hints ps x) (λ r y. Tried-from q.live q.infos))))
            (λ t. refl) (λ t. refl))

  udp_loop-Tried :
      (hints : Hints) (ps : List AddrInfo) (w : World K)
      → Returns (Tried source nb false w) (udp_loop sys source nb hints none ps w)
  unfolding udp_loop give_up
  udp_loop-Tried hints [] w = returns record { infos = refl; outcome = refused refl }
  udp_loop-Tried hints (p ∷ ps) w =
      bind_option _ (open_by-Owns (sys.socket p.family p.socktype p.protocol) w)
        (λ v o. mono (udp_loop-Tried hints ps v) (λ r t. Tried-from o.live o.infos))
        (λ fd v o.
          body-Tried sys hints fd w v _ o
            (λ t h d.
              bind_bool _ (perform-Performed (some (connected fd)) (sys.connect fd p.addr) t)
                (λ u c. returns (connected-Tried fd v.deeds w t u h d c))
                (λ u c.
                  close-then sys fd w u (udp_loop sys source nb hints none ps) (Owns-Performed h c)
                    (λ x q. mono (udp_loop-Tried hints ps x) (λ r y. Tried-from q.live q.infos))))
            (λ t. refl) (λ t. refl))

  -- The address list is freed at the label `ret`.
  freed-Tried :
      {allowed : Bool} (w t : World K) (r : Option ℕ)
      → t.infos ≡ suc w.infos
      → Outcome source nb allowed w r t
      → Returns (Tried source nb allowed w) ((freeaddrinfo >> pure r) t)
  freed-Tried w t r i o = bind (freeaddrinfo-Frees t w.infos i) (λ x y e. returns (
      subst (Tried source nb _ w r) (sym e)
        record { infos = refl; outcome = Outcome-freed w.infos o }))

  -- `ep_generictcpconnect` holds no address list at its end, and of the sockets that it opened at
  -- most one is open, which is then the result. That one was made reusable, non-blocking when this
  -- was asked for, and bound to the source when one was given, and it is connected; or, with
  -- `nonblock`, EINPROGRESS says that it will be; or a source was given and it could not be bound.
  pub generictcpconnect-Tried :
      (host : List ℕ) (port : ℕ) (w : World K)
      → Returns (Tried source nb nb w) (generictcpconnect sys host port source nb w)
  unfolding generictcpconnect
  generictcpconnect-Tried host port w =
      bind_option _ (getaddrinfo-Resolved sys (some host) (some (portstr port)) _ w)
        (λ t f. returns record { infos = f.infos; outcome = refused f.live })
        (λ ps t f.
          bind (tcp_loop-Tried _ ps t)
            (λ r u o. freed-Tried w u r (o.infos ∙ f.infos) (Outcome-from f.live o.outcome)))

  -- The same of `ep_genericudpconnect`, for which EINPROGRESS is a failure.
  pub genericudpconnect-Tried :
      (host : List ℕ) (port : ℕ) (w : World K)
      → Returns (Tried source nb false w) (genericudpconnect sys host port source nb w)
  unfolding genericudpconnect
  genericudpconnect-Tried host port w =
      bind_option _ (getaddrinfo-Resolved sys (some host) (some (portstr port)) _ w)
        (λ t f. returns record { infos = f.infos; outcome = refused f.live })
        (λ ps t f.
          bind (udp_loop-Tried _ ps t)
            (λ r u o. freed-Tried w u r (o.infos ∙ f.infos) (Outcome-from f.live o.outcome)))
