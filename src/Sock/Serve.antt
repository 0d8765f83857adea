-- ===== src/Sock/Serve.antt =====
-- How the servers of src/ep_sock.h end.
use libep.Base.{
  ℕ, ◌≡◌, refl, Bool, true, false, Option, some, List, [], ◌∷◌, ◌==◌, if◌then◌else◌, pure, Returns,
  returns, bind, mono, bind_bool, bind_option, Bool-cases, inl, inr,
}
use libep.Sock.System.{
  AddrInfo, Reply, System, World, Deed, ipv6_v6only, reused, bound, listening, only_v6, perform,
}
use libep.Sock.Frame.{
  Owns, Owns-Performed, open_by-Opened, close-Owns, perform-Performed, getaddrinfo_found,
}
use libep.Sock.Options.{size_of_int, set_int, v6only, reuseaddr_enable, sock_stream, sock_dgram}
use libep.Sock.Connect.{portstr, af_local}
use libep.Sock.Prepare.{deed_if}
use libep.Sock.Server.{
  af_inet6, listen, set_up, tcpserver_loop, generictcpserver, udpserver_loop, genericudpserver,
  unixserver,
}
use libep.Sock.Unix.{createsocket-Created, none-Owns, some-Owns, some_deeds}
use libep.Sock.Served.{
  readied, passive, Server, Ready, Ready-Owns, Ready_deeds, Performed-Ready, unready_again,
  Ready_kernel, refused_Server, serving_Server, Served-from, Server-from, freed-Server, closed,
  refused, ready, unready,
}

module _ {K : Type 0} (sys : System K) where
  perform-Ready :
      {s : ℕ} {w v : World K} {ds : List Deed} (d : Deed) (call : K → Reply × K)
      → Owns w (some s) v
      → v.deeds ≡ ds
      → Returns (Ready s w (d ∷ ds)) (perform (some d) call v)
  perform-Ready {v} d call o e =
      mono (perform-Performed (some d) call v) (λ b t p. Performed-Ready o e p)

  v6only-Ready :
      (b : Bool) (s : ℕ) (w v : World K)
      → Owns w (some s) v
      → Returns
          (Ready s w (deed_if b (only_v6 s) v.deeds))
          ((if b then v6only sys s else pure true) v)
  unfolding v6only set_int
  v6only-Ready false s w v o = returns (ready o refl)
  v6only-Ready true s w v o =
      bind_bool _
        (perform-Performed (some (only_v6 s)) (sys.setsockopt s ipv6_v6only 1 size_of_int) v)
        (λ t p. returns (Performed-Ready o refl p))
        (λ t p.
          bind (close-Owns sys s w t (Owns-Performed o p))
            (λ x y c. returns (unready c.infos (closed c.live))))

  set_up-Ready :
      (af s : ℕ) (w v : World K)
      → Owns w (some s) v
      → Returns (Ready s w (readied af s v.deeds)) (set_up sys af s v)
  unfolding set_up reuseaddr_enable set_int
  set_up-Ready af s w v o =
      bind_bool _ (v6only-Ready (af == af_inet6) s w v o)
        (λ t p. perform-Ready (reused s) _ (Ready-Owns p) (Ready_deeds p))
        (λ t p. returns (unready_again p))

  listen-Ready :
      (s backlog : ℕ) (call : K → Reply × K) (w v : World K) (ds : List Deed)
      → Owns w (some s) v
      → v.deeds ≡ ds
      → Returns (Ready s w (listening s ∷ bound s ∷ ds)) (listen sys s call backlog v)
  unfolding listen
  listen-Ready s backlog call w v ds o e =
      bind_bool _ (perform-Ready (bound s) call o e)
        (λ t p. perform-Ready (listening s) _ (Ready-Owns p) (Ready_deeds p))
        (λ t p. returns (unready_again p))

  tcpserver_loop-Server :
      (af backlog : ℕ) (ps : List AddrInfo) (w : World K)
      → Returns (Server af true w) (tcpserver_loop sys af backlog ps w)
  unfolding tcpserver_loop
  tcpserver_loop-Server af backlog [] w =
      returns record { infos = refl; served = refused (closed refl) }
  tcpserver_loop-Server af backlog (p ∷ ps) w =
      bind_option _ (open_by-Opened (sys.socket p.family p.socktype p.protocol) w)
        (λ v o.
          mono (tcpserver_loop-Server af backlog ps v)
            (λ r t. Server-from o.owns.live o.owns.infos))
        (λ s v o.
          bind_bool _ (set_up-Ready af s w v o.owns)
            (λ t q.
              bind_bool _ (listen-Ready s backlog _ w t _ (Ready-Owns q) (Ready_deeds q))
                (λ u y. returns (serving_Server v.deeds y)) (λ u y. returns (refused_Server y)))
            (λ t q. returns (refused_Server q)))

  udpserver_loop-Server :
      (af : ℕ) (ps : List AddrInfo) (w : World K)
      → Returns (Server af false w) (udpserver_loop sys af ps w)
  unfolding udpserver_loop
  udpserver_loop-Server af [] w = returns record { infos = refl; served = refused (closed refl) }
  udpserver_loop-Server af (p ∷ ps) w =
      bind_option _ (open_by-Opened (sys.socket p.family p.socktype p.protocol) w)
        (λ v o. mono (udpserver_loop-Server af ps v) (λ r t. Server-from o.owns.live o.owns.infos))
        (λ s v o.
          bind_bool _ (set_up-Ready af s w v o.owns)
            (λ t q.
              bind_bool _ (perform-Ready (bound s) _ (Ready-Owns q) (Ready_deeds q))
                (λ u y. returns (serving_Server v.deeds y)) (λ u y. returns (refused_Server y)))
            (λ t q. returns (refused_Server q)))

  -- When `getaddrinfo` finds addresses, `ep__tcpserver` frees them and returns a socket that is
  -- bound and listening, and reusable and, for AF_INET6, restricted to IPv6; or it returns -1, and
  -- then a socket may be left open.
  pub generictcpserver-Server :
      (port : ℕ) (bindaddr : Option (List ℕ)) (af backlog : ℕ) (w : World K) (ps : List AddrInfo)
      → (sys.getaddrinfo bindaddr (some (portstr port)) (passive af sock_stream) w.kernel).0
        ≡ some ps
      → Returns (Server af true w) (generictcpserver sys port bindaddr af backlog w)
  unfolding generictcpserver
  generictcpserver-Server port bindaddr af backlog w ps h =
      rw (getaddrinfo_found sys bindaddr (some (portstr port)) (passive af sock_stream) w ps h) (
        bind (tcpserver_loop-Server af backlog ps _)
          (λ r u o. freed-Server w u r o.infos (Served-from refl o.served)))

  pub genericudpserver-Server :
      (port : ℕ) (bindaddr : Option (List ℕ)) (af : ℕ) (w : World K) (ps : List AddrInfo)
      → (sys.getaddrinfo bindaddr (some (portstr port)) (passive af sock_dgram) w.kernel).0
        ≡ some ps
      → Returns (Server af false w) (genericudpserver sys port bindaddr af w)
  unfolding genericudpserver
  genericudpserver-Server port bindaddr af w ps h =
      rw (getaddrinfo_found sys bindaddr (some (portstr port)) (passive af sock_dgram) w ps h) (
        bind (udpserver_loop-Server af ps _)
          (λ r u o. freed-Server w u r o.infos (Served-from refl o.served)))

  -- `ep_unixserver` returns a socket that is reusable, bound and listening, or -1, and then a socket
  -- may be left open.
  pub unixserver-Server :
      (path : List ℕ) (perm backlog : ℕ) (w : World K)
      → Returns (Server af_local true w) (unixserver sys path perm backlog w)
  unfolding unixserver
  unixserver-Server path perm backlog w =
      bind_option _ (createsocket-Created sys af_local w)
        (λ t c.
          returns
            record { infos = (none-Owns c).infos; served = refused (closed (none-Owns c).live) })
        (λ s t c.
          bind_bool _ (listen-Ready s backlog _ w t _ (some-Owns c) (some_deeds c))
            (λ u y. elim (Bool-cases (perm == 0)) [
              | inl e ↦ rw e (returns (serving_Server w.deeds y))
              | inr e ↦ rw e (returns (serving_Server w.deeds (Ready_kernel y)))
            ])
            (λ u y. returns (refused_Server y)))
