-- ===== src/Sock/Server.antt =====
-- The servers of src/ep_sock.h. They return a descriptor or -1, which is `none`. A null address to
-- bind is `none`.
use libep.Base.{
  ℕ, Bool, true, false, not, Option, none, some, List, [], ◌∷◌, ◌==◌, if◌then◌else◌, Cmd, fault, ok,
  ◌>>=◌, ◌>>◌, pure,
}
use libep.Sock.System.{
  AddrInfo, Hints, Reply, System, World, bound, listening, perform, open_by, freeaddrinfo,
  getaddrinfo,
}
use libep.Sock.Options.{sock_stream, sock_dgram, reuseaddr_enable, v6only, createsocket}
use libep.Sock.Connect.{af_local, sun_path, portstr}

abbrev pub ai_passive : ℕ
ai_passive = 1

abbrev pub af_inet : ℕ
af_inet = 2

abbrev pub af_inet6 : ℕ
af_inet6 = 10

module _ {K : Type 0} (sys : System K) where
  -- `ep_listen`, with `bind(s, sa, len)` as the call that binds.
  unfoldable pub listen : (s : ℕ) → (bind : K → Reply × K) → (backlog : ℕ) → Cmd (World K) Bool
  listen s bind backlog = do
    done ← perform (some (bound s)) bind
    if done then perform (some (listening s)) (sys.listen s backlog) else pure false

  -- A socket of a server before it is bound.
  unfoldable pub set_up : (af s : ℕ) → Cmd (World K) Bool
  set_up af s = do
    restricted ← (if af == af_inet6 then v6only sys s else pure true)
    if restricted then reuseaddr_enable sys s else pure false

  -- The loop of `ep__tcpserver`, up to the label `end`.
  unfoldable pub tcpserver_loop : (af backlog : ℕ) → List AddrInfo → Cmd (World K) (Option ℕ)
  tcpserver_loop af backlog [] = pure none
  tcpserver_loop af backlog (p ∷ ps) = do
    new ← open_by (sys.socket p.family p.socktype p.protocol)
    elim new [
      | none ↦ tcpserver_loop af backlog ps
      | some s ↦ do
        ready ← set_up af s
        if not ready then pure none else do
          listens ← listen s (sys.bind s p.addr) backlog
          if listens then pure (some s) else pure none
    ]

  -- When `getaddrinfo` fails, `servinfo` is freed although it was not set.
  unfoldable pub generictcpserver :
      (port : ℕ) (bindaddr : Option (List ℕ)) (af backlog : ℕ) → Cmd (World K) (Option ℕ)
  generictcpserver port bindaddr af backlog = do
    let hints : Hints = record { flags = ai_passive; family = af; socktype = sock_stream }
    servinfo ← getaddrinfo sys bindaddr (some (portstr port)) hints
    elim servinfo [
      | none ↦ λ w. fault
      | some ps ↦ do s ← tcpserver_loop af backlog ps; freeaddrinfo; pure s
    ]

  unfoldable pub tcpserver :
      (port : ℕ) (bindaddr : Option (List ℕ)) (backlog : ℕ) → Cmd (World K) (Option ℕ)
  tcpserver port bindaddr backlog = generictcpserver port bindaddr af_inet backlog

  unfoldable pub tcp6server :
      (port : ℕ) (bindaddr : Option (List ℕ)) (backlog : ℕ) → Cmd (World K) (Option ℕ)
  tcp6server port bindaddr backlog = generictcpserver port bindaddr af_inet6 backlog

  -- `perm` is a mode, or 0.
  unfoldable pub unixserver : (path : List ℕ) (perm backlog : ℕ) → Cmd (World K) (Option ℕ)
  unixserver path perm backlog = do
    new ← createsocket sys af_local
    elim new [
      | none ↦ pure none
      | some s ↦ do
        listens ← listen s (sys.bind_local s (sun_path path)) backlog
        if not listens
            then pure none
            else (if perm == 0 then pure (some s) else λ w.
                ok (some s) (record w { kernel = sys.chmod (sun_path path) perm w.kernel }))
    ]

  -- The loop of `ep__udpserver`, up to the label `end`.
  unfoldable pub udpserver_loop : (af : ℕ) → List AddrInfo → Cmd (World K) (Option ℕ)
  udpserver_loop af [] = pure none
  udpserver_loop af (p ∷ ps) = do
    new ← open_by (sys.socket p.family p.socktype p.protocol)
    elim new [
      | none ↦ udpserver_loop af ps
      | some s ↦ do
        ready ← set_up af s
        if not ready then pure none else do
          done ← perform (some (bound s)) (sys.bind s p.addr)
          if done then pure (some s) else pure none
    ]

  unfoldable pub genericudpserver :
      (port : ℕ) (bindaddr : Option (List ℕ)) (af : ℕ) → Cmd (World K) (Option ℕ)
  genericudpserver port bindaddr af = do
    let hints : Hints = record { flags = ai_passive; family = af; socktype = sock_dgram }
    servinfo ← getaddrinfo sys bindaddr (some (portstr port)) hints
    elim servinfo [
      | none ↦ λ w. fault
      | some ps ↦ do s ← udpserver_loop af ps; freeaddrinfo; pure s
    ]

  unfoldable pub udpserver : (port : ℕ) (bindaddr : Option (List ℕ)) → Cmd (World K) (Option ℕ)
  udpserver port bindaddr = genericudpserver port bindaddr af_inet

  unfoldable pub udp6server : (port : ℕ) (bindaddr : Option (List ℕ)) → Cmd (World K) (Option ℕ)
  udp6server port bindaddr = genericudpserver port bindaddr af_inet6
