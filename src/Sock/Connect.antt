-- ===== src/Sock/Connect.antt =====
-- The functions of src/ep_sock.h that connect. They return a descriptor or -1, which is `none`.
-- A host or a source is a string of characters; a null source is `none`.
use libep.Base.{
  ℕ, zero, suc, ◌+◌, ◌/◌, ◌%◌, Bool, true, false, ◌&&◌, ◌||◌, not, Option, none, some, List, [],
  ◌∷◌, ◌++◌, ltb, ◌==◌, if◌then◌else◌, Cmd, ◌>>=◌, ◌>>◌, pure,
}
use libep.Base.Arrays.{take}
use libep.Sock.System.{
  AddrInfo, Hints, System, World, bound, connected, perform, open_by, get_errno, freeaddrinfo,
  close, getaddrinfo,
}
use libep.Sock.Options.{sock_stream, sock_dgram, reuseaddr_enable, nonblock, createsocket}

abbrev pub einprogress : ℕ
einprogress = 115

abbrev pub af_local : ℕ
af_local = 1

-- The decimal digits, as characters; the number bounds the rounds.
unfoldable pub digits : ℕ → ℕ → List ℕ
digits zero n = []
digits (suc k) n = if ltb n 10 then (48 + n) ∷ [] else digits k (n / 10) ++ (48 + n % 10) ∷ []

-- `snprintf(portstr, 6, "%d", port)`: at most five characters.
unfoldable pub portstr : ℕ → List ℕ
portstr port = take 5 (digits (suc port) port)

-- `strncpy(sa.sun_path, path, sizeof(sa.sun_path) - 1)`: the characters that fit.
abbrev pub sun_path : List ℕ → List ℕ
sun_path path = take 107 path

-- Where the body of the loop goes on.
pub data Next : Type 0 where
  proceed to_err to_ret : Next

module _ {K : Type 0} (sys : System K) where
  -- The loop over the source's addresses: true if `bound` was set.
  unfoldable pub bind_any : ℕ → List AddrInfo → Cmd (World K) Bool
  bind_any s [] = pure false
  bind_any s (b ∷ bs) = do
    done ← perform (some (bound s)) (sys.bind s b.addr)
    if done then pure true else bind_any s bs

  -- The block `if (source)`.
  unfoldable pub bind_source : Option (List ℕ) → Hints → ℕ → Cmd (World K) Next
  bind_source none hints s = pure proceed
  bind_source (some source) hints s = do
    bservinfo ← getaddrinfo sys (some source) none hints
    elim bservinfo [
      | none ↦ pure to_err
      | some bs ↦ do done ← bind_any s bs; freeaddrinfo; pure (if done then proceed else to_ret)
    ]

  -- The body of the loop, from the socket up to the call of `connect`.
  unfoldable pub prepare : Option (List ℕ) → Bool → Hints → ℕ → Cmd (World K) Next
  prepare source nb hints s = do
    reusable ← reuseaddr_enable sys s
    if not reusable then pure to_err else do
      set ← (if nb then nonblock sys s else pure true)
      if not set then pure to_err else bind_source source hints s

  -- The label `err`.
  unfoldable pub give_up : Option ℕ → Cmd (World K) (Option ℕ)
  give_up none = pure none
  give_up (some s) = close sys s >> pure none

  -- The loop of `ep_generictcpconnect`, up to the label `ret`.
  unfoldable pub tcp_loop :
      Option (List ℕ) → Bool → Hints → Option ℕ → List AddrInfo → Cmd (World K) (Option ℕ)
  tcp_loop source nb hints s [] = give_up s
  tcp_loop source nb hints s (p ∷ ps) = do
    new ← open_by (sys.socket p.family p.socktype p.protocol)
    elim new [
      | none ↦ tcp_loop source nb hints none ps
      | some fd ↦ do
        next ← prepare source nb hints fd
        elim next [
          | to_err ↦ give_up (some fd)
          | to_ret ↦ pure (some fd)
          | proceed ↦ do
            done ← perform (some (connected fd)) (sys.connect fd p.addr)
            if done then pure (some fd) else do
              errno ← get_errno
              if (errno == einprogress) && nb
                  then pure (some fd)
                  else (close sys fd >> tcp_loop source nb hints none ps)
        ]
    ]

  unfoldable pub generictcpconnect :
      (host : List ℕ) (port : ℕ) → Option (List ℕ) → Bool → Cmd (World K) (Option ℕ)
  generictcpconnect host port source nb = do
    let hints : Hints = record { flags = 0; family = 0; socktype = sock_stream }
    servinfo ← getaddrinfo sys (some host) (some (portstr port)) hints
    elim servinfo [
      | none ↦ pure none
      | some ps ↦ do s ← tcp_loop source nb hints none ps; freeaddrinfo; pure s
    ]

  unfoldable pub tcpconnect : (host : List ℕ) (port : ℕ) → Cmd (World K) (Option ℕ)
  tcpconnect host port = generictcpconnect host port none false

  unfoldable pub tcpconnect_nb : (host : List ℕ) (port : ℕ) → Cmd (World K) (Option ℕ)
  tcpconnect_nb host port = generictcpconnect host port none true

  unfoldable pub tcpbindconnect :
      (host : List ℕ) (port : ℕ) (source : Option (List ℕ)) → Cmd (World K) (Option ℕ)
  tcpbindconnect host port source = generictcpconnect host port source false

  unfoldable pub tcpbindconnect_nb :
      (host : List ℕ) (port : ℕ) (source : Option (List ℕ)) → Cmd (World K) (Option ℕ)
  tcpbindconnect_nb host port source = generictcpconnect host port source true

  -- The loop of `ep_genericudpconnect`, up to the label `ret`.
  unfoldable pub udp_loop :
      Option (List ℕ) → Bool → Hints → Option ℕ → List AddrInfo → Cmd (World K) (Option ℕ)
  udp_loop source nb hints s [] = give_up s
  udp_loop source nb hints s (p ∷ ps) = do
    new ← open_by (sys.socket p.family p.socktype p.protocol)
    elim new [
      | none ↦ udp_loop source nb hints none ps
      | some fd ↦ do
        next ← prepare source nb hints fd
        elim next [
          | to_err ↦ give_up (some fd)
          | to_ret ↦ pure (some fd)
          | proceed ↦ do
            done ← perform (some (connected fd)) (sys.connect fd p.addr)
            if done then pure (some fd) else (close sys fd >> udp_loop source nb hints none ps)
        ]
    ]

  unfoldable pub genericudpconnect :
      (host : List ℕ) (port : ℕ) → Option (List ℕ) → Bool → Cmd (World K) (Option ℕ)
  genericudpconnect host port source nb = do
    let hints : Hints = record { flags = 0; family = 0; socktype = sock_dgram }
    servinfo ← getaddrinfo sys (some host) (some (portstr port)) hints
    elim servinfo [
      | none ↦ pure none
      | some ps ↦ do s ← udp_loop source nb hints none ps; freeaddrinfo; pure s
    ]

  unfoldable pub udpconnect : (host : List ℕ) (port : ℕ) → Cmd (World K) (Option ℕ)
  udpconnect host port = genericudpconnect host port none false

  unfoldable pub udpconnect_nb : (host : List ℕ) (port : ℕ) → Cmd (World K) (Option ℕ)
  udpconnect_nb host port = genericudpconnect host port none true

  unfoldable pub udpbindconnect :
      (host : List ℕ) (port : ℕ) (source : Option (List ℕ)) → Cmd (World K) (Option ℕ)
  udpbindconnect host port source = genericudpconnect host port source false

  unfoldable pub udpbindconnect_nb :
      (host : List ℕ) (port : ℕ) (source : Option (List ℕ)) → Cmd (World K) (Option ℕ)
  udpbindconnect_nb host port source = genericudpconnect host port source true

  -- `ret` is set at the end, but `s` is returned.
  unfoldable pub genericunixconnect : (path : List ℕ) → Bool → Cmd (World K) (Option ℕ)
  genericunixconnect path nb = do
    new ← createsocket sys af_local
    elim new [
      | none ↦ pure none
      | some s ↦ if nb then (close sys s >> pure (some s)) else do
        done ← perform (some (connected s)) (sys.connect_local s (sun_path path))
        if done then pure (some s) else do
          errno ← get_errno
          if not nb || not (errno == einprogress)
              then (close sys s >> pure (some s))
              else pure (some s)
    ]

  unfoldable pub unixconnect : (path : List ℕ) → Cmd (World K) (Option ℕ)
  unixconnect path = genericunixconnect path false

  unfoldable pub unixconnect_nb : (path : List ℕ) → Cmd (World K) (Option ℕ)
  unixconnect_nb path = genericunixconnect path true
