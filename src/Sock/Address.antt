-- ===== src/Sock/Address.antt =====
-- Addresses as text in src/ep_sock.h. The library calls `inet_ntop`, by the address family, the
-- address and the size of the buffer, and `ntohs` are parameters. A buffer or a port that is `none`
-- is a null pointer, and a buffer holds a string.
use libep.Base.{
  ℕ, Bool, true, false, Option, none, some, List, [], ◌∷◌, ltb, ◌==◌, if◌then◌else◌, Cmd, fault, ok,
  ◌>>=◌, ◌>>◌, pure,
}
use libep.Sock.System.{
  SockAddr, Hints, Reply, done, failed, System, World, settle, freeaddrinfo, getaddrinfo,
}
use libep.Sock.Options.{sock_stream}
use libep.Sock.Server.{af_inet, af_inet6}
use libep.Sock.Accept.{genericaccept}

pub record Text : Type 0 where
  pub ntop : ℕ → List ℕ → ℕ → Option (List ℕ)
  pub ntohs : ℕ → ℕ

-- What `ip` and `port` point to.
pub record Outs : Type 0 where
  pub ip : Option (List ℕ)
  pub port : Option ℕ

-- `ai_flags` for an address in digits.
abbrev pub ai_numerichost : ℕ
ai_numerichost = 4

module _ (text : Text) where
  -- `inet_ntop` leaves the buffer as it is when it fails.
  unfoldable pub inet_ntop : ℕ → List ℕ → (len : ℕ) → List ℕ → List ℕ
  inet_ntop family host len old = elim (text.ntop family host len) [ none ↦ old | some new ↦ new ]

  unfoldable pub write_ip : ℕ → List ℕ → (len : ℕ) → Option (List ℕ) → Option (List ℕ)
  write_ip family host len none = none
  write_ip family host len (some old) = some (inet_ntop family host len old)

  unfoldable pub write_port : ℕ → Option ℕ → Option ℕ
  write_port port none = none
  write_port port (some old) = some (text.ntohs port)

  unfoldable pub getinetinfo : SockAddr → (ip_len : ℕ) → Outs → Outs
  getinetinfo sa ip_len outs =
      if sa.family == af_inet
      then record {
        ip = write_ip af_inet sa.host ip_len outs.ip;
        port = write_port sa.port outs.port;
      }
      else record {
        ip = write_ip af_inet6 sa.host ip_len outs.ip;
        port = write_port sa.port outs.port;
      }

module _ {K : Type 0} (sys : System K) (text : Text) where
  unfoldable pub genericresolve :
      (host : List ℕ) (ipbuf : List ℕ) (ipbuf_len : ℕ) (ip_only : Bool)
      → Cmd (World K) (Bool × List ℕ)
  genericresolve host ipbuf ipbuf_len ip_only = do
    let hints : Hints = record {
      flags = if ip_only then ai_numerichost else 0;
      family = 0;
      socktype = sock_stream;
    }
    info ← getaddrinfo sys (some host) none hints
    elim info [
      | none ↦ pure (false, ipbuf)
      | some [] ↦ λ w. fault
      | some (p ∷ ps) ↦ do
        let family = if p.family == af_inet then af_inet else af_inet6
        freeaddrinfo
        pure (true, inet_ntop text family p.addr.host ipbuf_len ipbuf)
    ]

  unfoldable pub resolve :
      (host : List ℕ) (ipbuf : List ℕ) (ipbuf_len : ℕ) → Cmd (World K) (Bool × List ℕ)
  resolve host ipbuf ipbuf_len = genericresolve host ipbuf ipbuf_len false

  unfoldable pub resolveip :
      (host : List ℕ) (ipbuf : List ℕ) (ipbuf_len : ℕ) → Cmd (World K) (Bool × List ℕ)
  resolveip host ipbuf ipbuf_len = genericresolve host ipbuf ipbuf_len true

  unfoldable pub tcpaccept : (fuel s ip_len : ℕ) → Outs → Cmd (World K) (Option ℕ × Outs)
  tcpaccept fuel s ip_len outs = do
    new ← genericaccept sys fuel s
    elim new [
      | none ↦ pure (none, outs)
      | some (fd, sa) ↦ pure (some fd, getinetinfo text sa ip_len outs)
    ]

  unfoldable pub unixaccept : (fuel s : ℕ) → Cmd (World K) (Option ℕ)
  unixaccept fuel s = do
    new ← genericaccept sys fuel s
    elim new [ none ↦ pure none | some (fd, sa) ↦ pure (some fd) ]

  -- The result with the bytes that were received.
  unfoldable pub udprecvfrom : (s length ip_len : ℕ) → Outs → Cmd (World K) (Reply × List ℕ × Outs)
  udprecvfrom s length ip_len outs w =
      let (len, bytes, sa, k) = sys.recvfrom s length w.kernel in
      let outs' : Outs = elim len [
        | failed e ↦ outs
        | done n ↦ if ltb 0 n then getinetinfo text sa ip_len outs else outs
      ] in
      ok (len, bytes, outs') (settle none len k w)

  -- When `getpeername` fails, a question mark is written to `ip` without a test for null.
  unfoldable pub tcppeername : (fd ip_len : ℕ) → Outs → Cmd (World K) (Bool × Outs)
  tcppeername fd ip_len outs w =
      let (r, sa, k) = sys.getpeername fd w.kernel in
      elim r [
        | failed e ↦ elim outs.ip [
          | none ↦ fault
          | some old ↦
              ok
                (
                  false,
                  record {
                    ip = some (63 ∷ []);
                    port = elim outs.port [ none ↦ none | some p ↦ some 0 ];
                  },
                )
                (settle none (failed e) k w)
        ]
        | done n ↦
            (if sa.family == af_inet
                then ok (
                  true,
                  record {
                    ip = write_ip text af_inet sa.host ip_len outs.ip;
                    port = write_port text sa.port outs.port;
                  },
                )
                else ok (
                  true,
                  record {
                    ip = write_ip text af_inet6 sa.host ip_len outs.ip;
                    port = write_port text sa.port outs.port;
                  },
                ))
              (settle none (done n) k w)
      ]
