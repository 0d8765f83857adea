-- ===== src/Sock/Tests.antt =====
-- Runs of the functions of src/ep_sock.h over a system whose kernel is the next descriptor.
use libep.Base.{
  ℕ, zero, suc, ◌+◌, ap, ◌≢◌, ◌≡◌, refl, true, false, Option, none, some, List, [], ◌∷◌, ◌==◌,
  if◌then◌else◌, ok, fault, length, Returns, arith,
}
use libep.Base.Int.{pos}
use libep.Sock.System.{
  SockAddr, AddrInfo, Reply, done, failed, System, World, reused, perform, open_by, getaddrinfo,
  freeaddrinfo, close,
}
use libep.Sock.Options.{createsocket, reuseaddr_enable, set_int}
use libep.Sock.Connect.{
  digits, portstr, tcp_loop, prepare, bind_source, bind_any, generictcpconnect, genericunixconnect,
}
use libep.Sock.Tried.{Tried}
use libep.Sock.Outcome.{generictcpconnect-Tried}
use libep.Sock.Unix.{Ended, genericunixconnect-Ended}
use libep.Sock.Server.{listen, set_up, tcpserver_loop, af_inet, generictcpserver}
use libep.Sock.Served.{Server}
use libep.Sock.Serve.{generictcpserver-Server}
use libep.Sock.Accept.{at_once, again, Accepted, genericaccept, genericaccept-Accepted}
use libep.Sock.Address.{Text, getinetinfo, tcppeername}
use libep.Sock.Peer.{tcppeername-getinetinfo}
use libep.Sock.Transfer.{got, read_failed, Io, Buffers, read, write, store}
use libep.Sock.Transfer.Read.{Delivers, delivered, Filled, read-Filled}
use libep.Sock.Transfer.Write.{AcceptsAtMost, Wrote, write-Wrote}
use libep.Sock.Transfer.Error.{read_overruns}

abbrev home : SockAddr
home = record { family = 2; host = 127 ∷ 0 ∷ 0 ∷ 1 ∷ []; port = 80 }

abbrev infos : List AddrInfo
infos = record { family = 2; socktype = 1; protocol = 6; addr = home } ∷ []

-- What the calls answer.
record Answers : Type 0 where
  pub connects : Reply
  pub binds : Reply
  pub finds : Option (List AddrInfo)

-- The first call of `accept` is interrupted.
abbrev net : Answers → System ℕ
net a = record {
  files = record { getfl = λ fd k. (some 0, k); setfl = λ fd f k. (pos 0, k) };
  socket = λ d t p k. (done k, suc k);
  close = λ fd k. k;
  setsockopt = λ fd o v l k. (done 0, k);
  getsockopt = λ fd o k. (done 0, 0, k);
  getaddrinfo = λ h p hints k. (a.finds, k);
  bind = λ fd sa k. (a.binds, k);
  bind_local = λ fd path k. (a.binds, k);
  connect = λ fd sa k. (a.connects, k);
  connect_local = λ fd path k. (a.connects, k);
  listen = λ fd n k. (done 0, k);
  accept = λ s k. if k == 3 then (failed 4, home, 4) else (done k, home, suc k);
  getpeername = λ fd k. (done 0, home, k);
  recvfrom = λ fd n k. (done 0, [], home, k);
  chmod = λ path mode k. k;
}

abbrev up : Answers
up = record { connects = done 0; binds = done 0; finds = some infos }

abbrev w0 : World ℕ
w0 = record { kernel = 3; errno = 0; live = []; infos = 0; deeds = [] }

portstr_8080 : portstr 8080 ≡ 56 ∷ 48 ∷ 56 ∷ 48 ∷ []
unfolding portstr digits
portstr_8080 = refl

-- A server whose address is in use: -1 is returned, and the socket stays open.
tcpserver_busy :
    generictcpserver
      (net record { connects = done 0; binds = failed 98; finds = some infos })
      80
      none
      af_inet
      5
      w0
    ≡ ok none record { kernel = 4; errno = 98; live = 3 ∷ []; infos = 0; deeds = reused 3 ∷ [] }
unfolding generictcpserver getaddrinfo tcpserver_loop open_by set_up reuseaddr_enable set_int
    perform listen freeaddrinfo
tcpserver_busy = refl

-- A local socket that should not block is closed again and returned.
unixconnect_nb_closed :
    genericunixconnect (net up) [] true w0
    ≡ ok (some 3) record { kernel = 4; errno = 0; live = []; infos = 0; deeds = reused 3 ∷ [] }
unfolding genericunixconnect createsocket open_by reuseaddr_enable set_int perform close
unixconnect_nb_closed = refl

-- The source cannot be bound: the socket is returned, and `connect` was not called.
tcpconnect_unbound :
    generictcpconnect
      (net record { connects = done 0; binds = failed 99; finds = some infos })
      []
      80
      (some [])
      false
      w0
    ≡ ok (some 3) record { kernel = 4; errno = 99; live = 3 ∷ []; infos = 0; deeds = reused 3 ∷ [] }
unfolding generictcpconnect getaddrinfo tcp_loop open_by prepare reuseaddr_enable set_int perform
    bind_source bind_any freeaddrinfo
tcpconnect_unbound = refl

abbrev text : Text
text = record { ntop = λ family host len. some host; ntohs = λ port. port }

-- The peer's name is not known, and the caller does not want it.
tcppeername_null :
    tcppeername
      (record (net up) { getpeername = λ fd k. (failed 107, home, k) })
      text
      3
      46
      record { ip = none; port = none }
      w0
    ≡ fault
unfolding tcppeername
tcppeername_null = refl

generictcpconnect-Tried_example :
    Returns (Tried (some []) true true w0) (generictcpconnect (net up) [] 80 (some []) true w0)
generictcpconnect-Tried_example = generictcpconnect-Tried (net up) (some []) true [] 80 w0

genericunixconnect-Ended_example :
    Returns (Ended w0 false) (genericunixconnect (net up) (47 ∷ []) false w0)
genericunixconnect-Ended_example = genericunixconnect-Ended (net up) (47 ∷ []) false w0

generictcpserver-Server_example :
    Returns (Server 2 true w0) (generictcpserver (net up) 80 none 2 5 w0)
generictcpserver-Server_example = generictcpserver-Server (net up) 80 none 2 5 w0 infos refl

abbrev unknown : Answers
unknown = record { connects = done 0; binds = done 0; finds = none }

done_failed : {a b : ℕ} → done a ≢ failed b
done_failed e = absurd (ground arith)

genericaccept-Accepted_example : Returns (Accepted w0 home (done 4)) (genericaccept (net up) 2 1 w0)
genericaccept-Accepted_example =
    genericaccept-Accepted (net up) 2 1 1 w0 4 5 (done 4) home (again refl at_once) refl done_failed
      (omega arith)

tcppeername-getinetinfo_example :
    tcppeername (net up) text 3 46 record { ip = some []; port = none } w0
    ≡ ok (true, getinetinfo text home 46 record { ip = some []; port = none }) w0
tcppeername-getinetinfo_example =
    tcppeername-getinetinfo (net up) text 3 46 record { ip = some []; port = none } w0 0 home 3 refl

-- A kernel that fails while its state is 0, and then delivers as many bytes as it is asked for.
abbrev ones : ℕ → List ℕ
ones zero = []
ones (suc n) = 1 ∷ ones n

length-ones : (n : ℕ) → length (ones n) ≡ n
length-ones zero = refl
length-ones (suc n) = ap suc (length-ones n)

abbrev pipe : Io ℕ
pipe = record {
  read = λ fd count k. if k == 0 then (read_failed, 1) else (got (ones count), k);
  write = λ fd bs k. (done (length bs), k);
}

abbrev b0 : ℕ → Buffers ℕ
b0 k = record { kernel = k; mem = λ a. a; bytes = []; ended = false }

read_overruns_example :
    read pipe (0 + 3) 0 100 4 (b0 0)
    ≡ ok
        (pos 4)
        record { kernel = 1; mem = store 99 (ones 6) (λ a. a); bytes = ones 6; ended = false }
read_overruns_example =
    read_overruns pipe 0 0 100 4 (b0 0) 1 1 (ones 6) (omega arith) refl refl refl

-- A kernel that always delivers one byte, or none when none is asked for.
abbrev drip : Io ℕ
drip = record {
  read = λ fd count k. (if count == 0 then got [] else got (7 ∷ []), k);
  write = λ fd bs k. (done (length bs), k);
}

drip-Delivers : Delivers drip 0
drip-Delivers zero k = delivered (omega arith)
drip-Delivers (suc n) k =
    let f : (suc n == 0) ≡ false = ground arith in rw f (delivered (omega arith))

pipe_accepts : AcceptsAtMost pipe 0
pipe_accepts bs k = omega arith

read-Filled_example : Returns (Filled 100 4 0 (b0 1)) (read drip 5 0 100 4 (b0 1))
read-Filled_example = read-Filled drip 0 drip-Delivers 5 100 4 (b0 1) (omega arith)

write-Wrote_example : Returns (Wrote 100 4 0 (b0 1)) (write pipe 5 0 100 4 (b0 1))
write-Wrote_example = write-Wrote pipe 0 pipe_accepts 5 100 4 (b0 1) (omega arith)
