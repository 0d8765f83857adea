-- ===== src/Sock/System.antt =====
-- The system calls that src/ep_sock.h makes, and the state in which its functions run.
use libep.Base.{
  ℕ, suc, ◌-◌, Bool, true, false, Option, none, some, List, [], ◌∷◌, ◌==◌, if◌then◌else◌, Cmd, ok,
  fault,
}
use libep.Fcntl

-- `struct sockaddr` of one of the internet families, and `struct addrinfo` by the members that are
-- read.
pub record SockAddr : Type 0 where
  pub family : ℕ
  pub host : List ℕ
  pub port : ℕ

pub record AddrInfo : Type 0 where
  pub family : ℕ
  pub socktype : ℕ
  pub protocol : ℕ
  pub addr : SockAddr

pub record Hints : Type 0 where
  pub flags : ℕ
  pub family : ℕ
  pub socktype : ℕ

-- A result that is not negative, or -1 with the value of `errno`.
pub data Reply : Type 0 where
  done failed : ℕ → Reply

-- A level and an option of `setsockopt`.
pub data SockOpt : Type 0 where
  so_keepalive so_reuseaddr so_sndbuf so_error tcp_nodelay tcp_keepintvl tcp_keepcnt : SockOpt
  ip_tcp_keepidle ipv6_v6only : SockOpt

-- A path is a string of characters; a local address is its path.
pub record System (K : Type 0) : Type 0 where
  pub files : Fcntl.Kernel K
  pub socket : (domain type protocol : ℕ) → K → Reply × K
  pub close : ℕ → K → K
  pub setsockopt : ℕ → SockOpt → (value len : ℕ) → K → Reply × K
  pub getsockopt : ℕ → SockOpt → K → Reply × ℕ × K
  pub getaddrinfo : Option (List ℕ) → Option (List ℕ) → Hints → K → Option (List AddrInfo) × K
  pub bind : ℕ → SockAddr → K → Reply × K
  pub bind_local : ℕ → List ℕ → K → Reply × K
  pub connect : ℕ → SockAddr → K → Reply × K
  pub connect_local : ℕ → List ℕ → K → Reply × K
  pub listen : ℕ → (backlog : ℕ) → K → Reply × K
  pub accept : ℕ → K → Reply × SockAddr × K
  pub getpeername : ℕ → K → Reply × SockAddr × K
  pub recvfrom : ℕ → (length : ℕ) → K → Reply × List ℕ × SockAddr × K
  pub chmod : List ℕ → ℕ → K → K

-- A call that succeeded on a descriptor.
pub data Deed : Type 0 where
  reused nonblocking bound connected listening only_v6 : ℕ → Deed

-- `live` are the descriptors that were opened and not closed since, and `infos` is the number of
-- address lists that were got and not freed; `deeds` are the calls that succeeded, last one first.
pub record World (K : Type 0) : Type 0 where
  pub kernel : K
  pub errno : ℕ
  pub live : List ℕ
  pub infos : ℕ
  pub deeds : List Deed

abbrev pub remove : ℕ → List ℕ → List ℕ
remove a [] = []
remove a (x ∷ xs) = if x == a then xs else x ∷ remove a xs

abbrev pub succeeded : Reply → Bool
succeeded (done n) = true
succeeded (failed e) = false

-- A descriptor that a reply opens.
abbrev pub descriptor : Reply → Option ℕ
descriptor (done fd) = some fd
descriptor (failed e) = none

abbrev pub add_deed : Option Deed → List Deed → List Deed
add_deed none ds = ds
add_deed (some d) ds = d ∷ ds

module _ {K : Type 0} where
  -- What a reply makes of the world.
  abbrev pub settle : Option Deed → Reply → K → World K → World K
  settle deed (done n) k w = record w { kernel = k; deeds = add_deed deed w.deeds }
  settle deed (failed e) k w = record w { kernel = k; errno = e }

  abbrev pub opened : Reply → K → World K → World K
  opened (done fd) k w = record w { kernel = k; live = fd ∷ w.live }
  opened (failed e) k w = record w { kernel = k; errno = e }

  -- A call that returns 0 or -1: true for 0, when the deed is recorded, and false for -1.
  unfoldable pub perform : Option Deed → (K → Reply × K) → Cmd (World K) Bool
  perform deed call w = let (r, k) = call w.kernel in ok (succeeded r) (settle deed r k w)

  -- A call that returns a new descriptor, or -1.
  unfoldable pub open_by : (K → Reply × K) → Cmd (World K) (Option ℕ)
  open_by call w = let (r, k) = call w.kernel in ok (descriptor r) (opened r k w)

  unfoldable pub get_errno : Cmd (World K) ℕ
  get_errno w = ok w.errno w

  unfoldable pub freeaddrinfo : Cmd (World K) (Unit {0})
  freeaddrinfo w = if w.infos == 0 then fault else ok tt (record w { infos = w.infos - 1 })

module _ {K : Type 0} (sys : System K) where
  unfoldable pub close : ℕ → Cmd (World K) (Unit {0})
  close fd w = ok tt (record w { kernel = sys.close fd w.kernel; live = remove fd w.live })

  unfoldable pub getaddrinfo :
      Option (List ℕ) → Option (List ℕ) → Hints → Cmd (World K) (Option (List AddrInfo))
  getaddrinfo host port hints w =
      let (found, k) = sys.getaddrinfo host port hints w.kernel in
      elim found [
        | none ↦ ok none (record w { kernel = k })
        | some infos ↦ ok (some infos) (record w { kernel = k; infos = suc w.infos })
      ]
