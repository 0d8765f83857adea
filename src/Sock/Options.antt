-- ===== src/Sock/Options.antt =====
-- The socket options of src/ep_sock.h, and `ep_createsocket`. Each of these functions returns 0 or
-- -1, which is true or false here.
use libep.Base.{
  ℕ, ◌/◌, Bool, true, false, not, Option, none, some, ◌==◌, if◌then◌else◌, Cmd, ◌>>=◌, ◌>>◌, pure,
  ok,
}
use libep.Base.Int.{is_nonnegative}
use libep.Fcntl
use libep.Sock.System.{
  SockOpt, so_keepalive, so_reuseaddr, so_sndbuf, so_error, tcp_nodelay, tcp_keepintvl, tcp_keepcnt,
  ip_tcp_keepidle, ipv6_v6only, done, failed, System, World, Deed, reused, nonblocking, only_v6,
  succeeded, settle, perform, open_by, close,
}

-- `sizeof(int)`
abbrev pub size_of_int : ℕ
size_of_int = 4

abbrev pub sock_stream : ℕ
sock_stream = 1

abbrev pub sock_dgram : ℕ
sock_dgram = 2

module _ {K : Type 0} (sys : System K) where
  -- `setsockopt(fd, ..., &val, sizeof(val))`
  unfoldable pub set_int : Option Deed → ℕ → SockOpt → ℕ → Cmd (World K) Bool
  set_int deed fd opt val = perform deed (sys.setsockopt fd opt val size_of_int)

  -- Under Linux.
  unfoldable pub setkeepalive : ℕ → ℕ → Cmd (World K) Bool
  setkeepalive fd interval = do
    alive ← set_int none fd so_keepalive 1
    if not alive then pure false else do
      idle ← set_int none fd ip_tcp_keepidle interval
      if not idle then pure false else do
        let val = interval / 3
        between ← set_int none fd tcp_keepintvl (if val == 0 then 1 else val)
        if not between then pure false else do counted ← set_int none fd tcp_keepcnt 3; pure counted

  unfoldable pub settcpnodelay : ℕ → ℕ → Cmd (World K) Bool
  settcpnodelay fd val = set_int none fd tcp_nodelay val

  unfoldable pub tcpnodelay_enable : ℕ → Cmd (World K) Bool
  tcpnodelay_enable fd = settcpnodelay fd 1

  unfoldable pub tcpnodelay_disable : ℕ → Cmd (World K) Bool
  tcpnodelay_disable fd = settcpnodelay fd 0

  -- The length is the value of `sizeof(sz) == -1`.
  unfoldable pub setsendbuffer : ℕ → ℕ → Cmd (World K) Bool
  setsendbuffer fd sz = perform none (sys.setsockopt fd so_sndbuf sz 0)

  unfoldable pub settcpkeepalive : ℕ → Cmd (World K) Bool
  settcpkeepalive fd = set_int none fd so_keepalive 1

  unfoldable pub reuseaddr_enable : ℕ → Cmd (World K) Bool
  reuseaddr_enable fd = set_int (some (reused fd)) fd so_reuseaddr 1

  -- The socket is closed when the option is refused.
  unfoldable pub v6only : ℕ → Cmd (World K) Bool
  v6only s = do
    set ← set_int (some (only_v6 s)) s ipv6_v6only 1
    if set then pure true else (close sys s >> pure false)

  -- `ep_nonblock` of src/ep_fcntl.h; false for -1.
  unfoldable pub nonblock : ℕ → Cmd (World K) Bool
  nonblock fd = perform (some (nonblocking fd)) (λ k.
      let (ret, k') = Fcntl.nonblock sys.files fd k in
      (if is_nonnegative ret then done 0 else failed 0, k'))

  -- `ep_getsoerror`, with the pending error.
  unfoldable pub getsoerror : ℕ → Cmd (World K) (Bool × ℕ)
  getsoerror fd w =
      let (r, out, k) = sys.getsockopt fd so_error w.kernel in
      ok (succeeded r, out) (settle none r k w)

  unfoldable pub createsocket : (domain : ℕ) → Cmd (World K) (Option ℕ)
  createsocket domain = do
    opened ← open_by (sys.socket domain sock_stream 0)
    elim opened [
      | none ↦ pure none
      | some s ↦ do
        reusable ← reuseaddr_enable s
        if reusable then pure (some s) else (close sys s >> pure none)
    ]
