-- ===== src/Net/Setup.antt =====
-- socket, bind, getsockname, getpeername and listen.
use det_sim.Base.{
  ℕ, ◌+◌, ◌-◌, ◌*◌, ◌/◌, ◌%◌, Bool, true, false, ◌&&◌, ◌||◌, not, Option, none, some, [], ◌∷◌, ltb,
  ◌==◌, if◌then◌else◌, ℤ, pos, negsuc, ok, throws, SysResult, ret, errno, eafnosupport,
  eprotonosupport, emfile, einval, efault, eaddrinuse, enotconn, eopnotsupp, edestaddrreq,
}
use det_sim.Base.Map.{Map, find, put, modify}
use det_sim.Fd.{FdType, has_bit, o_rdwr, o_nonblock, fd_cloexec}
use det_sim.Net.State.{
  SockAddr, no_addr, Socket, Host, Reply, sock_stream, sock_dgram, af_inet, sockaddr_size,
  invalid_socket_error, allocate, Copyout, copy_socket_address,
}

abbrev pub sock_nonblock : ℕ
sock_nonblock = 2048

abbrev pub sock_cloexec : ℕ
sock_cloexec = 524288

-- `type & ~(SOCK_NONBLOCK | SOCK_CLOEXEC)`.
abbrev pub base_type : ℕ → ℕ
base_type type =
    type - type / sock_nonblock % 2 * sock_nonblock - type / sock_cloexec % 2 * sock_cloexec

abbrev pub effective_protocol : ℕ → ℕ
effective_protocol type = if type == sock_stream then 6 else 17

-- `Socket sock;` with the fields that `do_socket` writes.
abbrev pub fresh_socket : ℕ → ℕ → ℕ → Socket
fresh_socket fd domain type = record {
  fd = fd;
  domain = domain;
  type = type;
  protocol = effective_protocol type;
  bound = false;
  local_addr = no_addr;
  connected = false;
  listening = false;
  peer_addr = no_addr;
  backlog = 0;
  pending_connections = [];
  established_connections = [];
  reuse_address = false;
  no_delay = false;
  keep_alive = false;
  keep_idle = 7200;
  keep_interval = 75;
  keep_count = 9;
}

abbrev pub opened : ℕ → ℕ → Reply Host → Reply Host
opened domain type (throws e) = throws e
opened domain type (ok (errno e, h)) = ok (errno emfile, h)
opened domain type (ok (ret fd, h)) =
    ok (ret fd, record h { sockets = put fd (fresh_socket fd domain type) h.sockets })

unfoldable pub do_socket : Host → ℕ → ℕ → ℕ → Reply Host
do_socket h domain type protocol =
    if not (domain == af_inet)
    then ok (errno eafnosupport, h)
    else if not (base_type type == sock_stream) && not (base_type type == sock_dgram)
    then ok (errno eprotonosupport, h)
    else if not (protocol == 0) && not (protocol == effective_protocol (base_type type))
    then ok (errno eprotonosupport, h)
    else opened domain (base_type type) (
        allocate h FdType.socket
          (if has_bit sock_nonblock type then o_rdwr + o_nonblock else o_rdwr)
          (if has_bit sock_cloexec type then fd_cloexec else 0))

-- Another bound socket of the type that has the port, and overlaps in address.
abbrev pub clashes : ℕ → ℕ → SockAddr → ℕ → Socket → Bool
clashes fd type a other_fd s =
    not (other_fd == fd)
    && s.bound
    && s.type == type
    && s.local_addr.port == a.port
    && not (a.port == 0)
    && (a.ip == 0 || s.local_addr.ip == 0 || a.ip == s.local_addr.ip)

unfoldable pub in_use : ℕ → ℕ → SockAddr → Map Socket → Bool
in_use fd type a [] = false
in_use fd type a ((other_fd, s) ∷ m) = clashes fd type a other_fd s || in_use fd type a m

abbrev pub bound_to : SockAddr → Socket → Socket
bound_to a s = record s { local_addr = a; bound = true }

unfoldable pub bind_read : Host → ℕ → Socket → Option SockAddr → SysResult × Host
bind_read h fd s none = (errno efault, h)
bind_read h fd s (some a) =
    if not (a.family == af_inet)
    then (errno eafnosupport, h)
    else if in_use fd s.type a h.sockets
    then (errno eaddrinuse, h)
    else (ret 0, record h { sockets = modify fd (bound_to a) h.sockets })

-- `addr` is what the guest's pointer reads as.
unfoldable pub do_bind : Host → ℕ → Option SockAddr → ℕ → SysResult × Host
unfolding bind_read
do_bind h fd addr addrlen = elim (find fd h.sockets) [
  | none ↦ (errno (invalid_socket_error h fd), h)
  | some s ↦
      if s.bound
      then (errno einval, h)
      else if ltb addrlen sockaddr_size
      then (errno einval, h)
      else bind_read h fd s addr
]

abbrev pub copied : Copyout → SockAddr → SysResult × Option SockAddr
copied c a = elim (copy_socket_address c) [ none ↦ (ret 0, some a) | some e ↦ (errno e, none) ]

-- The address that reaches the guest, if any.
unfoldable pub do_getsockname : Host → ℕ → Copyout → SysResult × Option SockAddr
do_getsockname h fd c = elim (find fd h.sockets) [
  | none ↦ (errno (invalid_socket_error h fd), none)
  | some s ↦ copied c (record (s.local_addr) { family = af_inet })
]

unfoldable pub do_getpeername : Host → ℕ → Copyout → SysResult × Option SockAddr
do_getpeername h fd c = elim (find fd h.sockets) [
  | none ↦ (errno (invalid_socket_error h fd), none)
  | some s ↦ if not s.connected then (errno enotconn, none) else copied c s.peer_addr
]

abbrev pub at_least_zero : ℤ → ℕ
at_least_zero (pos n) = n
at_least_zero (negsuc n) = 0

abbrev pub listens : ℤ → Socket → Socket
listens backlog s = record s { listening = true; backlog = at_least_zero backlog }

unfoldable pub do_listen : Host → ℕ → ℤ → SysResult × Host
do_listen h fd backlog = elim (find fd h.sockets) [
  | none ↦ (errno (invalid_socket_error h fd), h)
  | some s ↦
      if not (s.type == sock_stream)
      then (errno eopnotsupp, h)
      else if not s.bound
      then (errno edestaddrreq, h)
      else (ret 0, record h { sockets = modify fd (listens backlog) h.sockets })
]
