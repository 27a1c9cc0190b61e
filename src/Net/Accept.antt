-- ===== src/Net/Accept.antt =====
-- SockState::do_accept, and emu_accept4's flags.
use det_sim.Base.{
  ℕ, ◌-◌, ◌*◌, ◌/◌, ◌%◌, Bool, true, false, not, Option, none, some, List, [], ◌∷◌, ◌==◌,
  if◌then◌else◌, ok, throws, ret, errno, Errno, eopnotsupp, einval, eagain, econnreset, emfile,
}
use det_sim.Base.Map.{find, put, modify, erase}
use det_sim.Fd.{FdType, Command, f_setfl, f_setfd, do_fcntl, has_bit, o_nonblock, fd_cloexec}
use det_sim.Net.State.{
  Socket, TcpConnection, Host, Reply, sock_stream, invalid_socket_error, allocate, Copyout,
  copy_socket_address, invalid_descriptor,
}
use det_sim.Net.Setup.{sock_nonblock, sock_cloexec}

-- The socket of the accepted connection, under its new descriptor.
abbrev pub accepted : Socket → TcpConnection → ℕ → Socket
accepted l c fd = record {
  fd = fd;
  domain = l.domain;
  type = sock_stream;
  protocol = l.protocol;
  bound = true;
  local_addr = c.peer_addr;
  connected = true;
  listening = false;
  peer_addr = c.local_addr;
  backlog = 0;
  pending_connections = [];
  established_connections = [];
  reuse_address = l.reuse_address;
  no_delay = l.no_delay;
  keep_alive = l.keep_alive;
  keep_idle = l.keep_idle;
  keep_interval = l.keep_interval;
  keep_count = l.keep_count;
}

abbrev pub drop_front : List ℕ → List ℕ
drop_front [] = []
drop_front (x ∷ xs) = xs

abbrev pub popped : Socket → Socket
popped s = record s { pending_connections = drop_front s.pending_connections }

abbrev pub forgot : ℕ → Socket → Socket
forgot key s = record s { established_connections = erase key s.established_connections }

abbrev pub adopted : TcpConnection → ℕ → TcpConnection
adopted c fd = record c { local_fd = fd; local_addr = c.peer_addr; peer_addr = c.local_addr }

-- The descriptor is there: the connection moves from the listener to it.
unfoldable pub commit_accept : Host → ℕ → Socket → ℕ → TcpConnection → ℕ → Host
commit_accept h fd l key c new_fd = record h {
  sockets = modify fd (forgot key) (put new_fd (accepted l c new_fd) (modify fd popped h.sockets));
  tcp_connections = put new_fd (adopted c new_fd) h.tcp_connections;
}

abbrev pub accept_with : ℕ → Socket → ℕ → TcpConnection → Reply Host → Reply Host
accept_with fd l key c (throws e) = throws e
accept_with fd l key c (ok (errno e, h)) = ok (errno emfile, h)
accept_with fd l key c (ok (ret new_fd, h)) = ok (ret new_fd, commit_accept h fd l key c new_fd)

abbrev pub copyout_error : Option Copyout → Option Errno
copyout_error none = none
copyout_error (some c) = copy_socket_address c

unfoldable pub accept_pending :
    Host → ℕ → Socket → Option Copyout → ℕ → Option TcpConnection → Reply Host
accept_pending h fd l addr key none =
    ok (errno econnreset, record h { sockets = modify fd popped h.sockets })
accept_pending h fd l addr key (some c) = elim (copyout_error addr) [
  | some e ↦ ok (errno e, h)
  | none ↦ accept_with fd l key c (allocate h FdType.socket 2 0)
]

unfoldable pub accept_front : Host → ℕ → Socket → Option Copyout → List ℕ → Reply Host
accept_front h fd l addr [] = ok (errno eagain, h)
accept_front h fd l addr (key ∷ keys) =
    accept_pending h fd l addr key (find key l.established_connections)

unfoldable pub do_accept : Host → ℕ → Option Copyout → Reply Host
do_accept h fd addr = elim (find fd h.sockets) [
  | none ↦ ok (errno (invalid_socket_error h fd), h)
  | some l ↦
      if not (l.type == sock_stream)
      then ok (errno eopnotsupp, h)
      else if not l.listening
      then ok (errno einval, h)
      else accept_front h fd l addr l.pending_connections
]

abbrev pub fcntl_if : Bool → ℕ → Command → ℕ → Reply Host → Reply Host
fcntl_if false fd c argument r = r
fcntl_if true fd c argument (ok (r, h)) = elim (do_fcntl h.fds fd c argument) [
  | ok (x, d) ↦ ok (r, record h { fds = d })
  | throws e ↦ throws invalid_descriptor
]
fcntl_if true fd c argument (throws e) = throws e

abbrev pub with_flags : ℕ → Reply Host → Reply Host
with_flags flags (ok (ret fd, h)) =
    fcntl_if (has_bit sock_cloexec flags) fd f_setfd fd_cloexec
      (fcntl_if (has_bit sock_nonblock flags) fd f_setfl o_nonblock (ok (ret fd, h)))
with_flags flags r = r

unfoldable pub emu_accept4 : Host → ℕ → Option Copyout → ℕ → Reply Host
emu_accept4 h fd addr flags =
    if not (
      flags - flags / sock_nonblock % 2 * sock_nonblock - flags / sock_cloexec % 2 * sock_cloexec
      == 0)
    then ok (errno einval, h)
    else with_flags flags (do_accept h fd addr)
