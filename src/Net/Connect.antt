-- ===== src/Net/Connect.antt =====
-- SockState::do_connect: the port, the checks against surviving peers, the listener, the commit.
use det_sim.Base.{
  ℕ, zero, suc, ◌+◌, Bool, true, false, ◌&&◌, ◌||◌, not, Option, none, some, List, [], ◌∷◌, ◌++◌,
  leb, ltb, ◌==◌, if◌then◌else◌, length, Outcome, ok, throws, ◌>>◌, throw_if, ret, errno,
  eopnotsupp, eisconn, einval, efault, eafnosupport, eaddrnotavail, econnrefused,
}
use det_sim.Base.Map.{Map, find, put, emplace, modify, contains}
use det_sim.Net.State.{
  SockAddr, no_addr, Socket, TcpConnection, Host, Network, NetError, Reply, sock_stream, af_inet,
  sockaddr_size, invalid_socket_error, swap16, endpoint_key, reuse_with_peer, reuse_with_pending,
  ambiguous_listener, backlog_overflow, pending_reuse,
}

abbrev pub first_port : ℕ
first_port = 10000

abbrev pub port_count : ℕ
port_count = 50000

-- `reciprocal_tuple`.
abbrev pub reciprocal : SockAddr → SockAddr → Socket → Bool
reciprocal local peer c =
    c.type == sock_stream
    && c.connected
    && c.local_addr.ip == peer.ip
    && c.local_addr.port == peer.port
    && c.peer_addr.ip == local.ip

-- `pending_tuple`.
abbrev pub waits_for : SockAddr → SockAddr → TcpConnection → Bool
waits_for local peer c =
    c.local_addr.ip == local.ip && c.peer_addr.ip == peer.ip && c.peer_addr.port == peer.port

-- The network-order ports of the bound sockets.
unfoldable pub bound_ports : Map Socket → List ℕ
bound_ports [] = []
bound_ports ((fd, s) ∷ m) =
    let rest = bound_ports m in if s.bound then s.local_addr.port ∷ rest else rest

unfoldable pub pending_ports : SockAddr → SockAddr → Map TcpConnection → List ℕ
pending_ports local peer [] = []
pending_ports local peer ((k, c) ∷ m) =
    let rest = pending_ports local peer m in
    if waits_for local peer c then c.local_addr.port ∷ rest else rest

unfoldable pub reserved_ports : SockAddr → SockAddr → Map Socket → List ℕ
reserved_ports local peer [] = []
reserved_ports local peer ((fd, s) ∷ m) =
    (if reciprocal local peer s then s.peer_addr.port ∷ [] else [])
    ++ ((if s.listening then pending_ports local peer s.established_connections else [])
        ++ reserved_ports local peer m)

unfoldable pub reserved_by_hosts : SockAddr → SockAddr → List Host → List ℕ
reserved_by_hosts local peer [] = []
reserved_by_hosts local peer (h ∷ hosts) =
    reserved_ports local peer h.sockets ++ reserved_by_hosts local peer hosts

-- `used[port - first_port]`, for a port in host order.
unfoldable pub is_used : ℕ → List ℕ → Bool
is_used port [] = false
is_used port (p ∷ ps) = swap16 p == port || is_used port ps

-- `while (index < port_count && used[index]) ++index;`, over the rounds left.
unfoldable pub next_port : ℕ → ℕ → List ℕ → Option ℕ
next_port zero port used = none
next_port (suc n) port used =
    let rest = next_port n (port + 1) used in if is_used port used then rest else some port

-- An endpoint that is bound to a port meets neither a surviving nor a pending peer.
unfoldable pub pending_meets : SockAddr → SockAddr → Map TcpConnection → Bool
pending_meets local peer [] = false
pending_meets local peer ((k, c) ∷ m) =
    waits_for local peer c && c.local_addr.port == local.port || pending_meets local peer m

unfoldable pub check_sockets : SockAddr → SockAddr → Map Socket → Outcome NetError (Unit {0})
check_sockets local peer [] = ok tt
check_sockets local peer ((fd, s) ∷ m) = do
  throw_if (reciprocal local peer s && s.peer_addr.port == local.port) reuse_with_peer
  throw_if (s.listening && pending_meets local peer s.established_connections) reuse_with_pending
  check_sockets local peer m

unfoldable pub check_hosts : SockAddr → SockAddr → List Host → Outcome NetError (Unit {0})
check_hosts local peer [] = ok tt
check_hosts local peer (h ∷ hosts) = do
  check_sockets local peer h.sockets
  check_hosts local peer hosts

-- The socket listens at the peer address; 0.0.0.0 stands for the host's address, if that is valid.
abbrev pub listens_at : Host → SockAddr → Socket → Bool
listens_at h peer s =
    s.listening
    && s.type == sock_stream
    && s.local_addr.port == peer.port
    && (if s.local_addr.ip == 0
        then elim h.address [ none ↦ false | some a ↦ a == peer.ip ]
        else s.local_addr.ip == peer.ip)

-- The listeners in the order of the loops, each with its node.
unfoldable pub listeners_of : ℕ → Host → SockAddr → Map Socket → List (ℕ × Socket)
listeners_of node h peer [] = []
listeners_of node h peer ((fd, s) ∷ m) =
    let rest = listeners_of node h peer m in
    if listens_at h peer s then (node, record s { fd = fd }) ∷ rest else rest

unfoldable pub listeners : ℕ → SockAddr → List Host → List (ℕ × Socket)
unfolding listeners_of
listeners node peer [] = []
listeners node peer (h ∷ hosts) =
    listeners_of node h peer h.sockets ++ listeners (node + 1) peer hosts

abbrev pub local_start : Socket → SockAddr
local_start s = record (if s.bound then s.local_addr else no_addr) { family = af_inet }

-- The concrete source address; `none` is EADDRNOTAVAIL.
unfoldable pub source_address : Host → Socket → Option SockAddr
source_address h s =
    if (local_start s).ip == 0
    then elim h.address [
      | none ↦ none
      | some a ↦ if a == 0 then none else some (record (local_start s) { ip = a })
    ]
    else some (local_start s)

unfoldable pub source_port : Network → Host → Socket → SockAddr → SockAddr → Option SockAddr
source_port n h s local peer =
    if not s.bound || local.port == 0
    then elim (next_port port_count first_port
        (bound_ports h.sockets ++ reserved_by_hosts local peer n.hosts)) [
          | none ↦ none
          | some p ↦ some (record local { port = swap16 p })
        ]
    else some local

abbrev pub connection : ℕ → SockAddr → SockAddr → TcpConnection
connection fd local peer = record {
  local_fd = fd;
  local_addr = local;
  peer_addr = peer;
  recv_buffer = [];
}

abbrev pub queued : ℕ → TcpConnection → Socket → Socket
queued key c s = record s {
  pending_connections = s.pending_connections ++ key ∷ [];
  established_connections = emplace key c s.established_connections;
}

abbrev pub connects : SockAddr → SockAddr → Socket → Socket
connects local peer s = record s {
  bound = true;
  local_addr = local;
  connected = true;
  peer_addr = peer;
}

abbrev pub enqueue_at : ℕ → ℕ → TcpConnection → Host → Host
enqueue_at listener key c h = record h { sockets = modify listener (queued key c) h.sockets }

abbrev pub connect_at : ℕ → SockAddr → SockAddr → Host → Host
connect_at fd local peer h = record h {
  sockets = modify fd (connects local peer) h.sockets;
  tcp_connections = put fd (connection fd local peer) h.tcp_connections;
}

unfoldable pub at_host : ℕ → (Host → Host) → List Host → List Host
at_host i g [] = []
at_host zero g (h ∷ hosts) = g h ∷ hosts
at_host (suc i) g (h ∷ hosts) = h ∷ at_host i g hosts

-- All validation is done: both sides are written.
unfoldable pub commit_connect : Network → ℕ → SockAddr → SockAddr → ℕ → ℕ → Network
commit_connect n fd local peer node listener = record n {
  hosts =
      at_host node
        (enqueue_at listener (endpoint_key local.ip local.port) (connection fd local peer))
        (at_host n.cursor (connect_at fd local peer) n.hosts);
}

unfoldable pub reach_listener :
    Network → ℕ → SockAddr → SockAddr → List (ℕ × Socket) → Reply Network
reach_listener n fd local peer [] = ok (errno econnrefused, n)
reach_listener n fd local peer ((node, s) ∷ []) = do
  throw_if (leb s.backlog (length s.established_connections)) backlog_overflow
  throw_if (contains (endpoint_key local.ip local.port) s.established_connections) pending_reuse
  ok (ret 0, commit_connect n fd local peer node s.fd)
reach_listener n fd local peer (l ∷ k ∷ ls) = throws ambiguous_listener

unfoldable pub connect_from : Network → Host → ℕ → Socket → SockAddr → SockAddr → Reply Network
connect_from n h fd s start peer = elim (source_port n h s start peer) [
  | none ↦ ok (errno eaddrnotavail, n)
  | some local ↦ do
    (if s.bound && not (s.local_addr.port == 0) then check_hosts local peer n.hosts else ok tt)
    reach_listener n fd local peer (listeners 0 peer n.hosts)
]

unfoldable pub connect_to : Network → Host → ℕ → Socket → Option SockAddr → Reply Network
connect_to n h fd s none = ok (errno efault, n)
connect_to n h fd s (some peer) =
    if not (peer.family == af_inet) then ok (errno eafnosupport, n) else elim (source_address h s) [
      | none ↦ ok (errno eaddrnotavail, n)
      | some start ↦ connect_from n h fd s start peer
    ]

abbrev pub connect_socket : Network → Host → ℕ → Option SockAddr → ℕ → Socket → Reply Network
connect_socket n h fd addr addrlen s =
    if not (s.type == sock_stream)
    then ok (errno eopnotsupp, n)
    else if s.connected
    then ok (errno eisconn, n)
    else if s.listening
    then ok (errno einval, n)
    else if ltb addrlen sockaddr_size
    then ok (errno einval, n)
    else connect_to n h fd s addr

unfoldable pub do_connect : Network → Host → ℕ → Option SockAddr → ℕ → Reply Network
do_connect n h fd addr addrlen = elim (find fd h.sockets) [
  | none ↦ ok (errno (invalid_socket_error h fd), n)
  | some s ↦ connect_socket n h fd addr addrlen s
]
