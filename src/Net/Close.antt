-- ===== src/Net/Close.antt =====
-- SockState::do_close: the end of the stream reaches the peer, and the socket leaves the host.
use det_sim.Base.{
  ℕ, Bool, ◌&&◌, Option, none, some, List, [], ◌∷◌, ◌++◌, map, ◌==◌, if◌then◌else◌, SysResult, ret,
  errno, ebadf,
}
use det_sim.Base.Map.{Map, find, modify, erase}
use det_sim.Fd.{release_fd}
use det_sim.Net.State.{
  Socket, TcpConnection, EpollInstance, Host, Network, sock_stream, effective_ip, endpoint_key,
}
use det_sim.Net.Stream.{goes_to, push_established}
use det_sim.Net.Connect.{at_host}

-- `recv_buffer.emplace_back()`.
abbrev pub push_eof : TcpConnection → TcpConnection
push_eof c = record c { recv_buffer = c.recv_buffer ++ [] ∷ [] }

-- Each listener of the network that holds the connection unaccepted.
abbrev pub end_pending : Socket → ℕ → Socket → Socket
end_pending s key l =
    if l.listening && goes_to s (find key l.established_connections)
    then push_established key push_eof l
    else l

unfoldable pub end_all_pending : Socket → ℕ → Map Socket → Map Socket
end_all_pending s key [] = []
end_all_pending s key ((fd, l) ∷ m) = (fd, end_pending s key l) ∷ end_all_pending s key m

-- The peer of the socket, whose local address is read as `ip`.
abbrev pub is_far_end : Socket → ℕ → Socket → Bool
is_far_end s ip r =
    r.connected
    && r.peer_addr.ip == ip
    && r.peer_addr.port == s.local_addr.port
    && r.local_addr.ip == s.peer_addr.ip
    && r.local_addr.port == s.peer_addr.port

-- The first far end of the host: the loop stops there, with a connection or without.
unfoldable pub find_far_end : Socket → ℕ → Map Socket → Option ℕ
find_far_end s ip [] = none
find_far_end s ip ((fd, r) ∷ m) = if is_far_end s ip r then some fd else find_far_end s ip m

unfoldable pub end_established : Socket → ℕ → Host → Host
end_established s ip h = elim (find_far_end s ip h.sockets) [
  | none ↦ h
  | some fd ↦ record h { tcp_connections = modify fd push_eof h.tcp_connections }
]

abbrev pub end_host : Socket → ℕ → Host → Host
end_host s ip h =
    end_established s ip
      (record h { sockets = end_all_pending s (endpoint_key ip s.local_addr.port) h.sockets })

unfoldable pub notify_peer : Host → Socket → List Host → List Host
unfolding end_all_pending end_established
notify_peer h s hosts =
    if s.connected && s.type == sock_stream
    then map (end_host s (effective_ip h s.local_addr.ip)) hosts
    else hosts

abbrev pub unwatch : ℕ → EpollInstance → EpollInstance
unwatch fd e = record e { watched_fds = erase fd e.watched_fds }

unfoldable pub forget_watches : ℕ → Map EpollInstance → Map EpollInstance
forget_watches fd [] = []
forget_watches fd ((k, e) ∷ m) = (k, unwatch fd e) ∷ forget_watches fd m

unfoldable pub forget_fd : Host → ℕ → Host
forget_fd h fd = record h { epoll_instances = forget_watches fd h.epoll_instances }

unfoldable pub remove_socket : ℕ → Host → Host
unfolding forget_fd
remove_socket fd h =
    let g = record h {
      udp_recv_buffers = erase fd h.udp_recv_buffers;
      tcp_connections = erase fd h.tcp_connections;
      sockets = erase fd h.sockets;
    } in
    let k = forget_fd g fd in record k { fds = release_fd k.fds fd }

-- `h` is the host of the call, as it stands before.
unfoldable pub do_close : Network → Host → ℕ → SysResult × Network
do_close n h fd = elim (find fd h.sockets) [
  | none ↦ (errno ebadf, n)
  | some s ↦
      (ret 0, record n { hosts = at_host n.cursor (remove_socket fd) (notify_peer h s n.hosts) })
]
