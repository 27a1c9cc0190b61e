-- ===== src/Net/Tests.antt =====
-- A node with a listener, a connection that waits on it, an established connection and a datagram
-- socket.
use det_sim.Base.{
  List, ℕ, ◌≡◌, ◌≤◌, refl, true, ◌&&◌, not, none, some, [], ◌∷◌, ◌++◌, length, take, ok, arith, ret,
  pos, if◌then◌else◌, ◌==◌,
}
use det_sim.Base.Map.{Ordered, find, put, modify, contains}
use det_sim.Fd.{FdType, Entry, allocate_fd, valid_entry, validate_entry, get_next_fd}
use det_sim.Net.State.{
  SockAddr, EpollInstance, TcpConnection, UdpDatagram, Socket, Host, Network, endpoint_key,
  allocate,
}
use det_sim.Net.Setup.{fresh_socket, do_bind, bound_to}
use det_sim.Net.Connect.{next_port, at_host}
use det_sim.Net.Accept.{do_accept, accept_front, accept_pending, commit_accept}
use det_sim.Net.Stream.{Received, do_recv, recv_connection, recv_chunk, deliver_to, find_peer}
use det_sim.Net.Datagram.{
  buffer_at, deliver_udp_datagram, recv_datagram, recv_taken, max_udp_buffer, source_error,
}
use det_sim.Net.Close.{do_close, remove_socket, end_host, notify_peer}
use det_sim.Net.Options.{emu_setsockopt, emu_getsockopt, setting_of, write_setting, tcp_setting}
use det_sim.Net.Epoll.{Pipes, Event, epoll_ready, do_epoll_wait}
use det_sim.Net.Readiness.{epoll_ready-do_epoll_wait}
use det_sim.Net.Ports.{Binds, do_bind-clashes, next_port-Searched, Searched}
use det_sim.Net.Tcp.{do_recv-unread, deliver_to-unread, unread}
use det_sim.Net.Udp.{deliver_udp_datagram-IsBounded, recv_datagram-TakenAt, TakenAt, IsBounded}
use det_sim.Net.Accepting.{Moved, do_accept-Moved}
use det_sim.Net.Closing.{IsForgotten, do_close-IsForgotten}
use det_sim.Net.Tuning.{stored, emu_setsockopt-emu_getsockopt}

abbrev at_port : ℕ → SockAddr
at_port p = record { family = 2; ip = 5; port = p }

abbrev conn : TcpConnection
conn = record {
  local_fd = 9;
  local_addr = at_port 99;
  peer_addr = at_port 80;
  recv_buffer = (1 ∷ 2 ∷ []) ∷ (3 ∷ []) ∷ [];
}

abbrev key : ℕ
key = endpoint_key 5 99

-- Listens at port 80, with one connection that waits.
abbrev listener : Socket
listener = record (bound_to (at_port 80) (fresh_socket 3 2 1)) {
  listening = true;
  backlog = 4;
  pending_connections = key ∷ [];
  established_connections = (key, conn) ∷ [];
}

-- The end of a connection to port 80.
abbrev client : Socket
client = record (bound_to (at_port 99) (fresh_socket 4 2 1)) {
  connected = true;
  peer_addr = at_port 80;
}

-- The other end.
abbrev server : Socket
server = record (bound_to (at_port 80) (fresh_socket 5 2 1)) {
  connected = true;
  peer_addr = at_port 99;
}

abbrev datagram : UdpDatagram
datagram = record { content = 4 ∷ 5 ∷ []; from = at_port 53 }

abbrev a_socket : Entry
a_socket = record { kind = FdType.socket; status_flags = 2; descriptor_flags = 0 }

abbrev host : Host
host = record {
  fds = record {
    entries =
        (0, a_socket)
        ∷ (1, a_socket)
        ∷ (2, a_socket)
        ∷ (3, a_socket)
        ∷ (4, a_socket)
        ∷ (5, a_socket)
        ∷ (6, a_socket)
        ∷ [];
  };
  sockets = (3, listener) ∷ (4, client) ∷ (5, server) ∷ (6, fresh_socket 6 2 2) ∷ [];
  udp_recv_buffers = (6, datagram ∷ []) ∷ [];
  tcp_connections = (4, conn) ∷ (5, conn) ∷ [];
  epoll_instances = [];
  address = some 5;
}

abbrev network : Network
network = record { hosts = host ∷ []; cursor = 0; budget = 10 }

abbrev after_read : Received Host
after_read = record {
  result = ret 1;
  bytes = 1 ∷ [];
  state = record host {
    tcp_connections = (4, record conn { recv_buffer = (2 ∷ []) ∷ (3 ∷ []) ∷ [] }) ∷ (5, conn) ∷ [];
  };
}

do_recv-unread_example : 1 ∷ [] ++ unread after_read.state 4 ≡ unread host 4
unfolding do_recv recv_connection recv_chunk find modify
do_recv-unread_example = do_recv-unread host 4 1 0 true after_read refl refl

abbrev after_delivery : Host
after_delivery = record host {
  tcp_connections =
      (4, conn) ∷ (5, record conn { recv_buffer = conn.recv_buffer ++ (7 ∷ []) ∷ [] }) ∷ [];
}

deliver_to-unread_example :
    unread after_delivery 5 ≡ (if 5 == 5 then unread host 5 ++ 7 ∷ [] else unread host 5)
unfolding deliver_to find_peer find modify contains
deliver_to-unread_example =
    deliver_to-unread client (7 ∷ []) host after_delivery 5 5 conn refl refl refl

abbrev after_accept : Host
after_accept =
    commit_accept
      (record host {
        fds = record {
          entries =
              (0, a_socket)
              ∷ (1, a_socket)
              ∷ (2, a_socket)
              ∷ (3, a_socket)
              ∷ (4, a_socket)
              ∷ (5, a_socket)
              ∷ (6, a_socket)
              ∷ (7, a_socket)
              ∷ [];
        };
      })
      3 listener key conn 7

host-Ordered : Ordered host.fds.entries
host-Ordered = (
  omega arith,
  (omega arith, (omega arith, (omega arith, (omega arith, (omega arith, (omega arith, tt)))))),
)

do_accept-Moved_example :
    (c : TcpConnection) × (find key listener.established_connections ≡ some c)
    × Moved host after_accept 3 key 7 listener c []
unfolding do_accept accept_front accept_pending allocate allocate_fd valid_entry validate_entry
    get_next_fd find put
do_accept-Moved_example =
    do_accept-Moved host after_accept 3 7 key none listener [] a_socket host-Ordered refl refl refl
      refl

sockets-Ordered : Ordered host.sockets
sockets-Ordered = (omega arith, (omega arith, (omega arith, (omega arith, tt))))

do_bind-clashes_example :
    Binds host 6 (fresh_socket 6 2 2) (at_port 53) 16 (do_bind host 6 (some (at_port 53)) 16)
unfolding find
do_bind-clashes_example =
    do_bind-clashes host 6 (fresh_socket 6 2 2) (at_port 53) 16 sockets-Ordered refl

next_port-Searched_example : Searched 5 10000 (4135 ∷ []) (next_port 5 10000 (4135 ∷ []))
next_port-Searched_example = next_port-Searched 5 10000 (4135 ∷ [])

abbrev after_close : Host
after_close = remove_socket 4 (end_host client 5 host)

do_close-IsForgotten_example : IsForgotten after_close 4
unfolding do_close notify_peer at_host find
do_close-IsForgotten_example =
    do_close-IsForgotten network (record network { hosts = after_close ∷ [] }) host after_close 4
      refl refl refl refl

bounded : IsBounded host
unfolding find
bounded fd = ground arith

deliver_udp_datagram-IsBounded_example :
    IsBounded (deliver_udp_datagram host 10 6 datagram).0
    × (buffer_at (deliver_udp_datagram host 10 6 datagram).0 6 ≡ (
        if 6 == 6 && not (length (buffer_at host 6) == max_udp_buffer)
        then buffer_at host 6 ++ datagram ∷ []
        else buffer_at host 6))
deliver_udp_datagram-IsBounded_example = deliver_udp_datagram-IsBounded host 10 6 6 datagram bounded

abbrev after_datagram : Received (Host × ℕ)
after_datagram = record {
  result = ret 2;
  bytes = 4 ∷ 5 ∷ [];
  state = (record host { udp_recv_buffers = (6, []) ∷ [] }, 10);
}

recv_datagram-TakenAt_example :
    (d : UdpDatagram) × TakenAt 0 d (buffer_at host 6) (buffer_at after_datagram.state.0 6)
    × (4 ∷ 5 ∷ [] ≡ take 2 d.content)
    × (2 ≤ 9)
unfolding recv_datagram recv_taken find put source_error
recv_datagram-TakenAt_example =
    recv_datagram-TakenAt host 10 6 9 0 true none after_datagram 2 refl refl

abbrev tuned_host : Host
tuned_host = record host {
  sockets =
      (3, listener)
      ∷ (4, record client { keep_idle = 60 })
      ∷ (5, server)
      ∷ (6, fresh_socket 6 2 2)
      ∷ [];
}

emu_setsockopt-emu_getsockopt_example :
    emu_getsockopt tuned_host 4 6 4
      (record { capacity = some 4; address_written = true; length_written = true })
    ≡ ok (ret 0, some (record { value = stored 6 4 (pos 60); size = 4 }))
unfolding emu_setsockopt setting_of tcp_setting write_setting find modify
emu_setsockopt-emu_getsockopt_example =
    emu_setsockopt-emu_getsockopt host tuned_host 4 6 4 4 (pos 60) 4 refl refl refl

abbrev watching : EpollInstance
watching = record { epoll_fd = 8; watched_fds = (4, record { events = 1; token = 7 }) ∷ [] }

abbrev watching_host : Host
watching_host = record host { epoll_instances = (8, watching) ∷ [] }

abbrev no_pipes : Pipes
no_pipes = record { pipe_fds = []; pipes = [] }

epoll_ready-do_epoll_wait_example :
    (es : List Event) × (do_epoll_wait watching_host no_pipes 8 true (pos 2)
      ≡ (ret (length es), es))
    × (length es ≤ 2)
    × (epoll_ready watching_host no_pipes 8 ≡ not (length es == 0))
unfolding find
epoll_ready-do_epoll_wait_example =
    epoll_ready-do_epoll_wait watching_host no_pipes 8 1 watching refl (omega arith)
