-- ===== src/Net/State.antt =====
-- The data of sockstate.h. A host is a SockState with its descriptor table and configured address; the
-- network is all of them with the node that is running. Addresses and ports are the numbers of the
-- struct's fields, in network order. What guest memory gives and takes is an argument of each call.
use det_sim.Base.{
  ℕ, ◌+◌, ◌-◌, ◌*◌, ◌/◌, ◌%◌, Bool, ◌&&◌, not, Option, none, some, List, [], ◌∷◌, ltb, ◌==◌,
  if◌then◌else◌, Outcome, ok, throws, SysResult, Errno, ebadf, enotsock, efault, einval,
}
use det_sim.Base.Map.{Map}
use det_sim.Fd.{FdManager, FdType, FdError, is_allocated, allocate_fd, int_max}

pub record SockAddr : Type 0 where
  pub family : ℕ
  pub ip : ℕ
  pub port : ℕ

abbrev pub no_addr : SockAddr
no_addr = record { family = 0; ip = 0; port = 0 }

-- The chunks received, oldest first; an empty one is the end of the stream.
pub record TcpConnection : Type 0 where
  pub local_fd : ℕ
  pub local_addr : SockAddr
  pub peer_addr : SockAddr
  pub recv_buffer : List (List ℕ)

pub record UdpDatagram : Type 0 where
  pub content : List ℕ
  pub from : SockAddr

pub record Socket : Type 0 where
  pub fd : ℕ
  pub domain : ℕ
  pub type : ℕ
  pub protocol : ℕ
  pub bound : Bool
  pub local_addr : SockAddr
  pub connected : Bool
  pub listening : Bool
  pub peer_addr : SockAddr
  pub backlog : ℕ
  pub pending_connections : List ℕ
  pub established_connections : Map TcpConnection
  pub reuse_address : Bool
  pub no_delay : Bool
  pub keep_alive : Bool
  pub keep_idle : ℕ
  pub keep_interval : ℕ
  pub keep_count : ℕ

pub record EpollWatch : Type 0 where
  pub events : ℕ
  pub token : ℕ

pub record EpollInstance : Type 0 where
  pub epoll_fd : ℕ
  pub watched_fds : Map EpollWatch

-- `address` is what inet_pton reads from the node's configured address.
pub record Host : Type 0 where
  pub fds : FdManager
  pub sockets : Map Socket
  pub udp_recv_buffers : Map (List UdpDatagram)
  pub tcp_connections : Map TcpConnection
  pub epoll_instances : Map EpollInstance
  pub address : Option ℕ

pub record Network : Type 0 where
  pub hosts : List Host
  pub cursor : ℕ
  pub budget : ℕ

pub data NetError : Type 0 where
  unsupported_flags invalid_descriptor reuse_with_peer reuse_with_pending ambiguous_listener
        backlog_overflow pending_reuse no_validated_socket explicit_destination source_requested
        nested_epoll unsupported_mode unsupported_mask unsupported_option :
      NetError

abbrev pub Reply : Type 0 → Type 0
Reply S = Outcome NetError (SysResult × S)

abbrev pub sock_stream : ℕ
sock_stream = 1

abbrev pub sock_dgram : ℕ
sock_dgram = 2

abbrev pub af_inet : ℕ
af_inet = 2

abbrev pub sockaddr_size : ℕ
sockaddr_size = 16

unfoldable pub invalid_socket_error : Host → ℕ → Errno
invalid_socket_error h fd = if is_allocated h.fds fd then enotsock else ebadf

-- `find_socket_by_local_addr`, from an entry on.
unfoldable pub find_socket_by_local_addr : SockAddr → Map Socket → Option ℕ
find_socket_by_local_addr a [] = none
find_socket_by_local_addr a ((fd, s) ∷ m) =
    if s.bound && s.local_addr.ip == a.ip && s.local_addr.port == a.port
    then some fd
    else find_socket_by_local_addr a m

unfoldable pub find_socket_by_port : ℕ → Map Socket → Option ℕ
find_socket_by_port p [] = none
find_socket_by_port p ((fd, s) ∷ m) =
    if s.bound && s.local_addr.port == p then some fd else find_socket_by_port p m

abbrev pub allocated : Host → Outcome FdError (SysResult × FdManager) → Reply Host
allocated h (ok (r, d)) = ok (r, record h { fds = d })
allocated h (throws e) = throws invalid_descriptor

-- `allocate_fd`, with the descriptor table always set.
unfoldable pub allocate : Host → FdType → ℕ → ℕ → Reply Host
allocate h kind status descriptor = allocated h (allocate_fd h.fds kind status descriptor)

-- What guest memory does with an address and its length: the capacity that is read, and whether the
-- two writes succeed.
pub record Copyout : Type 0 where
  pub capacity : Option ℕ
  pub address_written : Bool
  pub length_written : Bool

abbrev written_both : Copyout → Option Errno
written_both c =
    if not c.address_written
    then some efault
    else if not c.length_written
    then some efault
    else none

-- `copy_socket_address`, and the same steps in `do_accept`: the errno if it fails.
unfoldable pub copy_socket_address : Copyout → Option Errno
copy_socket_address c = elim c.capacity [
  | none ↦ some efault
  | some n ↦ if ltb int_max n then some einval else written_both c
]

-- The address that stands for 0.0.0.0 at a host.
abbrev pub effective_ip : Host → ℕ → ℕ
effective_ip h ip = if ip == 0 then elim h.address [ none ↦ ip | some a ↦ a ] else ip

-- `consume_model_budget(1)`, which stops at zero.
abbrev pub spend : ℕ → ℕ
spend budget = budget - 1

-- `ntohs` and `htons`.
abbrev pub swap16 : ℕ → ℕ
swap16 p = p % 256 * 256 + p / 256 % 256

-- (uint64_t(s_addr) << 32) | sin_port.
abbrev pub endpoint_key : ℕ → ℕ → ℕ
endpoint_key ip port = ip * 4294967296 + port
