-- ===== src/Net/Epoll.antt =====
-- Epoll: instances, watches and readiness, with the pipes of the node's file system state.
use det_sim.Base.{
  ℕ, zero, suc, ◌+◌, ◌*◌, ◌/◌, ◌%◌, Bool, true, false, ◌&&◌, ◌||◌, not, Option, none, some, List,
  [], ◌∷◌, ltb, ◌==◌, if◌then◌else◌, length, ℤ, pos, negsuc, ok, throws, SysResult, ret, errno,
  einval, ebadf, emfile, eperm, eexist, enoent, efault,
}
use det_sim.Base.Map.{Map, find, put, erase, modify, contains}
use det_sim.Fd.{FdType, get_fd_type, is_allocated, release_fd, fd_cloexec, o_rdwr, int_max, has_bit}
pub use det_sim.Fs.State.{Pipe, Pipes, pipe_capacity}
use det_sim.Net.State.{
  Socket, TcpConnection, EpollWatch, EpollInstance, Host, Reply, sock_dgram, allocate, nested_epoll,
  unsupported_mode, unsupported_mask,
}
use det_sim.Net.Stream.{is_empty}
use det_sim.Net.Datagram.{buffer_at}
use det_sim.Net.Close.{forget_fd}

-- The five readiness bits, EPOLLIN = 1, EPOLLOUT = 4, EPOLLERR = 8, EPOLLHUP = 16, EPOLLRDHUP = 8192.
pub record Ready : Type 0 where
  pub in_bit : Bool
  pub out_bit : Bool
  pub err_bit : Bool
  pub hup_bit : Bool
  pub rdhup_bit : Bool

abbrev pub not_ready : Ready
not_ready = record {
  in_bit = false;
  out_bit = false;
  err_bit = false;
  hup_bit = false;
  rdhup_bit = false;
}

abbrev pub bit : Bool → ℕ → ℕ
bit true w = w
bit false w = 0

-- The word of the bits.
abbrev pub word : Ready → ℕ
word r =
    bit r.in_bit 1 + bit r.out_bit 4 + bit r.err_bit 8 + bit r.hup_bit 16 + bit r.rdhup_bit 8192

abbrev pub has_items {ℓ} : {A : Type ℓ} → List A → Bool
has_items [] = false
has_items (x ∷ xs) = true

-- `queue.back().empty()` on a queue that is not empty.
unfoldable pub ends_stream : List (List ℕ) → Bool
ends_stream [] = false
ends_stream (c ∷ []) = is_empty c
ends_stream (c ∷ d ∷ q) = ends_stream (d ∷ q)

abbrev pub stream_ready : Option TcpConnection → Ready
stream_ready none = not_ready
stream_ready (some c) = record {
  in_bit = has_items c.recv_buffer;
  out_bit = true;
  err_bit = false;
  hup_bit = false;
  rdhup_bit = ends_stream c.recv_buffer;
}

unfoldable pub socket_ready : Host → ℕ → Socket → Ready
socket_ready h fd s =
    if s.type == sock_dgram
    then record not_ready { in_bit = has_items (buffer_at h fd); out_bit = true }
    else if s.listening
    then record not_ready { in_bit = has_items s.pending_connections }
    else if s.connected
    then stream_ready (find fd h.tcp_connections)
    else not_ready

abbrev pub end_ready : ℤ → Option Pipe → Ready
end_ready e none = not_ready
end_ready (pos zero) (some p) =
    if p.read_closed
    then record not_ready { err_bit = true }
    else record not_ready { out_bit = ltb (length p.buffer) pipe_capacity }
end_ready (pos (suc n)) (some p) = record not_ready {
  in_bit = has_items p.buffer || p.write_closed;
  hup_bit = p.write_closed;
}
end_ready (negsuc n) (some p) =
    if p.read_closed
    then record not_ready { err_bit = true }
    else record not_ready { out_bit = ltb (length p.buffer) pipe_capacity }

-- std::abs of a pipe's id.
abbrev pub abs : ℤ → ℕ
abs (pos n) = n
abs (negsuc n) = suc n

unfoldable pub pipe_ready : Pipes → ℕ → Ready
pipe_ready ps fd = elim (find fd ps.pipe_fds) [
  | none ↦ not_ready
  | some e ↦ end_ready e (find (abs e) ps.pipes)
]

unfoldable pub ready_events : Host → Pipes → ℕ → Ready
ready_events h ps fd = elim (find fd h.sockets) [
  | none ↦ pipe_ready ps fd
  | some s ↦ socket_ready h fd s
]

-- `ready & (events | EPOLLERR | EPOLLHUP)`.
abbrev pub masked : ℕ → Ready → Ready
masked events r = record r {
  in_bit = r.in_bit && has_bit 1 events;
  out_bit = r.out_bit && has_bit 4 events;
  rdhup_bit = r.rdhup_bit && has_bit 8192 events;
}

unfoldable pub any_ready : Host → Pipes → Map EpollWatch → Bool
any_ready h ps [] = false
any_ready h ps ((fd, w) ∷ m) =
    not (word (masked w.events (ready_events h ps fd)) == 0) || any_ready h ps m

-- A missing instance counts as ready: the retry answers EBADF.
unfoldable pub epoll_ready : Host → Pipes → ℕ → Bool
unfolding any_ready
epoll_ready h ps epfd = elim (find epfd h.epoll_instances) [
  | none ↦ true
  | some e ↦ any_ready h ps e.watched_fds
]

pub record Event : Type 0 where
  pub events : ℕ
  pub token : ℕ

-- The loop of `do_epoll_wait`, while there is room for events.
unfoldable pub collect : Host → Pipes → ℕ → Map EpollWatch → List Event
collect h ps zero m = []
collect h ps (suc room) [] = []
collect h ps (suc room) ((fd, w) ∷ m) =
    let ready = word (masked w.events (ready_events h ps fd)) in
    let rest = collect h ps (if ready == 0 then suc room else room) m in
    if ready == 0 then rest else record { events = ready; token = w.token } ∷ rest

abbrev pub wait_output : Bool → List Event → SysResult × List Event
wait_output written es = if written then (ret (length es), es) else (errno efault, [])

abbrev pub wait_room : Host → Pipes → EpollInstance → Bool → ℤ → SysResult × List Event
wait_room h ps e written (negsuc n) = (errno einval, [])
wait_room h ps e written (pos n) =
    if n == 0 || ltb (int_max / 12) n
    then (errno einval, [])
    else wait_output written (collect h ps n e.watched_fds)

-- The events that reach the guest; an epoll_event has 12 bytes.
unfoldable pub do_epoll_wait : Host → Pipes → ℕ → Bool → ℤ → SysResult × List Event
unfolding collect
do_epoll_wait h ps epfd written maxevents = elim (find epfd h.epoll_instances) [
  | none ↦ (errno ebadf, [])
  | some e ↦ wait_room h ps e written maxevents
]

abbrev pub instantiated : Reply Host → Reply Host
instantiated (throws e) = throws e
instantiated (ok (errno e, h)) = ok (errno emfile, h)
instantiated (ok (ret fd, h)) = ok (
  ret fd,
  record h {
    epoll_instances = put fd (record { epoll_fd = fd; watched_fds = [] }) h.epoll_instances;
  },
)

-- EPOLL_CLOEXEC is 0x80000; other bits are refused.
unfoldable pub do_epoll_create1 : Host → ℕ → Reply Host
do_epoll_create1 h flags =
    if not (flags == 0) && not (flags == 524288)
    then ok (errno einval, h)
    else instantiated (allocate h FdType.epoll o_rdwr (if flags == 0 then 0 else fd_cloexec))

unfoldable pub do_epoll_create : Host → ℤ → Reply Host
do_epoll_create h (negsuc n) = ok (errno einval, h)
do_epoll_create h (pos n) = if n == 0 then ok (errno einval, h) else do_epoll_create1 h 0

unfoldable pub do_epoll_close : Host → ℕ → SysResult × Host
do_epoll_close h fd =
    if not (contains fd h.epoll_instances)
    then (errno ebadf, h)
    else (let g = forget_fd (record h { epoll_instances = erase fd h.epoll_instances }) fd in
        (ret 0, record g { fds = release_fd g.fds fd }))

pub data CtlOp : Type 0 where
  ctl_add ctl_mod ctl_del : CtlOp
  ctl_other : ℕ → CtlOp

-- EPOLLET, EPOLLONESHOT, EPOLLWAKEUP and EPOLLEXCLUSIVE are the bits 31 to 28.
abbrev pub has_mode : ℕ → Bool
has_mode events = not (events / 268435456 == 0)

abbrev pub known_events : ℕ → ℕ
known_events e = e % 2 + e / 4 % 2 * 4 + e / 8 % 2 * 8 + e / 16 % 2 * 16 + e / 8192 % 2 * 8192

abbrev pub watch : ℕ → EpollWatch → EpollInstance → EpollInstance
watch fd w e = record e { watched_fds = put fd w e.watched_fds }

abbrev pub unwatch_one : ℕ → EpollInstance → EpollInstance
unwatch_one fd e = record e { watched_fds = erase fd e.watched_fds }

unfoldable pub set_watch : Host → ℕ → ℕ → Option EpollWatch → Reply Host
set_watch h epfd fd none = ok (errno efault, h)
set_watch h epfd fd (some w) =
    if has_mode w.events
    then throws unsupported_mode
    else if not (known_events w.events == w.events)
    then throws unsupported_mask
    else ok (ret 0, record h { epoll_instances = modify epfd (watch fd w) h.epoll_instances })

unfoldable pub ctl_watch : Host → ℕ → EpollInstance → CtlOp → ℕ → Option EpollWatch → Reply Host
ctl_watch h epfd e ctl_add fd event =
    if contains fd e.watched_fds then ok (errno eexist, h) else set_watch h epfd fd event
ctl_watch h epfd e ctl_mod fd event =
    if contains fd e.watched_fds then set_watch h epfd fd event else ok (errno enoent, h)
ctl_watch h epfd e ctl_del fd event =
    if contains fd e.watched_fds
    then ok (ret 0, record h { epoll_instances = modify epfd (unwatch_one fd) h.epoll_instances })
    else ok (errno enoent, h)
ctl_watch h epfd e (ctl_other n) fd event = ok (errno einval, h)

unfoldable pub ctl_kind : FdType → Reply Host → Host → Reply Host
ctl_kind FdType.epoll k h = throws nested_epoll
ctl_kind FdType.socket k h = k
ctl_kind FdType.pipe k h = k
ctl_kind _ k h = ok (errno eperm, h)

-- `event` is what the guest's pointer reads as.
unfoldable pub do_epoll_ctl : Host → ℕ → CtlOp → ℕ → Option EpollWatch → Reply Host
do_epoll_ctl h epfd op fd event = elim (find epfd h.epoll_instances) [
  | none ↦ ok (errno ebadf, h)
  | some e ↦
      if not (is_allocated h.fds fd)
      then ok (errno ebadf, h)
      else if fd == epfd
      then ok (errno einval, h)
      else ctl_kind (get_fd_type h.fds fd) (ctl_watch h epfd e op fd event) h
]
