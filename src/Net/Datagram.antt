-- ===== src/Net/Datagram.antt =====
-- UDP: do_sendto, deliver_udp_datagram, do_recvfrom_with_choice and get_recvfrom_choices.
use det_sim.Base.{
  ℕ, zero, suc, ◌+◌, ◌-◌, ◌*◌, ◌/◌, ◌%◌, Bool, ◌&&◌, ◌||◌, not, Option, none, some, List, [], ◌∷◌,
  ◌++◌, leb, ltb, ◌==◌, if◌then◌else◌, length, take, min, Outcome, ok, throws, ret, errno, Errno,
  eopnotsupp, eagain, efault, einval, eafnosupport, edestaddrreq, enetunreach, eaddrnotavail,
  get_elem?,
}
use det_sim.Base.Map.{Map, find, put}
use det_sim.Fd.{has_bit}
use det_sim.Net.State.{
  SockAddr, UdpDatagram, Socket, Host, Network, NetError, Reply, sock_stream, sock_dgram, af_inet,
  sockaddr_size, invalid_socket_error, Copyout, spend, unsupported_flags, explicit_destination,
  source_requested,
}
use det_sim.Net.Connect.{at_host}
use det_sim.Net.Stream.{Received, nothing, do_send, do_recv, send_flags_ok}

abbrev pub max_udp_buffer : ℕ
max_udp_buffer = 3

abbrev pub buffer_at : Host → ℕ → List UdpDatagram
buffer_at h fd = elim (find fd h.udp_recv_buffers) [ none ↦ [] | some q ↦ q ]

-- A full buffer drops the datagram, at a cost; the buffer is made if there is none.
unfoldable pub deliver_udp_datagram : Host → ℕ → ℕ → UdpDatagram → Host × ℕ
deliver_udp_datagram h budget fd dg =
    if leb max_udp_buffer (length (buffer_at h fd))
    then (record h { udp_recv_buffers = put fd (buffer_at h fd) h.udp_recv_buffers }, spend budget)
    else (
      record h { udp_recv_buffers = put fd (buffer_at h fd ++ dg ∷ []) h.udp_recv_buffers },
      budget,
    )

unfoldable pub get_recvfrom_choices : Host → ℕ → ℕ
get_recvfrom_choices h fd = if length (buffer_at h fd) == 0 then 0 else 2

-- The node that owns an address: the running one for two of them, or the first that is configured so.
unfoldable pub owner_of : ℕ → ℕ → List Host → Option ℕ
owner_of ip node [] = none
owner_of ip node (h ∷ hosts) =
    let rest = owner_of ip (node + 1) hosts in
    elim h.address [ none ↦ rest | some a ↦ if ip == a then some node else rest ]

unfoldable pub addr_to_node : Network → ℕ → Option ℕ
addr_to_node n ip = if ip == 0xff000001 || ip == 0 then some n.cursor else owner_of ip 0 n.hosts

abbrev pub receives : SockAddr → Socket → Bool
receives dest s =
    s.type == sock_dgram
    && s.bound
    && s.local_addr.port == dest.port
    && (s.local_addr.ip == 0 || s.local_addr.ip == dest.ip)

unfoldable pub find_receiver : SockAddr → Map Socket → Option ℕ
find_receiver dest [] = none
find_receiver dest ((fd, s) ∷ m) = if receives dest s then some fd else find_receiver dest m

-- The source of a datagram; `none` is EADDRNOTAVAIL.
unfoldable pub source_of : Host → Socket → Option SockAddr
source_of h s =
    let port = if s.bound then s.local_addr.port else 0 in
    if s.local_addr.ip == 0
    then elim h.address [
      | none ↦ none
      | some a ↦ some (record { family = af_inet; ip = a; port = port })
    ]
    else some (record { family = af_inet; ip = s.local_addr.ip; port = port })

unfoldable pub deliver_at : Network → ℕ → ℕ → Host → UdpDatagram → Network
deliver_at n node fd h dg =
    let (g, budget) = deliver_udp_datagram h n.budget fd dg in
    record n { hosts = at_host node (λ x. g) n.hosts; budget = budget }

-- The receiver's host, its socket, and the datagram: a packet that nobody receives is dropped.
unfoldable pub route : Network → Host → Socket → SockAddr → ℕ → List ℕ → Reply Network
route n h s dest node payload = elim (get_elem? n.hosts node) [
  | none ↦ ok (errno enetunreach, n)
  | some r ↦ elim (find_receiver dest r.sockets) [
    | none ↦ ok (ret (length payload), n)
    | some fd ↦ elim (source_of h s) [
      | none ↦ ok (errno eaddrnotavail, n)
      | some from ↦
          ok (
            ret (length payload),
            deliver_at n node fd r (record { content = payload; from = from }),
          )
    ]
  ]
]

abbrev pub send_datagram : Network → Host → Socket → SockAddr → Option (List ℕ) → ℕ → Reply Network
send_datagram n h s dest none node =
    if dest.port == 0 then ok (errno einval, n) else ok (errno efault, n)
send_datagram n h s dest (some payload) node =
    if dest.port == 0 then ok (errno einval, n) else route n h s dest node payload

unfoldable pub send_datagram_to :
    Network → Host → Socket → SockAddr → Option (List ℕ) → Reply Network
send_datagram_to n h s dest payload = elim (addr_to_node n dest.ip) [
  | none ↦ ok (errno enetunreach, n)
  | some node ↦ send_datagram n h s dest payload node
]

-- A destination argument: the length, and what the pointer reads as.
pub record Destination : Type 0 where
  pub addrlen : ℕ
  pub address : Option SockAddr

abbrev pub sendto_address :
    Network → Host → Socket → Option SockAddr → Option (List ℕ) → Reply Network
sendto_address n h s none payload = ok (errno efault, n)
sendto_address n h s (some dest) payload =
    if not (dest.family == af_inet)
    then ok (errno eafnosupport, n)
    else send_datagram_to n h s dest payload

unfoldable pub sendto_dgram :
    Network → Host → Socket → Option Destination → Option (List ℕ) → Reply Network
sendto_dgram n h s none payload =
    if s.connected then send_datagram_to n h s s.peer_addr payload else ok (errno edestaddrreq, n)
sendto_dgram n h s (some d) payload =
    if ltb d.addrlen sockaddr_size
    then ok (errno einval, n)
    else sendto_address n h s d.address payload

abbrev pub sendto_stream :
    Network → Host → ℕ → Option (List ℕ) → ℕ → ℕ → Option Destination → Reply Network
sendto_stream n h fd payload len flags none = do_send n h fd payload len flags
sendto_stream n h fd payload len flags (some d) = throws explicit_destination

unfoldable pub do_sendto :
    Network → Host → ℕ → Option (List ℕ) → ℕ → ℕ → Option Destination → Reply Network
do_sendto n h fd payload len flags dest =
    if not (send_flags_ok flags) then throws unsupported_flags else elim (find fd h.sockets) [
      | none ↦ ok (errno (invalid_socket_error h fd), n)
      | some s ↦
          if s.type == sock_stream
          then sendto_stream n h fd payload len flags dest
          else if not (s.type == sock_dgram)
          then ok (errno eopnotsupp, n)
          else sendto_dgram n h s dest payload
    ]

-- `flags & ~(MSG_DONTWAIT | MSG_PEEK | MSG_TRUNC)` is zero.
abbrev pub recvfrom_flags_ok : ℕ → Bool
recvfrom_flags_ok flags = flags - flags / 64 % 2 * 64 - flags / 2 % 2 * 2 - flags / 32 % 2 * 32 == 0

-- What guest memory does with the source address: the length is read but not bounded here.
unfoldable pub source_error : Option Copyout → Option Errno
source_error none = none
source_error (some c) = elim c.capacity [
  | none ↦ some efault
  | some n ↦
      if not c.address_written
      then some efault
      else if not c.length_written
      then some efault
      else none
]

-- The buffer without the datagram that was taken, which is the first or the second.
abbrev pub take_first : List UdpDatagram → Option (UdpDatagram × List UdpDatagram)
take_first [] = none
take_first (d ∷ q) = some (d, q)

abbrev pub take_choice : ℕ → List UdpDatagram → Option (UdpDatagram × List UdpDatagram)
take_choice zero q = take_first q
take_choice (suc c) [] = none
take_choice (suc c) (d ∷ []) = none
take_choice (suc c) (d ∷ e ∷ q) = some (e, d ∷ q)

abbrev pub choice_cost : ℕ → ℕ → ℕ
choice_cost choice budget = if choice == 1 then spend budget else budget

abbrev pub HostBudget : Type 0
HostBudget = Host × ℕ

unfoldable pub recv_taken :
    HostBudget
    → ℕ
    → ℕ
    → ℕ
    → Bool
    → Option Copyout
    → ℕ
    → UdpDatagram × List UdpDatagram
    → Outcome NetError (Received HostBudget)
recv_taken (h, budget) fd len flags writable source choice (dg, rest) =
    let n = min len (length dg.content) in
    if not writable then nothing (errno efault) (h, budget) else elim (source_error source) [
      | some e ↦ nothing (errno e) (h, budget)
      | none ↦ ok (record {
        result = ret (if has_bit 32 flags then length dg.content else n);
        bytes = take n dg.content;
        state = (
          if has_bit 2 flags
              then h
              else record h { udp_recv_buffers = put fd rest h.udp_recv_buffers },
          choice_cost choice budget,
        );
      })
    ]

unfoldable pub recv_datagram :
    HostBudget → ℕ → ℕ → ℕ → Bool → Option Copyout → ℕ → Outcome NetError (Received HostBudget)
recv_datagram (h, budget) fd len flags writable source choice =
    if length (buffer_at h fd) == 0
    then nothing (errno eagain) (h, budget)
    else if ltb 1 choice
    then nothing (errno eagain) (h, budget)
    else elim (take_choice choice (buffer_at h fd)) [
      | none ↦ nothing (errno eagain) (h, spend budget)
      | some t ↦ recv_taken (h, budget) fd len flags writable source choice t
    ]

abbrev pub with_budget :
    ℕ → Outcome NetError (Received Host) → Outcome NetError (Received HostBudget)
with_budget budget (ok r) =
    ok (record { result = r.result; bytes = r.bytes; state = (r.state, budget) })
with_budget budget (throws e) = throws e

-- On a stream the addresses must be null, which `no_source` says.
unfoldable pub do_recvfrom_with_choice :
    HostBudget
    → ℕ
    → ℕ
    → ℕ
    → Bool
    → Option Copyout
    → Bool
    → ℕ
    → Outcome NetError (Received HostBudget)
do_recvfrom_with_choice (h, budget) fd len flags writable source no_source choice =
    if not (recvfrom_flags_ok flags) then throws unsupported_flags else elim (find fd h.sockets) [
      | none ↦ nothing (errno (invalid_socket_error h fd)) (h, budget)
      | some s ↦
          if s.type == sock_stream
          then (if not no_source
              then throws source_requested
              else with_budget budget (do_recv h fd len flags writable))
          else if not (s.type == sock_dgram)
          then nothing (errno eopnotsupp) (h, budget)
          else recv_datagram (h, budget) fd len flags writable source choice
    ]
