-- ===== src/Net/Stream.antt =====
-- TCP data: do_send, do_send_buffer and do_recv. Bytes are numbers.
use det_sim.Base.{
  ℕ, ◌-◌, ◌*◌, ◌/◌, ◌%◌, Bool, true, false, ◌&&◌, not, Option, none, some, List, [], ◌∷◌, ◌++◌, ltb,
  ◌==◌, if◌then◌else◌, length, take, drop, Outcome, ok, throws, SysResult, ret, errno, enotconn,
  efault, econnreset, eagain, min,
}
use det_sim.Base.Map.{Map, find, modify, contains}
use det_sim.Fd.{has_bit}
use det_sim.Net.State.{
  Socket, TcpConnection, Host, Network, NetError, Reply, invalid_socket_error, effective_ip,
  endpoint_key, unsupported_flags, no_validated_socket,
}

-- `flags & ~(MSG_DONTWAIT | MSG_NOSIGNAL)` is zero.
abbrev pub send_flags_ok : ℕ → Bool
send_flags_ok flags = flags - flags / 64 % 2 * 64 - flags / 16384 % 2 * 16384 == 0

-- `flags & ~(MSG_DONTWAIT | MSG_PEEK)` is zero.
abbrev pub recv_flags_ok : ℕ → Bool
recv_flags_ok flags = flags - flags / 64 % 2 * 64 - flags / 2 % 2 * 2 == 0

-- The other end of the connection, as an established socket.
abbrev pub is_peer : Host → Socket → Socket → Bool
is_peer h s r =
    r.connected
    && effective_ip h r.local_addr.ip == s.peer_addr.ip
    && r.local_addr.port == s.peer_addr.port
    && r.peer_addr.ip == s.local_addr.ip
    && r.peer_addr.port == s.local_addr.port

unfoldable pub find_peer : Host → Socket → Map Socket → Option ℕ
find_peer h s [] = none
find_peer h s ((fd, r) ∷ m) =
    if is_peer h s r && contains fd h.tcp_connections then some fd else find_peer h s m

-- The connection, as one that a listener has not accepted yet.
abbrev pub goes_to : Socket → Option TcpConnection → Bool
goes_to s none = false
goes_to s (some c) = c.peer_addr.ip == s.peer_addr.ip && c.peer_addr.port == s.peer_addr.port

unfoldable pub find_pending : Socket → ℕ → Map Socket → Option ℕ
find_pending s key [] = none
find_pending s key ((fd, l) ∷ m) =
    if l.listening && goes_to s (find key l.established_connections)
    then some fd
    else find_pending s key m

abbrev pub is_empty : List ℕ → Bool
is_empty [] = true
is_empty (b ∷ bs) = false

-- `if (!data.empty()) recv_buffer.push_back(data);`
abbrev pub push_chunk : List ℕ → TcpConnection → TcpConnection
push_chunk chunk c =
    if is_empty chunk then c else record c { recv_buffer = c.recv_buffer ++ chunk ∷ [] }

abbrev pub push_established : ℕ → (TcpConnection → TcpConnection) → Socket → Socket
push_established key g s = record s {
  established_connections = modify key g s.established_connections;
}

-- The host after the payload reached it, if it did.
unfoldable pub deliver_to : Socket → List ℕ → Host → Option Host
deliver_to s chunk h = elim (find_peer h s h.sockets) [
  | some fd ↦ some (record h { tcp_connections = modify fd (push_chunk chunk) h.tcp_connections })
  | none ↦
      let key = endpoint_key s.local_addr.ip s.local_addr.port in
      elim (find_pending s key h.sockets) [
        | some fd ↦
            some
              (record h { sockets = modify fd (push_established key (push_chunk chunk)) h.sockets })
        | none ↦ none
      ]
]

-- The first host that takes it.
unfoldable pub deliver : Socket → List ℕ → List Host → Option (List Host)
deliver s chunk [] = none
deliver s chunk (h ∷ hosts) =
    let rest = deliver s chunk hosts in
    elim (deliver_to s chunk h) [
      | some g ↦ some (g ∷ hosts)
      | none ↦ elim rest [ none ↦ none | some gs ↦ some (h ∷ gs) ]
    ]

unfoldable pub do_send_buffer : Network → Host → ℕ → List ℕ → Reply Network
do_send_buffer n h fd chunk = elim (find fd h.sockets) [
  | none ↦ throws no_validated_socket
  | some s ↦ elim (deliver s chunk n.hosts) [
    | none ↦ ok (errno econnreset, n)
    | some hosts ↦ ok (ret (length chunk), record n { hosts = hosts })
  ]
]

-- `payload` is what the guest's buffer of `len` bytes reads as.
abbrev pub send_payload : Network → Host → ℕ → Option (List ℕ) → Reply Network
send_payload n h fd none = ok (errno efault, n)
send_payload n h fd (some bytes) = do_send_buffer n h fd bytes

unfoldable pub do_send : Network → Host → ℕ → Option (List ℕ) → ℕ → ℕ → Reply Network
do_send n h fd payload len flags =
    if not (send_flags_ok flags) then throws unsupported_flags else elim (find fd h.sockets) [
      | none ↦ ok (errno (invalid_socket_error h fd), n)
      | some s ↦
          if not s.connected
          then ok (errno enotconn, n)
          else if len == 0
          then ok (ret 0, n)
          else send_payload n h fd payload
    ]

-- What a receive gives the guest.
pub record Received (S : Type 0) : Type 0 where
  pub result : SysResult
  pub bytes : List ℕ
  pub state : S

abbrev pub nothing : {S : Type 0} → SysResult → S → Outcome NetError (Received S)
nothing r s = ok (record { result = r; bytes = []; state = s })

-- The buffer after `n` bytes of its first chunk were read.
abbrev pub consume : ℕ → List ℕ → List (List ℕ) → List (List ℕ)
consume n chunk chunks = if ltb n (length chunk) then drop n chunk ∷ chunks else chunks

abbrev pub with_buffer : List (List ℕ) → TcpConnection → TcpConnection
with_buffer b c = record c { recv_buffer = b }

unfoldable pub recv_chunk :
    Host → ℕ → ℕ → ℕ → Bool → List (List ℕ) → Outcome NetError (Received Host)
recv_chunk h fd len flags writable [] = nothing (errno eagain) h
recv_chunk h fd len flags writable (chunk ∷ chunks) =
    let n = min len (length chunk) in
    if is_empty chunk
    then nothing (ret 0) h
    else if not writable
    then nothing (errno efault) h
    else ok (record {
      result = ret n;
      bytes = take n chunk;
      state = if has_bit 2 flags then h else record h {
        tcp_connections = modify fd (with_buffer (consume n chunk chunks)) h.tcp_connections;
      };
    })

unfoldable pub recv_connection :
    Host → ℕ → ℕ → ℕ → Bool → Option TcpConnection → Outcome NetError (Received Host)
recv_connection h fd len flags writable none = nothing (errno econnreset) h
recv_connection h fd len flags writable (some c) =
    if len == 0 then nothing (ret 0) h else recv_chunk h fd len flags writable c.recv_buffer

-- `writable` says whether the write into guest memory succeeds.
unfoldable pub do_recv : Host → ℕ → ℕ → ℕ → Bool → Outcome NetError (Received Host)
do_recv h fd len flags writable =
    if not (recv_flags_ok flags) then throws unsupported_flags else elim (find fd h.sockets) [
      | none ↦ nothing (errno (invalid_socket_error h fd)) h
      | some s ↦
          if not s.connected
          then nothing (errno enotconn) h
          else recv_connection h fd len flags writable (find fd h.tcp_connections)
    ]
