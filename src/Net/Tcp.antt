-- ===== src/Net/Tcp.antt =====
-- The byte streams of do_send and do_recv, src/subsys/net/sockstate.cpp.
use det_sim.Base.{
  ℕ, zero, suc, ◌≤◌, ◌≡◌, refl, sym, inl, inr, Bool, false, Option, none, some, min, List, [], ◌∷◌,
  ◌++◌, arith, ltb, ◌==◌, if◌then◌else◌, length, take, drop, take-append-drop, Bool-cases, ok,
}
use det_sim.Base.Map.{find, find-modify}
use det_sim.Fd.{has_bit}
use det_sim.Net.State.{Socket, TcpConnection, Host}
use det_sim.Net.Stream.{
  Received, do_recv, recv_connection, recv_chunk, consume, with_buffer, deliver_to, find_peer,
  push_chunk,
}

-- The bytes of the chunks, in order.
abbrev pub concat : List (List ℕ) → List ℕ
concat [] = []
concat (c ∷ cs) = c ++ concat cs

abbrev pub bytes_of : Option TcpConnection → List ℕ
bytes_of none = []
bytes_of (some c) = concat c.recv_buffer

-- What a descriptor has received and not yet read.
abbrev pub unread : Host → ℕ → List ℕ
unread h fd = bytes_of (find fd h.tcp_connections)

append_assoc : (a b c : List ℕ) → (a ++ b) ++ c ≡ a ++ (b ++ c)
append_assoc [] b c = refl
append_assoc (x ∷ a) b c = rw (append_assoc a b c)

append_nil : (a : List ℕ) → a ++ [] ≡ a
append_nil [] = refl
append_nil (x ∷ a) = rw (append_nil a)

take_all : (n : ℕ) (c : List ℕ) → length c ≤ n → take n c ≡ c
take_all zero [] h = refl
take_all (suc n) [] h = refl
take_all zero (x ∷ c) h = absurd (omega arith)
take_all (suc n) (x ∷ c) h = rw (take_all n c (omega arith))

consume-concat :
    (n : ℕ) (c : List ℕ) (cs : List (List ℕ)) → take n c ++ concat (consume n c cs) ≡ c ++ concat cs
consume-concat n c cs = elim (Bool-cases (ltb n (length c))) [
  | inl h ↦ rw (h, sym (append_assoc (take n c) (drop n c) (concat cs)), take-append-drop n c)
  | inr h ↦ rw (h, take_all n c (ground arith))
]

concat-push : (cs : List (List ℕ)) (c : List ℕ) → concat (cs ++ c ∷ []) ≡ concat cs ++ c
concat-push [] c = append_nil c
concat-push (d ∷ cs) c = rw (concat-push cs c, append_assoc d (concat cs) c)

recv_chunk-unread :
    (h : Host) (fd len flags : ℕ) (writable : Bool) (c : TcpConnection) (b : List (List ℕ))
    (r : Received Host)
    → find fd h.tcp_connections ≡ some c
    → c.recv_buffer ≡ b
    → has_bit 2 flags ≡ false
    → recv_chunk h fd len flags writable b ≡ ok r
    → r.bytes ++ unread r.state fd ≡ concat b
unfolding recv_chunk
recv_chunk-unread h fd len flags writable c [] r f k p e = ground arith
recv_chunk-unread h fd len flags writable c (x ∷ b) r f k p e =
    let n = min len (length x) in
    ground (
      arith,
      consume-concat n x b,
      find-modify fd fd (with_buffer (consume n x b)) h.tcp_connections,
    )

recv_connection-unread :
    (h : Host) (fd len flags : ℕ) (writable : Bool) (o : Option TcpConnection) (r : Received Host)
    → find fd h.tcp_connections ≡ o
    → has_bit 2 flags ≡ false
    → recv_connection h fd len flags writable o ≡ ok r
    → r.bytes ++ unread r.state fd ≡ bytes_of o
unfolding recv_connection
recv_connection-unread h fd len flags writable none r f p e = ground arith
recv_connection-unread h fd len flags writable (some c) r f p e =
    ground (arith, recv_chunk-unread h fd len flags writable c c.recv_buffer r f refl p)

-- A read without MSG_PEEK takes bytes off the front: what it gives, followed by what is then unread,
-- is what was unread, for every length and state of the socket and every error that is returned.
pub do_recv-unread :
    (h : Host) (fd len flags : ℕ) (writable : Bool) (r : Received Host)
    → has_bit 2 flags ≡ false
    → do_recv h fd len flags writable ≡ ok r
    → r.bytes ++ unread r.state fd ≡ unread h fd
unfolding do_recv
do_recv-unread h fd len flags writable r p e =
    ground
      (arith, recv_connection-unread h fd len flags writable (find fd h.tcp_connections) r refl p)

-- A payload for an established peer of the host is appended to what that peer has not read, and
-- nothing else that is unread at the host changes.
pub deliver_to-unread :
    (s : Socket) (chunk : List ℕ) (h g : Host) (fd j : ℕ) (c : TcpConnection)
    → find_peer h s h.sockets ≡ some fd
    → find fd h.tcp_connections ≡ some c
    → deliver_to s chunk h ≡ some g
    → unread g j ≡ (if fd == j then unread h j ++ chunk else unread h j)
unfolding deliver_to
deliver_to-unread s chunk h g fd j c p f e = ground (
  arith,
  find-modify fd j (push_chunk chunk) h.tcp_connections,
  concat-push c.recv_buffer chunk,
  append_nil (concat c.recv_buffer),
)
