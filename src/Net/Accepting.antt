-- ===== src/Net/Accepting.antt =====
-- What an accepted connection becomes, src/subsys/net/sockstate.cpp.
use det_sim.Base.{
  ℕ, ◌≡◌, ◌≢◌, refl, sym, ap, ◌∙◌, subst, inl, inr, true, false, Option, none, some, List, [], ◌∷◌,
  arith, Option-cases, Outcome, ok, throws, SysResult, ret, errno,
}
use det_sim.Base.Map.{Ordered, find, put, modify, find-put, find-modify, find-erase}
use det_sim.Fd.{FdManager, FdError, FdType, Entry, allocate_fd}
use det_sim.Fd.Lowest.{allocate_fd-ret}
use det_sim.Net.State.{Socket, TcpConnection, Host, Copyout, allocate, allocated}
use det_sim.Net.Accept.{
  do_accept, accept_front, accept_pending, accept_with, commit_accept, accepted, adopted, forgot,
  popped,
}

-- The socket of an accepted connection `c`: connected, with the two addresses seen from the other side.
pub record IsAccepted (l : Socket) (c : TcpConnection) (j : ℕ) (t : Socket) : Type 0 where
  pub own_fd : t.fd ≡ j
  pub stream : t.type ≡ 1
  pub bound : t.bound ≡ true
  pub connected : t.connected ≡ true
  pub listening : t.listening ≡ false
  pub local_addr : t.local_addr ≡ c.peer_addr
  pub peer_addr : t.peer_addr ≡ c.local_addr
  pub nothing_pending : t.pending_connections ≡ []
  pub nothing_established : t.established_connections ≡ []
  pub reuse_address : t.reuse_address ≡ l.reuse_address
  pub no_delay : t.no_delay ≡ l.no_delay
  pub keep_alive : t.keep_alive ≡ l.keep_alive
  pub domain : t.domain ≡ l.domain
  pub protocol : t.protocol ≡ l.protocol
  pub keep_idle : t.keep_idle ≡ l.keep_idle
  pub keep_interval : t.keep_interval ≡ l.keep_interval
  pub keep_count : t.keep_count ≡ l.keep_count
  pub backlog : t.backlog ≡ 0

-- The host `g` after the listener `l` of the host `h`, with `keys` left in its queue, gave the
-- connection `c` to `j`, which was free.
pub record Moved (h g : Host) (fd key j : ℕ) (l : Socket) (c : TcpConnection) (keys : List ℕ)
    : Type 0 where
  pub free : find j h.fds.entries ≡ none
  pub listener : Socket
  pub listener_there : find fd g.sockets ≡ some listener
  pub still_listening : listener.listening ≡ l.listening
  pub left : listener.pending_connections ≡ keys
  pub forgotten : find key listener.established_connections ≡ none
  pub kept :
      (k : ℕ) → k ≢ key → find k listener.established_connections ≡ find k l.established_connections
  pub socket : Socket
  pub socket_there : find j g.sockets ≡ some socket
  pub accepted : IsAccepted l c j socket
  pub connection :
      find j g.tcp_connections
      ≡ some (record {
        local_fd = j;
        local_addr = c.peer_addr;
        peer_addr = c.local_addr;
        recv_buffer = c.recv_buffer;
      })
  pub others : (i : ℕ) → i ≢ j → i ≢ fd → find i g.sockets ≡ find i h.sockets
  pub other_connections : (i : ℕ) → i ≢ j → find i g.tcp_connections ≡ find i h.tcp_connections

commit_accept-Moved :
    (h : Host) (d : FdManager) (fd key j : ℕ) (l : Socket) (c : TcpConnection) (keys : List ℕ)
    → find fd h.sockets ≡ some l
    → find j h.fds.entries ≡ none
    → j ≢ fd
    → l.pending_connections ≡ key ∷ keys
    → Moved h (commit_accept (record h { fds = d }) fd l key c j) fd key j l c keys
unfolding commit_accept
commit_accept-Moved h d fd key j l c keys f new ne p =
    let entered = put j (accepted l c j) (modify fd popped h.sockets) in
    let at_modify = λ (i : ℕ). find-modify fd i (forgot key) entered in
    let at_put = λ (i : ℕ). find-put j i (accepted l c j) (modify fd popped h.sockets) in
    let at_pop = λ (i : ℕ). find-modify fd i popped h.sockets in
    record {
      free = new;
      listener = forgot key (popped l);
      listener_there = ground (arith, at_modify fd, at_put fd, at_pop fd);
      still_listening = refl;
      left = ground arith;
      forgotten = ground (arith, find-erase key key l.established_connections);
      kept = λ k n. ground (arith, find-erase key k l.established_connections);
      socket = accepted l c j;
      socket_there = ground (arith, at_modify j, at_put j);
      accepted = record {
        own_fd = refl;
        stream = refl;
        bound = refl;
        connected = refl;
        listening = refl;
        local_addr = refl;
        peer_addr = refl;
        nothing_pending = refl;
        nothing_established = refl;
        reuse_address = refl;
        no_delay = refl;
        keep_alive = refl;
        domain = refl;
        protocol = refl;
        keep_idle = refl;
        keep_interval = refl;
        keep_count = refl;
        backlog = refl;
      };
      connection = ground (arith, find-put j j (adopted c j) h.tcp_connections);
      others = λ i n m. ground (arith, at_modify i, at_put i, at_pop i);
      other_connections = λ i n. ground (arith, find-put j i (adopted c j) h.tcp_connections);
    }

accept_with-Moved :
    (h g : Host) (fd j key : ℕ) (l : Socket) (c : TcpConnection) (keys : List ℕ) (entry : Entry)
    (o : Outcome FdError (SysResult × FdManager))
    → Ordered h.fds.entries
    → find fd h.fds.entries ≡ some entry
    → find fd h.sockets ≡ some l
    → l.pending_connections ≡ key ∷ keys
    → allocate_fd h.fds FdType.socket 2 0 ≡ o
    → accept_with fd l key c (allocated h o) ≡ ok (ret j, g)
    → Moved h g fd key j l c keys
accept_with-Moved h g fd j key l c keys entry (throws x) s a f p o e = absurd (ground arith)
accept_with-Moved h g fd j key l c keys entry (ok (errno x, d)) s a f p o e = absurd (ground arith)
accept_with-Moved h g fd j key l c keys entry (ok (ret i, d)) s a f p o e =
    let same_fd : i ≡ j = ground arith in
    let same_host : commit_accept (record h { fds = d }) fd l key c i ≡ g = ground arith in
    let (new, entered) = allocate_fd-ret h.fds FdType.socket 2 0 i d s o in
    let new_j : find j h.fds.entries ≡ none =
      subst (λ x. find x h.fds.entries ≡ none) same_fd new in
    let apart : j ≢ fd =
      λ same. ground (arith, subst (λ x. find x h.fds.entries ≡ none) same new_j, a) in
    subst (λ x. Moved h x fd key j l c keys)
      (sym (ap (commit_accept (record h { fds = d }) fd l key c) same_fd) ∙ same_host)
      (commit_accept-Moved h d fd key j l c keys f new_j apart p)

-- An accept that succeeds, on a table in order that holds the listener's descriptor, takes the
-- connection that has waited longest off the listener's queue, and gives it a descriptor that was free:
-- a connected socket that sees the two addresses from the other side, with the bytes that have come
-- in by then. The listener forgets this connection alone, and every other socket and connection of the
-- host is as it was.
pub do_accept-Moved :
    (h g : Host) (fd j key : ℕ) (addr : Option Copyout) (l : Socket) (keys : List ℕ) (entry : Entry)
    → Ordered h.fds.entries
    → find fd h.fds.entries ≡ some entry
    → find fd h.sockets ≡ some l
    → l.pending_connections ≡ key ∷ keys
    → do_accept h fd addr ≡ ok (ret j, g)
    → (c : TcpConnection) × (find key l.established_connections ≡ some c)
      × Moved h g fd key j l c keys
unfolding do_accept accept_front accept_pending allocate
do_accept-Moved h g fd j key addr l keys entry s a f p e =
    elim (Option-cases (find key l.established_connections)) [
      | inl n ↦ absurd (ground arith)
      | inr (c, k) ↦ (
        c,
        k,
        accept_with-Moved h g fd j key l c keys entry (allocate_fd h.fds FdType.socket 2 0) s a f p
            refl (ground arith),
      )
    ]
