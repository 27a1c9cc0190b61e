-- ===== src/Net/Closing.antt =====
-- What do_close leaves behind, src/subsys/net/sockstate.cpp.
use det_sim.Base.{
  ℕ, zero, suc, ◌≡◌, refl, sym, ap, ◌∙◌, subst, inl, inr, ◌&&◌, none, some, List, [], ◌∷◌, map,
  arith, Option-cases, Bool-cases, ret, get_elem?, ◌==◌,
}
use det_sim.Base.Map.{Map, find, find-erase}
use det_sim.Fd.{release_fd}
use det_sim.Net.State.{Socket, Host, Network, EpollInstance, sock_stream, effective_ip}
use det_sim.Net.Connect.{at_host}
use det_sim.Net.Close.{
  do_close, remove_socket, forget_fd, forget_watches, notify_peer, end_host, end_established,
}

get_elem?-at_host :
    (i : ℕ) (f : Host → Host) (hosts : List Host) (g : Host)
    → get_elem? (at_host i f hosts) i ≡ some g
    → (k : Host) × (get_elem? hosts i ≡ some k) × (g ≡ f k)
unfolding at_host
get_elem?-at_host zero f [] g e = absurd (ground arith)
get_elem?-at_host zero f (k ∷ hosts) g e = (k, refl, ground arith)
get_elem?-at_host (suc i) f [] g e = absurd (ground arith)
get_elem?-at_host (suc i) f (k ∷ hosts) g e = get_elem?-at_host i f hosts g e

end_host-epoll_instances :
    (s : Socket) (ip : ℕ) (h : Host) → (end_host s ip h).epoll_instances ≡ h.epoll_instances
unfolding end_established
end_host-epoll_instances s ip h = ground arith

find-forget_watches :
    (fd k : ℕ) (m : Map EpollInstance) (e : EpollInstance)
    → find k (forget_watches fd m) ≡ some e
    → find fd e.watched_fds ≡ none
unfolding find forget_watches
find-forget_watches fd k [] e h = absurd (ground arith)
find-forget_watches fd k ((j, i) ∷ m) e h =
    ground (arith, find-forget_watches fd k m e, find-erase fd fd i.watched_fds)

find_forgotten :
    (fd k : ℕ) (m : Map EpollInstance) → find k m ≡ none → find k (forget_watches fd m) ≡ none
unfolding find forget_watches
find_forgotten fd k [] h = refl
find_forgotten fd k ((j, i) ∷ m) h = ground (arith, find_forgotten fd k m)

-- The other ends hear of the close in their sockets and connections.
notified :
    (s : Socket) (ip i : ℕ) (hosts : List Host) (h k : Host)
    → get_elem? hosts i ≡ some h
    → get_elem? (map (end_host s ip) hosts) i ≡ some k
    → k.epoll_instances ≡ h.epoll_instances
notified s ip i [] h k e f = absurd (ground arith)
notified s ip zero (x ∷ hosts) h k e f =
    let same_h : x ≡ h = ground arith in
    let same_k : end_host s ip x ≡ k = ground arith in
    sym (ap (λ (y : Host). y.epoll_instances) same_k)
    ∙ (end_host-epoll_instances s ip x ∙ ap (λ (y : Host). y.epoll_instances) same_h)
notified s ip (suc i) (x ∷ hosts) h k e f = notified s ip i hosts h k e f

notify_peer-epoll_instances :
    (o : Host) (s : Socket) (i : ℕ) (hosts : List Host) (h k : Host)
    → get_elem? hosts i ≡ some h
    → get_elem? (notify_peer o s hosts) i ≡ some k
    → k.epoll_instances ≡ h.epoll_instances
unfolding notify_peer
notify_peer-epoll_instances o s i hosts h k e f =
    elim (Bool-cases (s.connected && s.type == sock_stream)) [
      | inl c ↦ notified s (effective_ip o s.local_addr.ip) i hosts h k e (rw c at f)
      | inr c ↦ let same : h ≡ k = ground arith in ap (λ (y : Host). y.epoll_instances) (sym same)
    ]

-- No table of the host holds the descriptor.
pub record IsForgotten (h : Host) (fd : ℕ) : Type 0 where
  pub no_entry : find fd h.fds.entries ≡ none
  pub no_socket : find fd h.sockets ≡ none
  pub no_connection : find fd h.tcp_connections ≡ none
  pub no_datagrams : find fd h.udp_recv_buffers ≡ none
  pub no_instance : find fd h.epoll_instances ≡ none
  pub no_watch :
      (k : ℕ) (e : EpollInstance) → find k h.epoll_instances ≡ some e → find fd e.watched_fds ≡ none

remove_socket-IsForgotten :
    (h : Host) (fd : ℕ) → find fd h.epoll_instances ≡ none → IsForgotten (remove_socket fd h) fd
unfolding remove_socket forget_fd release_fd
remove_socket-IsForgotten h fd n = record {
  no_entry = ground (arith, find-erase fd fd h.fds.entries);
  no_socket = ground (arith, find-erase fd fd h.sockets);
  no_connection = ground (arith, find-erase fd fd h.tcp_connections);
  no_datagrams = ground (arith, find-erase fd fd h.udp_recv_buffers);
  no_instance = find_forgotten fd fd h.epoll_instances n;
  no_watch = λ k e f. find-forget_watches fd k h.epoll_instances e f;
}

-- After a close that succeeds, of a descriptor of the running node that is no epoll instance, no table
-- of this node holds the descriptor: not the descriptor table, the sockets, the connections, the
-- datagrams, the epoll instances or their watches.
pub do_close-IsForgotten :
    (n m : Network) (h g : Host) (fd : ℕ)
    → get_elem? n.hosts n.cursor ≡ some h
    → find fd h.epoll_instances ≡ none
    → do_close n h fd ≡ (ret 0, m)
    → get_elem? m.hosts n.cursor ≡ some g
    → IsForgotten g fd
unfolding do_close
do_close-IsForgotten n m h g fd here free e k = elim (Option-cases (find fd h.sockets)) [
  | inl o ↦ absurd (ground arith)
  | inr (s, o) ↦
      let (old, there, same) =
        get_elem?-at_host n.cursor (remove_socket fd) (notify_peer h s n.hosts) g (ground arith) in
      let kept = notify_peer-epoll_instances h s n.cursor n.hosts h old here there in
      subst (λ x. IsForgotten x fd) (sym same) (remove_socket-IsForgotten old fd (rw kept free))
]
