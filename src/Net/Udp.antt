-- ===== src/Net/Udp.antt =====
-- The datagram buffers, src/subsys/net/sockstate.cpp.
use det_sim.Base.{
  ℕ, zero, suc, ◌≤◌, ◌≡◌, sym, subst, inl, inr, Bool, true, ◌&&◌, not, Option, some, List, [], ◌∷◌,
  ◌++◌, arith, leb, ◌==◌, if◌then◌else◌, length, length-append, take, Option-cases, ok, ret,
}
use det_sim.Base.Map.{find-put}
use det_sim.Net.State.{UdpDatagram, Host, Copyout}
use det_sim.Net.Stream.{Received}
use det_sim.Net.Datagram.{
  deliver_udp_datagram, buffer_at, max_udp_buffer, recv_datagram, recv_taken, take_choice,
  HostBudget,
}

-- No buffer is over the limit.
abbrev pub IsBounded : Host → Type 0
IsBounded h = (fd : ℕ) → length (buffer_at h fd) ≤ max_udp_buffer

-- A delivery keeps every buffer within the limit. It appends the datagram to the buffer of the
-- descriptor, or leaves a full one as it is, and it leaves the other buffers.
pub deliver_udp_datagram-IsBounded :
    (h : Host) (budget fd j : ℕ) (d : UdpDatagram)
    → IsBounded h
    → let g = (deliver_udp_datagram h budget fd d).0 in
      let full = length (buffer_at h fd) == max_udp_buffer in
      IsBounded g
      × (buffer_at g j ≡ (if fd == j && not full then buffer_at h fd ++ d ∷ [] else buffer_at h j))
unfolding deliver_udp_datagram
deliver_udp_datagram-IsBounded h budget fd j d b = (
  λ i. bounded i,
  ground (
    arith,
    find-put fd j (buffer_at h fd) h.udp_recv_buffers,
    find-put fd j (buffer_at h fd ++ d ∷ []) h.udp_recv_buffers,
    b fd,
  ),
)
  where
    bounded : (i : ℕ) → length (buffer_at (deliver_udp_datagram h budget fd d).0 i) ≤ max_udp_buffer
    bounded i = ground (
      arith,
      length-append (buffer_at h fd) (d ∷ []),
      find-put fd i (buffer_at h fd) h.udp_recv_buffers,
      find-put fd i (buffer_at h fd ++ d ∷ []) h.udp_recv_buffers,
      b i,
      b fd,
    )

-- `q` with the element at index `n` taken out is `rest`.
pub data TakenAt : ℕ → UdpDatagram → List UdpDatagram → List UdpDatagram → Type 0 where
  here : {d : UdpDatagram} {q : List UdpDatagram} → TakenAt zero d (d ∷ q) q
  there :
      {n : ℕ} {d e : UdpDatagram} {q rest : List UdpDatagram}
      → TakenAt n d q rest
      → TakenAt (suc n) d (e ∷ q) (e ∷ rest)

take_choice-TakenAt :
    (choice : ℕ) (q : List UdpDatagram) (d : UdpDatagram) (rest : List UdpDatagram)
    → leb choice 1 ≡ true
    → take_choice choice q ≡ some (d, rest)
    → TakenAt choice d q rest
take_choice-TakenAt zero (d ∷ q) e rest l k = ground (arith, TakenAt.here {d = d} {q = q})
take_choice-TakenAt (suc zero) (d ∷ e ∷ q) f rest l k =
    ground (arith, TakenAt.there {e = d} (TakenAt.here {d = e} {q = q}))
take_choice-TakenAt zero [] d rest l e = ground arith
take_choice-TakenAt (suc zero) [] d rest l e = ground arith
take_choice-TakenAt (suc zero) (x ∷ []) d rest l e = ground arith
take_choice-TakenAt (suc (suc n)) q d rest l e = ground arith

-- A receive of a datagram without flags that succeeds takes the datagram at the index of its choice,
-- leaves the others in order, and gives a prefix of its bytes, no more than it asks for.
pub recv_datagram-TakenAt :
    (h : Host) (budget fd len choice : ℕ) (writable : Bool) (source : Option Copyout)
    (r : Received HostBudget) (n : ℕ)
    → recv_datagram (h, budget) fd len 0 writable source choice ≡ ok r
    → r.result ≡ ret n
    → (d : UdpDatagram) × TakenAt choice d (buffer_at h fd) (buffer_at r.state.0 fd)
      × (r.bytes ≡ take n d.content)
      × (n ≤ len)
unfolding recv_datagram recv_taken
recv_datagram-TakenAt h budget fd len choice writable source r n e k =
    elim (Option-cases (take_choice choice (buffer_at h fd))) [
      | inl o ↦ absurd (ground arith)
      | inr ((d, rest), o) ↦ (
        d,
        subst (TakenAt choice d (buffer_at h fd))
            (sym (ground (arith, find-put fd fd rest h.udp_recv_buffers)))
            (take_choice-TakenAt choice (buffer_at h fd) d rest (ground arith) o),
        ground arith,
        ground arith,
      )
    ]
