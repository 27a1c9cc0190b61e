-- ===== src/Net/Readiness.antt =====
-- What wakes an epoll wait, src/subsys/net/sockstate.cpp: epoll_ready and do_epoll_wait.
use det_sim.Base.{
  ℕ, zero, suc, ◌/◌, ◌≤◌, ◌≡◌, refl, true, Bool-cases, inl, inr, some, List, [], ◌∷◌, arith, ◌==◌,
  not, length, pos, ret,
}
use det_sim.Base.Map.{Map, find}
use det_sim.Fd.{int_max}
use det_sim.Net.State.{EpollWatch, EpollInstance, Host}
use det_sim.Net.Epoll.{
  Pipes, Event, any_ready, epoll_ready, collect, do_epoll_wait, ready_events, masked, word,
}

collect-bound :
    (h : Host) (ps : Pipes) (room : ℕ) (m : Map EpollWatch) → length (collect h ps room m) ≤ room
unfolding collect
collect-bound h ps zero m = omega arith
collect-bound h ps (suc room) [] = omega arith
collect-bound h ps (suc room) ((fd, w) ∷ m) =
    elim (Bool-cases (word (masked w.events (ready_events h ps fd)) == 0)) [
      | inl e ↦ rw e (collect-bound h ps (suc room) m)
      | inr e ↦ rw e (omega (arith, collect-bound h ps room m))
    ]

collect-any_ready :
    (h : Host) (ps : Pipes) (room : ℕ) (m : Map EpollWatch)
    → any_ready h ps m ≡ not (length (collect h ps (suc room) m) == 0)
unfolding collect any_ready
collect-any_ready h ps room [] = refl
collect-any_ready h ps room ((fd, w) ∷ m) =
    elim (Bool-cases (word (masked w.events (ready_events h ps fd)) == 0)) [
      | inl e ↦ rw e (collect-any_ready h ps room m)
      | inr e ↦ rw e (ground arith)
    ]

-- A wait on an instance, with room for at least one event and at most INT_MAX / 12 and with events that
-- can be written, gives at most as many events as there is room for, and it gives one exactly when
-- epoll_ready holds of the instance.
pub epoll_ready-do_epoll_wait :
    (h : Host) (ps : Pipes) (epfd room : ℕ) (e : EpollInstance)
    → find epfd h.epoll_instances ≡ some e
    → suc room ≤ int_max / 12
    → (es : List Event) × (do_epoll_wait h ps epfd true (pos (suc room)) ≡ (ret (length es), es))
      × (length es ≤ suc room)
      × (epoll_ready h ps epfd ≡ not (length es == 0))
unfolding do_epoll_wait epoll_ready
epoll_ready-do_epoll_wait h ps epfd room e f l = (
  collect h ps (suc room) e.watched_fds,
  ground arith,
  collect-bound h ps (suc room) e.watched_fds,
  ground (arith, collect-any_ready h ps room e.watched_fds),
)
