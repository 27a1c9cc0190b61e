-- ===== src/Futex/Tests.antt =====
-- A wake-up of three waiters.
use det_sim.Base.{ℕ, ◌≡◌, ◌≤◌, ◌⊎◌, true, false, some, arith, List, [], ◌∷◌, length}
use det_sim.Futex.Queues.{FutexWaiter, clear, wake_queue}
use det_sim.Futex.Handle.{Args, handle_futex}
use det_sim.Futex.Consistent.{IsConsistent, clear-IsConsistent}
use det_sim.Futex.Agreement.{left_by, handle_futex-IsConsistent}
use det_sim.Futex.Wake.{Interleaves, AllMatch, wake_queue-Wakes}

abbrev waiter : ℕ → ℕ → FutexWaiter
waiter tid bitset = record { tid = tid; uaddr = 64; val = 0; bitset = bitset; private_wait = true }

abbrev waiting : List FutexWaiter
waiting = waiter 1 1 ∷ waiter 2 2 ∷ waiter 3 3 ∷ []

wake_queue-Wakes_example :
    Interleaves waiting (wake_queue 2 1 true waiting).woken (wake_queue 2 1 true waiting).remaining
    × (length (wake_queue 2 1 true waiting).woken ≤ 2)
    × AllMatch 1 true true (wake_queue 2 1 true waiting).woken
    × ((length (wake_queue 2 1 true waiting).woken ≡ 2)
        ⊎ AllMatch 1 true false (wake_queue 2 1 true waiting).remaining)
wake_queue-Wakes_example = wake_queue-Wakes 2 1 true waiting

-- FUTEX_WAIT at 64, where the word is 3 as expected.
abbrev a_wait : Args
a_wait = record {
  tid = 1;
  uaddr = 64;
  futex_op = 0;
  val = 3;
  timeout_addr = 0;
  uaddr2 = 4;
  val3 = 0;
  stackval = some 3;
}

handle_futex-IsConsistent_example : IsConsistent (left_by clear (handle_futex clear a_wait))
handle_futex-IsConsistent_example =
    handle_futex-IsConsistent clear a_wait clear-IsConsistent (omega arith) (omega arith)
