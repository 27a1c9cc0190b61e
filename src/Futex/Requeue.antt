-- ===== src/Futex/Requeue.antt =====
-- FutexState::futex_requeue and FutexState::wake_waiters_in_range.
use det_sim.Base.{
  ℕ, ◌+◌, ◌-◌, ◌%◌, Bool, ◌&&◌, ◌||◌, not, none, some, List, [], ◌∷◌, ◌++◌, map, leb, ltb, ◌==◌,
  if◌then◌else◌, length, min, ℤ, pos, negsuc, is_neg, SysResult, ret, errno, einval,
}
use det_sim.Base.Map.{Map, find, put}
use det_sim.Futex.Queues.{
  FutexWaiter, FutexState, Woken, all_bits, queue_at, put_queue, same, erase_tids, futex_wake,
}

unfoldable pub count_private : Bool → List FutexWaiter → ℕ
count_private private_wait [] = 0
count_private private_wait (w ∷ q) =
    let rest = count_private private_wait q in
    if same w.private_wait private_wait then rest + 1 else rest

-- The first `n` waiters of the right kind leave the queue; the others stay.
unfoldable pub split_private : ℕ → Bool → List FutexWaiter → Woken
split_private n private_wait [] = record { woken = []; remaining = [] }
split_private n private_wait (w ∷ q) =
    let take = same w.private_wait private_wait && ltb 0 n in
    let rest = split_private (if take then n - 1 else n) private_wait q in
    if take
    then record rest { woken = w ∷ rest.woken }
    else record rest { remaining = w ∷ rest.remaining }

unfoldable pub point_tids : ℕ → List FutexWaiter → Map ℕ → Map ℕ
point_tids a [] m = m
point_tids a (w ∷ q) m = point_tids a q (put w.tid a m)

abbrev pub at_address : ℕ → FutexWaiter → FutexWaiter
at_address a w = record w { uaddr = a }

-- The second half of `futex_requeue`, on a queue that is left under the first address.
unfoldable pub move_waiters : FutexState → ℕ → ℕ → ℕ → Bool → List FutexWaiter → FutexState × ℕ
move_waiters f a1 a2 nr_requeue private_wait queue =
    let moved = min nr_requeue (count_private private_wait queue) in
    let split = split_private moved private_wait queue in
    if a1 == a2 then (f, moved) else (
      record {
        waiters =
            put_queue a1 split.remaining
              (put_queue a2 (queue_at f a2 ++ map (at_address a2) split.woken) f.waiters);
        waiter_map = point_tids a2 split.woken f.waiter_map;
      },
      moved,
    )

unfoldable pub requeue : FutexState → ℕ → ℕ → ℕ → ℕ → Bool → FutexState × ℕ
requeue f a1 a2 nr_wake nr_requeue private_wait =
    let (g, woken) = futex_wake f a1 nr_wake all_bits private_wait in
    elim (find a1 g.waiters) [
      | none ↦ (g, woken)
      | some queue ↦
          let (h, moved) = move_waiters g a1 a2 nr_requeue private_wait queue in (h, woken + moved)
    ]

abbrev pub magnitude : ℤ → ℕ
magnitude (pos n) = n
magnitude (negsuc n) = 0

abbrev pub counted : FutexState × ℕ → SysResult × FutexState
counted (f, n) = (ret n, f)

unfoldable pub futex_requeue : FutexState → ℕ → ℕ → ℤ → ℤ → Bool → SysResult × FutexState
futex_requeue f a1 a2 nr_wake nr_requeue private_wait =
    if not (a1 % 4 == 0) || not (a2 % 4 == 0) || is_neg nr_wake || is_neg nr_requeue
    then (errno einval, f)
    else counted (requeue f a1 a2 (magnitude nr_wake) (magnitude nr_requeue) private_wait)

-- The queues with an address in [start, end) lose all their waiters.
unfoldable pub wake_range :
    ℕ → ℕ → Map (List FutexWaiter) → Map ℕ → Map (List FutexWaiter) × Map ℕ × ℕ
wake_range start end [] m = ([], m, 0)
wake_range start end ((a, q) ∷ queues) m =
    let inside = leb start a && ltb a end in
    let (rest, m', n) = wake_range start end queues (if inside then erase_tids q m else m) in
    if inside then (rest, m', n + length q) else ((a, q) ∷ rest, m', n)

unfoldable pub wake_waiters_in_range : FutexState → ℕ → ℕ → FutexState × ℕ
wake_waiters_in_range f start end =
    let (queues, m, n) = wake_range start end f.waiters f.waiter_map in
    (record { waiters = queues; waiter_map = m }, n)
