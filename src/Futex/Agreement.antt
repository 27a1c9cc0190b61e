-- ===== src/Futex/Agreement.antt =====
-- futex_requeue, wake_waiters_in_range and handle_futex keep the maps of a FutexState in agreement.
use det_sim.Base.{
  ℕ, ◌+◌, ◌-◌, ◌≡◌, ◌≢◌, refl, ap, subst, Bool, Option, none, some, List, [], ◌∷◌, ◌++◌, arith,
  ◌==◌, if◌then◌else◌, Bool-cases, Option-cases, inl, inr, not, ◌&&◌, ◌||◌, map, min, ℤ, ok, throws,
  is_neg, ◌%◌,
}
use det_sim.Base.Map.{Map, find, put, find-put}
use det_sim.Futex.Queues.{
  FutexWaiter, FutexState, queue_of, queue_at, put_queue, futex_wake, all_bits, is_thread_waiting,
}
use det_sim.Futex.Requeue.{
  split_private, point_tids, at_address, move_waiters, requeue, futex_requeue, magnitude,
  count_private,
}
use det_sim.Futex.Handle.{
  Args, Op, Handled, u32, signed32, op_of, get_op, is_private, is_realtime, is_bitset,
  is_wait_bitset, when_equal, do_wait, do_wake, do_requeue, dispatch_op, checked_op, handle_futex,
}
use det_sim.Futex.Consistent.{
  add_waiter-IsConsistent, IsConsistent, count_tid, find-put_queue, count_tid-append,
  futex_wake-IsConsistent,
}

split_private-count :
    (t n : ℕ) (p : Bool) (q : List FutexWaiter)
    → let r = split_private n p q in count_tid t q ≡ count_tid t r.woken + count_tid t r.remaining
unfolding split_private
split_private-count t n p [] = omega arith
split_private-count t n p (w ∷ q) =
    ground (arith, split_private-count t (n - 1) p q, split_private-count t n p q)

count_tid-map :
    (t a : ℕ) (q : List FutexWaiter) → count_tid t (map (at_address a) q) ≡ count_tid t q
count_tid-map t a [] = refl
count_tid-map t a (w ∷ q) = ground (arith, count_tid-map t a q)

find-point_tids :
    (t a : ℕ) (q : List FutexWaiter) (m : Map ℕ)
    → find t (point_tids a q m) ≡ (if count_tid t q == 0 then find t m else some a)
unfolding point_tids
find-point_tids t a [] m = ground arith
find-point_tids t a (w ∷ q) m =
    ground (arith, find-point_tids t a q (put w.tid a m), find-put w.tid t a m)

-- The waiters `gone` of one queue move to the end of another.
moved-IsConsistent :
    (f : FutexState) (a b : ℕ) (gone left : List FutexWaiter)
    → IsConsistent f
    → b ≢ 0
    → a ≢ b
    → ((t : ℕ) → count_tid t (queue_at f a) ≡ count_tid t gone + count_tid t left)
    → IsConsistent (record {
      waiters = put_queue a left (put_queue b (queue_at f b ++ map (at_address b) gone) f.waiters);
      waiter_map = point_tids b gone f.waiter_map;
    })
moved-IsConsistent f a b gone left v nz ne split = record {
  agrees = λ t c. ground (
    arith,
    find-put_queue a c left (put_queue b (queue_at f b ++ map (at_address b) gone) f.waiters),
    find-put_queue b c (queue_at f b ++ map (at_address b) gone) f.waiters,
    count_tid-append t (queue_at f b) (map (at_address b) gone),
    count_tid-map t b gone,
    find-point_tids t b gone f.waiter_map,
    v.agrees t a,
    v.agrees t b,
    v.agrees t c,
    split t,
  );
  nonzero = λ t. ground (arith, find-point_tids t b gone f.waiter_map, v.nonzero t);
}

move_waiters-IsConsistent :
    (f : FutexState) (a b n : ℕ) (p : Bool)
    → IsConsistent f
    → b ≢ 0
    → IsConsistent (move_waiters f a b n p (queue_at f a)).0
unfolding move_waiters
move_waiters-IsConsistent f a b n p v nz = elim (Bool-cases (a == b)) [
  | inl h ↦ rw h v
  | inr h ↦
      let k = min n (count_private p (queue_at f a)) in
      rw h (
        moved-IsConsistent f a b (split_private k p (queue_at f a)).woken
          (split_private k p (queue_at f a)).remaining v nz (ground arith)
          (λ t. split_private-count t k p (queue_at f a)))
]

pub requeue-IsConsistent :
    (f : FutexState) (a b n m : ℕ) (p : Bool)
    → IsConsistent f
    → b ≢ 0
    → IsConsistent (requeue f a b n m p).0
unfolding requeue
requeue-IsConsistent f a b n m p v nz =
    let g = (futex_wake f a n all_bits p).0 in
    let w = futex_wake-IsConsistent f a n all_bits p v in
    elim (Option-cases (find a g.waiters)) [
      | inl h ↦ rw (requeue, h) w
      | inr (q, h) ↦
          rw (requeue, h)
            (subst (λ x. IsConsistent (move_waiters g a b m p x).0) (ap queue_of h)
              (move_waiters-IsConsistent g a b m p w nz))
    ]

futex_requeue-IsConsistent :
    (f : FutexState) (a b : ℕ) (n m : ℤ) (p : Bool)
    → IsConsistent f
    → b ≢ 0
    → IsConsistent (futex_requeue f a b n m p).1
unfolding futex_requeue
futex_requeue-IsConsistent f a b n m p v nz =
    elim (Bool-cases (not (a % 4 == 0) || not (b % 4 == 0) || is_neg n || is_neg m)) [
      | inl h ↦ rw h v
      | inr h ↦ rw h (requeue-IsConsistent f a b (magnitude n) (magnitude m) p v nz)
    ]

-- The state that a call leaves: an exception leaves the one before it.
abbrev pub left_by : FutexState → Handled → FutexState
left_by f (ok (r, g)) = g
left_by f (throws e) = f

when_equal-IsConsistent :
    (f : FutexState) (o : Option ℕ) (e : ℕ) (k : Handled)
    → IsConsistent f
    → IsConsistent (left_by f k)
    → IsConsistent (left_by f (when_equal f o e k))
when_equal-IsConsistent f none e k v w = v
when_equal-IsConsistent f (some x) e k v w = elim (Bool-cases (u32 x == u32 e)) [
  | inl h ↦ rw h w
  | inr h ↦ rw h v
]

do_wait-IsConsistent :
    (f : FutexState) (a : Args) (bitset : ℕ)
    → IsConsistent f
    → a.uaddr ≢ 0
    → IsConsistent (left_by f (do_wait f a bitset))
unfolding do_wait
do_wait-IsConsistent f a bitset v nz = elim (Bool-cases (a.timeout_addr == 0)) [
  | inr h ↦ rw h v
  | inl h ↦ rw h (
      when_equal-IsConsistent f a.stackval a.val _ v
        (elim (Bool-cases (is_thread_waiting f a.tid)) [
          | inl w ↦ rw w v
          | inr w ↦ rw w (add_waiter-IsConsistent f _ nz w v)
        ]))
]

do_requeue-IsConsistent :
    (f : FutexState) (a : Args) (check : Handled → Handled)
    → IsConsistent f
    → a.uaddr2 ≢ 0
    → ((k : Handled) → IsConsistent (left_by f k) → IsConsistent (left_by f (check k)))
    → IsConsistent (left_by f (do_requeue f a check))
unfolding do_requeue
do_requeue-IsConsistent f a check v nz c =
    elim (Bool-cases (
      not (a.uaddr2 % 4 == 0)
      || is_neg (signed32 a.val)
      || is_neg (signed32 (u32 a.timeout_addr)))) [
        | inl h ↦ rw h v
        | inr h ↦ rw h (
            c _ (
              futex_requeue-IsConsistent f a.uaddr a.uaddr2 (signed32 a.val)
                (signed32 (u32 a.timeout_addr)) (is_private a.futex_op) v nz))
      ]

dispatch_op-IsConsistent :
    (f : FutexState) (a : Args) (op : Op)
    → IsConsistent f
    → a.uaddr ≢ 0
    → a.uaddr2 ≢ 0
    → IsConsistent (left_by f (dispatch_op f a op))
unfolding dispatch_op do_wake
dispatch_op-IsConsistent f a Op.wait v x y = do_wait-IsConsistent f a all_bits v x
dispatch_op-IsConsistent f a Op.wait_bitset v x y = do_wait-IsConsistent f a a.val3 v x
dispatch_op-IsConsistent f a Op.wake v x y =
    futex_wake-IsConsistent f a.uaddr _ all_bits (is_private a.futex_op) v
dispatch_op-IsConsistent f a Op.wake_bitset v x y =
    futex_wake-IsConsistent f a.uaddr _ a.val3 (is_private a.futex_op) v
dispatch_op-IsConsistent f a Op.requeues v x y = do_requeue-IsConsistent f a (λ k. k) v y (λ k w. w)
dispatch_op-IsConsistent f a Op.cmp_requeue v x y =
    do_requeue-IsConsistent f a (when_equal f a.stackval a.val3) v y
      (λ k w. when_equal-IsConsistent f a.stackval a.val3 k v w)

-- A futex call with two addresses that are not 0, whatever it answers, keeps the maps in agreement: a
-- thread stands once in the queue of the address that it is entered with, and in no other.
pub handle_futex-IsConsistent :
    (f : FutexState) (a : Args)
    → IsConsistent f
    → a.uaddr ≢ 0
    → a.uaddr2 ≢ 0
    → IsConsistent (left_by f (handle_futex f a))
unfolding handle_futex checked_op
handle_futex-IsConsistent f a v x y = elim (Option-cases (op_of (get_op a.futex_op))) [
  | inl h ↦ rw (handle_futex, h) v
  | inr (op, h) ↦ rw (handle_futex, h) (checked op)
]
  where
    checked : (op : Op) → IsConsistent (left_by f (checked_op f a op))
    checked op = elim (Bool-cases (is_realtime a.futex_op && not (is_wait_bitset op))) [
      | inl h ↦ rw h v
      | inr h ↦ elim (Bool-cases (a.uaddr % 4 == 0)) [
        | inr k ↦ rw (h, k) v
        | inl k ↦ elim (Bool-cases (is_bitset op && a.val3 == 0)) [
          | inl l ↦ rw (h, k, l) v
          | inr l ↦ rw (h, k, l) (dispatch_op-IsConsistent f a op v x y)
        ]
      ]
    ]
