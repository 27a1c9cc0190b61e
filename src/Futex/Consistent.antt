-- ===== src/Futex/Consistent.antt =====
-- The two maps of a FutexState agree, src/subsys/sync/futexstate.cpp.
use det_sim.Base.{
  ℕ, suc, ◌+◌, ◌-◌, ◌≤◌, ◌≡◌, ◌≢◌, refl, false, Bool, Option, none, some, List, [], ◌∷◌, ◌++◌,
  arith, ◌==◌, if◌then◌else◌, Bool-cases, Option-cases, inl, inr, not,
}
use det_sim.Base.Map.{Map, find, erase, find-put, find-erase}
use det_sim.Futex.Queues.{
  FutexWaiter, FutexState, queue_of, queue_at, put_queue, add_waiter, remove_waiter,
  is_thread_waiting, drop_tid, has_tid, wake_queue, erase_tids, futex_wake, clear,
}

-- How often the thread stands in the queue.
abbrev pub count_tid : ℕ → List FutexWaiter → ℕ
count_tid t [] = 0
count_tid t (w ∷ q) = if w.tid == t then suc (count_tid t q) else count_tid t q

abbrev pub one_at : ℕ → Option ℕ → ℕ
one_at a none = 0
one_at a (some b) = if b == a then 1 else 0

-- A thread stands once in the queue of the address that it is entered with, and in no other queue;
-- no thread is entered with the address 0, which stands for none.
pub record IsConsistent (f : FutexState) : Type 0 where
  pub agrees : (t a : ℕ) → count_tid t (queue_at f a) ≡ one_at a (find t f.waiter_map)
  pub nonzero : (t : ℕ) → find t f.waiter_map ≢ some 0

pub clear-IsConsistent : IsConsistent clear
unfolding clear find
clear-IsConsistent = record { agrees = λ t a. refl; nonzero = λ t. ground arith }

pub find-put_queue :
    (a b : ℕ) (q : List FutexWaiter) (m : Map (List FutexWaiter))
    → queue_of (find b (put_queue a q m)) ≡ (if a == b then q else queue_of (find b m))
find-put_queue a b [] m = ground (arith, find-erase a b m)
find-put_queue a b (w ∷ q) m = ground (arith, find-put a b (w ∷ q) m)

pub count_tid-append :
    (t : ℕ) (p q : List FutexWaiter) → count_tid t (p ++ q) ≡ count_tid t p + count_tid t q
count_tid-append t [] q = omega arith
count_tid-append t (w ∷ p) q = ground (arith, count_tid-append t p q)

pub add_waiter-IsConsistent :
    (f : FutexState) (w : FutexWaiter)
    → w.uaddr ≢ 0
    → is_thread_waiting f w.tid ≡ false
    → IsConsistent f
    → IsConsistent (add_waiter f w)
unfolding add_waiter is_thread_waiting
add_waiter-IsConsistent f w nz free v = record {
  agrees = λ t a. ground (
    arith,
    find-put w.uaddr a (queue_at f w.uaddr ++ w ∷ []) f.waiters,
    find-put w.tid t w.uaddr f.waiter_map,
    count_tid-append t (queue_at f w.uaddr) (w ∷ []),
    v.agrees t a,
    v.agrees t w.uaddr,
    v.nonzero w.tid,
  );
  nonzero = λ t. ground (arith, find-put w.tid t w.uaddr f.waiter_map, v.nonzero t);
}

count_tid-drop_tid :
    (x t : ℕ) (q : List FutexWaiter)
    → count_tid t (drop_tid x q) ≡ (if x == t then count_tid t q - 1 else count_tid t q)
unfolding drop_tid
count_tid-drop_tid x t [] = ground arith
count_tid-drop_tid x t (w ∷ q) = elim (Bool-cases (w.tid == x)) [
  | inl h ↦ rw h (dropped (ground arith))
  | inr h ↦ rw h (kept (count_tid-drop_tid x t q) (ground arith))
]
  where
    dropped :
        w.tid ≡ x
        → count_tid t q ≡ (if x == t then count_tid t (w ∷ q) - 1 else count_tid t (w ∷ q))
    dropped h = ground arith

    kept :
        count_tid t (drop_tid x q) ≡ (if x == t then count_tid t q - 1 else count_tid t q)
        → w.tid ≢ x
        → count_tid t (w ∷ drop_tid x q)
          ≡ (if x == t then count_tid t (w ∷ q) - 1 else count_tid t (w ∷ q))
    kept ih h = ground arith

has_tid-count : (t : ℕ) (q : List FutexWaiter) → has_tid t q ≡ not (count_tid t q == 0)
unfolding has_tid
has_tid-count t [] = ground arith
has_tid-count t (w ∷ q) = ground (arith, has_tid-count t q)

wake_queue-count :
    (t room bitset : ℕ) (p : Bool) (q : List FutexWaiter)
    → let r = wake_queue room bitset p q in
      count_tid t q ≡ count_tid t r.woken + count_tid t r.remaining
unfolding wake_queue
wake_queue-count t room bitset p [] = refl
wake_queue-count t room bitset p (w ∷ q) =
    ground (arith, wake_queue-count t (room - 1) bitset p q, wake_queue-count t room bitset p q)

find-erase_tids :
    (t : ℕ) (q : List FutexWaiter) (m : Map ℕ)
    → find t (erase_tids q m) ≡ (if count_tid t q == 0 then find t m else none)
unfolding erase_tids
find-erase_tids t [] m = ground arith
find-erase_tids t (w ∷ q) m =
    ground (arith, find-erase_tids t q (erase w.tid m), find-erase w.tid t m)

find_woken :
    (f : FutexState) (t a : ℕ) (w : List FutexWaiter)
    → IsConsistent f
    → count_tid t w ≤ count_tid t (queue_at f a)
    → count_tid t w ≢ 0
    → (count_tid t w ≡ 1) × (find t f.waiter_map ≡ some a)
find_woken f t a w v l n = elim (Option-cases (find t f.waiter_map)) [
  | inl h ↦ absurd (ground (arith, v.agrees t a))
  | inr (b, h) ↦ (ground (arith, v.agrees t a), ground (arith, v.agrees t a))
]

-- The waiters `gone` leave the queue of an address, and the map.
pub taken-IsConsistent :
    (f : FutexState) (a : ℕ) (gone left : List FutexWaiter)
    → IsConsistent f
    → ((t : ℕ) → count_tid t (queue_at f a) ≡ count_tid t gone + count_tid t left)
    → IsConsistent
        (record { waiters = put_queue a left f.waiters; waiter_map = erase_tids gone f.waiter_map })
taken-IsConsistent f a gone left v split = record {
  agrees = λ t b. elim (Bool-cases (count_tid t gone == 0)) [
    | inl h ↦ ground (
      arith,
      find-put_queue a b left f.waiters,
      find-erase_tids t gone f.waiter_map,
      v.agrees t b,
      split t,
    )
    | inr h ↦
        let (one, at) = find_woken f t a gone v (omega (arith, split t)) (ground arith) in
        ground (
          arith,
          find-put_queue a b left f.waiters,
          find-erase_tids t gone f.waiter_map,
          v.agrees t b,
          v.agrees t a,
          split t,
          one,
          at,
        )
  ];
  nonzero = λ t. ground (arith, find-erase_tids t gone f.waiter_map, v.nonzero t);
}

pub futex_wake-IsConsistent :
    (f : FutexState) (a n bitset : ℕ) (p : Bool)
    → IsConsistent f
    → IsConsistent (futex_wake f a n bitset p).0
unfolding futex_wake
futex_wake-IsConsistent f a n bitset p v = woken (queue_at f a) refl
  where
    woken : (q : List FutexWaiter) → queue_at f a ≡ q → IsConsistent (futex_wake f a n bitset p).0
    woken [] h = rw (futex_wake, h) v
    woken (w ∷ q) h =
        rw (futex_wake, h)
          (taken-IsConsistent f a (wake_queue n bitset p (queue_at f a)).woken
            (wake_queue n bitset p (queue_at f a)).remaining v
            (λ t. wake_queue-count t n bitset p (queue_at f a)))

pub remove_waiter-IsConsistent :
    (f : FutexState) (tid : ℕ) → IsConsistent f → IsConsistent (remove_waiter f tid).0
unfolding remove_waiter
remove_waiter-IsConsistent f tid v = elim (Option-cases (find tid f.waiter_map)) [
  | inl h ↦ rw h v
  | inr (a, h) ↦ elim (Bool-cases (a == 0)) [
    | inl z ↦ absurd (v.nonzero tid (ground arith))
    | inr z ↦
        rw (h, z, has_tid-count tid (queue_at f a), standing a h)
          (record {
            agrees = λ t b. ground (
              arith,
              find-put_queue a b (drop_tid tid (queue_at f a)) f.waiters,
              find-erase tid t f.waiter_map,
              count_tid-drop_tid tid t (queue_at f a),
              v.agrees t b,
              v.agrees tid b,
            );
            nonzero = λ t. ground (arith, find-erase tid t f.waiter_map, v.nonzero t);
          })
  ]
]
  where
    standing : (a : ℕ) → find tid f.waiter_map ≡ some a → count_tid tid (queue_at f a) ≡ 1
    standing a h = ground (arith, v.agrees tid a)
