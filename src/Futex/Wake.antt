-- ===== src/Futex/Wake.antt =====
-- Whom a wake-up wakes.
use det_sim.Base.{
  ℕ, ◌-◌, ◌≤◌, ◌<◌, ◌≡◌, true, false, Bool, List, [], ◌∷◌, arith, ◌==◌, Bool-cases, inl, inr, ◌⊎◌,
  length, not, ◌&&◌, ltb,
}
use Prim.Native.Nat.{bit_and}
use det_sim.Futex.Queues.{FutexWaiter, wake_queue, wakes, same}

-- The waiter has the kind of the call and shares a bit with its mask.
abbrev pub matches : ℕ → Bool → FutexWaiter → Bool
matches bitset private_wait w =
    same w.private_wait private_wait && not (bit_and w.bitset bitset == 0)

abbrev pub AllMatch : ℕ → Bool → Bool → List FutexWaiter → Type 0
AllMatch bitset private_wait b [] = Unit {0}
AllMatch bitset private_wait b (w ∷ q) =
    (matches bitset private_wait w ≡ b) × AllMatch bitset private_wait b q

-- `q` is an interleaving of the two lists, each in its order.
pub data Interleaves : List FutexWaiter → List FutexWaiter → List FutexWaiter → Type 0 where
  done : Interleaves [] [] []
  left :
      {q a b : List FutexWaiter} (w : FutexWaiter)
      → Interleaves q a b
      → Interleaves (w ∷ q) (w ∷ a) b
  right :
      {q a b : List FutexWaiter} (w : FutexWaiter)
      → Interleaves q a b
      → Interleaves (w ∷ q) a (w ∷ b)

pub wake_queue-Interleaves :
    (room bitset : ℕ) (p : Bool) (q : List FutexWaiter)
    → let r = wake_queue room bitset p q in Interleaves q r.woken r.remaining
unfolding wake_queue
wake_queue-Interleaves room bitset p [] = done
wake_queue-Interleaves room bitset p (w ∷ q) = elim (Bool-cases (wakes room bitset p w)) [
  | inl h ↦ rw h (left w (wake_queue-Interleaves (room - 1) bitset p q))
  | inr h ↦ rw h (right w (wake_queue-Interleaves room bitset p q))
]

wake_queue-bound :
    (room bitset : ℕ) (p : Bool) (q : List FutexWaiter)
    → length (wake_queue room bitset p q).woken ≤ room
unfolding wake_queue
wake_queue-bound room bitset p [] = omega arith
wake_queue-bound room bitset p (w ∷ q) =
    ground (arith, wake_queue-bound (room - 1) bitset p q, wake_queue-bound room bitset p q)

wake_queue-matches :
    (room bitset : ℕ) (p : Bool) (q : List FutexWaiter)
    → AllMatch bitset p true (wake_queue room bitset p q).woken
unfolding wake_queue
wake_queue-matches room bitset p [] = tt
wake_queue-matches room bitset p (w ∷ q) =
    ground (arith, wake_queue-matches (room - 1) bitset p q, wake_queue-matches room bitset p q)

-- Room is left over only if nobody that matches is left.
wake_queue-all :
    (room bitset : ℕ) (p : Bool) (q : List FutexWaiter)
    → length (wake_queue room bitset p q).woken < room
    → AllMatch bitset p false (wake_queue room bitset p q).remaining
unfolding wake_queue
wake_queue-all room bitset p [] l = tt
wake_queue-all room bitset p (w ∷ q) l =
    ground (arith, wake_queue-all (room - 1) bitset p q, wake_queue-all room bitset p q)

-- A wake-up of a queue splits it into the woken and the remaining waiters, each in its order of
-- arrival; it wakes at most as many as it may, only waiters of its kind whose mask shares a bit with
-- its own, and leaves none of these waiting unless it woke as many as it may.
pub wake_queue-Wakes :
    (room bitset : ℕ) (p : Bool) (q : List FutexWaiter)
    → let r = wake_queue room bitset p q in
      Interleaves q r.woken r.remaining
      × (length r.woken ≤ room)
      × AllMatch bitset p true r.woken
      × ((length r.woken ≡ room) ⊎ AllMatch bitset p false r.remaining)
wake_queue-Wakes room bitset p q = (
  wake_queue-Interleaves room bitset p q,
  wake_queue-bound room bitset p q,
  wake_queue-matches room bitset p q,
  rest,
)
  where
    rest :
        (length (wake_queue room bitset p q).woken ≡ room)
        ⊎ AllMatch bitset p false (wake_queue room bitset p q).remaining
    rest = elim (Bool-cases (ltb (length (wake_queue room bitset p q).woken) room)) [
      | inl h ↦ inr (wake_queue-all room bitset p q (ground arith))
      | inr h ↦ inl (ground (arith, wake_queue-bound room bitset p q))
    ]
