-- ===== src/Futex/Queues.antt =====
-- The wait queues of futexstate.{h,cpp}, and a wake-up. An int argument that carries flags or an
-- unsigned word is its 32-bit pattern; a signed int is an integer.
use det_sim.Base.{
  ℕ, ◌-◌, Bool, true, false, ◌&&◌, ◌||◌, not, Option, none, some, List, [], ◌∷◌, ◌++◌, map, ltb,
  ◌==◌, if◌then◌else◌, length,
}
use det_sim.Base.Map.{Map, find, put, erase}
use Prim.Native.Nat.{bit_and}

pub record FutexWaiter : Type 0 where
  pub tid : ℕ
  pub uaddr : ℕ
  pub val : ℕ
  pub bitset : ℕ
  pub private_wait : Bool

-- Address to waiters in order of arrival, and thread to the address that it waits on.
pub record FutexState : Type 0 where
  pub waiters : Map (List FutexWaiter)
  pub waiter_map : Map ℕ

pub data FutexError : Type 0 where
  unsupported_operation timed_wait already_waiting : FutexError

abbrev pub all_bits : ℕ
all_bits = 4294967295

unfoldable pub clear : FutexState
clear = record { waiters = []; waiter_map = [] }

abbrev pub address_of : Option ℕ → ℕ
address_of none = 0
address_of (some a) = a

unfoldable pub is_thread_waiting : FutexState → ℕ → Bool
is_thread_waiting f tid = not (address_of (find tid f.waiter_map) == 0)

unfoldable pub get_wait_address : FutexState → ℕ → ℕ
get_wait_address f tid = address_of (find tid f.waiter_map)

abbrev pub queue_of : Option (List FutexWaiter) → List FutexWaiter
queue_of none = []
queue_of (some q) = q

-- `waiters_[a]`, which a reader takes for an empty queue where there is none.
abbrev pub queue_at : FutexState → ℕ → List FutexWaiter
queue_at f a = queue_of (find a f.waiters)

unfoldable pub add_waiter : FutexState → FutexWaiter → FutexState
add_waiter f w = record {
  waiters = put w.uaddr (queue_at f w.uaddr ++ w ∷ []) f.waiters;
  waiter_map = put w.tid w.uaddr f.waiter_map;
}

-- The queue under an address; an empty one is erased.
abbrev pub put_queue : ℕ → List FutexWaiter → Map (List FutexWaiter) → Map (List FutexWaiter)
put_queue a [] m = erase a m
put_queue a (w ∷ q) m = put a (w ∷ q) m

unfoldable pub has_tid : ℕ → List FutexWaiter → Bool
has_tid tid [] = false
has_tid tid (w ∷ q) = w.tid == tid || has_tid tid q

unfoldable pub drop_tid : ℕ → List FutexWaiter → List FutexWaiter
drop_tid tid [] = []
drop_tid tid (w ∷ q) = if w.tid == tid then q else w ∷ drop_tid tid q

-- A thread that is missing from its queue leaves the queue that `waiters_[uaddr]` made.
unfoldable pub remove_waiter : FutexState → ℕ → FutexState × Bool
remove_waiter f tid =
    let a = address_of (find tid f.waiter_map) in
    if a == 0
    then (f, false)
    else if has_tid tid (queue_at f a)
    then (
      record {
        waiters = put_queue a (drop_tid tid (queue_at f a)) f.waiters;
        waiter_map = erase tid f.waiter_map;
      },
      true,
    )
    else (record f { waiters = put a (queue_at f a) f.waiters }, false)

unfoldable pub wake_thread : FutexState → ℕ → FutexState × Bool
wake_thread f tid = remove_waiter f tid

unfoldable pub get_waiters : FutexState → ℕ → List ℕ
get_waiters f a = map (λ w. w.tid) (queue_at f a)

abbrev pub same : Bool → Bool → Bool
same true b = b
same false b = not b

-- What the loop of `futex_wake` decides for each waiter, given how many may still be woken.
abbrev pub wakes : ℕ → ℕ → Bool → FutexWaiter → Bool
wakes room bitset private_wait w =
    same w.private_wait private_wait && ltb 0 room && not (bit_and w.bitset bitset == 0)

pub record Woken : Type 0 where
  pub woken : List FutexWaiter
  pub remaining : List FutexWaiter

unfoldable pub wake_queue : ℕ → ℕ → Bool → List FutexWaiter → Woken
wake_queue room bitset private_wait [] = record { woken = []; remaining = [] }
wake_queue room bitset private_wait (w ∷ q) =
    let wake = wakes room bitset private_wait w in
    let rest = wake_queue (if wake then room - 1 else room) bitset private_wait q in
    if wake
    then record rest { woken = w ∷ rest.woken }
    else record rest { remaining = w ∷ rest.remaining }

unfoldable pub erase_tids : List FutexWaiter → Map ℕ → Map ℕ
erase_tids [] m = m
erase_tids (w ∷ q) m = erase_tids q (erase w.tid m)

-- A count of at most `nr_wake`; a negative one wakes nobody.
unfoldable pub futex_wake : FutexState → ℕ → ℕ → ℕ → Bool → FutexState × ℕ
futex_wake f a nr_wake bitset private_wait =
    let r = wake_queue nr_wake bitset private_wait (queue_at f a) in
    elim (queue_at f a) [
      | [] ↦ (f, 0)
      | w ∷ q ↦ (
        record {
          waiters = put_queue a r.remaining f.waiters;
          waiter_map = erase_tids r.woken f.waiter_map;
        },
        length r.woken,
      )
    ]
