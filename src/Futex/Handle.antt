-- ===== src/Futex/Handle.antt =====
-- FutexState::handle_futex: the operations of the system call and their errors.
use det_sim.Base.{
  ℕ, ◌-◌, ◌*◌, ◌/◌, ◌%◌, Bool, true, false, ◌&&◌, ◌||◌, not, Option, none, some, ltb, ◌==◌,
  if◌then◌else◌, max, ℤ, pos, negsuc, is_neg, Outcome, ok, throws, SysResult, ret, errno, einval,
  enosys, efault, eagain,
}
use det_sim.Futex.Queues.{
  FutexState, FutexError, unsupported_operation, timed_wait, already_waiting, all_bits, add_waiter,
  is_thread_waiting, futex_wake,
}
use det_sim.Futex.Requeue.{futex_requeue, magnitude, counted}

-- A 32-bit pattern as an int.
abbrev pub signed32 : ℕ → ℤ
signed32 x = if ltb x 2147483648 then pos x else negsuc (4294967295 - x)

abbrev pub u32 : ℕ → ℕ
u32 n = n % 4294967296

-- `futex_op & FUTEX_CMD_MASK` clears the bits 7 and 8, which are the two flags.
abbrev pub get_op : ℕ → ℕ
get_op futex_op = futex_op - futex_op / 128 % 4 * 128

abbrev pub is_private : ℕ → Bool
is_private futex_op = futex_op / 128 % 2 == 1

abbrev pub is_realtime : ℕ → Bool
is_realtime futex_op = futex_op / 256 % 2 == 1

pub data Op : Type 0 where
  wait wait_bitset wake wake_bitset requeues cmp_requeue : Op

-- The operations that are modelled, by their Linux numbers.
unfoldable pub op_of : ℕ → Option Op
op_of n =
    if n == 0
    then some wait
    else if n == 9
    then some wait_bitset
    else if n == 1
    then some wake
    else if n == 10
    then some wake_bitset
    else if n == 3
    then some requeues
    else if n == 4
    then some cmp_requeue
    else none

abbrev pub is_bitset : Op → Bool
is_bitset wait_bitset = true
is_bitset wake_bitset = true
is_bitset _ = false

abbrev pub is_wait_bitset : Op → Bool
is_wait_bitset wait_bitset = true
is_wait_bitset _ = false

pub record Args : Type 0 where
  pub tid : ℕ
  pub uaddr : ℕ
  pub futex_op : ℕ
  pub val : ℕ
  pub timeout_addr : ℕ
  pub uaddr2 : ℕ
  pub val3 : ℕ
  pub stackval : Option ℕ

abbrev pub Handled : Type 0
Handled = Outcome FutexError (SysResult × FutexState)

-- `if (!stackval) return -EFAULT; if (*stackval != expected) return -EAGAIN;`
abbrev pub when_equal : FutexState → Option ℕ → ℕ → Handled → Handled
when_equal f none expected k = ok (errno efault, f)
when_equal f (some v) expected k = if u32 v == u32 expected then k else ok (errno eagain, f)

unfoldable pub do_wait : FutexState → Args → ℕ → Handled
do_wait f a bitset =
    if not (a.timeout_addr == 0)
    then throws timed_wait
    else when_equal f a.stackval a.val (
        if is_thread_waiting f a.tid
        then throws already_waiting
        else ok (
          ret 0,
          add_waiter f (record {
            tid = a.tid;
            uaddr = a.uaddr;
            val = a.val;
            bitset = bitset;
            private_wait = is_private a.futex_op;
          }),
        ))

unfoldable pub do_wake : FutexState → Args → ℕ → Handled
do_wake f a bitset = ok (
    counted
      (futex_wake f a.uaddr (max 1 (magnitude (signed32 a.val))) bitset (is_private a.futex_op)))

unfoldable pub do_requeue : FutexState → Args → (Handled → Handled) → Handled
do_requeue f a check =
    if not (a.uaddr2 % 4 == 0) || is_neg (signed32 a.val) || is_neg (signed32 (u32 a.timeout_addr))
    then ok (errno einval, f)
    else check (
        ok (
          futex_requeue f a.uaddr a.uaddr2 (signed32 a.val) (signed32 (u32 a.timeout_addr))
            (is_private a.futex_op)))

unfoldable pub dispatch_op : FutexState → Args → Op → Handled
dispatch_op f a wait = do_wait f a all_bits
dispatch_op f a wait_bitset = do_wait f a a.val3
dispatch_op f a wake = do_wake f a all_bits
dispatch_op f a wake_bitset = do_wake f a a.val3
dispatch_op f a requeues = do_requeue f a (λ k. k)
dispatch_op f a cmp_requeue = do_requeue f a (when_equal f a.stackval a.val3)

unfoldable pub checked_op : FutexState → Args → Op → Handled
checked_op f a op =
    if is_realtime a.futex_op && not (is_wait_bitset op)
    then ok (errno enosys, f)
    else if not (a.uaddr % 4 == 0)
    then ok (errno einval, f)
    else if is_bitset op && a.val3 == 0
    then ok (errno einval, f)
    else dispatch_op f a op

unfoldable pub handle_futex : FutexState → Args → Handled
handle_futex f a = elim (op_of (get_op a.futex_op)) [
  | none ↦ throws unsupported_operation
  | some op ↦ checked_op f a op
]
