-- ===== src/Process.antt =====
-- The kernel state of a process, src/subsys/process/process_state.{h,cpp}: signal actions, resource limits,
-- capabilities, interval timers and the umask. What is read from or written to guest memory is an
-- argument of a call. An int is its 32-bit pattern.
use det_sim.Base.{
  ℕ, ◌+◌, ◌-◌, ◌*◌, ◌/◌, ◌%◌, ◌^◌, Bool, true, false, ◌&&◌, ◌||◌, not, Option, none, some, List,
  get_elem?, ltb, leb, ◌==◌, if◌then◌else◌, ℤ, pos, negsuc, Outcome, ok, throws, SysResult, ret,
  errno, Errno, einval, efault,
}
use det_sim.Base.Map.{Map, find, put, erase}
use det_sim.Fs.State.{FileSystemState}
pub mod Signals
pub mod Timers
pub mod Stream
mod Tests

pub record KernelSigaction : Type 0 where
  pub handler : ℕ
  pub flags : ℕ
  pub restorer : ℕ
  pub mask : ℕ

pub record KernelResourceLimit : Type 0 where
  pub current : ℕ
  pub maximum : ℕ

pub record ProcessKernelState : Type 0 where
  pub signal_actions : Map KernelSigaction
  pub resource_limits : List KernelResourceLimit
  pub capability_count : ℕ
  pub capability_mask : ℕ

pub data ProcessError : Type 0 where
  unsupported_flags no_capabilities armed_timer : ProcessError

abbrev pub no_action : KernelSigaction
no_action = record { handler = 0; flags = 0; restorer = 0; mask = 0 }

abbrev pub same_action : KernelSigaction → KernelSigaction → Bool
same_action a b =
    a.handler == b.handler && a.flags == b.flags && a.restorer == b.restorer && a.mask == b.mask

-- `flags & 0xdc000007`: the bits 0 to 2, 26 to 28, 30 and 31.
abbrev pub action_flags : ℕ → ℕ
action_flags flags =
    flags % 8 + (flags / 67108864 % 8 * 67108864 + flags / 1073741824 % 4 * 1073741824)

-- `mask & unmaskable`: the bits of SIGKILL, which is 9, and SIGSTOP, which is 19.
abbrev pub unmaskable : ℕ → ℕ
unmaskable mask = mask / 256 % 2 * 256 + mask / 262144 % 2 * 262144

abbrev pub is_reserved : ℕ → Bool
is_reserved signal = signal == 9 || signal == 19

unfoldable pub valid_action : ℕ → KernelSigaction → Bool
valid_action signal a =
    leb 1 signal
    && leb signal 64
    && not (is_reserved signal)
    && action_flags a.flags == a.flags
    && unmaskable a.mask == 0
    && not (same_action a no_action)

-- What the pointer to the new action gives: nothing, an action, or an error.
pub data Fetched : Type 0 where
  nothing : Fetched
  fetched : KernelSigaction → Fetched
  refused : Errno → Fetched

abbrev pub masked_action : KernelSigaction → KernelSigaction
masked_action a = record a { mask = a.mask - unmaskable a.mask }

-- The pointer is null, or the guest memory is read there, which may fail.
unfoldable pub fetch : ℕ → Option (Option KernelSigaction) → Outcome ProcessError Fetched
fetch signal none = ok nothing
fetch signal (some none) = if is_reserved signal then ok (refused einval) else ok (refused efault)
fetch signal (some (some a)) =
    if is_reserved signal
    then ok (refused einval)
    else if not (action_flags a.flags == a.flags)
    then throws ProcessError.unsupported_flags
    else ok (fetched (masked_action a))

unfoldable pub current_action : ProcessKernelState → ℕ → KernelSigaction
current_action s signal = elim (find signal s.signal_actions) [ none ↦ no_action | some a ↦ a ]

unfoldable pub install : ProcessKernelState → ℕ → KernelSigaction → ProcessKernelState
install s signal a = record s {
  signal_actions =
      if same_action a no_action
      then erase signal s.signal_actions
      else put signal a s.signal_actions;
}

-- The result, what is written to the pointer to the old action, and the state.
abbrev pub ActionReply : Type 0
ActionReply = SysResult × Option KernelSigaction × ProcessKernelState

abbrev pub written_action : ProcessKernelState → ℕ → Bool → Option KernelSigaction
written_action s signal old = if old then some (current_action s signal) else none

-- `old` says whether the pointer to the old action is not null, `written` whether a write there succeeds.
unfoldable pub exchange : ProcessKernelState → ℕ → Bool → Bool → Fetched → ActionReply
exchange s signal old written (refused e) = (errno e, none, s)
exchange s signal old written nothing =
    if old && not written then (errno efault, none, s) else (ret 0, written_action s signal old, s)
exchange s signal old written (fetched a) =
    if old && not written
    then (errno efault, none, s)
    else (ret 0, written_action s signal old, install s signal a)

abbrev pub exchanged :
    ProcessKernelState
    → ℕ
    → Bool
    → Bool
    → Outcome ProcessError Fetched
    → Outcome ProcessError ActionReply
exchanged s signal old written (ok f) = ok (exchange s signal old written f)
exchanged s signal old written (throws e) = throws e

unfoldable pub rt_sigaction :
    ProcessKernelState
    → ℕ
    → Option (Option KernelSigaction)
    → Bool
    → Bool
    → ℕ
    → Outcome ProcessError ActionReply
rt_sigaction s signal new old written size =
    if ltb signal 1 || ltb 64 signal || not (size == 8)
    then ok (errno einval, none, s)
    else exchanged s signal old written (fetch signal new)

unfoldable pub capbset_read : ProcessKernelState → ℕ → Outcome ProcessError SysResult
capbset_read s capability =
    if s.capability_count == 0
    then throws ProcessError.no_capabilities
    else if leb s.capability_count capability
    then ok (errno einval)
    else ok (ret (s.capability_mask / 2 ^ capability % 2))

-- umask, which gives the previous mask.
unfoldable pub umask : FileSystemState → ℕ → SysResult × FileSystemState
umask s mask = (ret s.creation_mask, record s { creation_mask = mask % 512 })

-- getrlimit and prlimit64 of the process itself: the result, and what is written. `old` says whether
-- prlimit64 has a destination.
unfoldable pub read_limit :
    ProcessKernelState → ℕ → Bool → Bool → SysResult × Option KernelResourceLimit
read_limit s resource old written = elim (get_elem? s.resource_limits resource) [
  | none ↦ (errno einval, none)
  | some l ↦
      if not old
      then (ret 0, none)
      else if not written
      then (errno efault, none)
      else (ret 0, some l)
]

pub record Timeval : Type 0 where
  pub tv_sec : ℤ
  pub tv_usec : ℤ

pub record Itimerval : Type 0 where
  pub it_interval : Timeval
  pub it_value : Timeval

abbrev pub is_negative : ℤ → Bool
is_negative (pos n) = false
is_negative (negsuc n) = true

abbrev pub is_zero : ℤ → Bool
is_zero (pos n) = n == 0
is_zero (negsuc n) = false

abbrev pub below_second : ℤ → Bool
below_second (pos n) = ltb n 1000000
below_second (negsuc n) = true

unfoldable pub valid_timer : Timeval → Bool
valid_timer t = not (is_negative t.tv_sec) && not (is_negative t.tv_usec) && below_second t.tv_usec

abbrev pub is_armed : Itimerval → Bool
is_armed t =
    not (is_zero t.it_interval.tv_sec)
    || not (is_zero t.it_interval.tv_usec)
    || not (is_zero t.it_value.tv_sec)
    || not (is_zero t.it_value.tv_usec)

abbrev pub no_timer : Itimerval
no_timer = record {
  it_interval = record { tv_sec = pos 0; tv_usec = pos 0 };
  it_value = record { tv_sec = pos 0; tv_usec = pos 0 };
}

abbrev pub TimerReply : Type 0
TimerReply = Outcome ProcessError (SysResult × Option Itimerval)

unfoldable pub getitimer : ℕ → Bool → SysResult × Option Itimerval
getitimer which written =
    if ltb 2 which
    then (errno einval, none)
    else if not written
    then (errno efault, none)
    else (ret 0, some no_timer)

-- The value that is set, which is written to the pointer to the old value.
unfoldable pub set_timer : Bool → Bool → Itimerval → TimerReply
set_timer old written t =
    if not (valid_timer t.it_interval) || not (valid_timer t.it_value)
    then ok (errno einval, none)
    else if is_armed t
    then throws ProcessError.armed_timer
    else if not old
    then ok (ret 0, none)
    else if not written
    then ok (errno efault, none)
    else ok (ret 0, some t)

unfoldable pub setitimer : ℕ → Option (Option Itimerval) → Bool → Bool → TimerReply
setitimer which new old written =
    let null = set_timer old written no_timer in
    if ltb 2 which then ok (errno einval, none) else elim new [
      | none ↦ null
      | some o ↦ elim o [ none ↦ ok (errno efault, none) | some t ↦ set_timer old written t ]
    ]
