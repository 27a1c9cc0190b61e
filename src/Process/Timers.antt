-- ===== src/Process/Timers.antt =====
-- The interval timers that a process can set are the one that it can read.
use det_sim.Base.{ℕ, ◌≡◌, ap, Bool, true, false, Option, none, some, ℤ, pos, negsuc, arith, ok, ret}
use det_sim.Process.{Itimerval, is_zero, is_armed, no_timer, getitimer, set_timer, setitimer}

is_zero-eq : (n : ℤ) → is_zero n ≡ true → n ≡ pos 0
is_zero-eq (pos n) e = let zeroed : n ≡ 0 = ground arith in ap pos zeroed
is_zero-eq (negsuc n) e = ground arith

idle : (t : Itimerval) → is_armed t ≡ false → t ≡ no_timer
idle t e = ground (
  arith,
  is_zero-eq t.it_interval.tv_sec,
  is_zero-eq t.it_interval.tv_usec,
  is_zero-eq t.it_value.tv_sec,
  is_zero-eq t.it_value.tv_usec,
)

set_timer-idle :
    (old written : Bool) (t : Itimerval) (out : Itimerval)
    → set_timer old written t ≡ ok (ret 0, some out)
    → out ≡ no_timer
unfolding set_timer
set_timer-idle old written t out e = ground (arith, idle t)

-- A setitimer call that succeeds and writes a value writes what getitimer gives for the same timer: only
-- an idle timer can be set.
pub setitimer-getitimer :
    (which : ℕ) (new : Option (Option Itimerval)) (written : Bool) (out : Itimerval)
    → setitimer which new true written ≡ ok (ret 0, some out)
    → getitimer which true ≡ (ret 0, some out)
unfolding setitimer getitimer
setitimer-getitimer which none written out e =
    ground (arith, set_timer-idle true written no_timer out)
setitimer-getitimer which (some none) written out e = ground arith
setitimer-getitimer which (some (some t)) written out e =
    ground (arith, set_timer-idle true written t out)
