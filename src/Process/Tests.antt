-- ===== src/Process/Tests.antt =====
-- Calls of a process that ignores SIGPIPE.
use det_sim.Base.{◌++◌, ◌≡◌, refl, true, false, none, some, [], ◌∷◌, arith, ok, ret}
use det_sim.Base.Map.{find, put}
use det_sim.Process.{
  KernelSigaction, ProcessKernelState, valid_action, masked_action, fetch, install, exchange,
  rt_sigaction, no_timer, valid_timer, set_timer, setitimer, getitimer,
}
use det_sim.Process.Signals.{IsValid, rt_sigaction-IsValid, rt_sigaction-rt_sigaction}
use det_sim.Process.Stream.{getrandom, getrandom-getrandom}
use det_sim.Process.Timers.{setitimer-getitimer}

abbrev ignored : KernelSigaction
ignored = record { handler = 1; flags = 4; restorer = 0; mask = 0 }

-- SIGKILL and SIGUSR1, which is 10, in the mask.
abbrev handled : KernelSigaction
handled = record { handler = 4096; flags = 4; restorer = 0; mask = 768 }

abbrev process : ProcessKernelState
process = record {
  signal_actions = (13, ignored) ∷ [];
  resource_limits = [];
  capability_count = 0;
  capability_mask = 0;
}

abbrev handling : ProcessKernelState
handling = record process { signal_actions = (13, ignored) ∷ (15, masked_action handled) ∷ [] }

process-IsValid : IsValid process
unfolding find valid_action
process-IsValid = record { ordered = (omega arith, tt); valid = λ signal a e. ground arith }

handler_set :
    rt_sigaction process 15 (some (some handled)) false false 8 ≡ ok (ret 0, none, handling)
unfolding rt_sigaction fetch exchange install put
handler_set = refl

rt_sigaction-IsValid_example : IsValid handling
rt_sigaction-IsValid_example =
    rt_sigaction-IsValid process handling 15 (some (some handled)) false false 8 (ret 0) none
      process-IsValid handler_set

rt_sigaction-rt_sigaction_example :
    rt_sigaction handling 15 none true true 8
    ≡ ok (ret 0, some (record { handler = 4096; flags = 4; restorer = 0; mask = 512 }), handling)
rt_sigaction-rt_sigaction_example =
    rt_sigaction-rt_sigaction process handling 15 handled false false none handler_set

idle_set : setitimer 1 (some (some no_timer)) true true ≡ ok (ret 0, some no_timer)
unfolding setitimer set_timer valid_timer
idle_set = refl

setitimer-getitimer_example : getitimer 1 true ≡ (ret 0, some no_timer)
setitimer-getitimer_example = setitimer-getitimer 1 (some (some no_timer)) true no_timer idle_set

getrandom-getrandom_example :
    let (r, first, middle) = getrandom 5 8 1 true in
    let (q, second, last) = getrandom middle 16 1 true in
    (r ≡ ret 8) × (q ≡ ret 16) × (getrandom 5 24 1 true ≡ (ret 24, first ++ second, last))
getrandom-getrandom_example =
    getrandom-getrandom 5 1 2 1 (omega arith) (omega arith) (omega arith) refl
