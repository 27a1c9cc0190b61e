-- ===== src/Process/Signals.antt =====
-- Signal actions stay valid, and an action that was set is what is asked for next.
use det_sim.Base.{
  ℕ, ◌+◌, ◌*◌, ◌/◌, ◌%◌, ◌-◌, ◌≡◌, refl, Bool, true, false, ◌&&◌, ◌||◌, not, Option, none, some,
  ltb, ◌==◌, arith, Outcome, ok, throws, SysResult, ret, by_test, Returns, subst, sym, ◌≤◌,
  Bool-cases, inl, inr,
}
use det_sim.Base.Map.{Ordered, find, put, erase, find-put, find-erase, put-From, erase-From}
use det_sim.Process.{
  KernelSigaction, ProcessKernelState, ProcessError, no_action, same_action, action_flags,
  unmaskable, is_reserved, valid_action, Fetched, nothing, fetched, refused, masked_action, fetch,
  current_action, install, ActionReply, exchange, exchanged, rt_sigaction,
}

-- Every action is one that the archive of the state accepts, in the order of the signals.
pub record IsValid (s : ProcessKernelState) : Type 0 where
  pub ordered : Ordered s.signal_actions
  pub valid :
      (signal : ℕ) (a : KernelSigaction)
      → find signal s.signal_actions ≡ some a
      → valid_action signal a ≡ true

unmaskable-masked : (mask : ℕ) → unmaskable (mask - unmaskable mask) ≡ 0
unmaskable-masked mask = omega arith

masked-valid :
    (signal : ℕ) (a : KernelSigaction)
    → 1 ≤ signal
    → signal ≤ 64
    → is_reserved signal ≡ false
    → not (action_flags a.flags == a.flags) ≡ false
    → same_action (masked_action a) no_action ≡ false
    → valid_action signal (masked_action a) ≡ true
unfolding valid_action
masked-valid signal a lo hi free known is_some = ground (arith, unmaskable-masked a.mask)

install-IsValid :
    (s : ProcessKernelState) (signal : ℕ) (a : KernelSigaction)
    → IsValid s
    → (same_action a no_action ≡ false → valid_action signal a ≡ true)
    → IsValid (install s signal a)
unfolding install
install-IsValid s signal a v good = elim (Bool-cases (same_action a no_action)) [
  | inl e ↦ rw e (record {
    ordered = erase-From 0 signal s.signal_actions v.ordered;
    valid = λ j b f. ground (arith, v.valid j b, find-erase signal j s.signal_actions);
  })
  | inr e ↦
      let entered = good e in
      rw e (record {
        ordered = put-From 0 signal a s.signal_actions (omega arith) v.ordered;
        valid = λ j b f. elim (Bool-cases (signal == j)) [
          | inl g ↦
              let same_signal : signal ≡ j = ground arith in
              let same_entry : b ≡ a = ground (arith, find-put signal j a s.signal_actions) in
              rw (same_entry, sym same_signal) entered
          | inr g ↦ v.valid j b (ground (arith, find-put signal j a s.signal_actions))
        ];
      })
]

-- What is fetched is valid, but for the action that is none.
abbrev IsGood : ℕ → Fetched → Type 0
IsGood signal nothing = Unit {0}
IsGood signal (refused e) = Unit {0}
IsGood signal (fetched a) = same_action a no_action ≡ false → valid_action signal a ≡ true

fetch-IsGood :
    (signal : ℕ) (new : Option (Option KernelSigaction))
    → 1 ≤ signal
    → signal ≤ 64
    → Returns (IsGood signal) (fetch signal new)
unfolding fetch
fetch-IsGood signal none lo hi = tt
fetch-IsGood signal (some none) lo hi =
    by_test (Returns (IsGood signal)) (is_reserved signal) (λ _. tt) (λ _. tt)
fetch-IsGood signal (some (some a)) lo hi =
    by_test (Returns (IsGood signal)) (is_reserved signal) (λ _. tt)
      (λ free.
        by_test (Returns (IsGood signal)) (not (action_flags a.flags == a.flags)) (λ _. tt)
          (λ known. λ is_some. masked-valid signal a lo hi free known is_some))

exchange-IsValid :
    (s : ProcessKernelState) (signal : ℕ) (old written : Bool) (f : Fetched)
    → IsValid s
    → IsGood signal f
    → IsValid (exchange s signal old written f).2
unfolding exchange
exchange-IsValid s signal old written (refused e) v g = v
exchange-IsValid s signal old written nothing v g =
    by_test (λ (r : ActionReply). IsValid r.2) (old && not written) (λ _. v) (λ _. v)
exchange-IsValid s signal old written (fetched a) v g =
    by_test (λ (r : ActionReply). IsValid r.2) (old && not written) (λ _. v)
      (λ _. install-IsValid s signal a v g)

-- A sigaction call that returns, whatever it answers, keeps every action of the process valid and in the
-- order of the signals.
pub rt_sigaction-IsValid :
    (s t : ProcessKernelState) (signal : ℕ) (new : Option (Option KernelSigaction))
    (old written : Bool) (size : ℕ) (res : SysResult) (out : Option KernelSigaction)
    → IsValid s
    → rt_sigaction s signal new old written size ≡ ok (res, out, t)
    → IsValid t
unfolding rt_sigaction
rt_sigaction-IsValid s t signal new old written size res out v e =
    let P = Returns (λ (r : ActionReply). IsValid r.2) in
    subst P e (
      by_test P (ltb signal 1 || ltb 64 signal || not (size == 8)) (λ _. v)
        (λ within.
          exchanged-IsValid (fetch signal new)
            (fetch-IsGood signal new (ground arith) (ground arith))))
  where
    exchanged-IsValid :
        (o : Outcome ProcessError Fetched)
        → Returns (IsGood signal) o
        → Returns (λ (r : ActionReply). IsValid r.2) (exchanged s signal old written o)
    exchanged-IsValid (ok f) g = exchange-IsValid s signal old written f v g
    exchanged-IsValid (throws x) g = tt

same_action-eq : (a b : KernelSigaction) → same_action a b ≡ true → b ≡ a
same_action-eq a b e = ground arith

current_action-install :
    (s : ProcessKernelState) (signal : ℕ) (a : KernelSigaction)
    → current_action (install s signal a) signal ≡ a
unfolding current_action install
current_action-install s signal a = elim (Bool-cases (same_action a no_action)) [
  | inl e ↦
      let gone : find signal (erase signal s.signal_actions) ≡ none =
        ground (arith, find-erase signal signal s.signal_actions) in
      rw e (rw (gone, current_action) (same_action-eq a no_action e))
  | inr e ↦
      let there : find signal (put signal a s.signal_actions) ≡ some a =
        ground (arith, find-put signal signal a s.signal_actions) in
      rw e (rw (there, current_action) refl)
]

-- An action that a call installed, answering 0, is what the next query of the signal gives, but that
-- the bits 8 and 18 of its mask, for SIGKILL and SIGSTOP, are cleared; the query leaves the state as
-- it is.
pub rt_sigaction-rt_sigaction :
    (s t : ProcessKernelState) (signal : ℕ) (a : KernelSigaction) (old written : Bool)
    (out : Option KernelSigaction)
    → rt_sigaction s signal (some (some a)) old written 8 ≡ ok (ret 0, out, t)
    → rt_sigaction t signal none true true 8
      ≡ ok (
        ret 0,
        some (record {
          handler = a.handler;
          flags = a.flags;
          restorer = a.restorer;
          mask = a.mask - (a.mask / 256 % 2 * 256 + a.mask / 262144 % 2 * 262144);
        }),
        t,
      )
unfolding rt_sigaction fetch exchange
rt_sigaction-rt_sigaction s t signal a old written out e =
    let installed : t ≡ install s signal (masked_action a) = ground arith in
    let within : ltb signal 1 || ltb 64 signal || not (8 == 8) ≡ false = ground arith in
    rw within (rw installed (rw (current_action-install s signal (masked_action a)) refl))
