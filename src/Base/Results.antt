-- ===== src/Base/Results.antt =====
-- What a call gives: a value or a C++ exception, and the value of a system call.
use Prim.Native.Nat.{ℕ}
use mathlib.Core.Path.{◌≡◌, refl}
use mathlib.Core.Logic.{◌⊎◌, inl, inr}
use mathlib.Core.Bool.{Bool, true, false}

-- `throws e` is an exception of kind `e` that leaves the call.
pub data Outcome (E A : Type 0) : Type 0 where
  ok : A → Outcome E A
  throws : E → Outcome E A

pub Outcome-cases :
    {E A : Type 0} (o : Outcome E A) → ((a : A) × (o ≡ ok a)) ⊎ ((e : E) × (o ≡ throws e))
Outcome-cases (ok a) = inl (a, refl)
Outcome-cases (throws e) = inr (e, refl)

infixl 5 ◌>>=◌ ◌>>◌
abbrev pub ◌>>=◌ : {E A B : Type 0} → Outcome E A → (A → Outcome E B) → Outcome E B
ok a >>= f = f a
throws e >>= f = throws e

abbrev pub ◌>>◌ : {E B : Type 0} → Outcome E (Unit {0}) → Outcome E B → Outcome E B
m >> k = m >>= λ _. k

-- `if (bad) throw e;`
abbrev pub throw_if : {E : Type 0} → Bool → E → Outcome E (Unit {0})
throw_if true e = throws e
throw_if false e = ok tt

pub data Errno : Type 0 where
  ebadf emfile einval enosys efault eagain enotsock eafnosupport eprotonosupport eaddrinuse enotconn
        eopnotsupp edestaddrreq eisconn eaddrnotavail econnrefused econnreset enetunreach epipe
        eexist enoent eperm enotdir eisdir enametoolong eloop etxtbsy efbig espipe eoverflow ebusy
        eacces erange :
      Errno

-- An int that is a count or descriptor, or a negated errno.
pub data SysResult : Type 0 where
  ret : ℕ → SysResult
  errno : Errno → SysResult

-- What holds of the value of a call that returns.
abbrev pub Returns {κ} : {E A : Type 0} → (A → Type κ) → Outcome E A → Type κ
Returns P (ok a) = P a
Returns P (throws e) = Unit

-- What holds of every exception, and of what a call goes on with, holds of a call behind a check.
pub by_guard {κ} :
    {E B : Type 0} (P : Outcome E B → Type κ) (bad : Bool) (e : E) {o : Outcome E B}
    → P (throws e)
    → (bad ≡ false → P o)
    → P (throw_if bad e >> o)
by_guard P true e t h = t
by_guard P false e t h = h refl

-- So it does of a chain of calls.
pub by_bind {κ} :
    {E A B : Type 0} (P : Outcome E B → Type κ) (m : Outcome E A) {k : A → Outcome E B}
    → ((e : E) → P (throws e))
    → ((a : A) → m ≡ ok a → P (k a))
    → P (m >>= k)
by_bind P (ok a) t h = h a refl
by_bind P (throws e) t h = t e
