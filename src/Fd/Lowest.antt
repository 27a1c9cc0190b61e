-- ===== src/Fd/Lowest.antt =====
-- Which descriptor an allocation takes.
use det_sim.Base.{
  ℕ, suc, ◌+◌, ◌/◌, ◌%◌, ◌≤◌, ◌==◌, leb, Bool-cases, inl, inr, ◌<◌, ◌≡◌, ◌≢◌, refl, Option, none,
  some, [], ◌∷◌, arith, ok, throws, ◌↔◌, true, false, ret, errno, emfile, SysResult,
}
use det_sim.Base.Map.{Map, From, Ordered, From-mono, find, put, find_below, find-put, find-erase}
use det_sim.Fd.{
  FdManager, FdType, Entry, FdError, next_from, get_next_fd, allocate_fd, release_fd, emplace_next,
  int_max, valid_entry, valid_kind, unsupported, has_bit, o_async, o_direct,
}

next_from-ge : (c : ℕ) (m : Map Entry) (k : ℕ) → next_from c m ≡ some k → c ≤ k
unfolding next_from
next_from-ge c [] k e = ground arith
next_from-ge c ((fd, v) ∷ m) k e = ground (arith, next_from-ge (c + 1) m k)

next_from-free :
    (c : ℕ) (m : Map Entry) (k : ℕ) → From c m → next_from c m ≡ some k → find k m ≡ none
unfolding next_from find
next_from-free c [] k o e = refl
next_from-free c ((fd, v) ∷ m) k o e = ground (
  arith,
  next_from-ge (c + 1) m k,
  next_from-free (c + 1) m k (From-mono m (omega arith) o.1),
  find_below (suc fd) k m o.1,
)

-- Every number that the loop passed is taken.
next_from-taken :
    (c : ℕ) (m : Map Entry) (k j : ℕ)
    → From c m
    → next_from c m ≡ some k
    → c ≤ j
    → j < k
    → find j m ≢ none
unfolding next_from find
next_from-taken c [] k j o e l h = ground arith
next_from-taken c ((fd, v) ∷ m) k j o e l h =
    ground (arith, next_from-taken (c + 1) m k j (From-mono m (omega arith) o.1))

next_from-full :
    (c : ℕ) (m : Map Entry) (j : ℕ)
    → From c m
    → next_from c m ≡ none
    → c ≤ j
    → j ≤ int_max
    → find j m ≢ none
unfolding next_from find
next_from-full c [] j o e l h = ground arith
next_from-full c ((fd, v) ∷ m) j o e l h =
    ground (arith, next_from-full (c + 1) m j (From-mono m (omega arith) o.1))

next_from-bound :
    (c : ℕ) (m : Map Entry) (k : ℕ) → c ≤ int_max → next_from c m ≡ some k → k ≤ int_max
unfolding next_from
next_from-bound c [] k l e = ground arith
next_from-bound c ((fd, v) ∷ m) k l e = ground (arith, next_from-bound (c + 1) m k)

-- Absent, an int, and above nothing but taken descriptors.
abbrev pub IsLowestFree : FdManager → ℕ → Type 0
IsLowestFree d fd =
    (find fd d.entries ≡ none) × (fd ≤ int_max) × ((j : ℕ) → j < fd → find j d.entries ≢ none)

abbrev pub IsFull : FdManager → Type 0
IsFull d = (j : ℕ) → j ≤ int_max → find j d.entries ≢ none

pub get_next_fd-IsLowestFree :
    (d : FdManager) (fd : ℕ) → Ordered d.entries → get_next_fd d ≡ some fd → IsLowestFree d fd
unfolding get_next_fd
get_next_fd-IsLowestFree d fd o e = (
  next_from-free 0 d.entries fd o e,
  next_from-bound 0 d.entries fd (omega arith) e,
  λ j h. next_from-taken 0 d.entries fd j o e (omega arith) h,
)

-- What an allocation with valid flags does.
pub data Allocated (d : FdManager) (e : Entry) : SysResult × FdManager → Type 0 where
  lowest :
      (fd : ℕ) → IsLowestFree d fd → Allocated d e (ret fd, record { entries = put fd e d.entries })
  full : IsFull d → Allocated d e (errno emfile, d)

emplace_next-Allocated :
    (d : FdManager) (e : Entry) (r : Option ℕ)
    → Ordered d.entries
    → get_next_fd d ≡ r
    → Allocated d e (emplace_next d e r)
unfolding emplace_next get_next_fd
emplace_next-Allocated d e none o h = full (λ j l. next_from-full 0 d.entries j o h (omega arith) l)
emplace_next-Allocated d e (some fd) o h = lowest fd (get_next_fd-IsLowestFree d fd o h)

-- With valid flags an allocation does not throw: it enters the flags at the lowest free descriptor,
-- or it answers EMFILE, changes nothing, and every descriptor up to INT_MAX is taken.
pub allocate_fd-Allocated :
    (d : FdManager) (kind : FdType) (status descriptor : ℕ)
    → Ordered d.entries
    → valid_entry kind status descriptor ≡ true
    → let e : Entry = record {
      kind = kind;
      status_flags = status;
      descriptor_flags = descriptor;
    } in
      (r : SysResult × FdManager) × (allocate_fd d kind status descriptor ≡ ok r) × Allocated d e r
unfolding allocate_fd
allocate_fd-Allocated d kind status descriptor o v =
    let e : Entry = record { kind = kind; status_flags = status; descriptor_flags = descriptor } in
    (emplace_next d e (get_next_fd d), rw v refl, emplace_next-Allocated d e (get_next_fd d) o refl)

-- What no entry may have: an unknown kind, a negative status, which is a pattern above INT_MAX, both
-- bits of the access mode, O_ASYNC, O_DIRECT or O_NOATIME, or a descriptor flag but FD_CLOEXEC, which
-- is 1.
pub data Refused (kind : FdType) (status descriptor : ℕ) : Type 0 where
  unknown_kind : kind ≡ FdType.unknown → Refused kind status descriptor
  negative : 2147483647 < status → Refused kind status descriptor
  both_modes : status % 4 ≡ 3 → Refused kind status descriptor
  asynchronous : status / 8192 % 2 ≡ 1 → Refused kind status descriptor
  direct : status / 16384 % 2 ≡ 1 → Refused kind status descriptor
  no_access_time : status / 262144 % 2 ≡ 1 → Refused kind status descriptor
  other_flag : 1 < descriptor → Refused kind status descriptor

known_kind : (kind : FdType) → valid_kind kind ≡ false → kind ≡ FdType.unknown
unfolding valid_kind
known_kind FdType.unknown h = refl
known_kind FdType.stdio h = ground arith
known_kind FdType.file h = ground arith
known_kind FdType.socket h = ground arith
known_kind FdType.pipe h = ground arith
known_kind FdType.epoll h = ground arith

Refused-invalid :
    {kind : FdType} {status descriptor : ℕ}
    → Refused kind status descriptor
    → valid_entry kind status descriptor ≡ false
unfolding valid_entry valid_kind
Refused-invalid (unknown_kind e) = rw e refl
Refused-invalid (negative h) = ground arith
Refused-invalid (both_modes h) = ground arith
Refused-invalid (asynchronous h) = ground arith
Refused-invalid (direct h) = ground arith
Refused-invalid (no_access_time h) = ground arith
Refused-invalid (other_flag h) = ground arith

invalid-Refused :
    (kind : FdType) (status descriptor : ℕ)
    → valid_entry kind status descriptor ≡ false
    → Refused kind status descriptor
unfolding valid_entry
invalid-Refused kind status descriptor h = elim (Bool-cases (valid_kind kind)) [
  | inr e ↦ unknown_kind (known_kind kind e)
  | inl e ↦ elim (Bool-cases (leb status int_max)) [
    | inr a ↦ negative (ground arith)
    | inl a ↦ elim (Bool-cases (status % 4 == 3)) [
      | inl b ↦ both_modes (ground arith)
      | inr b ↦ elim (Bool-cases (leb descriptor 1)) [
        | inr c ↦ other_flag (ground arith)
        | inl c ↦ unsupported_flag (ground arith)
      ]
    ]
  ]
]
  where
    unsupported_flag : unsupported status ≡ true → Refused kind status descriptor
    unsupported_flag u = elim (Bool-cases (has_bit o_async status)) [
      | inl a ↦ asynchronous (ground arith)
      | inr a ↦ elim (Bool-cases (has_bit o_direct status)) [
        | inl b ↦ direct (ground arith)
        | inr b ↦ no_access_time (ground arith)
      ]
    ]

-- An allocation throws exactly when its kind or flags are refused.
pub allocate_fd-throws :
    (d : FdManager) (kind : FdType) (status descriptor : ℕ)
    → (allocate_fd d kind status descriptor ≡ throws FdError.invalid_entry)
      ↔ Refused kind status descriptor
unfolding allocate_fd
allocate_fd-throws d kind status descriptor = (
  λ e. invalid-Refused kind status descriptor (ground arith),
  λ r. let bad = Refused-invalid r in ground arith,
)

-- Releasing the descriptor that an allocation took gives every lookup its old answer.
pub release_fd-allocate_fd :
    (d : FdManager) (kind : FdType) (status descriptor fd j : ℕ) (t : FdManager)
    → Ordered d.entries
    → allocate_fd d kind status descriptor ≡ ok (ret fd, t)
    → find j (release_fd t fd).entries ≡ find j d.entries
unfolding allocate_fd release_fd emplace_next
release_fd-allocate_fd d kind status descriptor fd j t o e = ground (
  arith,
  get_next_fd-IsLowestFree d fd o,
  find-put fd j (record { kind = kind; status_flags = status; descriptor_flags = descriptor })
      d.entries,
  find-erase fd j t.entries,
)

-- The entry of an allocation that took a descriptor.
pub allocate_fd-ret :
    (d : FdManager) (kind : FdType) (status descriptor fd : ℕ) (t : FdManager)
    → Ordered d.entries
    → allocate_fd d kind status descriptor ≡ ok (ret fd, t)
    → let e : Entry = record {
      kind = kind;
      status_flags = status;
      descriptor_flags = descriptor;
    } in
      (find fd d.entries ≡ none) × (t ≡ record { entries = put fd e d.entries })
unfolding allocate_fd emplace_next
allocate_fd-ret d kind status descriptor fd t o e =
    (ground (arith, get_next_fd-IsLowestFree d fd o), ground arith)
