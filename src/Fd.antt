-- ===== src/Fd.antt =====
-- The descriptor table of a node, src/subsys/fs/fd_manager.{h,cpp}. Flag words are the 32-bit patterns
-- of the source's ints, and a mask test reads the bit by division; a descriptor in the table is never
-- negative, so a negative argument finds no entry, as any other absent key.
pub mod Lowest
pub mod Fcntl
pub mod Archive
mod Tests
use det_sim.Base.{
  ℕ, ◌+◌, ◌-◌, ◌*◌, ◌/◌, ◌%◌, Bool, true, false, ◌&&◌, ◌||◌, Option, none, some, [], ◌∷◌, leb, ltb,
  ◌==◌, if◌then◌else◌, not, Outcome, ok, throw_if, ◌>>=◌, ◌>>◌, throws, SysResult, ret, errno,
  ebadf, emfile, List,
}
use det_sim.Base.Map.{Map, find, put, modify, erase, contains, keys}

pub data FdType : Type 0 where
  file socket epoll pipe stdio unknown : FdType

pub record Entry : Type 0 where
  pub kind : FdType
  pub status_flags : ℕ
  pub descriptor_flags : ℕ

pub record FdManager : Type 0 where
  pub entries : Map Entry

pub data FdError : Type 0 where
  invalid_entry unsupported_flags unsupported_command archive_limit duplicate_descriptor truncated :
      FdError

abbrev pub int_max : ℕ
int_max = 2147483647

-- `x & 2^k` is non-zero, for the weight 2^k.
abbrev pub has_bit : ℕ → ℕ → Bool
has_bit weight x = (x / weight) % 2 == 1

abbrev pub o_rdonly : ℕ
o_rdonly = 0

abbrev pub o_wronly : ℕ
o_wronly = 1

abbrev pub o_rdwr : ℕ
o_rdwr = 2

abbrev pub o_nonblock : ℕ
o_nonblock = 2048

abbrev pub o_async : ℕ
o_async = 8192

abbrev pub o_direct : ℕ
o_direct = 16384

abbrev pub o_noatime : ℕ
o_noatime = 262144

abbrev pub fd_cloexec : ℕ
fd_cloexec = 1

-- `x & (O_ASYNC | O_DIRECT | O_NOATIME)` is non-zero.
abbrev pub unsupported : ℕ → Bool
unsupported x = has_bit o_async x || has_bit o_direct x || has_bit o_noatime x

-- `x & (O_APPEND | O_NONBLOCK)`, which are the bits 10 and 11.
abbrev pub settable : ℕ → ℕ
settable x = x / 1024 % 4 * 1024

pub valid_kind : FdType → Bool
valid_kind unknown = false
valid_kind _ = true

-- `status < 0` reads the sign bit; `descriptor & ~FD_CLOEXEC` is zero for 0 and 1 alone.
unfoldable pub valid_entry : FdType → ℕ → ℕ → Bool
unfolding valid_kind
valid_entry kind status descriptor =
    valid_kind kind
    && leb status int_max
    && not (status % 4 == 3)
    && not (unsupported status)
    && leb descriptor 1

unfoldable pub validate_entry : FdType → ℕ → ℕ → Outcome FdError (Unit {0})
unfolding valid_entry
validate_entry kind status descriptor =
    throw_if (not (valid_entry kind status descriptor)) FdError.invalid_entry

unfoldable pub initial : FdManager
initial = record {
  entries =
      (0, record { kind = stdio; status_flags = o_rdonly; descriptor_flags = 0 })
      ∷ (1, record { kind = stdio; status_flags = o_wronly; descriptor_flags = 0 })
      ∷ (2, record { kind = stdio; status_flags = o_wronly; descriptor_flags = 0 })
      ∷ [];
}

-- The loop of `get_next_fd` from `candidate` on; `none` is -EMFILE.
unfoldable pub next_from : ℕ → Map Entry → Option ℕ
next_from candidate [] = some candidate
next_from candidate ((fd, entry) ∷ m) =
    let rest = next_from (candidate + 1) m in
    if ltb candidate fd then some candidate else if candidate == int_max then none else rest

unfoldable pub get_next_fd : FdManager → Option ℕ
unfolding next_from
get_next_fd d = next_from 0 d.entries

-- `emplace` at the free descriptor, if there is one.
emplace_next : FdManager → Entry → Option ℕ → SysResult × FdManager
emplace_next d e none = (errno emfile, d)
emplace_next d e (some fd) = (ret fd, record d { entries = put fd e d.entries })

unfoldable pub allocate_fd : FdManager → FdType → ℕ → ℕ → Outcome FdError (SysResult × FdManager)
unfolding validate_entry emplace_next
allocate_fd d kind status descriptor = do
  validate_entry kind status descriptor
  ok (
      emplace_next d (record { kind = kind; status_flags = status; descriptor_flags = descriptor })
        (get_next_fd d))

unfoldable pub release_fd : FdManager → ℕ → FdManager
release_fd d fd = record d { entries = erase fd d.entries }

abbrev kind_of : Option Entry → FdType
kind_of none = unknown
kind_of (some e) = e.kind

unfoldable pub get_fd_type : FdManager → ℕ → FdType
get_fd_type d fd = kind_of (find fd d.entries)

unfoldable pub is_allocated : FdManager → ℕ → Bool
is_allocated d fd = contains fd d.entries

unfoldable pub get_status_flags : FdManager → ℕ → SysResult
get_status_flags d fd = elim (find fd d.entries) [
  | none ↦ errno ebadf
  | some e ↦ ret e.status_flags
]

unfoldable pub get_descriptor_flags : FdManager → ℕ → SysResult
get_descriptor_flags d fd = elim (find fd d.entries) [
  | none ↦ errno ebadf
  | some e ↦ ret e.descriptor_flags
]

-- The commands that the switch names, and any other.
pub data Command : Type 0 where
  f_getfl f_getfd f_setfd f_setfl : Command
  other : ℕ → Command

abbrev set_descriptor : ℕ → Entry → Entry
set_descriptor argument e = record e { descriptor_flags = argument % 2 }

abbrev set_status : ℕ → Entry → Entry
set_status argument e = record e {
  status_flags = e.status_flags - settable e.status_flags + settable argument;
}

fcntl_entry : FdManager → ℕ → Command → ℕ → Entry → Outcome FdError (SysResult × FdManager)
fcntl_entry d fd f_getfl argument e = ok (ret e.status_flags, d)
fcntl_entry d fd f_getfd argument e = ok (ret e.descriptor_flags, d)
fcntl_entry d fd f_setfd argument e =
    ok (ret 0, record d { entries = modify fd (set_descriptor argument) d.entries })
fcntl_entry d fd f_setfl argument e =
    if unsupported argument
    then throws FdError.unsupported_flags
    else ok (ret 0, record d { entries = modify fd (set_status argument) d.entries })
fcntl_entry d fd (other c) argument e = throws FdError.unsupported_command

unfoldable pub do_fcntl : FdManager → ℕ → Command → ℕ → Outcome FdError (SysResult × FdManager)
unfolding fcntl_entry
do_fcntl d fd command argument = elim (find fd d.entries) [
  | none ↦ ok (errno ebadf, d)
  | some e ↦ fcntl_entry d fd command argument e
]

unfoldable pub get_allocated_fds : FdManager → List ℕ
get_allocated_fds d = keys d.entries
