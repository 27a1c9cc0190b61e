-- ===== src/Fs/Pipes.antt =====
-- Pipes: do_pipe, do_pipe_read, do_pipe_write and do_pipe_close.
use det_sim.Base.{
  ℕ, zero, suc, ◌+◌, ◌-◌, ◌*◌, ◌/◌, ◌%◌, Bool, true, false, ◌&&◌, ◌||◌, not, Option, none, some,
  List, [], ◌++◌, ltb, leb, ◌==◌, if◌then◌else◌, length, take, drop, min, ℤ, pos, negsuc, Outcome,
  ok, throws, ◌>>=◌, SysResult, ret, errno, einval, emfile, ebadf, eagain, efault, epipe,
}
use det_sim.Base.Map.{Map, find, put, erase, modify, contains}
use det_sim.Fd.{FdType, get_fd_type, get_status_flags, has_bit, o_nonblock, o_rdonly, o_wronly}
use det_sim.Fs.State.{
  Pipe, FileSystemState, FsError, Reply, pipe_capacity, pipe_atomic_limit, allocate, release,
}

abbrev pub o_cloexec : ℕ
o_cloexec = 524288

-- `flag & weight`, for one bit.
abbrev pub kept : ℕ → ℕ → ℕ
kept weight flags = flags / weight % 2 * weight

abbrev pub is_pipe_kind : FdType → Bool
is_pipe_kind FdType.pipe = true
is_pipe_kind FdType.file = false
is_pipe_kind FdType.socket = false
is_pipe_kind FdType.epoll = false
is_pipe_kind FdType.stdio = false
is_pipe_kind FdType.unknown = false

-- The loop for a pipe id; the fuel, one more than the number of pipes, is enough.
unfoldable pub free_id : ℕ → ℕ → Map Pipe → Option ℕ
free_id zero id m = none
free_id (suc fuel) id m =
    let rest = free_id fuel (id + 1) m in if contains id m then rest else some id

abbrev pub new_pipe : Pipe
new_pipe = record { buffer = []; read_closed = false; write_closed = false }

abbrev pub with_pipes : FileSystemState → Map Pipe → FileSystemState
with_pipes s m = record s { piped = record { pipe_fds = s.piped.pipe_fds; pipes = m } }

abbrev pub with_ends : FileSystemState → Map ℤ → FileSystemState
with_ends s m = record s { piped = record { pipe_fds = m; pipes = s.piped.pipes } }

-- A reading end, and a writing end: the id is not 0.
abbrev pub writing_id : ℕ → ℤ
writing_id zero = pos 0
writing_id (suc n) = negsuc n

-- What `pipefd` is set to.
pub record Ends : Type 0 where
  pub read_fd : ℕ
  pub write_fd : ℕ

abbrev pub PipeReply : Type 0
PipeReply = SysResult × Option Ends × FileSystemState

-- The ends that were allocated are released again, and the pipe is dropped.
unfoldable pub undo : FileSystemState → ℕ → SysResult → SysResult → PipeReply
undo s id (ret r) (ret w) =
    let t = release (release s r) w in (errno emfile, none, with_pipes t (erase id t.piped.pipes))
undo s id (ret r) (errno e) =
    let t = release s r in (errno emfile, none, with_pipes t (erase id t.piped.pipes))
undo s id (errno e) (ret w) =
    let t = release s w in (errno emfile, none, with_pipes t (erase id t.piped.pipes))
undo s id (errno e) (errno f) = (errno emfile, none, with_pipes s (erase id s.piped.pipes))

unfoldable pub record_ends : FileSystemState → ℕ → SysResult → SysResult → PipeReply
record_ends s id (ret r) (ret w) = (
  ret 0,
  some (record { read_fd = r; write_fd = w }),
  with_ends s (put w (writing_id id) (put r (pos id) s.piped.pipe_fds)),
)
record_ends s id (ret r) (errno e) = undo s id (ret r) (errno e)
record_ends s id (errno e) w = undo s id (errno e) w

abbrev pub descriptor_flag : ℕ → ℕ
descriptor_flag flags = if has_bit o_cloexec flags then 1 else 0

unfoldable pub create_pipe : FileSystemState → ℕ → Option ℕ → Outcome FsError PipeReply
create_pipe s flags none = throws FsError.no_fuel
create_pipe s flags (some id) = do
  (r, t) ←
      allocate (with_pipes s (put id new_pipe s.piped.pipes)) FdType.pipe
        (o_rdonly + kept o_nonblock flags) (descriptor_flag flags)
  (w, u) ← allocate t FdType.pipe (o_wronly + kept o_nonblock flags) (descriptor_flag flags)
  ok (record_ends u id r w)

unfoldable pub do_pipe : FileSystemState → ℕ → Outcome FsError PipeReply
do_pipe s flags =
    if not (kept o_nonblock flags + kept o_cloexec flags == flags)
    then ok (errno einval, none, s)
    else create_pipe s flags (free_id (suc (length s.piped.pipes)) 1 s.piped.pipes)

unfoldable pub is_pipe : FileSystemState → ℕ → Bool
is_pipe s fd = contains fd s.piped.pipe_fds

-- The id of a descriptor of the table that is an end of a pipe.
unfoldable pub pipe_end : FileSystemState → ℕ → Option ℤ
pipe_end s fd = if is_pipe_kind (get_fd_type s.fds fd) then find fd s.piped.pipe_fds else none

-- The result, what is written into guest memory, and the state.
abbrev pub ReadReply : Type 0
ReadReply = SysResult × List ℕ × FileSystemState

unfoldable pub read_pipe : FileSystemState → ℕ → ℕ → Bool → Pipe → ReadReply
read_pipe s id count written p =
    let n = min count (length p.buffer) in
    if count == 0
    then (ret 0, [], s)
    else if length p.buffer == 0
    then (if p.write_closed then (ret 0, [], s) else (errno eagain, [], s))
    else if not written
    then (errno efault, [], s)
    else (
      ret n,
      take n p.buffer,
      with_pipes s (modify id (λ q. record q { buffer = drop n q.buffer }) s.piped.pipes),
    )

-- A writing end cannot read.
unfoldable pub read_end : FileSystemState → ℕ → Bool → ℤ → ReadReply
read_end s count written (negsuc n) = (errno ebadf, [], s)
read_end s count written (pos id) = elim (find id s.piped.pipes) [
  | none ↦ (errno ebadf, [], s)
  | some p ↦ read_pipe s id count written p
]

-- `written` says whether the write into guest memory succeeds.
unfoldable pub do_pipe_read : FileSystemState → ℕ → ℕ → Bool → ReadReply
do_pipe_read s fd count written = elim (pipe_end s fd) [
  | none ↦ (errno ebadf, [], s)
  | some e ↦ read_end s count written e
]

-- The bytes at the source in guest memory, for a length, or none.
abbrev pub Guest : Type 0
Guest = ℕ → Option (List ℕ)

unfoldable pub append_bytes :
    FileSystemState → ℕ → ℕ → Option (List ℕ) → SysResult × FileSystemState
append_bytes s id n none = (errno efault, s)
append_bytes s id n (some bs) =
    (ret n, with_pipes s (modify id (λ q. record q { buffer = q.buffer ++ bs }) s.piped.pipes))

abbrev pub nonblocking : SysResult → Bool
nonblocking (ret flags) = has_bit o_nonblock flags
nonblocking (errno e) = true

abbrev pub ssize_max : ℕ
ssize_max = 9223372036854775807

unfoldable pub write_pipe : FileSystemState → ℕ → ℕ → ℕ → Guest → Pipe → Reply
write_pipe s fd id count guest p =
    let available = pipe_capacity - length p.buffer in
    let n = min count available in
    if count == 0
    then ok (ret 0, s)
    else if p.read_closed
    then ok (errno epipe, s)
    else if ltb ssize_max count
    then ok (errno einval, s)
    else if ltb pipe_atomic_limit count
        && ltb available count
        && not (nonblocking (get_status_flags s.fds fd))
    then throws FsError.blocking_write
    else if available == 0 || leb count pipe_atomic_limit && ltb available count
    then ok (errno eagain, s)
    else ok (append_bytes s id n (guest n))

-- A reading end cannot write.
unfoldable pub write_end : FileSystemState → ℕ → ℕ → Guest → ℤ → Reply
write_end s fd count guest (pos (suc n)) = ok (errno ebadf, s)
write_end s fd count guest (pos zero) = elim (find 0 s.piped.pipes) [
  | none ↦ ok (errno ebadf, s)
  | some p ↦ write_pipe s fd 0 count guest p
]
write_end s fd count guest (negsuc n) = elim (find (suc n) s.piped.pipes) [
  | none ↦ ok (errno ebadf, s)
  | some p ↦ write_pipe s fd (suc n) count guest p
]

unfoldable pub do_pipe_write : FileSystemState → ℕ → ℕ → Guest → Reply
do_pipe_write s fd count guest = elim (pipe_end s fd) [
  | none ↦ ok (errno ebadf, s)
  | some e ↦ write_end s fd count guest e
]

-- One end is marked as closed; a pipe with both ends closed is dropped.
unfoldable pub close_reading : Pipe → Pipe
close_reading p = record p { read_closed = true }

unfoldable pub close_writing : Pipe → Pipe
close_writing p = record p { write_closed = true }

unfoldable pub drop_closed : ℕ → Map Pipe → Map Pipe
drop_closed id m = elim (find id m) [
  | none ↦ m
  | some p ↦ if p.read_closed && p.write_closed then erase id m else m
]

unfoldable pub close_id : ℤ → Map Pipe → Map Pipe
close_id (pos (suc n)) m = drop_closed (suc n) (modify (suc n) close_reading m)
close_id (pos zero) m = drop_closed 0 (modify 0 close_writing m)
close_id (negsuc n) m = drop_closed (suc n) (modify (suc n) close_writing m)

unfoldable pub do_pipe_close : FileSystemState → ℕ → SysResult × FileSystemState
do_pipe_close s fd = elim (pipe_end s fd) [
  | none ↦ (errno ebadf, s)
  | some e ↦ (
    ret 0,
    release
        (record s {
          piped = record { pipe_fds = erase fd s.piped.pipe_fds; pipes = close_id e s.piped.pipes };
        })
        fd,
  )
]
