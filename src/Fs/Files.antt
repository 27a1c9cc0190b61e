-- ===== src/Fs/Files.antt =====
-- Open files: do_read, do_write, do_ftruncate, do_close and do_lseek.
use det_sim.Base.{
  ℕ, zero, suc, ◌+◌, ◌-◌, ◌%◌, Bool, true, false, ◌&&◌, ◌||◌, not, Option, none, some, List, [],
  ◌∷◌, ◌++◌, ltb, leb, ◌==◌, if◌then◌else◌, length, take, drop, min, ℤ, pos, negsuc, Outcome, ok,
  throws, ◌>>◌, throw_if, SysResult, ret, errno, ebadf, eisdir, efbig, einval, espipe, eoverflow,
}
use det_sim.Base.Map.{Map, find, erase, modify}
use det_sim.Fd.{FdType, is_allocated, get_status_flags, get_fd_type, has_bit}
use det_sim.Fs.Strings.{Text, same}
use det_sim.Fs.Tree.{look, change_at}
use det_sim.Fs.State.{
  Time, VfsNode, OpenFileDescription, Source, FileSystemState, FsError, Reply, is_dir, is_reg,
  release,
}

abbrev pub off_max : ℕ
off_max = 9223372036854775807

abbrev pub maximum_dense_growth : ℕ
maximum_dense_growth = 67108864

abbrev pub o_append : ℕ
o_append = 1024

unfoldable pub replicate : ℕ → ℕ → List ℕ
replicate zero x = []
replicate (suc n) x = x ∷ replicate n x

-- `vector::resize`: cut off, or filled with zeros.
unfoldable pub resize : ℕ → List ℕ → List ℕ
resize n bs = take n bs ++ replicate (n - length bs) 0

-- `FileContent::write`, where the extent does not overflow.
unfoldable pub write_at : ℕ → List ℕ → List ℕ → List ℕ
write_at offset source content =
    if length source == 0
    then content
    else resize offset content ++ (source ++ drop (offset + length source) content)

unfoldable pub any_source : Text → Map Source → Bool
any_source path [] = false
any_source path ((k, source) ∷ m) = same source.path path || any_source path m

unfoldable pub require_unmapped_file : FileSystemState → Text → Outcome FsError (Unit {0})
require_unmapped_file s path =
    throw_if (any_source path s.virtual_file_mapping_sources) FsError.mapped_file

-- An open file: its description and its node.
pub record Opened : Type 0 where
  pub description : OpenFileDescription
  pub node : VfsNode

-- A descriptor that is open and in the table, with the node that its description names.
unfoldable pub with_open :
    {A : Type 0} → FileSystemState → ℕ → A → (Opened → Outcome FsError A) → Outcome FsError A
with_open s fd bad k = elim (find fd s.open_files) [
  | none ↦ ok bad
  | some d ↦ if not (is_allocated s.fds fd) then ok bad else elim (look d.path s.filesystem) [
    | none ↦ throws FsError.out_of_range
    | some n ↦ k (record { description = d; node = n })
  ]
]

-- `get_status_flags(fd) & O_ACCMODE`, and one bit of the flags.
abbrev pub access_mode : FileSystemState → ℕ → ℕ
access_mode s fd = elim (get_status_flags s.fds fd) [ ret f ↦ f % 4 | errno e ↦ 3 ]

abbrev pub appends : FileSystemState → ℕ → Bool
appends s fd = elim (get_status_flags s.fds fd) [ ret f ↦ has_bit o_append f | errno e ↦ true ]

abbrev pub is_stdio : FdType → Bool
is_stdio FdType.stdio = true
is_stdio FdType.file = false
is_stdio FdType.socket = false
is_stdio FdType.epoll = false
is_stdio FdType.pipe = false
is_stdio FdType.unknown = false

abbrev pub is_file : FdType → Bool
is_file FdType.file = true
is_file FdType.stdio = false
is_file FdType.socket = false
is_file FdType.epoll = false
is_file FdType.pipe = false
is_file FdType.unknown = false

unfoldable pub set_offset : ℕ → ℕ → FileSystemState → FileSystemState
set_offset fd offset s = record s {
  open_files = modify fd (λ d. record d { offset = offset }) s.open_files;
}

-- The node of a file with a new content, whose size and time follow.
abbrev pub with_content : List ℕ → Time → VfsNode → VfsNode
with_content bs now n = record n {
  content = bs;
  metadata = record n.metadata { size = length bs; mtime = now };
}

unfoldable pub set_content : Text → List ℕ → Time → FileSystemState → FileSystemState
set_content path bs now s = record s {
  filesystem = change_at path (with_content bs now) s.filesystem;
}

-- The result of a read with the bytes that it gives.
abbrev pub Given : Type 0
Given = SysResult × List ℕ × FileSystemState

unfoldable pub read_opened : FileSystemState → ℕ → ℕ → Opened → Outcome FsError Given
read_opened s fd count f =
    let size = length f.node.content in
    let offset = f.description.offset in
    let n = min count (size - offset) in
    if is_dir f.node
    then ok (errno eisdir, [], s)
    else if access_mode s fd == 1
    then ok (errno ebadf, [], s)
    else if leb size offset || n == 0
    then ok (ret 0, [], s)
    else ok (ret n, take n (drop offset f.node.content), set_offset fd (offset + n) s)

unfoldable pub do_read : FileSystemState → ℕ → ℕ → Outcome FsError Given
do_read s fd count = with_open s fd (errno ebadf, [], s) (read_opened s fd count)

abbrev pub write_offset : FileSystemState → ℕ → Opened → ℕ
write_offset s fd f =
    if appends s fd || is_stdio (get_fd_type s.fds fd)
    then length f.node.content
    else f.description.offset

-- The write itself, at an offset.
unfoldable pub write_bytes_at : FileSystemState → ℕ → Time → Opened → List ℕ → ℕ → Reply
write_bytes_at s fd now f bs offset =
    if ltb (off_max - offset) (length bs)
    then ok (errno efbig, s)
    else ok (
      ret (length bs),
      set_offset fd (offset + length bs)
          (set_content f.description.path (write_at offset bs f.node.content) now s),
    )

unfoldable pub write_opened : FileSystemState → ℕ → Time → List ℕ → Opened → Reply
write_opened s fd now bs f =
    if access_mode s fd == 0
    then ok (errno ebadf, s)
    else if length bs == 0
    then ok (ret 0, s)
    else (require_unmapped_file s f.description.path
        >> write_bytes_at s fd now f bs (write_offset s fd f))

-- `bs` is the buffer, of `count` bytes.
unfoldable pub do_write : FileSystemState → ℕ → Time → List ℕ → Reply
do_write s fd now bs = with_open s fd (errno ebadf, s) (write_opened s fd now bs)

unfoldable pub resize_file : FileSystemState → ℕ → Time → ℕ → Text → VfsNode → Reply
resize_file s fd now size path n =
    if not (is_reg n) || access_mode s fd == 0 then ok (errno einval, s) else do
      require_unmapped_file s path
      throw_if (ltb (length n.content) size && ltb maximum_dense_growth (size - length n.content))
          FsError.dense_growth
      ok (ret 0, set_content path (resize size n.content) now s)

unfoldable pub truncate_open : FileSystemState → ℕ → Time → ℕ → Reply
truncate_open s fd now size = elim (find fd s.open_files) [
  | none ↦ throws FsError.no_payload
  | some d ↦ elim (look d.path s.filesystem) [
    | none ↦ throws FsError.out_of_range
    | some n ↦ resize_file s fd now size d.path n
  ]
]

unfoldable pub do_ftruncate : FileSystemState → ℕ → Time → ℤ → Reply
do_ftruncate s fd now (negsuc n) = ok (errno einval, s)
do_ftruncate s fd now (pos size) =
    if not (is_allocated s.fds fd)
    then ok (errno ebadf, s)
    else if not (is_file (get_fd_type s.fds fd))
    then ok (errno einval, s)
    else truncate_open s fd now size

unfoldable pub do_close_file : FileSystemState → ℕ → SysResult × FileSystemState
do_close_file s fd =
    if not (is_allocated s.fds fd) then (errno ebadf, s) else elim (find fd s.open_files) [
      | none ↦ (errno ebadf, s)
      | some d ↦ (ret 0, release (record s { open_files = erase fd s.open_files }) fd)
    ]

pub data Whence : Type 0 where
  seek_set seek_cur seek_end seek_other : Whence

-- The offset that a seek counts from, or none where it is refused.
unfoldable pub seek_base : Opened → Whence → Option ℕ
seek_base f seek_set = some 0
seek_base f seek_cur = some f.description.offset
seek_base f seek_end = if is_dir f.node then none else some (length f.node.content)
seek_base f seek_other = none

unfoldable pub seek_from : FileSystemState → ℕ → ℕ → ℤ → SysResult × FileSystemState
seek_from s fd base (pos n) =
    if ltb off_max (base + n)
    then (errno eoverflow, s)
    else (ret (base + n), set_offset fd (base + n) s)
seek_from s fd base (negsuc n) =
    if ltb base (suc n)
    then (errno einval, s)
    else (ret (base - suc n), set_offset fd (base - suc n) s)

unfoldable pub seek_opened : FileSystemState → ℕ → ℤ → Whence → Opened → Reply
seek_opened s fd offset whence f =
    if is_stdio (get_fd_type s.fds fd) then ok (errno espipe, s) else elim (seek_base f whence) [
      | none ↦ ok (errno einval, s)
      | some base ↦ ok (seek_from s fd base offset)
    ]

unfoldable pub do_lseek : FileSystemState → ℕ → ℤ → Whence → Reply
do_lseek s fd offset whence = with_open s fd (errno ebadf, s) (seek_opened s fd offset whence)
