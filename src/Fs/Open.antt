-- ===== src/Fs/Open.antt =====
-- do_openat: a descriptor for a path, with a new file where the flags ask for one.
use Prim.Native.Nat.{bit_and}
use det_sim.Base.{
  ℕ, ◌+◌, ◌-◌, ◌*◌, ◌/◌, ◌%◌, Bool, true, false, ◌&&◌, ◌||◌, not, Option, none, some, [], ◌∷◌, leb,
  ◌==◌, if◌then◌else◌, Outcome, ok, throws, throw_if, ◌>>=◌, ◌>>◌, SysResult, ret, errno, enoent,
  einval, eexist, enotdir, eloop, eisdir, etxtbsy, emfile,
}
use det_sim.Base.Map.{put, contains}
use det_sim.Fd.{FdType, get_next_fd, has_bit}
use det_sim.Fs.Strings.{Text, same, has_byte, is_empty, parent_of}
use det_sim.Fs.Tree.{look, put_at, change_at}
use det_sim.Fs.State.{Time, VfsNode, FileSystemState, FsError, Reply, is_dir, is_link, allocate}
use det_sim.Fs.Resolve.{DirFd, Options, resolve_path_checked, arrive}
use det_sim.Fs.Files.{require_unmapped_file, set_content}

-- The flags of an open by their weights: O_CREAT, O_EXCL, O_TRUNC, O_DIRECTORY, O_NOFOLLOW, O_CLOEXEC,
-- and those that are not supported.
abbrev pub o_creat : ℕ
o_creat = 64

abbrev pub o_excl : ℕ
o_excl = 128

abbrev pub o_trunc : ℕ
o_trunc = 512

abbrev pub o_directory : ℕ
o_directory = 65536

abbrev pub o_nofollow : ℕ
o_nofollow = 131072

abbrev pub o_cloexec : ℕ
o_cloexec = 524288

abbrev pub unsupported_open : ℕ → Bool
unsupported_open flags =
    has_bit 8192 flags
    || has_bit 16384 flags
    || has_bit 262144 flags
    || has_bit 2097152 flags
    || has_bit 4194304 flags && has_bit o_directory flags

-- `flags & ~(O_CLOEXEC | O_CREAT | O_EXCL | O_TRUNC)`.
abbrev pub status_of : ℕ → ℕ
status_of flags =
    flags
    - (flags / o_cloexec % 2 * o_cloexec
        + (flags / o_creat % 2 * o_creat
            + (flags / o_excl % 2 * o_excl + flags / o_trunc % 2 * o_trunc)))

abbrev pub guest_inode_limit : ℕ
guest_inode_limit = 9223372036854775808

-- "/proc/self/exe" and "/proc/self".
abbrev pub proc_self : Text
proc_self = b'/' ∷ b'p' ∷ b'r' ∷ b'o' ∷ b'c' ∷ b'/' ∷ b's' ∷ b'e' ∷ b'l' ∷ b'f' ∷ []

abbrev pub proc_self_exe : Text
proc_self_exe =
    b'/' ∷ b'p' ∷ b'r' ∷ b'o' ∷ b'c' ∷ b'/' ∷ b's' ∷ b'e' ∷ b'l' ∷ b'f' ∷ b'/' ∷ b'e' ∷ b'x' ∷ b'e'
    ∷ []

-- Whether the path is what the captured executable link names.
unfoldable pub is_executable : FileSystemState → Text → Bool
is_executable s path = elim (look proc_self_exe s.filesystem) [
  | none ↦ false
  | some n ↦ is_link n && same n.content path
]

abbrev pub exclusive : ℕ → Bool
exclusive flags = has_bit o_creat flags && has_bit o_excl flags

abbrev pub writes_to : ℕ → Bool
writes_to flags = not (flags % 4 == 0)

-- What stands in the way of opening an object that is there.
unfoldable pub existing_error : ℕ → VfsNode → Option SysResult
existing_error flags n =
    if is_link n
    then (if exclusive flags
        then some (errno eexist)
        else if has_bit o_directory flags
        then some (errno enotdir)
        else some (errno eloop))
    else if exclusive flags
    then some (errno eexist)
    else if has_bit o_directory flags && not (is_dir n)
    then some (errno enotdir)
    else if is_dir n && (has_bit o_creat flags || writes_to flags)
    then some (errno eisdir)
    else none

unfoldable pub missing_error : ℕ → Option SysResult
missing_error flags =
    if has_bit o_directory flags || not (has_bit o_creat flags) then some (errno enoent) else none

unfoldable pub object_error : ℕ → Option VfsNode → Option SysResult
object_error flags none = missing_error flags
object_error flags (some n) = existing_error flags n

-- `S_IFREG | ((mode & 07777) & ~creation_mask_)`.
abbrev pub created_mode : ℕ → ℕ → ℕ
created_mode mode mask = 32768 + (mode % 4096 - bit_and (mode % 4096) mask)

unfoldable pub new_file : FileSystemState → ℕ → Time → VfsNode
new_file s mode now = record {
  content = [];
  metadata = record {
    size = 0;
    mode = created_mode mode s.creation_mask;
    ino = s.next_inode;
    mtime = now;
  };
}

abbrev pub touched : Time → VfsNode → VfsNode
touched now n = record n { metadata = record n.metadata { mtime = now } }

-- The new inode is published, and its parent's time is set.
unfoldable pub publish : FileSystemState → Text → ℕ → Time → FileSystemState
publish s path mode now = record s {
  filesystem =
      change_at (parent_of path) (touched now) (put_at path (new_file s mode now) s.filesystem);
  next_inode = s.next_inode + 1;
}

abbrev pub is_directory : Option VfsNode → Bool
is_directory none = false
is_directory (some n) = is_dir n

-- What is prepared of a file that is not there: its parent is a directory, and an inode is left.
unfoldable pub prepare_new : FileSystemState → Text → Bool → Outcome FsError (Unit {0})
prepare_new s path true = ok tt
prepare_new s path false = do
  throw_if (not (is_directory (look (parent_of path) s.filesystem))) FsError.no_parent
  throw_if (leb guest_inode_limit s.next_inode) FsError.inodes_exhausted

abbrev pub truncates : ℕ → Bool
truncates flags = has_bit o_trunc flags && writes_to flags

unfoldable pub enter_open : FileSystemState → Text → ℕ → ℕ → Time → Bool → ℕ → FileSystemState
enter_open s path flags mode now exists fd =
    let t = if exists then s else publish s path mode now in
    let u = if truncates flags then set_content path [] now t else t in
    record u { open_files = put fd (record { path = path; offset = 0 }) u.open_files }

-- The descriptor that was allocated must be the one that was expected.
unfoldable pub finish_open : Text → ℕ → ℕ → Time → Bool → ℕ → SysResult × FileSystemState → Reply
finish_open path flags mode now exists candidate (errno e, t) = ok (errno e, t)
finish_open path flags mode now exists candidate (ret fd, t) =
    if not (fd == candidate)
    then throws FsError.allocation_changed
    else ok (ret fd, enter_open t path flags mode now exists fd)

unfoldable pub allocate_open : FileSystemState → Text → ℕ → ℕ → Time → Bool → ℕ → Reply
allocate_open s path flags mode now exists candidate = do
  throw_if (contains candidate s.open_files) FsError.stale_description
  prepare_new s path exists
  r ← allocate s FdType.file (status_of flags) (flags / o_cloexec % 2)
  finish_open path flags mode now exists candidate r

unfoldable pub open_object : FileSystemState → Text → ℕ → ℕ → Time → Bool → Reply
open_object s path flags mode now exists =
    if is_executable s path && (writes_to flags || has_bit o_trunc flags)
    then ok (errno etxtbsy, s)
    else do
      (if has_bit o_trunc flags then require_unmapped_file s path else ok tt)
      elim (get_next_fd s.fds) [
        | none ↦ ok (errno emfile, s)
        | some candidate ↦ allocate_open s path flags mode now exists candidate
      ]

abbrev pub is_there : Option VfsNode → Bool
is_there none = false
is_there (some n) = true

-- The object of the resolved path.
unfoldable pub open_resolved : FileSystemState → ℕ → ℕ → Time → Text → Reply
open_resolved s flags mode now path =
    if same path proc_self && has_bit o_nofollow flags
    then throws FsError.proc_self
    else elim (object_error flags (look path s.filesystem)) [
      | some e ↦ ok (e, s)
      | none ↦ open_object s path flags mode now (is_there (look path s.filesystem))
    ]

abbrev pub open_options : ℕ → Options
open_options flags = record {
  follow_final = not (exclusive flags) && not (has_bit o_nofollow flags);
  check_search = false;
  creating = has_bit o_creat flags;
}

unfoldable pub do_openat : FileSystemState → DirFd → Text → ℕ → ℕ → Time → Reply
do_openat s dirfd path flags mode now =
    if is_empty path
    then ok (errno enoent, s)
    else if has_byte 0 path
    then ok (errno einval, s)
    else if flags % 4 == 3 || has_bit o_creat flags && has_bit o_directory flags
    then ok (errno einval, s)
    else if unsupported_open flags
    then throws FsError.unsupported_flags
    else arrive (λ e. (errno e, s)) (open_resolved s flags mode now)
        (resolve_path_checked s (open_options flags) dirfd path)
