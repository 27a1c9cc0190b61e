-- ===== src/Fs/Query.antt =====
-- What a node asks of its files: do_stat, do_fstat, do_readlink, do_access, do_chdir and emu_getcwd.
use det_sim.Base.{
  ℕ, ◌+◌, ◌*◌, ◌/◌, ◌%◌, Bool, true, false, ◌&&◌, ◌||◌, not, Option, none, some, [], ◌∷◌, ◌++◌, ltb,
  leb, ◌==◌, if◌then◌else◌, length, Outcome, ok, throws, ◌>>=◌, SysResult, ret, errno, enoent,
  ebadf, enotdir, einval, eacces, erange, efault,
}
use det_sim.Base.Map.{find}
use det_sim.Fd.{is_allocated, has_bit}
use det_sim.Fs.Strings.{Text, same, is_empty, root, join_paths, is_absolute}
use det_sim.Fs.Tree.{look}
use det_sim.Fs.State.{Time, VfsNode, FileSystemState, FsError, Reply, is_dir, is_link}
use det_sim.Fs.Resolve.{DirFd, at_cwd, at_fd, Options, plain, resolve_path_checked, arrive, cwd_of}
use det_sim.Fs.Open.{proc_self}
use det_sim.Fs.Inodes.{vfs_inodes}

-- The fields of struct stat that the minimal metadata fill.
pub record Stat : Type 0 where
  pub size : ℕ
  pub mode : ℕ
  pub mtime : Time
  pub ino : ℕ

unfoldable pub copy_vfs_stat : VfsNode → ℕ → Stat
copy_vfs_stat n inode = record {
  size = n.metadata.size;
  mode = n.metadata.mode;
  mtime = n.metadata.mtime;
  ino = inode;
}

abbrev pub StatReply : Type 0
StatReply = Outcome FsError (SysResult × Option Stat)

abbrev pub not_following : Options
not_following = record { follow_final = false; check_search = false; creating = false }

abbrev pub following : Bool → Options
following follow = record { follow_final = follow; check_search = false; creating = false }

module _ (hash : Text → ℕ) where
  unfoldable pub stat_node : FileSystemState → Text → VfsNode → StatReply
  stat_node s path n = vfs_inodes hash s.filesystem >>= λ m. elim (look path m) [
    | none ↦ throws FsError.out_of_range
    | some inode ↦ ok (ret 0, some (copy_vfs_stat n inode))
  ]

  unfoldable pub stat_resolved : FileSystemState → Bool → Text → StatReply
  stat_resolved s follow path =
      if not follow && same path proc_self
      then throws FsError.proc_self
      else elim (look path s.filesystem) [
        | none ↦ ok (errno enoent, none)
        | some n ↦ stat_node s path n
      ]

  unfoldable pub do_stat : FileSystemState → Text → Bool → StatReply
  do_stat s path follow =
      arrive (λ e. (errno e, none)) (stat_resolved s follow)
        (resolve_path_checked s (following follow) at_cwd path)

  -- An open description names its object, with no walk.
  unfoldable pub do_fstat : FileSystemState → ℕ → StatReply
  do_fstat s fd = elim (find fd s.open_files) [
    | none ↦ ok (errno ebadf, none)
    | some d ↦
        if not (is_allocated s.fds fd)
        then ok (errno ebadf, none)
        else elim (look d.path s.filesystem) [
          | none ↦ throws FsError.no_payload
          | some n ↦ stat_node s d.path n
        ]
  ]

unfoldable pub readlink_resolved : FileSystemState → Text → Outcome FsError (SysResult × Text)
readlink_resolved s path =
    if same path proc_self then throws FsError.proc_self else elim (look path s.filesystem) [
      | none ↦ ok (errno enoent, [])
      | some n ↦ if not (is_link n) then ok (errno einval, []) else ok (ret 0, n.content)
    ]

unfoldable pub do_readlink : FileSystemState → Text → Outcome FsError (SysResult × Text)
do_readlink s path =
    arrive (λ e. (errno e, [])) (readlink_resolved s)
      (resolve_path_checked s not_following at_cwd path)

unfoldable pub chdir_resolved : FileSystemState → Text → Reply
chdir_resolved s path = elim (look path s.filesystem) [
  | none ↦ ok (errno enoent, s)
  | some n ↦ if not (is_dir n) then ok (errno enotdir, s) else ok (ret 0, record s { cwd = path })
]

unfoldable pub do_chdir : FileSystemState → Text → Reply
do_chdir s path =
    if is_empty path
    then ok (errno enoent, s)
    else arrive (λ e. (errno e, s)) (chdir_resolved s) (resolve_path_checked s plain at_cwd path)

unfoldable pub set_cwd : FileSystemState → Text → FileSystemState
set_cwd s path =
    if is_empty path
    then record s { cwd = root }
    else if is_absolute path
    then record s { cwd = path }
    else record s { cwd = join_paths s.cwd path }

-- The result, and what is written to the guest with its terminator.
unfoldable pub emu_getcwd : FileSystemState → ℕ → Bool → SysResult × Text
emu_getcwd s size written =
    let path = cwd_of s in
    if size == 0
    then (errno einval, [])
    else if ltb size (length path + 1)
    then (errno erange, [])
    else if not written
    then (errno efault, [])
    else (ret (length path + 1), path ++ 0 ∷ [])

-- R_OK is 4, W_OK 2 and X_OK 1; the owner's bits of a mode are 0400, 0200 and 0100.
unfoldable pub allowed_mode : VfsNode → ℕ → ℕ
allowed_mode n mode =
    let bits = n.metadata.mode in
    if not (is_dir n) && has_bit 2 mode
    then 0
    else bits / 256 % 2 * 4 + bits / 128 % 2 * 2 + bits / 64 % 2

-- `(allowed & mode) == mode`, of modes of three bits.
unfoldable pub covers : ℕ → ℕ → Bool
covers allowed mode =
    leb (mode % 2) (allowed % 2)
    && leb (mode / 2 % 2) (allowed / 2 % 2)
    && leb (mode / 4 % 2) (allowed / 4 % 2)

unfoldable pub access_at : FileSystemState → ℕ → Text → Outcome FsError SysResult
access_at s mode path = elim (look path s.filesystem) [
  | none ↦ ok (errno enoent)
  | some n ↦
      if not (mode == 0) && not (covers (allowed_mode n mode) mode)
      then ok (errno eacces)
      else ok (ret 0)
]

-- AT_SYMLINK_NOFOLLOW is 256, AT_EACCESS 512 and AT_EMPTY_PATH 4096.
abbrev pub access_flags : ℕ → ℕ
access_flags flags = flags / 256 % 2 * 256 + flags / 512 % 2 * 512 + flags / 4096 % 2 * 4096

abbrev pub access_options : ℕ → Options
access_options flags = record {
  follow_final = not (has_bit 256 flags);
  check_search = true;
  creating = false;
}

-- With AT_EMPTY_PATH an empty path is the directory itself.
unfoldable pub empty_access : FileSystemState → DirFd → ℕ → Outcome FsError SysResult
empty_access s at_cwd mode = access_at s mode (cwd_of s)
empty_access s (at_fd fd) mode =
    if not (is_allocated s.fds fd) then ok (errno ebadf) else elim (find fd s.open_files) [
      | none ↦ throws FsError.empty_access
      | some d ↦ access_at s mode d.path
    ]

unfoldable pub do_access : FileSystemState → DirFd → Text → ℕ → ℕ → Outcome FsError SysResult
do_access s dirfd path mode flags =
    if not (mode % 8 == mode) || not (access_flags flags == flags)
    then ok (errno einval)
    else if is_empty path && has_bit 4096 flags
    then empty_access s dirfd mode
    else arrive (λ e. errno e) (access_at s mode)
        (resolve_path_checked s (access_options flags) dirfd path)
