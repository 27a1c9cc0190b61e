-- ===== src/Fs/State.antt =====
-- The data of fsstate.h, with the minimal metadata. Numbers of bytes are native; a time of a file is
-- what `modeled_fs_time` gives, an argument of the calls that set it.
use det_sim.Base.{ℕ, ◌/◌, ◌%◌, Bool, List, ◌==◌, ℤ, Outcome, ok, throws, SysResult}
use det_sim.Base.Map.{Map}
use det_sim.Fd.{FdManager, FdType, FdError, allocate_fd, release_fd}
use det_sim.Fs.Strings.{Text}
use det_sim.Fs.Tree.{Tree}

pub record Time : Type 0 where
  pub seconds : ℕ
  pub nanoseconds : ℕ

pub record Metadata : Type 0 where
  pub size : ℕ
  pub mode : ℕ
  pub ino : ℕ
  pub mtime : Time

pub record VfsNode : Type 0 where
  pub content : List ℕ
  pub metadata : Metadata

pub record OpenFileDescription : Type 0 where
  pub path : Text
  pub offset : ℕ

pub record Pipe : Type 0 where
  pub buffer : List ℕ
  pub read_closed : Bool
  pub write_closed : Bool

-- The pipes by id, and the ids of the descriptors: positive for a reading end, negative for a writing
-- end.
pub record Pipes : Type 0 where
  pub pipe_fds : Map ℤ
  pub pipes : Map Pipe

abbrev pub pipe_capacity : ℕ
pipe_capacity = 65536

abbrev pub pipe_atomic_limit : ℕ
pipe_atomic_limit = 4096

-- A source of a mapping: its exclusive end and the file.
pub record Source : Type 0 where
  pub stop : ℕ
  pub path : Text

pub record FileSystemState : Type 0 where
  pub filesystem : Tree VfsNode
  pub open_files : Map OpenFileDescription
  pub virtual_file_mappings : Map ℕ
  pub virtual_file_mapping_sources : Map Source
  pub cwd : Text
  pub fds : FdManager
  pub creation_mask : ℕ
  pub next_inode : ℕ
  pub piped : Pipes

pub data FsError : Type 0 where
  invalid_descriptor blocking_write unaligned_removal invalid_source mapped_file search_permission
        null_in_link no_payload unsupported_flags proc_self stale_description no_parent
        inodes_exhausted allocation_changed dense_growth out_of_range directory_removal rename_mode
        executable_link running_executable open_object sticky_directory unsupported_leaf
        inode_collision invalid_inodes root_rename directory_move not_a_directory empty_access
        no_fuel :
      FsError

-- What a call gives, with the state that it leaves.
abbrev pub Reply : Type 0
Reply = Outcome FsError (SysResult × FileSystemState)

-- The type bits of a mode, `mode & S_IFMT`.
abbrev pub file_type : ℕ → ℕ
file_type mode = mode / 4096 % 16

abbrev pub is_dir : VfsNode → Bool
is_dir n = file_type n.metadata.mode == 4

abbrev pub is_reg : VfsNode → Bool
is_reg n = file_type n.metadata.mode == 8

abbrev pub is_link : VfsNode → Bool
is_link n = file_type n.metadata.mode == 10

-- `S_ISVTX`.
abbrev pub is_sticky : VfsNode → Bool
is_sticky n = n.metadata.mode / 512 % 2 == 1

abbrev pub allocated : FileSystemState → Outcome FdError (SysResult × FdManager) → Reply
allocated s (ok (r, d)) = ok (r, record s { fds = d })
allocated s (throws e) = throws invalid_descriptor

-- `FileSystemState::allocate_fd`, with the descriptor table set.
unfoldable pub allocate : FileSystemState → FdType → ℕ → ℕ → Reply
allocate s kind status descriptor = allocated s (allocate_fd s.fds kind status descriptor)

-- `FileSystemState::release_fd`.
unfoldable pub release : FileSystemState → ℕ → FileSystemState
release s fd = record s { fds = release_fd s.fds fd }
