-- ===== src/Fs/Tests.antt =====
-- The calls on a node with a directory of one file, which is open, a pipe and a mapping.
use det_sim.Base.{
  ℕ, ◌≡◌, ◌≢◌, refl, true, false, none, some, Option, List, [], ◌∷◌, arith, ok, throws, ret, pos,
  negsuc, not, ◌||◌, subst, length, Bool-cases, inl, inr,
}
use det_sim.Base.Map.{Ordered, find, put, emplace, modify, contains}
use det_sim.Fd.{
  FdType, Entry, is_allocated, get_status_flags, get_fd_type, allocate_fd, get_next_fd, valid_entry,
  validate_entry,
}
use det_sim.Fs.Strings.{
  Text, same, root, parent_of, same-eq, same_refl, before_last_slash, has_byte, is_empty,
}
use det_sim.Fs.Tree.{look, change_at}
use det_sim.Fs.State.{allocate, FileSystemState, FsError, Time, VfsNode, OpenFileDescription, Pipe}
use det_sim.Fs.Pipes.{
  Guest, pipe_end, do_pipe_read, do_pipe_write, do_pipe, free_id, create_pipe, record_ends,
  new_pipe, Ends, PipeReply,
}
use det_sim.Fs.Fifo.{HasPipe, PipeCall, reads, Exact, calls, IsQueue, calls-fifo}
use det_sim.Fs.Resolve.{at_cwd, resolve_path_checked, plain}
use det_sim.Fs.Files.{
  replicate, resize, write_at, with_open, set_offset, set_content, do_read, write_opened,
  write_bytes_at, do_write, require_unmapped_file, seek_set, do_lseek, any_source,
}
use det_sim.Fs.Ranges.{mapping_coverage, coverage_from, remove_range, remove_loop}
use det_sim.Fs.Mapped.{with_sources, remove_virtual_file_mapping}
use det_sim.Fs.Walk.{resolve_path_checked-ends}
use det_sim.Fs.TreeLaws.{IsTree, IsDir, IsThere}
use det_sim.Fs.TreeSteps.{TreeCall, tree_call, tree_call-IsTree}
use det_sim.Fs.Contents.{IsReadWrite, write_place, do_read-do_write, length-replicate}
use det_sim.Fs.MappedLaws.{IsMapped, Removed, remove_virtual_file_mapping-Removed}
use det_sim.Fs.Created.{IsNewPipe, do_pipe-IsNewPipe}
use det_sim.Fs.Total.{do_pipe-Returned}
use det_sim.Net.Epoll.{pipe_ready}
use det_sim.Net.Piped.{waits, reply_waits, pipe_ready-waits}

abbrev a_node : ℕ → VfsNode
a_node mode = record {
  content = 104 ∷ 105 ∷ [];
  metadata = record {
    size = 2;
    mode = mode;
    ino = 0;
    mtime = record { seconds = 0; nanoseconds = 0 };
  };
}

abbrev a_file : VfsNode
a_file = a_node 33188

-- The path /f.
abbrev file_path : Text
file_path = 47 ∷ 102 ∷ []

abbrev an_entry : FdType → ℕ → Entry
an_entry kind status = record { kind = kind; status_flags = status; descriptor_flags = 0 }

abbrev description : OpenFileDescription
description = record { path = file_path; offset = 1 }

abbrev a_pipe : Pipe
a_pipe = record { buffer = 7 ∷ []; read_closed = false; write_closed = false }

abbrev node : FileSystemState
node = record {
  filesystem = (root, a_node 16877) ∷ (file_path, a_file) ∷ [];
  open_files = (3, description) ∷ [];
  virtual_file_mappings = (4096, 16384) ∷ [];
  virtual_file_mapping_sources = (4096, record { stop = 16384; path = file_path }) ∷ [];
  cwd = root;
  fds = record {
    entries =
        (3, an_entry FdType.file 2)
        ∷ (4, an_entry FdType.pipe 0)
        ∷ (5, an_entry FdType.pipe 1)
        ∷ [];
  };
  creation_mask = 18;
  next_inode = 1;
  piped = record { pipe_fds = (4, pos 1) ∷ (5, negsuc 0) ∷ []; pipes = (1, a_pipe) ∷ [] };
}

abbrev zeros : Guest
zeros n = some (replicate n 0)

abbrev some_calls : List PipeCall
some_calls = PipeCall.writes 2 zeros ∷ reads 1 true ∷ []

node-HasPipe : HasPipe node 4 5 0 a_pipe
unfolding pipe_end find get_fd_type
node-HasPipe = record { reading = refl; writing = refl; piped = refl }

zeros-Exact : Exact zeros
zeros-Exact n bs e = subst (λ (o : Option (List ℕ)). HasLength n o) e (length-replicate n 0)
  where
    HasLength : ℕ → Option (List ℕ) → Type 0
    HasLength n none = ⊥
    HasLength n (some bs) = length bs ≡ n

calls-fifo_example :
    IsQueue 4 5 0 a_pipe
      (7 ∷ [])
      (calls 4 5 some_calls (record { state = node; taken = []; given = [] }))
calls-fifo_example =
    calls-fifo 4 5 0 a_pipe node some_calls node-HasPipe (omega arith) (zeros-Exact, tt)

resolve_path_checked-ends_example :
    resolve_path_checked node plain at_cwd file_path ≢ throws FsError.no_fuel
resolve_path_checked-ends_example = resolve_path_checked-ends node plain at_cwd file_path

abbrev kept_mapping : FileSystemState
kept_mapping = record node {
  virtual_file_mapping_sources =
      (4096, record { stop = 8192; path = file_path })
      ∷ (12288, record { stop = 16384; path = file_path })
      ∷ [];
  virtual_file_mappings = (4096, 8192) ∷ (12288, 16384) ∷ [];
}

node-IsMapped : IsMapped node
unfolding mapping_coverage coverage_from
node-IsMapped = record { spans = (omega arith, omega arith, tt); covers = refl }

removed_middle : remove_virtual_file_mapping node 8192 12288 ≡ ok kept_mapping
unfolding remove_virtual_file_mapping with_sources remove_range remove_loop mapping_coverage
    coverage_from emplace
removed_middle = refl

remove_virtual_file_mapping-Removed_example : Removed node 8192 12288 kept_mapping
remove_virtual_file_mapping-Removed_example =
    remove_virtual_file_mapping-Removed node kept_mapping 8192 12288 node-IsMapped removed_middle

abbrev unmapped : FileSystemState
unmapped = record node { virtual_file_mappings = []; virtual_file_mapping_sources = [] }

abbrev now : Time
now = record { seconds = 5; nanoseconds = 0 }

abbrev written : FileSystemState
written = record unmapped {
  filesystem =
      (root, a_node 16877)
      ∷ (
        file_path,
        record {
          content = 104 ∷ 1 ∷ 2 ∷ [];
          metadata = record { size = 3; mode = 33188; ino = 0; mtime = now };
        },
      )
      ∷ [];
  open_files = (3, record description { offset = 3 }) ∷ [];
}

bytes_written : do_write unmapped 3 now (1 ∷ 2 ∷ []) ≡ ok (ret 2, written)
unfolding do_write with_open write_opened write_bytes_at set_content set_offset change_at modify
    look find is_allocated get_status_flags get_fd_type write_at resize replicate same
    require_unmapped_file any_source contains
bytes_written = refl

unmapped-IsReadWrite : IsReadWrite unmapped 3 description a_file
unfolding find look same is_allocated get_status_flags get_fd_type contains
unmapped-IsReadWrite = record {
  opened = refl;
  allocated = refl;
  there = refl;
  file = refl;
  mode = refl;
  plain_kind = refl;
}

do_read-do_write_example :
    (u v : FileSystemState) × (do_lseek written 3
        (pos (write_place unmapped 3 description a_file))
        seek_set
      ≡ ok (ret (write_place unmapped 3 description a_file), u))
    × (do_read u 3 2 ≡ ok (ret 2, 1 ∷ 2 ∷ [], v))
do_read-do_write_example =
    do_read-do_write unmapped written 3 description a_file now (1 ∷ 2 ∷ []) 2 unmapped-IsReadWrite
      (omega arith) bytes_written

-- The file stands in the root.
file_in_root : IsDir (look (parent_of file_path) unmapped.filesystem)
unfolding look same parent_of before_last_slash has_byte is_empty
file_in_root = refl

no_other :
    (path : Text)
    → same root path ≡ false
    → same file_path path ≡ false
    → look path unmapped.filesystem ≡ none
unfolding look
no_other path e f = ground arith

root-same : (path : Text) → same root path ≡ true → same path root ≡ true
root-same path e = subst (λ p. same p root ≡ true) (same-eq root path e) (same_refl root)

unmapped-IsTree : IsTree unmapped.filesystem
unmapped-IsTree path a r t = elim (Bool-cases (same file_path path)) [
  | inl e ↦
      subst (λ p. IsDir (look (parent_of p) unmapped.filesystem)) (same-eq file_path path e)
        file_in_root
  | inr e ↦ elim (Bool-cases (same root path)) [
    | inl f ↦ let same_root = root-same path f in absurd (ground arith)
    | inr f ↦ absurd (subst IsThere (no_other path f e) t)
  ]
]

tree_call-IsTree_example : IsTree written.filesystem
unfolding tree_call
tree_call-IsTree_example =
    tree_call-IsTree (λ p. 0) unmapped written (TreeCall.writes 3 now (1 ∷ 2 ∷ [])) (ret 2)
      unmapped-IsTree bytes_written

pipe_ready-waits_example :
    ((pipe_ready node.piped 4).in_bit ≡ not (waits (do_pipe_read node 4 1 true).0))
    × (let ready = pipe_ready node.piped 5 in
        (ready.out_bit || ready.err_bit) ≡ not (reply_waits (do_pipe_write node 5 1 zeros)))
pipe_ready-waits_example = pipe_ready-waits node 4 5 0 a_pipe node-HasPipe true zeros

node-Ordered : Ordered node.fds.entries
node-Ordered = (omega arith, (omega arith, (omega arith, tt)))

do_pipe-Returned_example : (r : PipeReply) × (do_pipe node 2048 ≡ ok r)
do_pipe-Returned_example = do_pipe-Returned node 2048 node-Ordered

abbrev created : FileSystemState
created = record node {
  fds = record {
    entries =
        (0, an_entry FdType.pipe 0)
        ∷ (1, an_entry FdType.pipe 1)
        ∷ (3, an_entry FdType.file 2)
        ∷ (4, an_entry FdType.pipe 0)
        ∷ (5, an_entry FdType.pipe 1)
        ∷ [];
  };
  piped = record {
    pipe_fds = (0, pos 2) ∷ (1, negsuc 1) ∷ (4, pos 1) ∷ (5, negsuc 0) ∷ [];
    pipes = (1, a_pipe) ∷ (2, new_pipe) ∷ [];
  };
}

abbrev new_ends : Ends
new_ends = record { read_fd = 0; write_fd = 1 }

pipe_created : do_pipe node 0 ≡ ok (ret 0, some new_ends, created)
unfolding do_pipe free_id create_pipe record_ends allocate allocate_fd get_next_fd valid_entry
    validate_entry put contains
pipe_created = refl

do_pipe-IsNewPipe_example : IsNewPipe node new_ends created
do_pipe-IsNewPipe_example =
    do_pipe-IsNewPipe node created 0 (ret 0) new_ends node-Ordered pipe_created
