-- ===== src/Fs/Namespace.antt =====
-- Removing and renaming leaves: do_unlinkat and do_renameat2.
use det_sim.Base.{
  ℕ, ◌+◌, ◌*◌, ◌/◌, ◌%◌, Bool, true, false, ◌&&◌, ◌||◌, not, Option, none, some, ltb, ◌==◌,
  if◌then◌else◌, length, Outcome, ok, throws, throw_if, ◌>>=◌, ◌>>◌, ret, errno, enoent, einval,
  enotdir, eisdir, enametoolong, eexist, ebusy,
}
use det_sim.Fs.Strings.{Text, same}
use det_sim.Fs.Tree.{look, put_at, change_at, erase_at}
use det_sim.Fs.State.{Time, VfsNode, FileSystemState, FsError, Reply, is_dir, is_reg, is_link}
use det_sim.Fs.Resolve.{DirFd, name_max}
use det_sim.Fs.Open.{touched}
use det_sim.Fs.Inodes.{initial_inode, validate_inode_state}
use det_sim.Fs.Leaf.{
  NamespaceLeaf, Leaf, leaf, leaf_error, is_normal, is_root, sticky_at, require_namespace_mutable,
  resolve_namespace_leaf,
}

abbrev pub with_inode : ℕ → VfsNode → VfsNode
with_inode inode n = record n { metadata = record n.metadata { ino = inode } }

abbrev pub is_dir_there : Option VfsNode → Bool
is_dir_there none = false
is_dir_there (some n) = is_dir n

abbrev pub is_other_there : Option VfsNode → Bool
is_other_there none = false
is_other_there (some n) = not (is_dir n)

abbrev pub found : Option VfsNode → Bool
found none = false
found (some n) = true

-- The second leaf is resolved if the first one was.
unfoldable pub rename_target : FileSystemState → DirFd → Text → Leaf → Outcome FsError Leaf
rename_target s dir name (leaf_error e) = ok (leaf_error e)
rename_target s dir name (leaf l) = resolve_namespace_leaf s dir name

module _ (hash : Text → ℕ) where
  -- The leaf is removed, and its parent's time is set.
  unfoldable pub unlink_leaf : FileSystemState → Time → NamespaceLeaf → Reply
  unlink_leaf s now l = do
    sticky ← sticky_at s l.parent
    throw_if sticky FsError.sticky_directory
    require_namespace_mutable s l.path
    validate_inode_state hash s
    ok (
      ret 0,
      record s { filesystem = change_at l.parent (touched now) (erase_at l.path s.filesystem) },
    )

  unfoldable pub unlink_node : FileSystemState → Time → NamespaceLeaf → VfsNode → Reply
  unlink_node s now l n =
      if l.trailing_slash && not (is_dir n)
      then ok (errno enotdir, s)
      else if is_dir n
      then ok (errno eisdir, s)
      else if not (is_reg n) && not (is_link n)
      then throws FsError.unsupported_leaf
      else unlink_leaf s now l

  unfoldable pub unlink_named : FileSystemState → Time → Leaf → Reply
  unlink_named s now (leaf_error e) = ok (errno e, s)
  unlink_named s now (leaf l) =
      if not (is_normal l.kind)
      then ok (errno eisdir, s)
      else if ltb name_max (length l.name)
      then ok (errno enametoolong, s)
      else elim (look l.path s.filesystem) [
        | none ↦ ok (errno enoent, s)
        | some n ↦ unlink_node s now l n
      ]

  -- `flags` is a word; AT_REMOVEDIR is 512.
  unfoldable pub do_unlinkat : FileSystemState → DirFd → Text → ℕ → Time → Reply
  do_unlinkat s dirfd input flags now =
      if not (flags / 512 % 2 * 512 == flags)
      then ok (errno einval, s)
      else if not (flags == 0)
      then throws FsError.directory_removal
      else (resolve_namespace_leaf s dirfd input >>= unlink_named s now)

  -- The inode that a moved object keeps: 0 where its new path gives it.
  unfoldable pub moved_inode : Text → Text → VfsNode → ℕ
  moved_inode old new n =
      let inode = if n.metadata.ino == 0 then initial_inode hash old else n.metadata.ino in
      if inode == initial_inode hash new then 0 else inode

  unfoldable pub move_leaf :
      FileSystemState → Time → NamespaceLeaf → NamespaceLeaf → VfsNode → FileSystemState
  move_leaf s now old new n = record s {
    filesystem = change_at new.parent (touched now) (
        change_at old.parent (touched now) (
          put_at new.path (with_inode (moved_inode old.path new.path n) n)
            (erase_at old.path s.filesystem)));
  }

  unfoldable pub rename_leaf :
      FileSystemState → Time → NamespaceLeaf → NamespaceLeaf → VfsNode → Reply
  rename_leaf s now old new n = do
    from_sticky ← sticky_at s old.parent
    to_sticky ← sticky_at s new.parent
    throw_if (from_sticky || to_sticky) FsError.sticky_directory
    require_namespace_mutable s old.path
    require_namespace_mutable s new.path
    validate_inode_state hash s
    ok (ret 0, move_leaf s now old new n)

  unfoldable pub rename_node :
      FileSystemState → Time → NamespaceLeaf → NamespaceLeaf → VfsNode → Option VfsNode → Reply
  rename_node s now old new n target =
      if (old.trailing_slash || new.trailing_slash) && not (is_dir n)
      then ok (errno enotdir, s)
      else if not (is_dir n) && is_dir_there target
      then ok (errno eisdir, s)
      else if is_dir n && is_other_there target
      then ok (errno enotdir, s)
      else if same old.path new.path
      then ok (ret 0, s)
      else if is_dir n
      then throws FsError.directory_move
      else if not (is_reg n) && not (is_link n)
      then throws FsError.unsupported_leaf
      else rename_leaf s now old new n

  unfoldable pub rename_normal :
      FileSystemState → Time → Bool → NamespaceLeaf → NamespaceLeaf → Reply
  rename_normal s now keep old new =
      if ltb name_max (length old.name)
      then ok (errno enametoolong, s)
      else elim (look old.path s.filesystem) [
        | none ↦ ok (errno enoent, s)
        | some n ↦
            if ltb name_max (length new.name)
            then ok (errno enametoolong, s)
            else if keep && found (look new.path s.filesystem)
            then ok (errno eexist, s)
            else rename_node s now old new n (look new.path s.filesystem)
      ]

  unfoldable pub rename_leaves : FileSystemState → Time → Bool → Leaf → Leaf → Reply
  rename_leaves s now keep (leaf_error e) new = ok (errno e, s)
  rename_leaves s now keep (leaf old) (leaf_error e) = ok (errno e, s)
  rename_leaves s now keep (leaf old) (leaf new) =
      if is_root old.kind || is_root new.kind
      then throws FsError.root_rename
      else if not (is_normal old.kind)
      then ok (errno ebusy, s)
      else if not (is_normal new.kind)
      then ok ((if keep then errno eexist else errno ebusy), s)
      else rename_normal s now keep old new

  -- RENAME_NOREPLACE is 1, RENAME_EXCHANGE 2 and RENAME_WHITEOUT 4.
  unfoldable pub do_renameat2 : FileSystemState → DirFd → Text → DirFd → Text → ℕ → Time → Reply
  do_renameat2 s olddir oldname newdir newname flags now =
      if ltb 7 flags || flags / 2 % 2 == 1 && not (flags % 2 + flags / 4 % 2 == 0)
      then ok (errno einval, s)
      else if not (flags / 2 % 4 == 0)
      then throws FsError.rename_mode
      else do
        old ← resolve_namespace_leaf s olddir oldname
        new ← rename_target s newdir newname old
        rename_leaves s now (flags == 1) old new
