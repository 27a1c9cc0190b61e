-- ===== src/Fs/Inodes.antt =====
-- Inodes: those of captured objects come from a hash of the path, with the highest bit set; those of
-- new files are counted. The hash of the path is a parameter.
use det_sim.Base.{
  ℕ, ◌+◌, ◌%◌, Bool, false, ◌&&◌, ◌||◌, not, List, [], ◌∷◌, ltb, leb, ◌==◌, if◌then◌else◌, Outcome,
  ok, throws, throw_if, ◌>>=◌, ◌>>◌,
}
use det_sim.Fs.Strings.{Text}
use det_sim.Fs.Tree.{Tree}
use det_sim.Fs.State.{VfsNode, FileSystemState, FsError, is_reg, is_link}
use det_sim.Fs.Open.{guest_inode_limit}

unfoldable pub has_number : ℕ → List ℕ → Bool
has_number n [] = false
has_number n (m ∷ ms) = m == n || has_number n ms

module _ (hash : Text → ℕ) where
  -- `XXHash64::hash(path) | 2^63`.
  unfoldable pub initial_inode : Text → ℕ
  initial_inode path = hash path % guest_inode_limit + guest_inode_limit

  unfoldable pub inode_of : Text → VfsNode → ℕ
  inode_of path n = if n.metadata.ino == 0 then initial_inode path else n.metadata.ino

  -- `vfs_inodes` from an entry on, with the inodes that are taken.
  unfoldable pub inodes_from : List ℕ → Tree VfsNode → Outcome FsError (Tree ℕ)
  inodes_from taken [] = ok []
  inodes_from taken ((path, n) ∷ fs) =
      let inode = inode_of path n in
      let rest = inodes_from (inode ∷ taken) fs in
      if has_number inode taken
      then throws FsError.inode_collision
      else (rest >>= λ m. ok ((path, inode) ∷ m))

  unfoldable pub vfs_inodes : Tree VfsNode → Outcome FsError (Tree ℕ)
  vfs_inodes fs = inodes_from [] fs

  -- An override is a file's or a link's, not what its path gives, and was counted if it is low.
  unfoldable pub bad_inode : ℕ → Text → VfsNode → Bool
  bad_inode next path n =
      let inode = n.metadata.ino in
      not (inode == 0)
      && (inode == initial_inode path
          || not (is_reg n) && not (is_link n)
          || ltb inode guest_inode_limit && leb next inode)

  unfoldable pub any_bad_inode : ℕ → Tree VfsNode → Bool
  any_bad_inode next [] = false
  any_bad_inode next ((path, n) ∷ fs) = bad_inode next path n || any_bad_inode next fs

  unfoldable pub validate_inode_state : FileSystemState → Outcome FsError (Unit {0})
  validate_inode_state s = do
    throw_if
        (s.next_inode == 0
          || ltb guest_inode_limit s.next_inode
          || any_bad_inode s.next_inode s.filesystem)
        FsError.invalid_inodes
    m ← vfs_inodes s.filesystem
    ok tt
