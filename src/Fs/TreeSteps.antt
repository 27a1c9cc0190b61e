-- ===== src/Fs/TreeSteps.antt =====
-- Every call that changes the captured objects keeps the tree, but for a rename.
use det_sim.Base.{
  ℕ, ◌≡◌, refl, not, ◌&&◌, some, List, ok, SysResult, ◌*◌, ◌/◌, ◌%◌, ◌==◌, ltb, length, by_test,
  by_bind, by_guard, Option-cases, inl, inr, subst, ℤ,
}
use det_sim.Fs.Strings.{Text}
use det_sim.Fs.Tree.{look, erase_at}
use det_sim.Fs.State.{VfsNode, Time, FileSystemState, FsError, Reply, is_dir, is_reg, is_link}
use det_sim.Fs.Resolve.{DirFd, name_max}
use det_sim.Fs.Files.{do_write, do_ftruncate}
use det_sim.Fs.Open.{touched, do_openat}
use det_sim.Fs.Leaf.{
  NamespaceLeaf, Leaf, leaf, leaf_error, is_normal, sticky_at, require_namespace_mutable,
  resolve_namespace_leaf,
}
use det_sim.Fs.Inodes.{validate_inode_state}
use det_sim.Fs.Namespace.{unlink_leaf, unlink_node, unlink_named, do_unlinkat}
use det_sim.Fs.TreeLaws.{IsTree, NotDir, change-IsTree, erase-IsTree}
use det_sim.Fs.TreeFiles.{Kept, do_write-Kept, do_ftruncate-Kept}
use det_sim.Fs.TreeOpen.{do_openat-Kept}

module _ (s : FileSystemState) (tree : IsTree s.filesystem) where
  unlink_leaf-Kept :
      (hash : Text → ℕ) (now : Time) (l : NamespaceLeaf)
      → NotDir (look l.path s.filesystem)
      → Kept (unlink_leaf hash s now l)
  unfolding unlink_leaf
  unlink_leaf-Kept hash now l h =
      by_bind Kept (sticky_at s l.parent) (λ _. tt)
        (λ sticky _. by_guard Kept sticky FsError.sticky_directory tt (λ _.
          by_bind Kept (require_namespace_mutable s l.path) (λ _. tt)
            (λ _ _.
              by_bind Kept (validate_inode_state hash s) (λ _. tt)
                (λ _ _.
                  change-IsTree (erase_at l.path s.filesystem)
                    (erase-IsTree s.filesystem tree l.path h) l.parent (touched now) (λ n. refl)))))

  unlink_node-Kept :
      (hash : Text → ℕ) (now : Time) (l : NamespaceLeaf) (n : VfsNode)
      → look l.path s.filesystem ≡ some n
      → Kept (unlink_node hash s now l n)
  unfolding unlink_node
  unlink_node-Kept hash now l n e =
      by_test Kept (l.trailing_slash && not (is_dir n)) (λ _. tree)
        (λ _.
          by_test Kept (is_dir n) (λ _. tree)
            (λ file.
              by_test Kept (not (is_reg n) && not (is_link n)) (λ _. tt)
                (λ _. unlink_leaf-Kept hash now l (rw e file))))

  unlink_named-Kept : (hash : Text → ℕ) (now : Time) (x : Leaf) → Kept (unlink_named hash s now x)
  unfolding unlink_named
  unlink_named-Kept hash now (leaf_error e) = tree
  unlink_named-Kept hash now (leaf l) =
      by_test Kept (not (is_normal l.kind)) (λ _. tree)
        (λ _.
          by_test Kept (ltb name_max (length l.name)) (λ _. tree)
            (λ _. elim (Option-cases (look l.path s.filesystem)) [
              | inl e ↦ rw (e, unlink_named) tree
              | inr (n, e) ↦ rw (e, unlink_named) (unlink_node-Kept hash now l n e)
            ]))

  do_unlinkat-Kept :
      (hash : Text → ℕ) (dirfd : DirFd) (path : Text) (flags : ℕ) (now : Time)
      → Kept (do_unlinkat hash s dirfd path flags now)
  unfolding do_unlinkat
  do_unlinkat-Kept hash dirfd path flags now =
      by_test Kept (not (flags / 512 % 2 * 512 == flags)) (λ _. tree)
        (λ _.
          by_test Kept (not (flags == 0)) (λ _. tt)
            (λ _.
              by_bind Kept (resolve_namespace_leaf s dirfd path) (λ _. tt)
                (λ x _. unlink_named-Kept hash now x)))

-- The calls that change the captured objects.
pub data TreeCall : Type 0 where
  opens : DirFd → Text → ℕ → ℕ → Time → TreeCall
  writes : ℕ → Time → List ℕ → TreeCall
  truncates_file : ℕ → Time → ℤ → TreeCall
  unlinks : DirFd → Text → ℕ → Time → TreeCall

unfoldable pub tree_call : (Text → ℕ) → FileSystemState → TreeCall → Reply
tree_call hash s (opens dirfd path flags mode now) = do_openat s dirfd path flags mode now
tree_call hash s (writes fd now bs) = do_write s fd now bs
tree_call hash s (truncates_file fd now size) = do_ftruncate s fd now size
tree_call hash s (unlinks dirfd path flags now) = do_unlinkat hash s dirfd path flags now

-- An open, write, truncation or unlink that returns, whatever it answers, keeps the tree: each object
-- with an absolute name but the root has a parent that is a directory.
pub tree_call-IsTree :
    (hash : Text → ℕ) (s t : FileSystemState) (c : TreeCall) (res : SysResult)
    → IsTree s.filesystem
    → tree_call hash s c ≡ ok (res, t)
    → IsTree t.filesystem
unfolding tree_call
tree_call-IsTree hash s t (opens dirfd path flags mode now) res tree e =
    subst Kept e (do_openat-Kept s tree dirfd path flags mode now)
tree_call-IsTree hash s t (writes fd now bs) res tree e =
    subst Kept e (do_write-Kept s tree fd now bs)
tree_call-IsTree hash s t (truncates_file fd now size) res tree e =
    subst Kept e (do_ftruncate-Kept s tree fd now size)
tree_call-IsTree hash s t (unlinks dirfd path flags now) res tree e =
    subst Kept e (do_unlinkat-Kept s tree hash dirfd path flags now)
