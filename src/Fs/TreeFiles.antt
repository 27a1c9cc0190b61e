-- ===== src/Fs/TreeFiles.antt =====
-- Writes and truncations keep the tree.
use det_sim.Base.{
  ℕ, refl, not, ◌&&◌, ◌||◌, List, SysResult, errno, ebadf, ◌-◌, ◌==◌, ltb, length, by_test, Returns,
  by_guard, Option-cases, inl, inr, ℤ, pos, negsuc,
}
use det_sim.Base.Map.{find}
use det_sim.Fd.{is_allocated, get_fd_type}
use det_sim.Fs.Strings.{Text}
use det_sim.Fs.Tree.{look}
use det_sim.Fs.State.{Time, FileSystemState, FsError, Reply, is_reg}
use det_sim.Fs.Files.{
  with_content, set_content, set_offset, require_unmapped_file, Opened, with_open, write_opened,
  write_bytes_at, do_write, write_offset, write_at, access_mode, resize_file, resize, truncate_open,
  do_ftruncate, is_file, maximum_dense_growth, any_source, off_max,
}
use det_sim.Fs.TreeLaws.{IsTree, change-IsTree}

abbrev pub HasTree : SysResult × FileSystemState → Type 0
HasTree a = IsTree a.1.filesystem

abbrev pub Kept : Reply → Type 0
Kept r = Returns HasTree r

module _ (s : FileSystemState) (tree : IsTree s.filesystem) where
  pub set_content-IsTree :
      (path : Text) (bs : List ℕ) (now : Time) → IsTree (set_content path bs now s).filesystem
  unfolding set_content
  set_content-IsTree path bs now =
      change-IsTree s.filesystem tree path (with_content bs now) (λ n. refl)

  with_open-Kept :
      (fd : ℕ) (k : Opened → Reply)
      → ((f : Opened) → Kept (k f))
      → Kept (with_open s fd (errno ebadf, s) k)
  unfolding with_open
  with_open-Kept fd k h = elim (Option-cases (find fd s.open_files)) [
    | inl e ↦ rw (e, with_open) tree
    | inr (d, e) ↦
        rw (e, with_open)
          (by_test Kept (not (is_allocated s.fds fd)) (λ _. tree)
            (λ _. elim (Option-cases (look d.path s.filesystem)) [
              | inl i ↦ rw i tt
              | inr (n, i) ↦ rw i (h _)
            ]))
  ]

  pub do_write-Kept : (fd : ℕ) (now : Time) (bs : List ℕ) → Kept (do_write s fd now bs)
  unfolding do_write write_opened write_bytes_at require_unmapped_file set_offset
  do_write-Kept fd now bs = with_open-Kept fd _ (λ f.
      by_test Kept (access_mode s fd == 0) (λ _. tree)
        (λ _.
          by_test Kept (length bs == 0) (λ _. tree)
            (λ _.
              by_guard Kept (any_source f.description.path s.virtual_file_mapping_sources)
                FsError.mapped_file tt
                (λ _.
                  by_test Kept (ltb (off_max - write_offset s fd f) (length bs)) (λ _. tree)
                    (λ _.
                      set_content-IsTree f.description.path
                        (write_at (write_offset s fd f) bs f.node.content) now)))))

  pub do_ftruncate-Kept : (fd : ℕ) (now : Time) (size : ℤ) → Kept (do_ftruncate s fd now size)
  unfolding do_ftruncate truncate_open resize_file require_unmapped_file
  do_ftruncate-Kept fd now (negsuc n) = tree
  do_ftruncate-Kept fd now (pos size) =
      by_test Kept (not (is_allocated s.fds fd)) (λ _. tree)
        (λ _.
          by_test Kept (not (is_file (get_fd_type s.fds fd))) (λ _. tree)
            (λ _. elim (Option-cases (find fd s.open_files)) [
              | inl e ↦ rw (e, truncate_open) tt
              | inr (d, e) ↦
                  rw (e, truncate_open)
                    (elim (Option-cases (look d.path s.filesystem)) [
                      | inl i ↦ rw i tt
                      | inr (n, i) ↦ rw i (
                          by_test Kept (not (is_reg n) || access_mode s fd == 0) (λ _. tree)
                            (λ _.
                              by_guard Kept (any_source d.path s.virtual_file_mapping_sources)
                                FsError.mapped_file tt
                                (λ _.
                                  by_guard Kept
                                    (ltb (length n.content) size
                                      && ltb maximum_dense_growth (size - length n.content))
                                    FsError.dense_growth tt
                                    (λ _. set_content-IsTree d.path (resize size n.content) now))))
                    ])
            ]))
