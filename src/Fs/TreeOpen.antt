-- ===== src/Fs/TreeOpen.antt =====
-- Opens keep the tree.
use det_sim.Base.{
  ℕ, ◌≡◌, refl, Bool, true, false, not, ◌&&◌, ◌||◌, Option, none, some, arith, Outcome, ok, throws,
  SysResult, ret, errno, emfile, [], ◌/◌, ◌%◌, if◌then◌else◌, ◌==◌, by_test, by_bind, by_guard,
  subst, sym,
}
use det_sim.Base.Map.{contains}
use det_sim.Fd.{FdManager, FdError, FdType, allocate_fd, get_next_fd, has_bit}
use det_sim.Fs.Strings.{Text, same, is_empty, has_byte, parent_of}
use det_sim.Fs.Tree.{look, put_at}
use det_sim.Fs.State.{VfsNode, Time, FileSystemState, FsError, Reply, allocated, allocate}
use det_sim.Fs.Resolve.{DirFd, Walked, arrived, refused, arrive, resolve_path_checked}
use det_sim.Fs.Files.{require_unmapped_file}
use det_sim.Fs.Open.{
  is_directory, is_there, touched, new_file, publish, prepare_new, enter_open, finish_open,
  allocate_open, open_object, open_resolved, do_openat, object_error, truncates, is_executable,
  writes_to, unsupported_open, open_options, status_of, o_trunc, o_creat, o_directory, o_nofollow,
  o_cloexec, proc_self,
}
use det_sim.Fs.TreeLaws.{IsTree, IsDir, NotDir, change-IsTree, put-IsTree}
use det_sim.Fs.TreeFiles.{Kept, set_content-IsTree}

module _ (s : FileSystemState) (tree : IsTree s.filesystem) where
  arrive-Kept :
      (k : Text → Reply) (r : Outcome FsError Walked)
      → ((path : Text) → Kept (k path))
      → Kept (arrive (λ e. (errno e, s)) k r)
  unfolding arrive
  arrive-Kept k (throws e) h = tt
  arrive-Kept k (ok (refused e)) h = tree
  arrive-Kept k (ok (arrived path)) h = h path

  publish-IsTree :
      (path : Text) (mode : ℕ) (now : Time)
      → NotDir (look path s.filesystem)
      → IsDir (look (parent_of path) s.filesystem)
      → IsTree (publish s path mode now).filesystem
  unfolding publish
  publish-IsTree path mode now h d =
      change-IsTree (put_at path (new_file s mode now) s.filesystem)
        (put-IsTree s.filesystem tree path (new_file s mode now) h d) (parent_of path) (touched now)
        (λ n. refl)

module _ (s : FileSystemState) (tree : IsTree s.filesystem) where
  enter_open-IsTree :
      (path : Text) (flags mode : ℕ) (now : Time) (exists : Bool) (fd : ℕ)
      → (exists ≡ false
          → NotDir (look path s.filesystem) × IsDir (look (parent_of path) s.filesystem))
      → IsTree (enter_open s path flags mode now exists fd).filesystem
  unfolding enter_open
  enter_open-IsTree path flags mode now exists fd new =
      let t = if exists then s else publish s path mode now in
      let published : IsTree t.filesystem =
        by_test (λ (u : FileSystemState). IsTree u.filesystem) exists (λ _. tree)
          (λ e. publish-IsTree s tree path mode now (new e).0 (new e).1) in
      by_test (λ (u : FileSystemState). IsTree u.filesystem) (truncates flags)
        (λ _. set_content-IsTree t published path [] now) (λ _. published)

same_files :
    (s : FileSystemState) (o : Outcome FdError (SysResult × FdManager)) (res : SysResult)
    (t : FileSystemState)
    → allocated s o ≡ ok (res, t)
    → t ≡ record s { fds = t.fds }
same_files s (ok (r, d)) res t e = ground arith
same_files s (throws x) res t e = ground arith

abbrev New : FileSystemState → Text → Bool → Type 0
New s path exists =
    exists ≡ false → NotDir (look path s.filesystem) × IsDir (look (parent_of path) s.filesystem)

finish_open-Kept :
    (s t : FileSystemState) (path : Text) (flags mode : ℕ) (now : Time) (exists : Bool)
    (candidate : ℕ) (res : SysResult)
    → t ≡ record s { fds = t.fds }
    → IsTree s.filesystem
    → New s path exists
    → Kept (finish_open path flags mode now exists candidate (res, t))
unfolding finish_open
finish_open-Kept s t path flags mode now exists candidate (errno x) e tree new =
    subst (λ (u : FileSystemState). IsTree u.filesystem) (sym e) tree
finish_open-Kept s t path flags mode now exists candidate (ret fd) e tree new =
    by_test Kept (not (fd == candidate)) (λ _. tt)
      (λ _.
        enter_open-IsTree t (subst (λ (u : FileSystemState). IsTree u.filesystem) (sym e) tree) path
          flags mode now exists fd (subst (λ (u : FileSystemState). New u path exists) (sym e) new))

directory-IsDir : (o : Option VfsNode) → is_directory o ≡ true → IsDir o
directory-IsDir none h = ground arith
directory-IsDir (some n) h = h

there-NotDir : (o : Option VfsNode) → is_there o ≡ false → NotDir o
there-NotDir none h = tt
there-NotDir (some n) h = ground arith

prepared-IsDir :
    (s : FileSystemState) (path : Text) {u : Unit {0}}
    → prepare_new s path false ≡ ok u
    → IsDir (look (parent_of path) s.filesystem)
unfolding prepare_new
prepared-IsDir s path e = directory-IsDir (look (parent_of path) s.filesystem) (ground arith)

module _ (s : FileSystemState) (tree : IsTree s.filesystem) where
  allocate_open-Kept :
      (path : Text) (flags mode : ℕ) (now : Time) (exists : Bool) (candidate : ℕ)
      → (exists ≡ false → NotDir (look path s.filesystem))
      → Kept (allocate_open s path flags mode now exists candidate)
  unfolding allocate_open allocate
  allocate_open-Kept path flags mode now exists candidate free =
      by_guard Kept (contains candidate s.open_files) FsError.stale_description tt (λ _.
        by_bind Kept (prepare_new s path exists) (λ _. tt)
          (λ u prepared.
            by_bind Kept
              (allocated s
                (allocate_fd s.fds FdType.file (status_of flags) (flags / o_cloexec % 2)))
              (λ _. tt)
              (λ r e.
                finish_open-Kept s r.1 path flags mode now exists candidate r.0
                  (same_files s _ r.0 r.1 e) tree
                  (λ new. (
                    free new,
                    prepared-IsDir s path (subst (λ x. prepare_new s path x ≡ ok u) new prepared),
                  )))))

  next-Kept :
      (path : Text) (flags mode : ℕ) (now : Time) (exists : Bool) (o : Option ℕ)
      → (exists ≡ false → NotDir (look path s.filesystem))
      → Kept (elim o [
        | none ↦ ok (errno emfile, s)
        | some candidate ↦ allocate_open s path flags mode now exists candidate
      ])
  next-Kept path flags mode now exists none free = tree
  next-Kept path flags mode now exists (some c) free =
      allocate_open-Kept path flags mode now exists c free

  open_object-Kept :
      (path : Text) (flags mode : ℕ) (now : Time)
      → Kept (open_object s path flags mode now (is_there (look path s.filesystem)))
  unfolding open_object
  open_object-Kept path flags mode now =
      by_test Kept (is_executable s path && (writes_to flags || has_bit o_trunc flags)) (λ _. tree)
        (λ _.
          by_bind Kept (if has_bit o_trunc flags then require_unmapped_file s path else ok tt)
            (λ _. tt)
            (λ _ _.
              next-Kept path flags mode now (is_there (look path s.filesystem)) (get_next_fd s.fds)
                (there-NotDir (look path s.filesystem))))

  object-Kept :
      (path : Text) (flags mode : ℕ) (now : Time) (o : Option SysResult)
      → Kept (elim o [
        | some e ↦ ok (e, s)
        | none ↦ open_object s path flags mode now (is_there (look path s.filesystem))
      ])
  object-Kept path flags mode now none = open_object-Kept path flags mode now
  object-Kept path flags mode now (some e) = tree

  open_resolved-Kept :
      (flags mode : ℕ) (now : Time) (path : Text) → Kept (open_resolved s flags mode now path)
  unfolding open_resolved
  open_resolved-Kept flags mode now path =
      by_test Kept (same path proc_self && has_bit o_nofollow flags) (λ _. tt)
        (λ _. object-Kept path flags mode now (object_error flags (look path s.filesystem)))

  pub do_openat-Kept :
      (dirfd : DirFd) (path : Text) (flags mode : ℕ) (now : Time)
      → Kept (do_openat s dirfd path flags mode now)
  unfolding do_openat
  do_openat-Kept dirfd path flags mode now =
      by_test Kept (is_empty path) (λ _. tree)
        (λ _.
          by_test Kept (has_byte 0 path) (λ _. tree)
            (λ _.
              by_test Kept (flags % 4 == 3 || has_bit o_creat flags && has_bit o_directory flags)
                (λ _. tree)
                (λ _.
                  by_test Kept (unsupported_open flags) (λ _. tt)
                    (λ _.
                      arrive-Kept s tree (open_resolved s flags mode now)
                        (resolve_path_checked s (open_options flags) dirfd path)
                        (open_resolved-Kept flags mode now)))))
