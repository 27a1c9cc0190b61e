-- ===== src/Fs/Walk.antt =====
-- The walk of a path ends: the fuel is enough.
use det_sim.Base.{
  ℕ, zero, suc, ◌+◌, ◌-◌, ◌*◌, ◌≤◌, ◌<◌, ◌≡◌, ◌≢◌, not, ◌&&◌, ◌||◌, Option, none, some, List, [],
  ◌∷◌, ◌++◌, length, length-append, arith, Outcome, ok, throws, if◌then◌else◌, ltb, by_test,
  enotdir, Option-cases, inl, inr,
}
use det_sim.Base.Map.{find}
use det_sim.Fd.{is_allocated}
use det_sim.Fs.Strings.{Text, root, same, is_empty, is_absolute, has_byte, join_paths}
use det_sim.Fs.Tree.{Tree, look}
use det_sim.Fs.State.{VfsNode, OpenFileDescription, FileSystemState, FsError, is_dir, is_link}
use det_sim.Fs.Resolve.{
  DirFd, at_cwd, at_fd, Options, Walked, Step, stop, go, parts_from, parts_of, prepend, follow_link,
  enter, step_in, walk_step, walk, widest, walk_fuel, walk_from, walk_at, walk_relative,
  resolve_path_checked, trailing, no_parts, searchable, one_slash_left, name_max, dot_part, dot_dot,
  refused, cwd_of,
}

parts_from-length : (part path : Text) → length (parts_from part path) ≤ length part + length path
unfolding parts_from is_empty
parts_from-length [] [] = omega arith
parts_from-length (y ∷ ys) [] = omega arith
parts_from-length [] (x ∷ xs) =
    ground (arith, parts_from-length [] xs, parts_from-length (x ∷ []) xs)
parts_from-length (y ∷ ys) (x ∷ xs) = ground (
  arith,
  parts_from-length [] xs,
  parts_from-length (y ∷ (ys ++ x ∷ [])) xs,
  length-append ys (x ∷ []),
)

prepend-length :
    (path : Text) (pending : List Text)
    → length (prepend path pending) ≤ length path + 1 + length pending
unfolding prepend parts_of
prepend-length path pending = ground (
  arith,
  length-append (parts_from [] path) (trailing path pending ++ pending),
  length-append (trailing path pending) pending,
  parts_from-length [] path,
)

widest-ge :
    (fs : Tree VfsNode) (path : Text) (n : VfsNode)
    → look path fs ≡ some n
    → length n.content + 1 ≤ widest fs
unfolding look widest
widest-ge [] path n e = ground arith
widest-ge ((p, m) ∷ fs) path n e = ground (arith, widest-ge fs path n)

-- What a walk can still do: the pending components, and what the links that are left can add.
abbrev potential : Tree VfsNode → List Text → ℕ → ℕ
potential fs pending links = length pending + (40 - links) * widest fs

tick : (links width : ℕ) → links < 40 → (40 - links) * width ≡ width + (40 - (links + 1)) * width
tick links width h = let e : 40 - links ≡ suc (40 - (links + 1)) = omega arith in rw e (omega arith)

-- A step that goes on has less to do than there was with the component that it took.
abbrev GoesDown : Tree VfsNode → List Text → ℕ → Step → Type 0
GoesDown fs pending links (stop r) = r ≢ throws FsError.no_fuel
GoesDown fs pending links (go next left n) = potential fs left n ≤ potential fs pending links

module _ (fs : Tree VfsNode) (o : Options) where
  follow_link-GoesDown :
      (current : Text) (pending : List Text) (links : ℕ) (path : Text) (n : VfsNode)
      → look path fs ≡ some n
      → GoesDown fs pending links (follow_link current pending links n.content)
  unfolding follow_link
  follow_link-GoesDown current pending links path n e =
      by_test (GoesDown fs pending links) (ltb 40 (links + 1)) (λ _. λ x. ground arith)
        (λ few.
          by_test (GoesDown fs pending links) (is_empty n.content) (λ _. λ x. ground arith)
            (λ _.
              by_test (GoesDown fs pending links) (has_byte 0 n.content) (λ _. λ x. ground arith)
                (λ _.
                  let fewer : links < 40 = ground arith in
                  omega (
                    arith,
                    prepend-length n.content pending,
                    widest-ge fs path n e,
                    tick links (widest fs) fewer,
                  ))))

  enter-GoesDown :
      (current part : Text) (pending : List Text) (links : ℕ)
      → GoesDown fs pending links (enter fs o current part pending links)
  unfolding enter
  enter-GoesDown current part pending links =
      elim (Option-cases (look (join_paths current part) fs)) [
        | inl e ↦ rw (e, enter) (omega arith)
        | inr (n, e) ↦
            rw (e, enter)
              (by_test (GoesDown fs pending links)
                (is_link n && (not (no_parts pending) || o.follow_final))
                (λ _. follow_link-GoesDown current pending links (join_paths current part) n e)
                (λ _. omega arith))
      ]

  step_in-GoesDown :
      (n : VfsNode) (current part : Text) (pending : List Text) (links : ℕ)
      → GoesDown fs pending links (step_in fs o n current part pending links)
  unfolding step_in
  step_in-GoesDown n current part pending links =
      let P = GoesDown fs pending links in
      by_test P (not (is_dir n)) (λ _. λ x. ground arith)
        (λ _.
          by_test P (o.check_search && not (searchable n)) (λ _. λ x. ground arith)
            (λ _.
              by_test P (o.creating && one_slash_left pending) (λ _. λ x. ground arith)
                (λ _.
                  by_test P (ltb name_max (length part)) (λ _. λ x. ground arith)
                    (λ _.
                      by_test P (is_empty part || same part dot_part) (λ _. omega arith)
                        (λ _.
                          by_test P (same part dot_dot) (λ _. omega arith)
                            (λ _. enter-GoesDown current part pending links))))))

  walk_step-GoesDown :
      (current part : Text) (pending : List Text) (links : ℕ)
      → GoesDown fs pending links (walk_step fs o current part pending links)
  unfolding walk_step
  walk_step-GoesDown current part pending links = elim (Option-cases (look current fs)) [
    | inl e ↦ rw (e, walk_step) (λ x. ground arith)
    | inr (n, e) ↦ rw (e, walk_step) (step_in-GoesDown n current part pending links)
  ]

  -- What follows a step does not run out of fuel, if no walk from what it leaves does.
  after_step-ends :
      (fuel links : ℕ) (pending : List Text) (st : Step)
      → GoesDown fs pending links st
      → potential fs pending links ≤ fuel
      → ((next : Text) (left : List Text) (n : ℕ)
          → potential fs left n ≤ fuel
          → walk fs o fuel next left n ≢ throws FsError.no_fuel)
      → elim st [ stop r ↦ r | go next left n ↦ walk fs o fuel next left n ]
        ≢ throws FsError.no_fuel
  after_step-ends fuel links pending (stop r) g h rec = g
  after_step-ends fuel links pending (go next left n) g h rec = rec next left n (omega arith)

  walk-ends :
      (fuel : ℕ) (current : Text) (pending : List Text) (links : ℕ)
      → potential fs pending links ≤ fuel
      → walk fs o fuel current pending links ≢ throws FsError.no_fuel
  unfolding walk
  walk-ends fuel current [] links h e = ground arith
  walk-ends zero current (part ∷ pending) links h e = omega arith
  walk-ends (suc fuel) current (part ∷ pending) links h e =
      after_step-ends fuel links pending (walk_step fs o current part pending links)
        (walk_step-GoesDown current part pending links) (omega arith)
        (λ next left n i. walk-ends fuel next left n i) e

module _ (s : FileSystemState) (o : Options) where
  walk_from-ends : (current path : Text) → walk_from s o current path ≢ throws FsError.no_fuel
  unfolding walk_from walk_fuel
  walk_from-ends current path =
      walk-ends s.filesystem o (walk_fuel s.filesystem (prepend path [])) current (prepend path [])
        0 (omega arith)

  abbrev Ends : Outcome FsError Walked → Type 0
  Ends r = r ≢ throws FsError.no_fuel

  described-Ends :
      (path current : Text) (n : Option VfsNode)
      → Ends (elim n [
        | none ↦ throws FsError.no_payload
        | some n ↦ if not (is_dir n) then ok (refused enotdir) else walk_from s o current path
      ])
  described-Ends path current none = λ e. ground arith
  described-Ends path current (some n) =
      by_test Ends (not (is_dir n)) (λ _. λ x. ground arith) (λ _. walk_from-ends current path)

  opened-Ends :
      (path : Text) (d : Option OpenFileDescription)
      → Ends (elim d [
        | none ↦ ok (refused enotdir)
        | some d ↦ elim (look d.path s.filesystem) [
          | none ↦ throws FsError.no_payload
          | some n ↦ if not (is_dir n) then ok (refused enotdir) else walk_from s o d.path path
        ]
      ])
  opened-Ends path none = λ e. ground arith
  opened-Ends path (some d) = described-Ends path d.path (look d.path s.filesystem)

  walk_at-ends : (fd : ℕ) (path : Text) → Ends (walk_at s o fd path)
  unfolding walk_at
  walk_at-ends fd path =
      by_test Ends (not (is_allocated s.fds fd)) (λ _. λ x. ground arith)
        (λ _. opened-Ends path (find fd s.open_files))

  walk_relative-ends : (dirfd : DirFd) (path : Text) → Ends (walk_relative s o dirfd path)
  unfolding walk_relative
  walk_relative-ends at_cwd path = walk_from-ends (cwd_of s) path
  walk_relative-ends (at_fd fd) path = walk_at-ends fd path

  -- Resolving a path ends, whatever links there are: the fuel, one step for each component of the path
  -- and 40 times one more than the longest content of a node, never runs out.
  pub resolve_path_checked-ends :
      (dirfd : DirFd) (path : Text) → resolve_path_checked s o dirfd path ≢ throws FsError.no_fuel
  unfolding resolve_path_checked
  resolve_path_checked-ends dirfd path =
      by_test Ends (is_empty path) (λ _. λ x. ground arith)
        (λ _.
          by_test Ends (is_absolute path) (λ _. walk_from-ends root path)
            (λ _. walk_relative-ends dirfd path))
