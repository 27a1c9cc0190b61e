-- ===== src/Fs/Resolve.antt =====
-- Path resolution: resolve_path, and resolve_path_checked with its walk over the captured tree. The walk
-- is on fuel.
use det_sim.Base.{
  ℕ, zero, suc, ◌+◌, ◌*◌, ◌/◌, ◌%◌, Bool, true, false, ◌&&◌, ◌||◌, not, none, some, List, [], ◌∷◌,
  ◌++◌, ltb, ◌==◌, if◌then◌else◌, length, max, Outcome, ok, throws, Errno, enoent, enotdir, eisdir,
  enametoolong, eloop, ebadf, ◌>>=◌,
}
use det_sim.Base.Map.{find}
use det_sim.Fd.{is_allocated}
use det_sim.Fs.Strings.{
  Text, slash, dot, root, same, has_byte, is_empty, ends_with, is_absolute, parent_of, join_paths,
}
use det_sim.Fs.Tree.{Tree, look}
use det_sim.Fs.State.{VfsNode, FileSystemState, FsError, is_dir, is_link}

-- `AT_FDCWD`, or a descriptor.
pub data DirFd : Type 0 where
  at_cwd : DirFd
  at_fd : ℕ → DirFd

abbrev pub dot_part : Text
dot_part = dot ∷ []

abbrev pub dot_dot : Text
dot_dot = dot ∷ dot ∷ []

-- The components of a path that are not empty, with the bytes of the one that is being read.
unfoldable pub parts_from : Text → Text → List Text
parts_from part [] = if is_empty part then [] else part ∷ []
parts_from part (x ∷ xs) =
    let next = parts_from [] xs in
    let more = parts_from (part ++ x ∷ []) xs in
    if x == slash then (if is_empty part then next else part ∷ next) else more

unfoldable pub parts_of : Text → List Text
parts_of path = parts_from [] path

unfoldable pub drop_last : List Text → List Text
drop_last [] = []
drop_last (p ∷ []) = []
drop_last (p ∷ q ∷ ps) = p ∷ drop_last (q ∷ ps)

-- The loop of resolve_path over the components.
unfoldable pub collapse : List Text → List Text → List Text
collapse parts [] = parts
collapse parts (p ∷ ps) =
    collapse
      (if same p dot_part
        then parts
        else if same p dot_dot
        then drop_last parts
        else parts ++ p ∷ [])
      ps

unfoldable pub join_parts : List Text → Text
join_parts [] = []
join_parts (p ∷ []) = p
join_parts (p ∷ q ∷ ps) = p ++ slash ∷ join_parts (q ∷ ps)

abbrev pub cwd_of : FileSystemState → Text
cwd_of s = if is_empty s.cwd then root else s.cwd

-- `open_files.at(dirfd).path`.
unfoldable pub base_of : FileSystemState → DirFd → Outcome FsError Text
base_of s at_cwd = ok (cwd_of s)
base_of s (at_fd fd) = elim (find fd s.open_files) [
  | none ↦ throws FsError.out_of_range
  | some d ↦ ok d.path
]

unfoldable pub normalize : Text → Text
normalize path = slash ∷ join_parts (collapse [] (parts_of path))

unfoldable pub resolve_path : FileSystemState → DirFd → Text → Outcome FsError Text
resolve_path s dirfd path =
    if is_absolute path
    then ok (normalize path)
    else (base_of s dirfd >>= λ base. ok (normalize (join_paths base path)))

-- Where a walk arrives, or the error that it answers.
pub data Walked : Type 0 where
  arrived : Text → Walked
  refused : Errno → Walked

pub record Options : Type 0 where
  pub follow_final : Bool
  pub check_search : Bool
  pub creating : Bool

-- The walk ends, or goes on from a directory with what is pending and the links that were followed.
pub data Step : Type 0 where
  stop : Outcome FsError Walked → Step
  go : Text → List Text → ℕ → Step

abbrev pub no_parts : List Text → Bool
no_parts [] = true
no_parts (p ∷ ps) = false

abbrev pub trailing : Text → List Text → List Text
trailing value pending = if ends_with slash value && no_parts pending then [] ∷ [] else []

-- `prepend`: a slash at the end of the last path of all leaves an empty component.
unfoldable pub prepend : Text → List Text → List Text
prepend value pending = parts_of value ++ (trailing value pending ++ pending)

abbrev pub name_max : ℕ
name_max = 255

-- `(st_mode & 0111) == 0111`.
abbrev pub searchable : VfsNode → Bool
searchable n =
    let mode = n.metadata.mode in mode % 2 == 1 && mode / 8 % 2 == 1 && mode / 64 % 2 == 1

-- `pending.size() == 2 && pending.back().empty()`, by what follows the first component.
abbrev pub one_slash_left : List Text → Bool
one_slash_left [] = false
one_slash_left (p ∷ []) = is_empty p
one_slash_left (p ∷ q ∷ ps) = false

unfoldable pub follow_link : Text → List Text → ℕ → Text → Step
follow_link current pending links target =
    if ltb 40 (links + 1)
    then stop (ok (refused eloop))
    else if is_empty target
    then stop (ok (refused enoent))
    else if has_byte 0 target
    then stop (throws FsError.null_in_link)
    else go (if is_absolute target then root else current) (prepend target pending) (links + 1)

unfoldable pub enter : Tree VfsNode → Options → Text → Text → List Text → ℕ → Step
enter fs o current part pending links =
    let next = join_paths current part in
    elim (look next fs) [
      | none ↦ go next pending links
      | some n ↦
          if is_link n && (not (no_parts pending) || o.follow_final)
          then follow_link current pending links n.content
          else go next pending links
    ]

-- A component in a directory.
unfoldable pub step_in : Tree VfsNode → Options → VfsNode → Text → Text → List Text → ℕ → Step
step_in fs o n current part pending links =
    if not (is_dir n)
    then stop (ok (refused enotdir))
    else if o.check_search && not (searchable n)
    then stop (throws FsError.search_permission)
    else if o.creating && one_slash_left pending
    then stop (ok (refused eisdir))
    else if ltb name_max (length part)
    then stop (ok (refused enametoolong))
    else if is_empty part || same part dot_part
    then go current pending links
    else if same part dot_dot
    then go (parent_of current) pending links
    else enter fs o current part pending links

unfoldable pub walk_step : Tree VfsNode → Options → Text → Text → List Text → ℕ → Step
walk_step fs o current part pending links = elim (look current fs) [
  | none ↦ stop (ok (refused enoent))
  | some n ↦ step_in fs o n current part pending links
]

unfoldable pub walk : Tree VfsNode → Options → ℕ → Text → List Text → ℕ → Outcome FsError Walked
walk fs o fuel current [] links = ok (arrived current)
walk fs o zero current (part ∷ pending) links = throws FsError.no_fuel
walk fs o (suc fuel) current (part ∷ pending) links =
    elim (walk_step fs o current part pending links) [
      | stop r ↦ r
      | go next left n ↦ walk fs o fuel next left n
    ]

-- One more than the length of the longest content: what one link adds to the pending components.
unfoldable pub widest : Tree VfsNode → ℕ
widest [] = 1
widest ((p, n) ∷ fs) = max (length n.content + 1) (widest fs)

-- The fuel: the components, and what 40 links can add.
unfoldable pub walk_fuel : Tree VfsNode → List Text → ℕ
walk_fuel fs pending = length pending + 40 * widest fs

unfoldable pub walk_from : FileSystemState → Options → Text → Text → Outcome FsError Walked
walk_from s o current path =
    walk s.filesystem o (walk_fuel s.filesystem (prepend path [])) current (prepend path []) 0

-- The directory of a descriptor.
unfoldable pub walk_at : FileSystemState → Options → ℕ → Text → Outcome FsError Walked
walk_at s o fd path =
    if not (is_allocated s.fds fd) then ok (refused ebadf) else elim (find fd s.open_files) [
      | none ↦ ok (refused enotdir)
      | some d ↦ elim (look d.path s.filesystem) [
        | none ↦ throws FsError.no_payload
        | some n ↦ if not (is_dir n) then ok (refused enotdir) else walk_from s o d.path path
      ]
    ]

unfoldable pub walk_relative : FileSystemState → Options → DirFd → Text → Outcome FsError Walked
walk_relative s o at_cwd path = walk_from s o (cwd_of s) path
walk_relative s o (at_fd fd) path = walk_at s o fd path

unfoldable pub resolve_path_checked :
    FileSystemState → Options → DirFd → Text → Outcome FsError Walked
resolve_path_checked s o dirfd path =
    if is_empty path
    then ok (refused enoent)
    else if is_absolute path
    then walk_from s o root path
    else walk_relative s o dirfd path

abbrev pub plain : Options
plain = record { follow_final = true; check_search = false; creating = false }

-- What follows a walk: the error is answered as it is.
unfoldable pub arrive :
    {A : Type 0}
    → (Errno → A)
    → (Text → Outcome FsError A)
    → Outcome FsError Walked
    → Outcome FsError A
arrive answer k (throws e) = throws e
arrive answer k (ok (refused e)) = ok (answer e)
arrive answer k (ok (arrived path)) = k path
