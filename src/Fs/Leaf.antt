-- ===== src/Fs/Leaf.antt =====
-- The leaf that a path names, resolve_namespace_leaf, and what stands in the way of changing it.
use det_sim.Base.{
  Bool, true, false, ◌||◌, not, none, some, [], ◌∷◌, ◌++◌, ◌==◌, if◌then◌else◌, Outcome, ok, throws,
  throw_if, ◌>>=◌, ◌>>◌, Errno, enoent, einval, enotdir,
}
use det_sim.Base.Map.{Map}
use det_sim.Fs.Strings.{
  Text, slash, dot, root, same, has_byte, is_empty, ends_with, before_last_slash, after_last_slash,
  parent_of, join_paths,
}
use det_sim.Fs.Tree.{look}
use det_sim.Fs.State.{OpenFileDescription, FileSystemState, FsError, is_dir, is_sticky}
use det_sim.Fs.Resolve.{
  DirFd, Walked, arrived, refused, resolve_path_checked, plain, dot_part, dot_dot,
}
use det_sim.Fs.Files.{require_unmapped_file}
use det_sim.Fs.Open.{proc_self_exe, is_executable}

-- `NamespaceLeaf::Kind`.
pub data LeafKind : Type 0 where
  normal dot_leaf dot_dot_leaf root_leaf : LeafKind

pub record NamespaceLeaf : Type 0 where
  pub kind : LeafKind
  pub parent : Text
  pub path : Text
  pub name : Text
  pub trailing_slash : Bool

pub data Leaf : Type 0 where
  leaf : NamespaceLeaf → Leaf
  leaf_error : Errno → Leaf

-- `input.substr(0, last + 1)` for `find_last_not_of('/')`: empty if there are only slashes.
unfoldable pub strip_slashes : Text → Text
strip_slashes [] = []
strip_slashes (x ∷ xs) =
    let rest = strip_slashes xs in
    if is_empty rest then (if x == slash then [] else x ∷ []) else x ∷ rest

-- The part up to and with the last slash, or "./".
unfoldable pub leaf_parent : Text → Text
leaf_parent stem =
    if has_byte slash stem then before_last_slash stem ++ slash ∷ [] else dot ∷ slash ∷ []

unfoldable pub named_leaf : Text → Text → Bool → NamespaceLeaf
named_leaf parent name trailing =
    if same name dot_part
    then record {
      kind = dot_leaf;
      parent = parent;
      path = parent;
      name = name;
      trailing_slash = trailing;
    }
    else if same name dot_dot
    then record {
      kind = dot_dot_leaf;
      parent = parent;
      path = parent_of parent;
      name = name;
      trailing_slash = trailing;
    }
    else record {
      kind = normal;
      parent = parent;
      path = join_paths parent name;
      name = name;
      trailing_slash = trailing;
    }

unfoldable pub leaf_in : FileSystemState → Text → Bool → Walked → Leaf
leaf_in s name trailing (refused e) = leaf_error e
leaf_in s name trailing (arrived parent) = elim (look parent s.filesystem) [
  | none ↦ leaf_error enoent
  | some n ↦ if not (is_dir n) then leaf_error enotdir else leaf (named_leaf parent name trailing)
]

unfoldable pub resolve_namespace_leaf : FileSystemState → DirFd → Text → Outcome FsError Leaf
resolve_namespace_leaf s dirfd input =
    let stem = strip_slashes input in
    if is_empty input
    then ok (leaf_error enoent)
    else if has_byte 0 input
    then ok (leaf_error einval)
    else if is_empty stem
    then ok (
        leaf (record {
          kind = root_leaf;
          parent = root;
          path = root;
          name = [];
          trailing_slash = true;
        }))
    else (resolve_path_checked s plain dirfd (leaf_parent stem) >>= λ w.
        ok (leaf_in s (after_last_slash stem) (ends_with slash input) w))

unfoldable pub any_open : Text → Map OpenFileDescription → Bool
any_open path [] = false
any_open path ((fd, d) ∷ m) = same d.path path || any_open path m

unfoldable pub require_namespace_mutable : FileSystemState → Text → Outcome FsError (Unit {0})
require_namespace_mutable s path = do
  throw_if (same path proc_self_exe) FsError.executable_link
  throw_if (is_executable s path) FsError.running_executable
  throw_if (any_open path s.open_files) FsError.open_object
  require_unmapped_file s path

abbrev pub is_normal : LeafKind → Bool
is_normal normal = true
is_normal dot_leaf = false
is_normal dot_dot_leaf = false
is_normal root_leaf = false

abbrev pub is_root : LeafKind → Bool
is_root root_leaf = true
is_root normal = false
is_root dot_leaf = false
is_root dot_dot_leaf = false

-- `filesystem.at(path).metadata.st_mode & S_ISVTX`.
unfoldable pub sticky_at : FileSystemState → Text → Outcome FsError Bool
sticky_at s path = elim (look path s.filesystem) [
  | none ↦ throws FsError.out_of_range
  | some n ↦ ok (is_sticky n)
]
