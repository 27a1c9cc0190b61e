-- ===== src/Fs/Mapped.antt =====
-- Virtual file mappings of a state: add_virtual_file_mapping, remove_virtual_file_mapping and
-- overlaps_virtual_file_mapping.
use det_sim.Base.{
  ℕ, ◌%◌, Bool, false, ◌&&◌, ◌||◌, not, none, some, leb, ◌==◌, if◌then◌else◌, Outcome, ok, throws,
  throw_if, ◌>>=◌, ◌>>◌,
}
use det_sim.Base.Map.{Map}
use det_sim.Fs.Strings.{Text, same}
use det_sim.Fs.Tree.{look}
use det_sim.Fs.State.{Source, FileSystemState, FsError, is_reg}
use det_sim.Fs.Ranges.{mapping_coverage, overlaps, remove_range, enter_range}
use det_sim.Fs.Resolve.{Walked, arrived, refused, resolve_path_checked, at_cwd, plain}

abbrev pub aligned : ℕ → Bool
aligned n = n % 4096 == 0

-- The sources after a change, and the ranges that they cover.
unfoldable pub with_sources : FileSystemState → Map Source → FileSystemState
with_sources s m = record s {
  virtual_file_mapping_sources = m;
  virtual_file_mappings = mapping_coverage m;
}

unfoldable pub overlaps_virtual_file_mapping : FileSystemState → ℕ → ℕ → Bool
overlaps_virtual_file_mapping s start stop = overlaps start stop s.virtual_file_mappings

unfoldable pub remove_virtual_file_mapping :
    FileSystemState → ℕ → ℕ → Outcome FsError FileSystemState
remove_virtual_file_mapping s start stop =
    if leb stop start
    then ok s
    else if not (aligned start && aligned stop)
    then throws FsError.unaligned_removal
    else ok (with_sources s (remove_range start stop s.virtual_file_mapping_sources))

abbrev is_itself : Text → Walked → Bool
is_itself path (arrived p) = same p path
is_itself path (refused e) = false

-- A regular file by its resolved name.
unfoldable pub is_canonical : FileSystemState → Text → Outcome FsError Bool
is_canonical s path = elim (look path s.filesystem) [
  | none ↦ ok false
  | some n ↦
      if not (is_reg n)
      then ok false
      else (resolve_path_checked s plain at_cwd path >>= λ w. ok (is_itself path w))
]

unfoldable pub add_virtual_file_mapping :
    FileSystemState → ℕ → ℕ → Text → Outcome FsError FileSystemState
add_virtual_file_mapping s start stop path =
    if leb stop start || not (aligned start && aligned stop)
    then throws FsError.invalid_source
    else do
      good ← is_canonical s path
      throw_if (not good) FsError.invalid_source
      t ← remove_virtual_file_mapping s start stop
      ok (with_sources t (enter_range start stop path t.virtual_file_mapping_sources))
