-- ===== src/Fs/Ranges.antt =====
-- The ranges of mapped virtual files: their sources by start, and the ranges that these cover.
use det_sim.Base.{
  ℕ, Bool, true, false, ◌&&◌, Option, none, some, [], ◌∷◌, ltb, leb, ◌==◌, if◌then◌else◌,
}
use det_sim.Base.Map.{Map, emplace}
use det_sim.Fs.Strings.{Text, same}
use det_sim.Fs.State.{Source}

-- `mapping_coverage`, with the range that was entered last.
unfoldable pub coverage_from : ℕ → ℕ → Map Source → Map ℕ
coverage_from start stop [] = (start, stop) ∷ []
coverage_from start stop ((k, source) ∷ m) =
    let joined = coverage_from start source.stop m in
    let apart = coverage_from k source.stop m in if stop == k then joined else (start, stop) ∷ apart

unfoldable pub mapping_coverage : Map Source → Map ℕ
mapping_coverage [] = []
mapping_coverage ((k, source) ∷ m) = coverage_from k source.stop m

-- `overlaps_virtual_file_mapping` on the ranges: the entry at the bound or past it, and the one before.
unfoldable pub overlaps_from : Option ℕ → ℕ → ℕ → Map ℕ → Bool
overlaps_from previous start stop [] = elim previous [ none ↦ false | some e ↦ ltb start e ]
overlaps_from previous start stop ((k, e) ∷ m) =
    let later = overlaps_from (some e) start stop m in
    if ltb k start
    then later
    else if ltb k stop
    then true
    else elim previous [ none ↦ false | some e ↦ ltb start e ]

unfoldable pub overlaps : ℕ → ℕ → Map ℕ → Bool
overlaps start stop m = if leb stop start then false else overlaps_from none start stop m

abbrev pub piece_before : ℕ → ℕ → Text → Map Source → Map Source
piece_before left start path m =
    if ltb left start then (left, record { stop = start; path = path }) ∷ m else m

-- The loop of `remove_virtual_file_mapping` from an entry on: what lies in the range is cut out.
unfoldable pub remove_loop : ℕ → ℕ → Map Source → Map Source
remove_loop start stop [] = []
remove_loop start stop ((left, source) ∷ m) =
    let rest = remove_loop start stop m in
    if leb stop left
    then (left, source) ∷ m
    else if leb source.stop start
    then (left, source) ∷ rest
    else if ltb stop source.stop
    then piece_before left start source.path
        (emplace stop (record { stop = source.stop; path = source.path }) m)
    else piece_before left start source.path rest

-- `prev(lower_bound(start))`: the loop starts at the last entry below the bound, if there is one.
unfoldable pub remove_range : ℕ → ℕ → Map Source → Map Source
remove_range start stop [] = []
remove_range start stop ((k, source) ∷ []) = remove_loop start stop ((k, source) ∷ [])
remove_range start stop ((k, source) ∷ (j, next) ∷ m) =
    let rest = remove_range start stop ((j, next) ∷ m) in
    if ltb j start then (k, source) ∷ rest else remove_loop start stop ((k, source) ∷ (j, next) ∷ m)

-- The entry before the bound that ends there, if it is of the same file, is joined: the start of the
-- joined range, and the other entries.
unfoldable pub join_before : ℕ → Text → Map Source → ℕ × Map Source
join_before start path [] = (start, [])
join_before start path ((k, source) ∷ []) =
    if ltb k start && source.stop == start && same source.path path
    then (k, [])
    else (start, (k, source) ∷ [])
join_before start path ((k, source) ∷ (j, next) ∷ m) =
    let later = join_before start path ((j, next) ∷ m) in
    if ltb j start
    then (later.0, (k, source) ∷ later.1)
    else if ltb k start && source.stop == start && same source.path path
    then (k, (j, next) ∷ m)
    else (start, (k, source) ∷ (j, next) ∷ m)

-- The entry at the bound or past it, if it begins where the range stops and is of the same file, is
-- joined: the end of the joined range, and the other entries.
unfoldable pub join_after : ℕ → ℕ → Text → Map Source → ℕ × Map Source
join_after start stop path [] = (stop, [])
join_after start stop path ((k, source) ∷ m) =
    let later = join_after start stop path m in
    if ltb k start
    then (later.0, (k, source) ∷ later.1)
    else if k == stop && same source.path path
    then (source.stop, m)
    else (stop, (k, source) ∷ m)

-- The entry of a range that nothing overlaps.
unfoldable pub enter_range : ℕ → ℕ → Text → Map Source → Map Source
enter_range start stop path m =
    let (first, others) = join_before start path m in
    let (last, rest) = join_after start stop path others in
    emplace first (record { stop = last; path = path }) rest
