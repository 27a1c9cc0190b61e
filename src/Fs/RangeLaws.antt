-- ===== src/Fs/RangeLaws.antt =====
-- The ranges as sets of addresses.
use det_sim.Base.{
  ℕ, ◌≤◌, ◌<◌, ◌≡◌, refl, Bool, true, false, ◌&&◌, ◌||◌, Option, none, some, [], ◌∷◌, ltb, leb,
  if◌then◌else◌, arith,
}
use det_sim.Base.Map.{Map, emplace}
use det_sim.Fs.Strings.{Text}
use det_sim.Fs.State.{Source}
use det_sim.Fs.Ranges.{coverage_from, mapping_coverage, remove_loop, remove_range}

-- Sources from `lo` on that are not empty and do not overlap, in order.
abbrev pub Spans : ℕ → Map Source → Type 0
Spans lo [] = Unit {0}
Spans lo ((k, source) ∷ m) = (lo ≤ k) × (k < source.stop) × Spans source.stop m

abbrev pub within : ℕ → ℕ → ℕ → Bool
within start stop x = leb start x && ltb x stop

-- The file that is mapped at an address.
unfoldable pub source_at : ℕ → Map Source → Option Text
source_at x [] = none
source_at x ((k, source) ∷ m) = if within k source.stop x then some source.path else source_at x m

unfoldable pub covered : ℕ → Map ℕ → Bool
covered x [] = false
covered x ((k, e) ∷ m) = within k e x || covered x m

abbrev pub is_some : Option Text → Bool
is_some none = false
is_some (some p) = true

Spans-mono : (lo hi : ℕ) (m : Map Source) → lo ≤ hi → Spans hi m → Spans lo m
Spans-mono lo hi [] h s = tt
Spans-mono lo hi ((k, source) ∷ m) h s = (omega arith, s.1, s.2)

source_at_below : (x lo : ℕ) (m : Map Source) → Spans lo m → x < lo → source_at x m ≡ none
unfolding source_at
source_at_below x lo [] s h = refl
source_at_below x lo ((k, source) ∷ m) s h = ground (arith, source_at_below x source.stop m s.2)

emplace_first :
    (k : ℕ) (v : Source) (m : Map Source) (lo : ℕ)
    → Spans lo m
    → k < lo
    → emplace k v m ≡ (k, v) ∷ m
unfolding emplace
emplace_first k v [] lo s h = refl
emplace_first k v ((j, w) ∷ m) lo s h = ground arith

-- Cutting out a range: an address in it has no source, any other has the one that it had.
remove_loop-source_at :
    (start stop x lo : ℕ) (m : Map Source)
    → start < stop
    → Spans lo m
    → source_at x (remove_loop start stop m) ≡ (if within start stop x then none else source_at x m)
unfolding source_at remove_loop
remove_loop-source_at start stop x lo [] h s = ground arith
remove_loop-source_at start stop x lo ((k, source) ∷ m) h s = ground (
  arith,
  remove_loop-source_at start stop x source.stop m h s.2,
  source_at_below x source.stop m s.2,
  emplace_first stop (record { stop = source.stop; path = source.path }) m source.stop s.2,
)

pub remove_range-source_at :
    (start stop x lo : ℕ) (m : Map Source)
    → start < stop
    → Spans lo m
    → source_at x (remove_range start stop m)
      ≡ (if within start stop x then none else source_at x m)
unfolding source_at remove_range
remove_range-source_at start stop x lo [] h s = ground arith
remove_range-source_at start stop x lo ((k, source) ∷ []) h s =
    remove_loop-source_at start stop x lo ((k, source) ∷ []) h s
remove_range-source_at start stop x lo ((k, source) ∷ (j, next) ∷ m) h s = ground (
  arith,
  remove_range-source_at start stop x source.stop ((j, next) ∷ m) h s.2,
  remove_loop-source_at start stop x lo ((k, source) ∷ (j, next) ∷ m) h s,
)

remove_loop-Spans :
    (start stop lo : ℕ) (m : Map Source)
    → start < stop
    → Spans lo m
    → Spans lo (remove_loop start stop m)
unfolding remove_loop
remove_loop-Spans start stop lo [] h s = tt
remove_loop-Spans start stop lo ((k, source) ∷ m) h s = ground (
  arith,
  remove_loop-Spans start stop source.stop m h s.2,
  Spans-mono lo source.stop (remove_loop start stop m),
  Spans-mono start source.stop (remove_loop start stop m),
  emplace_first stop (record { stop = source.stop; path = source.path }) m source.stop s.2,
)

pub remove_range-Spans :
    (start stop lo : ℕ) (m : Map Source)
    → start < stop
    → Spans lo m
    → Spans lo (remove_range start stop m)
unfolding remove_range
remove_range-Spans start stop lo [] h s = tt
remove_range-Spans start stop lo ((k, source) ∷ []) h s =
    remove_loop-Spans start stop lo ((k, source) ∷ []) h s
remove_range-Spans start stop lo ((k, source) ∷ (j, next) ∷ m) h s = ground (
  arith,
  remove_range-Spans start stop source.stop ((j, next) ∷ m) h s.2,
  remove_loop-Spans start stop lo ((k, source) ∷ (j, next) ∷ m) h s,
)

coverage_from-covered :
    (start stop x : ℕ) (m : Map Source)
    → start < stop
    → Spans stop m
    → covered x (coverage_from start stop m) ≡ (within start stop x || is_some (source_at x m))
unfolding covered coverage_from source_at
coverage_from-covered start stop x [] h s = ground arith
coverage_from-covered start stop x ((k, source) ∷ m) h s = ground (
  arith,
  coverage_from-covered start source.stop x m (omega arith) s.2,
  coverage_from-covered k source.stop x m s.1 s.2,
)

pub mapping_coverage-covered :
    (x lo : ℕ) (m : Map Source)
    → Spans lo m
    → covered x (mapping_coverage m) ≡ is_some (source_at x m)
unfolding covered mapping_coverage source_at
mapping_coverage-covered x lo [] s = refl
mapping_coverage-covered x lo ((k, source) ∷ m) s =
    ground (arith, coverage_from-covered k source.stop x m s.1 s.2)
