-- ===== src/Fs/MappedLaws.antt =====
-- What the removal of a range leaves mapped.
use det_sim.Base.{
  ℕ, ◌<◌, ◌≡◌, refl, not, ◌&&◌, none, if◌then◌else◌, leb, arith, ok, by_test, Returns, subst,
}
use det_sim.Fs.State.{FileSystemState}
use det_sim.Fs.Ranges.{mapping_coverage, remove_range}
use det_sim.Fs.RangeLaws.{
  Spans, within, source_at, covered, is_some, remove_range-source_at, remove_range-Spans,
  mapping_coverage-covered,
}
use det_sim.Fs.Mapped.{with_sources, remove_virtual_file_mapping, aligned}

-- The sources are in order and do not overlap, and the ranges are those that they cover.
pub record IsMapped (s : FileSystemState) : Type 0 where
  pub spans : Spans 0 s.virtual_file_mapping_sources
  pub covers : s.virtual_file_mappings ≡ mapping_coverage s.virtual_file_mapping_sources

-- Every address loses its file if it lies in the range, and keeps it if not; it is covered if it has one.
pub record Removed (s : FileSystemState) (start stop : ℕ) (t : FileSystemState) : Type 0 where
  pub mapped : IsMapped t
  pub sources :
      (x : ℕ)
      → source_at x t.virtual_file_mapping_sources
        ≡ (if within start stop x then none else source_at x s.virtual_file_mapping_sources)
  pub coverage :
      (x : ℕ)
      → covered x t.virtual_file_mappings ≡ is_some (source_at x t.virtual_file_mapping_sources)

covered-source :
    (s : FileSystemState)
    → IsMapped s
    → (x : ℕ)
    → covered x s.virtual_file_mappings ≡ is_some (source_at x s.virtual_file_mapping_sources)
covered-source s m x =
    rw m.covers (mapping_coverage-covered x 0 s.virtual_file_mapping_sources m.spans)

-- A removal that returns, on sources that are in order without overlaps and with the ranges that they
-- cover: an address of the removed range has no file after it and every other address has the
-- file it had, and the ranges cover the addresses that have a file.
pub remove_virtual_file_mapping-Removed :
    (s t : FileSystemState) (start stop : ℕ)
    → IsMapped s
    → remove_virtual_file_mapping s start stop ≡ ok t
    → Removed s start stop t
unfolding remove_virtual_file_mapping with_sources
remove_virtual_file_mapping-Removed s t start stop m e = subst (Returns (Removed s start stop)) e (
    by_test (Returns (Removed s start stop)) (leb stop start)
      (λ low. record { mapped = m; sources = λ x. ground arith; coverage = covered-source s m })
      (λ high.
        by_test (Returns (Removed s start stop)) (not (aligned start && aligned stop)) (λ _. tt)
          (λ _.
            let range : start < stop = ground arith in
            let after : IsMapped
                (with_sources s (remove_range start stop s.virtual_file_mapping_sources)) =
              record {
                spans =
                    remove_range-Spans start stop 0 s.virtual_file_mapping_sources range m.spans;
                covers = refl;
              } in
            record {
              mapped = after;
              sources = λ x.
                  remove_range-source_at start stop x 0 s.virtual_file_mapping_sources range
                    m.spans;
              coverage =
                  covered-source
                    (with_sources s (remove_range start stop s.virtual_file_mapping_sources)) after;
            })))
