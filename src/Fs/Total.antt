-- ===== src/Fs/Total.antt =====
-- A pipe call ends, and it always returns.
use det_sim.Base.{
  ℕ, zero, suc, ◌+◌, ◌≤◌, ◌<◌, ◌≡◌, ◌≢◌, ◌⊎◌, refl, true, not, none, some, [], ◌∷◌, length, arith,
  Outcome, ok, SysResult, errno, leb, ◌==◌, ◌/◌, ◌%◌, if◌then◌else◌, Option-cases, Bool-cases, inl,
  inr, by_test, einval,
}
use det_sim.Base.Map.{Map, Ordered, put, contains, put-From}
use det_sim.Fd.{FdManager, FdType, Entry, o_rdonly, o_wronly, o_nonblock, valid_entry}
use det_sim.Fd.Lowest.{Allocated, lowest, full, allocate_fd-Allocated}
use det_sim.Fs.State.{Pipe, FileSystemState, FsError, allocate}
use det_sim.Fs.Pipes.{
  PipeReply, free_id, new_pipe, with_pipes, create_pipe, record_ends, do_pipe, kept, o_cloexec,
  descriptor_flag,
}

-- The pipes with an id from `id` on.
count_from : ℕ → Map Pipe → ℕ
count_from id [] = 0
count_from id ((k, p) ∷ m) = let rest = count_from id m in if leb id k then suc rest else rest

count_from-length : (id : ℕ) (m : Map Pipe) → count_from id m ≤ length m
unfolding count_from
count_from-length id [] = omega arith
count_from-length id ((k, p) ∷ m) = ground (arith, count_from-length id m)

count_from_mono : (id : ℕ) (m : Map Pipe) → count_from (id + 1) m ≤ count_from id m
unfolding count_from
count_from_mono id [] = omega arith
count_from_mono id ((k, p) ∷ m) = ground (arith, count_from_mono id m)

count_from-contains :
    (id : ℕ) (m : Map Pipe) → contains id m ≡ true → count_from (id + 1) m < count_from id m
unfolding count_from contains
count_from-contains id [] h = ground arith
count_from-contains id ((k, p) ∷ m) h =
    ground (arith, count_from-contains id m, count_from_mono id m)

free_id_found : (fuel id : ℕ) (m : Map Pipe) → count_from id m < fuel → free_id fuel id m ≢ none
unfolding free_id
free_id_found zero id m h = absurd (omega arith)
free_id_found (suc fuel) id m h =
    ground (arith, free_id_found fuel (id + 1) m, count_from-contains id m)

abbrev Returned : {A : Type 0} → Outcome FsError A → Type 0
Returned {A} o = (r : A) × (o ≡ ok r)

nonblock_cases : (flags : ℕ) → (kept o_nonblock flags ≡ 0) ⊎ (kept o_nonblock flags ≡ 2048)
nonblock_cases flags = elim (Bool-cases (flags / 2048 % 2 == 0)) [
  | inl e ↦ inl (ground arith)
  | inr e ↦ inr (ground arith)
]

descriptor_flag-bound : (flags : ℕ) → descriptor_flag flags ≤ 1
descriptor_flag-bound flags = ground arith

valid_end :
    (access flags : ℕ)
    → access ≤ 1
    → valid_entry FdType.pipe (access + kept o_nonblock flags) (descriptor_flag flags) ≡ true
unfolding valid_entry
valid_end access flags h = elim (nonblock_cases flags) [
  | inl e ↦ rw e (ground (arith, descriptor_flag-bound flags))
  | inr e ↦ rw e (ground (arith, descriptor_flag-bound flags))
]

-- An allocation of an end returns, and keeps the table in order.
allocate-Returned :
    (s : FileSystemState) (access flags : ℕ)
    → access ≤ 1
    → Ordered s.fds.entries
    → (r : SysResult) × (t : FileSystemState) × (allocate s FdType.pipe
          (access + kept o_nonblock flags)
          (descriptor_flag flags)
        ≡ ok (r, t))
      × Ordered t.fds.entries
unfolding allocate
allocate-Returned s access flags h o =
    let status = access + kept o_nonblock flags in
    let (r, e, a) =
      allocate_fd-Allocated s.fds FdType.pipe status (descriptor_flag flags) o
        (valid_end access flags h) in
    (r.0, record s { fds = r.1 }, rw e refl, table r a)
  where
    entry : Entry
    entry = record {
      kind = FdType.pipe;
      status_flags = access + kept o_nonblock flags;
      descriptor_flags = descriptor_flag flags;
    }

    table : (r : SysResult × FdManager) → Allocated s.fds entry r → Ordered r.1.entries
    table r (lowest fd free) = put-From 0 fd entry s.fds.entries (omega arith) o
    table r (full f) = o

create_pipe-Returned :
    (s : FileSystemState) (flags id : ℕ)
    → Ordered s.fds.entries
    → Returned (create_pipe s flags (some id))
unfolding create_pipe
create_pipe-Returned s flags id o =
    let (r, t, first, o') =
      allocate-Returned (with_pipes s (put id new_pipe s.piped.pipes)) o_rdonly flags (omega arith)
        o in
    let (w, u, second, o'') = allocate-Returned t o_wronly flags (omega arith) o' in
    (record_ends u id r w, rw first (rw second refl))

-- On a table in order a pipe call returns, whatever its flags: the search for an id ends within its
-- fuel, and no allocation throws.
pub do_pipe-Returned :
    (s : FileSystemState) (flags : ℕ)
    → Ordered s.fds.entries
    → (r : PipeReply) × (do_pipe s flags ≡ ok r)
unfolding do_pipe
do_pipe-Returned s flags o =
    by_test Returned (not (kept o_nonblock flags + kept o_cloexec flags == flags))
      (λ _. ((errno einval, none, s), refl))
      (λ _. elim (Option-cases (free_id (suc (length s.piped.pipes)) 1 s.piped.pipes)) [
        | inl e ↦ absurd (
            free_id_found (suc (length s.piped.pipes)) 1 s.piped.pipes
              (omega (arith, count_from-length 1 s.piped.pipes)) e)
        | inr (id, e) ↦ rw e (create_pipe-Returned s flags id o)
      ])
