-- ===== src/Fs/Created.antt =====
-- What do_pipe creates.
use det_sim.Base.{
  ℕ, zero, suc, ◌+◌, ◌≤◌, ◌≡◌, ◌≢◌, refl, ap, subst, ◌∙◌, true, false, not, Option, none, some, [],
  ◌∷◌, length, arith, ok, SysResult, ret, errno, pos, negsuc, ◌==◌, Outcome-cases, inl, inr,
  Returns, by_bind, by_test,
}
use det_sim.Base.Map.{Map, Ordered, find, put, contains, find-put, put-From}
use det_sim.Fd.{FdType, Entry, allocate_fd, get_fd_type, o_rdonly, o_wronly, o_nonblock}
use det_sim.Fd.Lowest.{allocate_fd-ret}
use det_sim.Fs.State.{Pipe, FileSystemState, allocate}
use det_sim.Fs.Pipes.{
  Ends, PipeReply, free_id, new_pipe, with_pipes, with_ends, create_pipe, record_ends, undo,
  do_pipe, pipe_end, kept, o_cloexec, descriptor_flag,
}
use det_sim.Fs.Fifo.{HasPipe}

free_id-free :
    (fuel id k : ℕ) (m : Map Pipe) → free_id fuel id m ≡ some k → (contains k m ≡ false) × (id ≤ k)
unfolding free_id
free_id-free zero id k m e = ground arith
free_id-free (suc fuel) id k m e = ground (arith, free_id-free fuel (id + 1) k m)

absent : (k : ℕ) (m : Map Pipe) → contains k m ≡ false → find k m ≡ none
unfolding contains find
absent k [] h = refl
absent k ((j, p) ∷ m) h = ground (arith, absent k m)

allocate-ret :
    (s t : FileSystemState) (kind : FdType) (status descriptor fd : ℕ)
    → Ordered s.fds.entries
    → allocate s kind status descriptor ≡ ok (ret fd, t)
    → let e : Entry = record {
      kind = kind;
      status_flags = status;
      descriptor_flags = descriptor;
    } in
      (find fd s.fds.entries ≡ none)
      × (t ≡ record s { fds = record { entries = put fd e s.fds.entries } })
unfolding allocate
allocate-ret s t kind status descriptor fd o e =
    elim (Outcome-cases (allocate_fd s.fds kind status descriptor)) [
      | inr (x, h) ↦ absurd (ground arith)
      | inl ((r, d), h) ↦
          let taken : allocate_fd s.fds kind status descriptor ≡ ok (ret fd, d) = ground arith in
          let left : t ≡ record s { fds = d } = ground arith in
          let (free, entered) = allocate_fd-ret s.fds kind status descriptor fd d o taken in
          (free, left ∙ ap (λ x. record s { fds = x }) entered)
    ]

-- A state with the two ends of a new pipe entered.
abbrev with_both : FileSystemState → ℕ → ℕ → ℕ → Entry → Entry → FileSystemState
with_both s id r w reading writing = record s {
  fds = record { entries = put w writing (put r reading s.fds.entries) };
  piped = record {
    pipe_fds = put w (negsuc id) (put r (pos (suc id)) s.piped.pipe_fds);
    pipes = put (suc id) new_pipe s.piped.pipes;
  };
}

with_both-HasPipe :
    (s : FileSystemState) (id r w status other descriptor : ℕ)
    → r ≢ w
    → let reading : Entry = record {
      kind = FdType.pipe;
      status_flags = status;
      descriptor_flags = descriptor;
    } in
      let writing : Entry = record {
        kind = FdType.pipe;
        status_flags = other;
        descriptor_flags = descriptor;
      } in
      HasPipe (with_both s id r w reading writing) r w id new_pipe
unfolding pipe_end get_fd_type
with_both-HasPipe s id r w status other descriptor n =
    let reading : Entry = record {
      kind = FdType.pipe;
      status_flags = status;
      descriptor_flags = descriptor;
    } in
    let writing : Entry = record {
      kind = FdType.pipe;
      status_flags = other;
      descriptor_flags = descriptor;
    } in
    let apart : w == r ≡ false = ground arith in
    let same_w : w == w ≡ true = ground arith in
    let same_r : r == r ≡ true = ground arith in
    let same_id : suc id == suc id ≡ true = ground arith in
    record {
      reading =
          rw
            (
              find-put w r writing (put r reading s.fds.entries),
              apart,
              find-put r r reading s.fds.entries,
              same_r,
              find-put w r (negsuc id) (put r (pos (suc id)) s.piped.pipe_fds),
              apart,
              find-put r r (pos (suc id)) s.piped.pipe_fds,
              same_r,
            )
            refl;
      writing =
          rw
            (
              find-put w w writing (put r reading s.fds.entries),
              same_w,
              find-put w w (negsuc id) (put r (pos (suc id)) s.piped.pipe_fds),
              same_w,
            )
            refl;
      piped = rw (find-put (suc id) (suc id) new_pipe s.piped.pipes, same_id) refl;
    }

-- A pipe that was not there, under two descriptors that were free.
pub record IsNewPipe (s : FileSystemState) (ends : Ends) (t : FileSystemState) : Type 0 where
  pub id : ℕ
  pub new : find (suc id) s.piped.pipes ≡ none
  pub held :
      HasPipe t ends.read_fd ends.write_fd id
        (record { buffer = []; read_closed = false; write_closed = false })
  pub read_free : find ends.read_fd s.fds.entries ≡ none
  pub write_free : find ends.write_fd s.fds.entries ≡ none
  pub distinct : ends.read_fd ≢ ends.write_fd
  pub others : (j : ℕ) → j ≢ suc id → find j t.piped.pipes ≡ find j s.piped.pipes

module _ (s : FileSystemState) (status other descriptor id : ℕ) (o : Ordered s.fds.entries)
    (new : find (suc id) s.piped.pipes ≡ none) where
  abbrev end_of : ℕ → Entry
  end_of flags = record { kind = FdType.pipe; status_flags = flags; descriptor_flags = descriptor }

  abbrev begun : FileSystemState
  begun = with_pipes s (put (suc id) new_pipe s.piped.pipes)

  both-IsNewPipe :
      (r w : ℕ) (u v : FileSystemState)
      → allocate begun FdType.pipe status descriptor ≡ ok (ret r, u)
      → allocate u FdType.pipe other descriptor ≡ ok (ret w, v)
      → IsNewPipe s
          (record { read_fd = r; write_fd = w })
          (with_ends v (put w (negsuc id) (put r (pos (suc id)) v.piped.pipe_fds)))
  both-IsNewPipe r w u v first second =
      let (r_free, to_u) = allocate-ret begun u FdType.pipe status descriptor r o first in
      let in_u : FileSystemState = record begun {
        fds = record { entries = put r (end_of status) s.fds.entries };
      } in
      let second' : allocate in_u FdType.pipe other descriptor ≡ ok (ret w, v) =
        subst (λ x. allocate x FdType.pipe other descriptor ≡ ok (ret w, v)) to_u second in
      let (w_free, to_v) =
        allocate-ret in_u v FdType.pipe other descriptor w
          (put-From 0 r (end_of status) s.fds.entries (omega arith) o) second' in
      let looked = find-put r w (end_of status) s.fds.entries in
      let distinct : r ≢ w = λ e. ground (arith, w_free, looked) in
      rw to_v (record {
        id = id;
        new = new;
        held = with_both-HasPipe s id r w status other descriptor distinct;
        read_free = r_free;
        write_free = ground (arith, w_free, looked);
        distinct = distinct;
        others = λ j n. ground (arith, find-put (suc id) j new_pipe s.piped.pipes);
      })

abbrev NewEnds : FileSystemState → PipeReply → Type 0
NewEnds s (res, none, t) = Unit {0}
NewEnds s (res, some ends, t) = IsNewPipe s ends t

undo-NewEnds : (s v : FileSystemState) (id : ℕ) (r w : SysResult) → NewEnds s (undo v id r w)
unfolding undo
undo-NewEnds s v id (ret r) (ret w) = tt
undo-NewEnds s v id (ret r) (errno e) = tt
undo-NewEnds s v id (errno e) (ret w) = tt
undo-NewEnds s v id (errno e) (errno f) = tt

module _ (s : FileSystemState) (flags id : ℕ) (o : Ordered s.fds.entries)
    (new : find (suc id) s.piped.pipes ≡ none) where
  record_ends-NewEnds :
      (r w : SysResult) (u v : FileSystemState)
      → allocate
          (with_pipes s (put (suc id) new_pipe s.piped.pipes))
          FdType.pipe
          (o_rdonly + kept o_nonblock flags)
          (descriptor_flag flags)
        ≡ ok (r, u)
      → allocate u FdType.pipe (o_wronly + kept o_nonblock flags) (descriptor_flag flags)
        ≡ ok (w, v)
      → NewEnds s (record_ends v (suc id) r w)
  unfolding record_ends
  record_ends-NewEnds (ret r) (ret w) u v first second =
      both-IsNewPipe s (o_rdonly + kept o_nonblock flags) (o_wronly + kept o_nonblock flags)
        (descriptor_flag flags) id o new r w u v first second
  record_ends-NewEnds (ret r) (errno e) u v first second =
      undo-NewEnds s v (suc id) (ret r) (errno e)
  record_ends-NewEnds (errno e) w u v first second = undo-NewEnds s v (suc id) (errno e) w

  create_pipe-NewEnds : Returns (NewEnds s) (create_pipe s flags (some (suc id)))
  unfolding create_pipe
  create_pipe-NewEnds =
      let status = o_rdonly + kept o_nonblock flags in
      let other = o_wronly + kept o_nonblock flags in
      let P = Returns (NewEnds s) in
      by_bind P
        (allocate (with_pipes s (put (suc id) new_pipe s.piped.pipes)) FdType.pipe status
          (descriptor_flag flags))
        (λ x. tt)
        (λ a first.
          by_bind P (allocate a.1 FdType.pipe other (descriptor_flag flags)) (λ x. tt)
            (λ b second. record_ends-NewEnds a.0 b.0 a.1 b.1 first second))

searched-NewEnds :
    (s : FileSystemState) (flags : ℕ) (found : Option ℕ)
    → Ordered s.fds.entries
    → free_id (suc (length s.piped.pipes)) 1 s.piped.pipes ≡ found
    → Returns (NewEnds s) (create_pipe s flags found)
unfolding create_pipe
searched-NewEnds s flags none o e = tt
searched-NewEnds s flags (some zero) o e =
    absurd (omega (arith, free_id-free (suc (length s.piped.pipes)) 1 0 s.piped.pipes e))
searched-NewEnds s flags (some (suc id)) o e = create_pipe-NewEnds s flags id o (
    absent (suc id) s.piped.pipes
      (free_id-free (suc (length s.piped.pipes)) 1 (suc id) s.piped.pipes e).0)

-- A pipe call that gives two descriptors, on a table in order: both were free and differ, they are the
-- ends of an empty pipe, open at both ends, under an id that no pipe had, and every other
-- pipe is as it was.
pub do_pipe-IsNewPipe :
    (s t : FileSystemState) (flags : ℕ) (res : SysResult) (ends : Ends)
    → Ordered s.fds.entries
    → do_pipe s flags ≡ ok (res, some ends, t)
    → IsNewPipe s ends t
unfolding do_pipe
do_pipe-IsNewPipe s t flags res ends o e = subst (Returns (NewEnds s)) e (
    by_test (Returns (NewEnds s)) (not (kept o_nonblock flags + kept o_cloexec flags == flags))
      (λ _. tt) (λ _. searched-NewEnds s flags _ o refl))
