-- ===== src/Net/Piped.antt =====
-- The readiness of pipes that epoll reports, against the reads and writes of the file system state.
use det_sim.Base.{
  ℕ, suc, ◌≡◌, refl, Bool, true, false, ◌||◌, not, some, List, [], ◌∷◌, length, arith, ok, throws,
  SysResult, errno, eagain, pos, negsuc, ◌==◌,
}
use det_sim.Base.Map.{find}
use det_sim.Fs.State.{Pipe, FileSystemState, Reply}
use det_sim.Fs.Pipes.{
  Guest, do_pipe_read, do_pipe_write, pipe_end, read_pipe, write_pipe, append_bytes,
}
use det_sim.Fs.Fifo.{HasPipe, do_pipe_read-opens, do_pipe_write-opens}
use det_sim.Net.Epoll.{pipe_ready, has_items, end_ready}

-- A result that a blocking call waits at.
abbrev pub waits : SysResult → Bool
waits (errno eagain) = true
waits _ = false

abbrev pub reply_waits : Reply → Bool
reply_waits (ok (r, t)) = waits r
reply_waits (throws e) = false

has_items-length : (xs : List ℕ) → has_items xs ≡ not (length xs == 0)
has_items-length [] = refl
has_items-length (x ∷ xs) = ground arith

module _ (s : FileSystemState) (r w id : ℕ) (p : Pipe) (h : HasPipe s r w id p) where
  reading_end : find r s.piped.pipe_fds ≡ some (pos (suc id))
  unfolding pipe_end
  reading_end = ground (arith, h.reading)

  writing_end : find w s.piped.pipe_fds ≡ some (negsuc id)
  unfolding pipe_end
  writing_end = ground (arith, h.writing)

  read_ready : pipe_ready s.piped r ≡ end_ready (pos (suc id)) (some p)
  unfolding pipe_ready
  read_ready = rw (reading_end, pipe_ready) (rw (h.piped, end_ready) refl)

  write_ready : pipe_ready s.piped w ≡ end_ready (negsuc id) (some p)
  unfolding pipe_ready
  write_ready = rw (writing_end, pipe_ready) (rw (h.piped, end_ready) refl)

  read_waits :
      (written : Bool) → (pipe_ready s.piped r).in_bit ≡ not (waits (do_pipe_read s r 1 written).0)
  unfolding read_pipe
  read_waits written =
      rw (read_ready, do_pipe_read-opens s r w id p h 1 written)
        (ground (arith, has_items-length p.buffer))

  write_waits :
      (guest : Guest)
      → let ready = pipe_ready s.piped w in
        (ready.out_bit || ready.err_bit) ≡ not (reply_waits (do_pipe_write s w 1 guest))
  unfolding write_pipe append_bytes
  write_waits guest = rw (write_ready, do_pipe_write-opens s r w id p h 1 guest) (ground arith)

  -- For the two ends of a pipe: epoll reports the reading end readable exactly when a read of one byte
  -- does not answer EAGAIN, and the writing end writable or in error exactly when a write of one byte
  -- does not.
  pub pipe_ready-waits :
      (written : Bool) (guest : Guest)
      → ((pipe_ready s.piped r).in_bit ≡ not (waits (do_pipe_read s r 1 written).0))
        × (let ready = pipe_ready s.piped w in
            (ready.out_bit || ready.err_bit) ≡ not (reply_waits (do_pipe_write s w 1 guest)))
  pipe_ready-waits written guest = (read_waits written, write_waits guest)
