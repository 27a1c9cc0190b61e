-- ===== src/Fs/Fifo.antt =====
-- A pipe is a queue of bytes: what is read of it is what was written, in order.
use mathlib.Core.List.{append_assoc, append-nil}
use det_sim.Base.{
  ℕ, suc, ◌+◌, ◌-◌, ◌≤◌, ◌≡◌, refl, sym, ap, ◌∙◌, Bool, true, false, Option, none, some, List, [],
  ◌∷◌, ◌++◌, ◌||◌, not, length, length-append, drop, take-append-drop, min, pos, negsuc, ok, throws,
  SysResult, ret, errno, eagain, efault, epipe, einval, Returns, by_test, ◌&&◌, arith, ◌==◌,
  if◌then◌else◌, ltb, leb, Option-cases, inl, inr, Bool-cases,
}
use det_sim.Base.Map.{find, modify, find-modify}
use det_sim.Fd.{get_status_flags}
use det_sim.Fs.State.{Pipe, FileSystemState, Reply, pipe_capacity, pipe_atomic_limit}
use det_sim.Fs.Pipes.{
  Guest, ReadReply, ssize_max, nonblocking, do_pipe_read, do_pipe_write, pipe_end, read_end,
  read_pipe, write_end, write_pipe, append_bytes, with_pipes,
}

-- The descriptors of the two ends of a pipe.
pub record HasPipe (s : FileSystemState) (r w id : ℕ) (p : Pipe) : Type 0 where
  pub reading : pipe_end s r ≡ some (pos (suc id))
  pub writing : pipe_end s w ≡ some (negsuc id)
  pub piped : find (suc id) s.piped.pipes ≡ some p

-- The reads and writes of the two ends, and what each gives or takes of the guest.
pub data PipeCall : Type 0 where
  reads : ℕ → Bool → PipeCall
  writes : ℕ → Guest → PipeCall

-- What guest memory reads as has the length that is asked for.
abbrev pub Exact : Guest → Type 0
Exact guest = (n : ℕ) (bs : List ℕ) → guest n ≡ some bs → length bs ≡ n

-- The pipe and what the reader and the writer have moved.
pub record Flow : Type 0 where
  pub state : FileSystemState
  pub taken : List ℕ
  pub given : List ℕ

-- What a write that succeeded took of the guest.
abbrev pub moved : Guest → SysResult → List ℕ
moved guest (ret n) = elim (guest n) [ none ↦ [] | some bs ↦ bs ]
moved guest (errno e) = []

none_moved : (guest : Guest) → Exact guest → moved guest (ret 0) ≡ []
none_moved guest x = elim (Option-cases (guest 0)) [
  | inl e ↦ rw (e, moved) refl
  | inr (bs, e) ↦ rw (e, moved) (empty bs (x 0 bs e))
]
  where
    empty : (bs : List ℕ) → length bs ≡ 0 → bs ≡ []
    empty [] h = refl
    empty (b ∷ bs) h = absurd (omega arith)

module _ (s : FileSystemState) (r w id : ℕ) (p : Pipe) (h : HasPipe s r w id p) where
  pub do_pipe_read-opens :
      (count : ℕ) (written : Bool)
      → do_pipe_read s r count written ≡ read_pipe s (suc id) count written p
  unfolding do_pipe_read read_end
  do_pipe_read-opens count written = rw (h.reading, do_pipe_read) (rw (h.piped, read_end) refl)

  pub do_pipe_write-opens :
      (count : ℕ) (guest : Guest)
      → do_pipe_write s w count guest ≡ write_pipe s w (suc id) count guest p
  unfolding do_pipe_write write_end
  do_pipe_write-opens count guest = rw (h.writing, do_pipe_write) (rw (h.piped, write_end) refl)

  modified-HasPipe :
      (f : Pipe → Pipe) → HasPipe (with_pipes s (modify (suc id) f s.piped.pipes)) r w id (f p)
  unfolding pipe_end
  modified-HasPipe f = record {
    reading = h.reading;
    writing = h.writing;
    piped = ground (arith, h.piped, find-modify (suc id) (suc id) f s.piped.pipes);
  }

  -- An empty pipe gives nothing, at its end or before.
  nothing_read :
      (closed : Bool)
      → let (res, bs, t) : ReadReply = if closed then (ret 0, [], s) else (errno eagain, [], s) in
        (left : List ℕ) × (bs ++ left ≡ p.buffer) × HasPipe t r w id (record p { buffer = left })
  nothing_read true = (p.buffer, refl, h)
  nothing_read false = (p.buffer, refl, h)

  read_pipe-moves :
      (count : ℕ) (written : Bool)
      → let (res, bs, t) = read_pipe s (suc id) count written p in
        (left : List ℕ) × (bs ++ left ≡ p.buffer) × HasPipe t r w id (record p { buffer = left })
  unfolding read_pipe
  read_pipe-moves count written = elim (Bool-cases (count == 0)) [
    | inl a ↦ rw a (p.buffer, refl, h)
    | inr a ↦ elim (Bool-cases (length p.buffer == 0)) [
      | inl b ↦ rw (a, b) (nothing_read p.write_closed)
      | inr b ↦ elim (Bool-cases written) [
        | inl c ↦
            let n = min count (length p.buffer) in
            rw (a, b, c)
              (
                drop n p.buffer,
                take-append-drop n p.buffer,
                modified-HasPipe (λ q. record q { buffer = drop n q.buffer }),
              )
        | inr c ↦ rw (a, b, c) (p.buffer, refl, h)
      ]
    ]
  ]

  -- What a write leaves: it took nothing, or it appended what it took, for which there was room.
  Appends : Guest → SysResult → FileSystemState → Type 0
  Appends guest res t =
      (left : List ℕ) × (left ≡ p.buffer ++ moved guest res)
      × (length left ≤ pipe_capacity)
      × HasPipe t r w id (record p { buffer = left })

  took_nothing :
      (guest : Guest) (res : SysResult)
      → length p.buffer ≤ pipe_capacity
      → moved guest res ≡ []
      → Appends guest res s
  unfolding Appends
  took_nothing guest res b e = (p.buffer, rw (e, append-nil) refl, b, h)

  append_bytes-Appends :
      (guest : Guest) (n : ℕ) (o : Option (List ℕ))
      → Exact guest
      → guest n ≡ o
      → n + length p.buffer ≤ pipe_capacity
      → let (res, t) = append_bytes s (suc id) n o in Appends guest res t
  unfolding append_bytes Appends
  append_bytes-Appends guest n none x e b = took_nothing guest (errno efault) (omega arith) refl
  append_bytes-Appends guest n (some bs) x e b = (
    p.buffer ++ bs,
    rw (e, moved) refl,
    omega (arith, length-append p.buffer bs, x n bs e),
    modified-HasPipe (λ q. record q { buffer = q.buffer ++ bs }),
  )

  abbrev Done : Guest → Reply → Type 0
  Done guest o = Returns (λ (a : SysResult × FileSystemState). Appends guest a.0 a.1) o

  write_pipe-Appends :
      (count : ℕ) (guest : Guest)
      → Exact guest
      → length p.buffer ≤ pipe_capacity
      → Done guest (write_pipe s w (suc id) count guest p)
  unfolding write_pipe
  write_pipe-Appends count guest x b =
      let room = pipe_capacity - length p.buffer in
      let n = min count room in
      let keep = λ (res : SysResult) (e : moved guest res ≡ []). took_nothing guest res b e in
      by_test (Done guest) (count == 0) (λ _. keep (ret 0) (none_moved guest x))
        (λ _.
          by_test (Done guest) p.read_closed (λ _. keep (errno epipe) refl)
            (λ _.
              by_test (Done guest) (ltb ssize_max count) (λ _. keep (errno einval) refl)
                (λ _.
                  by_test (Done guest)
                    (ltb pipe_atomic_limit count
                      && ltb room count
                      && not (nonblocking (get_status_flags s.fds w)))
                    (λ _. tt)
                    (λ _.
                      by_test (Done guest)
                        (room == 0 || leb count pipe_atomic_limit && ltb room count)
                        (λ _. keep (errno eagain) refl)
                        (λ _. append_bytes-Appends guest n (guest n) x refl (omega arith))))))

after_read : Flow → SysResult × List ℕ × FileSystemState → Flow
after_read f (res, bs, t) = record { state = t; taken = f.taken ++ bs; given = f.given }

after_write : Flow → Guest → Reply → Flow
after_write f guest (ok (res, t)) = record {
  state = t;
  taken = f.taken;
  given = f.given ++ moved guest res;
}
after_write f guest (throws e) = f

-- A call on the reading end `r` or the writing end `w`.
call : ℕ → ℕ → PipeCall → Flow → Flow
unfolding after_read after_write
call r w (reads count written) f = after_read f (do_pipe_read f.state r count written)
call r w (writes count guest) f = after_write f guest (do_pipe_write f.state w count guest)

pub calls : ℕ → ℕ → List PipeCall → Flow → Flow
unfolding call
calls r w [] f = f
calls r w (c ∷ cs) f = calls r w cs (call r w c f)

abbrev pub AllExact : List PipeCall → Type 0
AllExact [] = Unit {0}
AllExact (reads count written ∷ cs) = AllExact cs
AllExact (writes count guest ∷ cs) = Exact guest × AllExact cs

-- The queue of the pipe `p` in a flow: what was taken and what is left is what there was and what was
-- given.
pub record IsQueue (r w id : ℕ) (p : Pipe) (items : List ℕ) (f : Flow) : Type 0 where
  pub left : List ℕ
  pub held : HasPipe f.state r w id (record p { buffer = left })
  pub fifo : f.taken ++ left ≡ items ++ f.given
  pub bounded : length left ≤ pipe_capacity

module _ (r w id : ℕ) (p : Pipe) (items : List ℕ) where
  read-IsQueue :
      (count : ℕ) (written : Bool) (f : Flow)
      → IsQueue r w id p items f
      → IsQueue r w id p items (call r w (reads count written) f)
  unfolding call
  read-IsQueue count written f q =
      let now : Pipe = record p { buffer = q.left } in
      rw (do_pipe_read-opens f.state r w id now q.held count written) (
        let (left, split, held) = read_pipe-moves f.state r w id now q.held count written in
        record {
          left = left;
          held = held;
          fifo =
              append_assoc f.taken (read_pipe f.state (suc id) count written now).1 left
              ∙ (ap (λ x. f.taken ++ x) split ∙ q.fifo);
          bounded = omega (
            arith,
            ap length split,
            length-append (read_pipe f.state (suc id) count written now).1 left,
            q.bounded,
          );
        })

  write-IsQueue :
      (count : ℕ) (guest : Guest) (f : Flow)
      → Exact guest
      → IsQueue r w id p items f
      → IsQueue r w id p items (call r w (writes count guest) f)
  unfolding call Appends
  write-IsQueue count guest f x q =
      let now : Pipe = record p { buffer = q.left } in
      rw (do_pipe_write-opens f.state r w id now q.held count guest) (
        written (write_pipe f.state w (suc id) count guest now)
          (write_pipe-Appends f.state r w id now q.held count guest x q.bounded))
    where
      written :
          (o : Reply)
          → Done f.state r w id (record p { buffer = q.left }) q.held guest o
          → IsQueue r w id p items (after_write f guest o)
      written (throws e) d = q
      written (ok (res, t)) (left, split, room, held) = record {
        left = left;
        held = held;
        fifo =
            ap (λ x. f.taken ++ x) split
            ∙ (sym (append_assoc f.taken q.left (moved guest res))
                ∙ (ap (λ x. x ++ moved guest res) q.fifo
                    ∙ append_assoc items f.given (moved guest res)));
        bounded = room;
      }

  calls-IsQueue :
      (cs : List PipeCall) (f : Flow)
      → AllExact cs
      → IsQueue r w id p items f
      → IsQueue r w id p items (calls r w cs f)
  unfolding calls
  calls-IsQueue [] f x q = q
  calls-IsQueue (reads count written ∷ cs) f x q =
      calls-IsQueue cs _ x (read-IsQueue count written f q)
  calls-IsQueue (writes count guest ∷ cs) f x q =
      calls-IsQueue cs _ x.1 (write-IsQueue count guest f x.0 q)

-- Over any reads and writes of the two ends of a pipe that is within its capacity, the pipe is a queue:
-- what was in it, followed by what the writes took of the guest, is what the reads gave followed
-- by what is left; it stays within its capacity, with its ends and what is closed of it.
pub calls-fifo :
    (r w id : ℕ) (p : Pipe) (s : FileSystemState) (cs : List PipeCall)
    → HasPipe s r w id p
    → length p.buffer ≤ pipe_capacity
    → AllExact cs
    → IsQueue r w id p p.buffer (calls r w cs (record { state = s; taken = []; given = [] }))
calls-fifo r w id p s cs h b x =
    calls-IsQueue r w id p p.buffer cs (record { state = s; taken = []; given = [] }) x
      (record { left = p.buffer; held = h; fifo = sym (append-nil p.buffer); bounded = b })
