-- ===== src/Fs/Contents.antt =====
-- What was written is read back.
use det_sim.Base.{
  ℕ, zero, suc, ◌+◌, ◌-◌, ◌≤◌, ◌<◌, ◌≡◌, refl, sym, ap, ◌∙◌, true, false, some, List, [], ◌∷◌, ◌++◌,
  length, length-append, take-length, drop-length, take, drop, min, arith, Outcome, ok, ret, errno,
  ebadf, ◌==◌, pos, subst, Bool-cases, inl, inr,
}
use Prim.Native.Nat.add
use det_sim.Base.Map.{find, find-modify}
use det_sim.Fd.{is_allocated, get_fd_type}
use det_sim.Fs.Strings.{same_refl}
use det_sim.Fs.Tree.{look, look-change_at}
use det_sim.Fs.State.{VfsNode, Time, OpenFileDescription, FileSystemState, FsError, is_dir}
use det_sim.Fs.Files.{
  replicate, resize, write_at, Opened, with_open, access_mode, is_stdio, write_offset, set_offset,
  set_content, with_content, read_opened, do_read, write_opened, write_bytes_at, do_write,
  require_unmapped_file, seek_set, seek_opened, seek_from, do_lseek, off_max, any_source, seek_base,
}

pub length-replicate : (n x : ℕ) → length (replicate n x) ≡ n
unfolding replicate
length-replicate zero x = refl
length-replicate (suc n) x = ap suc (length-replicate n x)

length-take-min : (n : ℕ) (bs : List ℕ) → length (take n bs) ≡ min n (length bs)
length-take-min zero bs = omega arith
length-take-min (suc n) [] = omega arith
length-take-min (suc n) (b ∷ bs) = omega (arith, length-take-min n bs)

length-resize : (n : ℕ) (bs : List ℕ) → length (resize n bs) ≡ n
unfolding resize
length-resize n bs = omega (
  arith,
  length-append (take n bs) (replicate (n - length bs) 0),
  length-replicate (n - length bs) 0,
  length-take-min n bs,
)

-- The bytes at the offset are those that were written, and the content has them.
write_at-slice :
    (offset : ℕ) (bs content : List ℕ)
    → 0 < length bs
    → (take (length bs) (drop offset (write_at offset bs content)) ≡ bs)
      × (offset + length bs ≤ length (write_at offset bs content))
unfolding write_at
write_at-slice offset bs content h =
    let tail = drop (offset + length bs) content in
    let front = resize offset content in
    let some_bytes : length bs == 0 ≡ false = ground arith in
    let behind : drop offset (front ++ (bs ++ tail)) ≡ bs ++ tail =
      subst (λ n. drop n (front ++ (bs ++ tail)) ≡ bs ++ tail) (length-resize offset content)
        (drop-length front (bs ++ tail)) in
    rw some_bytes (
      rw behind (take-length bs tail),
      omega (
        arith,
        length-append front (bs ++ tail),
        length-append bs tail,
        length-resize offset content,
      ),
    )

-- A descriptor of a file, open for reading and writing.
pub record IsReadWrite (s : FileSystemState) (fd : ℕ) (d : OpenFileDescription) (n : VfsNode)
    : Type 0 where
  pub opened : find fd s.open_files ≡ some d
  pub allocated : is_allocated s.fds fd ≡ true
  pub there : look d.path s.filesystem ≡ some n
  pub file : is_dir n ≡ false
  pub mode : access_mode s fd ≡ 2
  pub plain_kind : is_stdio (get_fd_type s.fds fd) ≡ false

module _ (s : FileSystemState) (fd : ℕ) (d : OpenFileDescription) (n : VfsNode)
    (h : IsReadWrite s fd d n) where
  with_open-opens :
      {A : Type 0} (bad : A) (k : Opened → Outcome FsError A)
      → with_open s fd bad k ≡ k (record { description = d; node = n })
  unfolding with_open
  with_open-opens bad k = rw (h.opened, with_open) (rw h.allocated (rw h.there refl))

  -- A write that took bytes.
  wrote :
      (now : Time) (bs : List ℕ) (k : ℕ) (t : FileSystemState)
      → 0 < length bs
      → do_write s fd now bs ≡ ok (ret k, t)
      → let offset = write_offset s fd (record { description = d; node = n }) in
        (k ≡ length bs)
        × (offset ≤ off_max)
        × (t
            ≡ set_offset fd
                (offset + length bs)
                (set_content d.path (write_at offset bs n.content) now s))
  unfolding do_write write_opened write_bytes_at require_unmapped_file
  wrote now bs k t some_bytes e =
      let f : Opened = record { description = d; node = n } in
      let e' : write_opened s fd now bs f ≡ ok (ret k, t) =
        sym (with_open-opens (errno ebadf, s) (write_opened s fd now bs)) ∙ e in
      let mode = h.mode in
      elim (Bool-cases (any_source d.path s.virtual_file_mapping_sources)) [
        | inl u ↦ absurd (ground arith)
        | inr u ↦ (ground arith, ground arith, ground arith)
      ]

  set_content-IsReadWrite :
      (bs : List ℕ) (now : Time)
      → IsReadWrite (set_content d.path bs now s) fd d (with_content bs now n)
  unfolding set_content
  set_content-IsReadWrite bs now = record {
    opened = h.opened;
    allocated = h.allocated;
    there = ground (
      arith,
      look-change_at d.path d.path (with_content bs now) s.filesystem,
      same_refl d.path,
      h.there,
    );
    file = h.file;
    mode = h.mode;
    plain_kind = h.plain_kind;
  }

  set_offset-IsReadWrite :
      (offset : ℕ) → IsReadWrite (set_offset fd offset s) fd (record d { offset = offset }) n
  unfolding set_offset
  set_offset-IsReadWrite offset = record {
    opened = ground (
      arith,
      find-modify fd fd (λ (x : OpenFileDescription). record x { offset = offset }) s.open_files,
      h.opened,
    );
    allocated = h.allocated;
    there = h.there;
    file = h.file;
    mode = h.mode;
    plain_kind = h.plain_kind;
  }

  -- A seek from the start.
  seeks :
      (offset : ℕ)
      → offset ≤ off_max
      → do_lseek s fd (pos offset) seek_set ≡ ok (ret offset, set_offset fd offset s)
  unfolding do_lseek seek_opened seek_base seek_from
  seeks offset fits =
      with_open-opens (errno ebadf, s) (seek_opened s fd (pos offset) seek_set)
      ∙ (let kind = h.plain_kind in rw kind (rw add.zero (ground arith)))

  -- A read within the content.
  reads :
      (count : ℕ)
      → 0 < count
      → d.offset + count ≤ length n.content
      → do_read s fd count
        ≡ ok (ret count, take count (drop d.offset n.content), set_offset fd (d.offset + count) s)
  unfolding do_read read_opened
  reads count some_bytes fits =
      with_open-opens (errno ebadf, [], s) (read_opened s fd count)
      ∙ (let file = h.file in
          let mode = h.mode in
          let all : min count (length n.content - d.offset) ≡ count = omega arith in
          rw (file, mode, all) (ground arith))

-- Where a write puts its bytes: at the end of an appending descriptor, else at the offset.
abbrev pub write_place : FileSystemState → ℕ → OpenFileDescription → VfsNode → ℕ
write_place s fd d n = write_offset s fd (record { description = d; node = n })

-- For a file that is open for reading and writing, and a buffer that is not empty: after a write that
-- succeeds, a seek to the place where it wrote and a read of as many bytes succeed, and give the
-- buffer.
pub do_read-do_write :
    (s t : FileSystemState) (fd : ℕ) (d : OpenFileDescription) (n : VfsNode) (now : Time)
    (bs : List ℕ) (k : ℕ)
    → IsReadWrite s fd d n
    → 0 < length bs
    → do_write s fd now bs ≡ ok (ret k, t)
    → (u v : FileSystemState) × (do_lseek t fd (pos (write_place s fd d n)) seek_set
        ≡ ok (ret (write_place s fd d n), u))
      × (do_read u fd k ≡ ok (ret k, bs, v))
do_read-do_write s t fd d n now bs k h some_bytes e =
    let place = write_place s fd d n in
    let new = write_at place bs n.content in
    let (counted, fits, same_state) = wrote s fd d n h now bs k t some_bytes e in
    let written = set_content d.path new now s in
    let moved = set_offset fd (place + length bs) written in
    let a = set_content-IsReadWrite s fd d n h new now in
    let b = set_offset-IsReadWrite written fd d (with_content new now n) a (place + length bs) in
    let c = set_offset-IsReadWrite moved fd _ (with_content new now n) b place in
    let slice = write_at-slice place bs n.content some_bytes in
    (
      set_offset fd place moved,
      set_offset fd (place + k) (set_offset fd place moved),
      rw same_state (seeks moved fd _ (with_content new now n) b place fits),
      rw counted (
          reads (set_offset fd place moved) fd _ (with_content new now n) c (length bs) some_bytes
            slice.1
          ∙ rw slice.0 refl),
    )
