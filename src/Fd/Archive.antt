-- ===== src/Fd/Archive.antt =====
-- FdManager::serialize, over the archive of a library that is taken as a parameter.
use mathlib.Core.List.{append_assoc, append-nil}
use det_sim.Base.{
  ℕ, zero, suc, ◌-◌, ◌%◌, ◌≤◌, ◌<◌, ◌≡◌, refl, true, false, none, some, List, [], ◌∷◌, ◌++◌, arith,
  ok, throws, Outcome, ◌>>=◌, ◌>>◌, throw_if, Codec, length, ltb, ap, ◌∙◌, ◌||◌, ℤ, pos, negsuc,
  is_neg, pos_part,
}
use det_sim.Base.Map.{Map, From, put, contains}
use det_sim.Fd.{
  FdManager, FdType, file, socket, epoll, pipe, stdio, unknown, Entry, FdError, valid_entry,
  validate_entry,
}
use det_sim.Fd.Fcntl.{AllValid, IsValid}

abbrev pub max_archived_descriptors : ℕ
max_archived_descriptors = 1048576

-- The enumeration's values; a number past them is no kind, and the validity test refuses it.
abbrev kind_code : FdType → ℕ
kind_code file = 0
kind_code socket = 1
kind_code epoll = 2
kind_code pipe = 3
kind_code stdio = 4
kind_code unknown = 5

abbrev kind_of_code : ℤ → FdType
kind_of_code (pos zero) = file
kind_of_code (pos (suc zero)) = socket
kind_of_code (pos (suc (suc zero))) = epoll
kind_of_code (pos (suc (suc (suc zero)))) = pipe
kind_of_code (pos (suc (suc (suc (suc zero))))) = stdio
kind_of_code (pos (suc (suc (suc (suc (suc n)))))) = unknown
kind_of_code (negsuc n) = unknown

-- A negative int of flags as its bit pattern, which the validity test refuses too.
abbrev pattern_of : ℤ → ℕ
pattern_of (pos n) = n
pattern_of (negsuc n) = 4294967295 - n % 2147483648

-- All keys lie below `k`.
abbrev Below : ℕ → Map Entry → Type 0
Below k [] = Unit {0}
Below k ((j, e) ∷ m) = (j < k) × Below k m

put_last : (k : ℕ) (e : Entry) (m : Map Entry) → Below k m → put k e m ≡ m ++ (k, e) ∷ []
unfolding put
put_last k e [] b = refl
put_last k e ((j, w) ∷ m) b = ground (arith, put_last k e m b.1)

contains_above : (k : ℕ) (m : Map Entry) → Below k m → contains k m ≡ false
unfolding contains
contains_above k [] b = refl
contains_above k ((j, w) ∷ m) b = ground (arith, contains_above k m b.1)

Below-snoc : (k l : ℕ) (e : Entry) (m : Map Entry) → k < l → Below k m → Below l (m ++ (k, e) ∷ [])
Below-snoc k l e [] h b = (h, tt)
Below-snoc k l e ((j, w) ∷ m) h b = (omega arith, Below-snoc k l e m h b.1)

Below-mono : (k l : ℕ) (m : Map Entry) → k ≤ l → Below k m → Below l m
Below-mono k l [] h b = tt
Below-mono k l ((j, w) ∷ m) h b = (omega arith, Below-mono k l m h b.1)

kind_of_code-kind_code : (k : FdType) → kind_of_code (pos (kind_code k)) ≡ k
kind_of_code-kind_code file = refl
kind_of_code-kind_code socket = refl
kind_of_code-kind_code epoll = refl
kind_of_code-kind_code pipe = refl
kind_of_code-kind_code stdio = refl
kind_of_code-kind_code unknown = refl

module _ (c : Codec) where
  open c use {encode, decode, decode-encode}

  save_entries : Map Entry → List ℕ
  save_entries [] = []
  save_entries ((fd, e) ∷ m) =
      encode (pos fd)
      ++ (encode (pos (kind_code e.kind))
          ++ (encode (pos e.status_flags) ++ (encode (pos e.descriptor_flags) ++ save_entries m)))

  pub save : FdManager → Outcome FdError (List ℕ)
  unfolding save_entries
  save d = do
    throw_if (ltb max_archived_descriptors (length d.entries)) FdError.archive_limit
    ok (encode (pos (length d.entries)) ++ save_entries d.entries)

  read : List ℕ → Outcome FdError (ℤ × List ℕ)
  read s = elim (decode s) [ none ↦ throws FdError.truncated | some r ↦ ok r ]

  -- One round of the loading loop, on the entries restored so far.
  load_entry : Map Entry → List ℕ → Outcome FdError (Map Entry × List ℕ)
  unfolding read validate_entry
  load_entry restored s = do
    fd ← read s
    kind ← read fd.1
    status ← read kind.1
    descriptor ← read status.1
    validate_entry (kind_of_code kind.0) (pattern_of status.0) (pattern_of descriptor.0)
    throw_if (is_neg fd.0 || contains (pos_part fd.0) restored) FdError.duplicate_descriptor
    ok (
      put (pos_part fd.0)
          (record {
            kind = kind_of_code kind.0;
            status_flags = pattern_of status.0;
            descriptor_flags = pattern_of descriptor.0;
          })
          restored,
      descriptor.1,
    )

  load_entries : ℕ → Map Entry → List ℕ → Outcome FdError (Map Entry × List ℕ)
  load_entries zero restored s = ok (restored, s)
  load_entries (suc n) restored s = do r ← load_entry restored s; load_entries n r.0 r.1

  pub load : List ℕ → Outcome FdError (FdManager × List ℕ)
  unfolding read load_entries load_entry
  load s = do
    count ← read s
    throw_if (is_neg count.0 || ltb max_archived_descriptors (pos_part count.0))
        FdError.archive_limit
    restored ← load_entries (pos_part count.0) [] count.1
    ok (record { entries = restored.0 }, restored.1)

  read-encode : (n : ℤ) (rest : List ℕ) → read (encode n ++ rest) ≡ ok (n, rest)
  unfolding read
  read-encode n rest = rw (decode-encode n rest, read)

  load_entry-save_entries :
      (acc : Map Entry) (fd : ℕ) (e : Entry) (m : Map Entry) (rest : List ℕ)
      → valid_entry e.kind e.status_flags e.descriptor_flags ≡ true
      → Below fd acc
      → load_entry acc (save_entries ((fd, e) ∷ m) ++ rest)
        ≡ ok (acc ++ (fd, e) ∷ [], save_entries m ++ rest)
  unfolding load_entry save_entries
  load_entry-save_entries acc fd e m rest v b =
      simp (append_assoc, read-encode, kind_of_code-kind_code, v, contains_above fd acc b)
        (ap (λ (r : Map Entry). ok (r, save_entries m ++ rest)) (put_last fd e acc b))

  load_entries-save_entries :
      (acc m : Map Entry) (lo : ℕ) (rest : List ℕ)
      → Below lo acc
      → From lo m
      → AllValid m
      → load_entries (length m) acc (save_entries m ++ rest) ≡ ok (acc ++ m, rest)
  unfolding load_entries
  load_entries-save_entries acc [] lo rest b o v = unfold save_entries in rw append-nil
  load_entries-save_entries acc ((fd, e) ∷ m) lo rest b o v =
      rw (load_entry-save_entries acc fd e m rest v.0 (Below-mono lo fd acc o.0 b)) (
        load_entries-save_entries (acc ++ (fd, e) ∷ []) m (suc fd) rest
          (Below-snoc fd (suc fd) e acc (omega arith) (Below-mono lo fd acc o.0 b)) o.1 v.1
        ∙ rw append_assoc)

  -- What an archive of a valid table holds is the table: loading it gives the table back and leaves
  -- what follows it, when the table has at most 2^20 entries.
  pub load-save :
      (d : FdManager) (rest : List ℕ)
      → IsValid d
      → length d.entries ≤ max_archived_descriptors
      → (bytes : List ℕ) × (save d ≡ ok bytes) × (load (bytes ++ rest) ≡ ok (d, rest))
  unfolding save load
  load-save d rest v h = (
    encode (pos (length d.entries)) ++ save_entries d.entries,
    rw fits refl,
    simp (
      append_assoc,
      read-encode,
      fits,
      load_entries-save_entries [] d.entries 0 rest tt v.ordered v.valid,
    ),
  )
    where
      fits : ltb max_archived_descriptors (length d.entries) ≡ false
      fits = ground arith
