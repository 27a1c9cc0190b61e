-- ===== src/Fd/Fcntl.antt =====
-- The flags of a descriptor under fcntl, and the table's invariant.
use det_sim.Base.{
  ℕ, ◌+◌, ◌-◌, ◌/◌, ◌%◌, ◌≡◌, refl, true, false, Option, none, some, [], ◌∷◌, arith, ok, throws,
  SysResult, ret, Outcome, if◌then◌else◌, ◌==◌, leb, Bool-cases, Option-cases, inl, inr,
}
use det_sim.Base.Map.{
  Map, Ordered, find, put, modify, erase, put-From, erase-From, modify-From, find-modify,
}
use det_sim.Fd.{
  FdManager, FdType, Entry, FdError, Command, f_getfl, f_getfd, f_setfl, f_setfd, do_fcntl,
  fcntl_entry, valid_entry, settable, unsupported, initial, allocate_fd, release_fd, emplace_next,
  get_next_fd, set_status, set_descriptor, int_max, other,
}

-- F_SETFL with supported flags changes O_APPEND and O_NONBLOCK of the one descriptor to those of the
-- argument, keeps every other bit of its flags, and keeps its kind and descriptor flags.
pub do_fcntl-setfl :
    (d : FdManager) (fd argument j : ℕ) (e : Entry)
    → find fd d.entries ≡ some e
    → unsupported argument ≡ false
    → (s : ℕ) × (t : FdManager) × (do_fcntl d fd f_setfl argument ≡ ok (ret 0, t))
      × (find j t.entries
          ≡ (if fd == j then some (record e { status_flags = s }) else find j d.entries))
      × (s % 1024 ≡ e.status_flags % 1024)
      × (s / 4096 ≡ e.status_flags / 4096)
      × (s / 1024 % 4 ≡ argument / 1024 % 4)
unfolding do_fcntl
do_fcntl-setfl d fd argument j e h u = (
  e.status_flags - settable e.status_flags + settable argument,
  record { entries = modify fd (set_status argument) d.entries },
  rw (h, do_fcntl, u) refl,
  ground (arith, find-modify fd j (set_status argument) d.entries),
  omega arith,
  omega arith,
  omega arith,
)

-- Every entry has a valid kind and valid flags.
abbrev pub AllValid : Map Entry → Type 0
AllValid [] = Unit {0}
AllValid ((fd, e) ∷ m) = (valid_entry e.kind e.status_flags e.descriptor_flags ≡ true) × AllValid m

pub record IsValid (d : FdManager) : Type 0 where
  pub ordered : Ordered d.entries
  pub valid : AllValid d.entries

put-AllValid :
    (k : ℕ) (e : Entry) (m : Map Entry)
    → valid_entry e.kind e.status_flags e.descriptor_flags ≡ true
    → AllValid m
    → AllValid (put k e m)
unfolding put
put-AllValid k e [] v a = (v, tt)
put-AllValid k e ((j, w) ∷ m) v a = ground (arith, put-AllValid k e m v a.1)

erase-AllValid : (k : ℕ) (m : Map Entry) → AllValid m → AllValid (erase k m)
unfolding erase
erase-AllValid k [] a = tt
erase-AllValid k ((j, w) ∷ m) a = ground (arith, erase-AllValid k m a.1)

modify-AllValid :
    (k : ℕ) (f : Entry → Entry) (m : Map Entry)
    → ((e : Entry)
        → valid_entry e.kind e.status_flags e.descriptor_flags ≡ true
        → valid_entry (f e).kind (f e).status_flags (f e).descriptor_flags ≡ true)
    → AllValid m
    → AllValid (modify k f m)
unfolding modify
modify-AllValid k f [] h a = tt
modify-AllValid k f ((j, w) ∷ m) h a = ground (arith, h w a.0, modify-AllValid k f m h a.1)

set_descriptor-valid :
    (argument : ℕ) (e : Entry)
    → valid_entry e.kind e.status_flags e.descriptor_flags ≡ true
    → let t = set_descriptor argument e in
      valid_entry t.kind t.status_flags t.descriptor_flags ≡ true
unfolding valid_entry
set_descriptor-valid argument e v = ground arith

-- F_SETFL moves the bits 10 and 11 alone, which the validity test does not read.
status-bits :
    (s a : ℕ)
    → let t = s - settable s + settable a in
      (t % 4 ≡ s % 4)
      × (t / 8192 ≡ s / 8192)
      × (t / 16384 ≡ s / 16384)
      × (t / 262144 ≡ s / 262144)
      × (t / 2147483648 ≡ s / 2147483648)
status-bits s a = omega arith

leb-int_max : (s : ℕ) → leb s int_max ≡ (s / 2147483648 == 0)
leb-int_max s = ground arith

set_status-valid :
    (argument : ℕ) (e : Entry)
    → valid_entry e.kind e.status_flags e.descriptor_flags ≡ true
    → let t = set_status argument e in valid_entry t.kind t.status_flags t.descriptor_flags ≡ true
unfolding valid_entry
set_status-valid argument e v =
    let b = status-bits e.status_flags argument in
    rw (leb-int_max, b.0, b.1, b.2, b.3, b.4) (rw leb-int_max at v)

pub initial-IsValid : IsValid initial
unfolding initial valid_entry
initial-IsValid = record { ordered = omega arith; valid = (refl, (refl, (refl, tt))) }

-- The calls that change the table; one that throws leaves it as it was.
pub data Call : Type 0 where
  allocates : FdType → ℕ → ℕ → Call
  releases : ℕ → Call
  fcntls : ℕ → Command → ℕ → Call

abbrev after : FdManager → Outcome FdError (SysResult × FdManager) → FdManager
after d (ok (r, t)) = t
after d (throws e) = d

pub step : FdManager → Call → FdManager
step d (allocates kind status descriptor) = after d (allocate_fd d kind status descriptor)
step d (releases fd) = release_fd d fd
step d (fcntls fd command argument) = after d (do_fcntl d fd command argument)

emplace_next-IsValid :
    (d : FdManager) (e : Entry) (r : Option ℕ)
    → valid_entry e.kind e.status_flags e.descriptor_flags ≡ true
    → IsValid d
    → IsValid (emplace_next d e r).1
unfolding emplace_next
emplace_next-IsValid d e none h v = v
emplace_next-IsValid d e (some fd) h v = record {
  ordered = put-From 0 fd e d.entries (omega arith) v.ordered;
  valid = put-AllValid fd e d.entries h v.valid;
}

allocate_fd-IsValid :
    (d : FdManager) (kind : FdType) (status descriptor : ℕ)
    → IsValid d
    → IsValid (after d (allocate_fd d kind status descriptor))
unfolding allocate_fd
allocate_fd-IsValid d kind status descriptor v =
    elim (Bool-cases (valid_entry kind status descriptor)) [
      | inl h ↦ rw h (emplace_next-IsValid d _ (get_next_fd d) h v)
      | inr h ↦ rw h v
    ]

modify-IsValid :
    (d : FdManager) (fd : ℕ) (f : Entry → Entry)
    → ((e : Entry)
        → valid_entry e.kind e.status_flags e.descriptor_flags ≡ true
        → valid_entry (f e).kind (f e).status_flags (f e).descriptor_flags ≡ true)
    → IsValid d
    → IsValid (record { entries = modify fd f d.entries })
modify-IsValid d fd f h v = record {
  ordered = modify-From 0 fd f d.entries v.ordered;
  valid = modify-AllValid fd f d.entries h v.valid;
}

fcntl_entry-IsValid :
    (d : FdManager) (fd : ℕ) (c : Command) (argument : ℕ) (e : Entry)
    → IsValid d
    → IsValid (after d (fcntl_entry d fd c argument e))
unfolding fcntl_entry
fcntl_entry-IsValid d fd f_getfl argument e v = v
fcntl_entry-IsValid d fd f_getfd argument e v = v
fcntl_entry-IsValid d fd f_setfd argument e v =
    modify-IsValid d fd _ (set_descriptor-valid argument) v
fcntl_entry-IsValid d fd f_setfl argument e v = elim (Bool-cases (unsupported argument)) [
  | inl h ↦ rw h v
  | inr h ↦ rw h (modify-IsValid d fd _ (set_status-valid argument) v)
]
fcntl_entry-IsValid d fd (other c) argument e v = v

do_fcntl-IsValid :
    (d : FdManager) (fd : ℕ) (c : Command) (argument : ℕ)
    → IsValid d
    → IsValid (after d (do_fcntl d fd c argument))
unfolding do_fcntl
do_fcntl-IsValid d fd c argument v = elim (Option-cases (find fd d.entries)) [
  | inl h ↦ rw (h, do_fcntl) v
  | inr (e, h) ↦ rw (h, do_fcntl) (fcntl_entry-IsValid d fd c argument e v)
]

-- Every call on a valid table keeps the descriptors in strict order, with valid kinds and flags.
pub step-IsValid : (d : FdManager) (c : Call) → IsValid d → IsValid (step d c)
unfolding step
step-IsValid d (allocates kind status descriptor) v = allocate_fd-IsValid d kind status descriptor v
step-IsValid d (releases fd) v =
    unfold release_fd in
    record {
      ordered = erase-From 0 fd d.entries v.ordered;
      valid = erase-AllValid fd d.entries v.valid;
    }
step-IsValid d (fcntls fd command argument) v = do_fcntl-IsValid d fd command argument v
