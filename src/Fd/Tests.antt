-- ===== src/Fd/Tests.antt =====
-- Calls on the table that a node starts with.
use det_sim.Base.{
  ℕ, ◌≡◌, refl, List, [], ◌∷◌, ◌++◌, arith, some, ok, throws, SysResult, ret, tagged, ◌↔◌,
  if◌then◌else◌, ◌==◌, ◌%◌, ◌/◌,
}
use det_sim.Base.Map.{find, put}
use det_sim.Fd.{
  FdManager, FdType, Entry, FdError, initial, allocate_fd, release_fd, do_fcntl, f_setfl,
  valid_entry, validate_entry, get_next_fd, o_nonblock,
}
use det_sim.Fd.Lowest.{
  Allocated, Refused, allocate_fd-Allocated, allocate_fd-throws, release_fd-allocate_fd,
}
use det_sim.Fd.Fcntl.{IsValid, initial-IsValid, allocates, step, step-IsValid, do_fcntl-setfl}
use det_sim.Fd.Archive.{save, load, load-save}

abbrev a_socket : Entry
a_socket = record { kind = FdType.socket; status_flags = 2; descriptor_flags = 0 }

allocate_fd-Allocated_example :
    (r : SysResult × FdManager) × (allocate_fd initial FdType.socket 2 0 ≡ ok r)
    × Allocated initial a_socket r
unfolding valid_entry
allocate_fd-Allocated_example =
    allocate_fd-Allocated initial FdType.socket 2 0 initial-IsValid.ordered refl

allocate_fd-throws_example :
    (allocate_fd initial FdType.socket 3 0 ≡ throws FdError.invalid_entry)
    ↔ Refused FdType.socket 3 0
allocate_fd-throws_example = allocate_fd-throws initial FdType.socket 3 0

abbrev with_socket : FdManager
with_socket = record { entries = initial.entries ++ (3, a_socket) ∷ [] }

release_fd-allocate_fd_example : find 3 (release_fd with_socket 3).entries ≡ find 3 initial.entries
unfolding allocate_fd initial get_next_fd valid_entry validate_entry find put
release_fd-allocate_fd_example =
    release_fd-allocate_fd initial FdType.socket 2 0 3 3 with_socket initial-IsValid.ordered refl

do_fcntl-setfl_example :
    (s : ℕ) × (t : FdManager) × (do_fcntl with_socket 3 f_setfl o_nonblock ≡ ok (ret 0, t))
    × (find 3 t.entries ≡ (
        if 3 == 3 then some (record a_socket { status_flags = s }) else find 3 with_socket.entries))
    × (s % 1024 ≡ 2 % 1024)
    × (s / 4096 ≡ 2 / 4096)
    × (s / 1024 % 4 ≡ o_nonblock / 1024 % 4)
unfolding find initial
do_fcntl-setfl_example = do_fcntl-setfl with_socket 3 o_nonblock 3 a_socket refl refl

step-IsValid_example : IsValid (step initial (allocates FdType.socket 2 0))
step-IsValid_example = step-IsValid initial (allocates FdType.socket 2 0) initial-IsValid

load-save_example :
    (bytes : List ℕ) × (save tagged initial ≡ ok bytes)
    × (load tagged (bytes ++ 9 ∷ []) ≡ ok (initial, 9 ∷ []))
unfolding initial
load-save_example = load-save tagged initial (9 ∷ []) initial-IsValid (omega arith)
