-- ===== src/Net/Tuning.antt =====
-- emu_setsockopt and emu_getsockopt agree, src/subsys/net/sockstate.cpp.
use det_sim.Base.{
  ℕ, ◌≡◌, inl, inr, true, false, ◌||◌, some, arith, ltb, ◌==◌, if◌then◌else◌, Option-cases, min, ap,
  ◌∙◌, ok, ret, ℤ, pos, negsuc,
}
use det_sim.Base.Map.{find, find-modify}
use det_sim.Net.State.{Socket, Host, copy_socket_address}
use det_sim.Net.Options.{
  Setting, setting_of, tcp_setting, write_setting, read_setting, emu_setsockopt, emu_getsockopt,
  option_value, read_tcp, read_socket, is_nonzero, of_bool, sol_socket,
}

-- What an option reads as after an int was written: a switch is 0 or 1.
abbrev pub stored : ℕ → ℕ → ℤ → ℕ
stored level name (pos v) =
    if level == sol_socket || name == 1 then of_bool (is_nonzero (pos v)) else v
stored level name (negsuc v) = 1

write_setting-read_setting :
    (level name type : ℕ) (x : Setting) (v : ℤ) (s t : Socket)
    → setting_of level name type ≡ some x
    → write_setting x v s ≡ some t
    → (read_setting x t ≡ stored level name v) × (t.type ≡ s.type)
unfolding setting_of tcp_setting write_setting
write_setting-read_setting level name type x v s t e w = ground arith

setting_of-option_value :
    (level name : ℕ) (x : Setting) (s : Socket)
    → setting_of level name s.type ≡ some x
    → option_value level name s ≡ some (read_setting x s)
unfolding setting_of option_value read_tcp read_socket tcp_setting
setting_of-option_value level name x s e = ground arith

emu_getsockopt-value :
    (g : Host) (fd level name : ℕ) (t : Socket) (v capacity : ℕ)
    → find fd g.sockets ≡ some t
    → option_value level name t ≡ some v
    → ltb capacity 4 ≡ false
    → ltb 2147483647 capacity ≡ false
    → emu_getsockopt g fd level name
        (record { capacity = some capacity; address_written = true; length_written = true })
      ≡ ok (ret 0, some (record { value = v; size = 4 }))
unfolding emu_getsockopt copy_socket_address
emu_getsockopt-value g fd level name t v capacity f o c d = ground (arith, four)
  where
    four : min capacity 4 ≡ 4
    four = ground arith

-- An option that setsockopt accepted is what getsockopt gives next, into a buffer of at least four
-- bytes and at most INT_MAX: 0 or 1 for a switch, the number itself for a tuning.
pub emu_setsockopt-emu_getsockopt :
    (h g : Host) (fd level name optlen : ℕ) (v : ℤ) (capacity : ℕ)
    → emu_setsockopt h fd level name (some v) optlen ≡ ok (ret 0, g)
    → ltb capacity 4 ≡ false
    → ltb 2147483647 capacity ≡ false
    → emu_getsockopt g fd level name
        (record { capacity = some capacity; address_written = true; length_written = true })
      ≡ ok (ret 0, some (record { value = stored level name v; size = 4 }))
unfolding emu_setsockopt emu_getsockopt
emu_setsockopt-emu_getsockopt h g fd level name optlen v capacity e c d =
    elim (Option-cases (find fd h.sockets)) [
      | inl n ↦ absurd (ground arith)
      | inr (s, f) ↦ elim (Option-cases (setting_of level name s.type)) [
        | inl n ↦ absurd (ground arith)
        | inr (x, k) ↦ elim (Option-cases (write_setting x v s)) [
          | inl n ↦ absurd (ground arith)
          | inr (t, w) ↦
              let (read, same_type) = write_setting-read_setting level name s.type x v s t k w in
              emu_getsockopt-value g fd level name t (stored level name v) capacity
                (ground (arith, find-modify fd fd (λ u. t) h.sockets))
                (setting_of-option_value level name x t (ap (setting_of level name) same_type ∙ k)
                  ∙ ap some read)
                c d
        ]
      ]
    ]
