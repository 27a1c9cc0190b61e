-- ===== src/Net/Options.antt =====
-- emu_setsockopt and emu_getsockopt. Levels and option names are the numbers of Linux.
use det_sim.Base.{
  ℕ, Bool, true, false, ◌&&◌, ◌||◌, not, Option, none, some, ltb, ◌==◌, if◌then◌else◌, ℤ, pos,
  negsuc, min, Outcome, ok, throws, SysResult, ret, errno, efault, einval,
}
use det_sim.Base.Map.{find, modify}
use det_sim.Net.State.{
  Socket, Host, NetError, Reply, sock_stream, invalid_socket_error, Copyout, copy_socket_address,
  unsupported_option,
}

abbrev pub sol_socket : ℕ
sol_socket = 1

abbrev pub ipproto_tcp : ℕ
ipproto_tcp = 6

pub data Setting : Type 0 where
  reuse alive delay idle interval count : Setting

-- The tunings of a stream socket.
unfoldable pub tcp_setting : ℕ → Option Setting
tcp_setting name =
    if name == 1
    then some delay
    else if name == 4
    then some idle
    else if name == 5
    then some interval
    else if name == 6
    then some count
    else none

unfoldable pub setting_of : ℕ → ℕ → ℕ → Option Setting
setting_of level name type =
    if level == sol_socket && name == 2
    then some reuse
    else if level == sol_socket && name == 9
    then some alive
    else if level == ipproto_tcp && type == sock_stream
    then tcp_setting name
    else none

abbrev pub is_nonzero : ℤ → Bool
is_nonzero (pos n) = not (n == 0)
is_nonzero (negsuc n) = true

-- A number in [1, maximum].
abbrev pub tuned : ℕ → ℤ → (ℕ → Socket) → Option Socket
tuned maximum (negsuc n) g = none
tuned maximum (pos n) g = if ltb n 1 || ltb maximum n then none else some (g n)

-- `none` is EINVAL.
unfoldable pub write_setting : Setting → ℤ → Socket → Option Socket
write_setting reuse v s = some (record s { reuse_address = is_nonzero v })
write_setting alive v s = some (record s { keep_alive = is_nonzero v })
write_setting delay v s = some (record s { no_delay = is_nonzero v })
write_setting idle v s = tuned 32767 v (λ n. record s { keep_idle = n })
write_setting interval v s = tuned 32767 v (λ n. record s { keep_interval = n })
write_setting count v s = tuned 127 v (λ n. record s { keep_count = n })

abbrev pub set_value : Host → ℕ → Socket → Setting → Option ℤ → Reply Host
set_value h fd s x none = ok (errno efault, h)
set_value h fd s x (some v) = elim (write_setting x v s) [
  | none ↦ ok (errno einval, h)
  | some t ↦ ok (ret 0, record h { sockets = modify fd (λ u. t) h.sockets })
]

-- `optval` is the int that the guest's pointer reads as.
unfoldable pub emu_setsockopt : Host → ℕ → ℕ → ℕ → Option ℤ → ℕ → Reply Host
emu_setsockopt h fd level name optval optlen = elim (find fd h.sockets) [
  | none ↦ ok (errno (invalid_socket_error h fd), h)
  | some s ↦ elim (setting_of level name s.type) [
    | none ↦ throws unsupported_option
    | some x ↦ if ltb optlen 4 then ok (errno einval, h) else set_value h fd s x optval
  ]
]

abbrev pub of_bool : Bool → ℕ
of_bool true = 1
of_bool false = 0

abbrev pub read_setting : Setting → Socket → ℕ
read_setting reuse s = of_bool s.reuse_address
read_setting alive s = of_bool s.keep_alive
read_setting delay s = of_bool s.no_delay
read_setting idle s = s.keep_idle
read_setting interval s = s.keep_interval
read_setting count s = s.keep_count

unfoldable pub read_tcp : ℕ → Socket → Option ℕ
read_tcp name s = elim (tcp_setting name) [ none ↦ none | some x ↦ some (read_setting x s) ]

unfoldable pub read_socket : ℕ → Socket → Option ℕ
read_socket name s =
    if name == 2
    then some (read_setting reuse s)
    else if name == 9
    then some (read_setting alive s)
    else if name == 30
    then some (of_bool s.listening)
    else if name == 3
    then some s.type
    else if name == 39
    then some s.domain
    else if name == 38
    then some s.protocol
    else if name == 4
    then some 0
    else none

unfoldable pub option_value : ℕ → ℕ → Socket → Option ℕ
option_value level name s =
    if level == ipproto_tcp && s.type == sock_stream
    then read_tcp name s
    else if level == sol_socket
    then read_socket name s
    else none

-- The value that is written back, and how many of its four bytes are.
pub record OptionValue : Type 0 where
  pub value : ℕ
  pub size : ℕ

abbrev pub size_in : Option ℕ → ℕ
size_in none = 0
size_in (some n) = min n 4

abbrev pub value_copied : Copyout → ℕ → SysResult × Option OptionValue
value_copied c v = elim (copy_socket_address c) [
  | none ↦ (ret 0, some (record { value = v; size = size_in c.capacity }))
  | some e ↦ (errno e, none)
]

unfoldable pub emu_getsockopt :
    Host → ℕ → ℕ → ℕ → Copyout → Outcome NetError (SysResult × Option OptionValue)
emu_getsockopt h fd level name c = elim (find fd h.sockets) [
  | none ↦ ok (errno (invalid_socket_error h fd), none)
  | some s ↦ elim (option_value level name s) [
    | none ↦ throws unsupported_option
    | some v ↦ ok (value_copied c v)
  ]
]
