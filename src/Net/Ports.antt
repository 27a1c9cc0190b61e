-- ===== src/Net/Ports.antt =====
-- Which ports do_bind and do_connect give out, src/subsys/net/sockstate.cpp.
use det_sim.Base.{
  ℕ, zero, suc, ◌+◌, ◌*◌, ◌/◌, ◌%◌, ◌≤◌, ◌<◌, ◌≡◌, ◌≢◌, ◌⊎◌, refl, subst, inl, inr, true, false,
  not, ◌||◌, ◌==◌, ltb, Option, none, some, List, [], ◌∷◌, arith, Bool-cases, ℕ_discrete, ret,
  errno, einval, eafnosupport, eaddrinuse, SysResult, by_test,
}
use det_sim.Base.Map.{Map, From, Ordered, find, modify, find-modify}
use det_sim.Net.State.{SockAddr, Socket, Host, af_inet, sockaddr_size}
use det_sim.Net.Setup.{do_bind, bind_read, in_use, clashes, bound_to}
use det_sim.Net.Connect.{next_port, is_used}

in_use-find :
    (fd type : ℕ) (a : SockAddr) (m : Map Socket) (j : ℕ) (s : Socket)
    → in_use fd type a m ≡ false
    → find j m ≡ some s
    → clashes fd type a j s ≡ false
unfolding in_use find
in_use-find fd type a [] j s u e = ground arith
in_use-find fd type a ((k, t) ∷ m) j s u e = ground (arith, in_use-find fd type a m j s)

-- The two sockets would share an endpoint: both are bound, have the same type and the same port, which
-- is not 0, and one address is 0.0.0.0 or they are the same.
pub record Overlap (s t : Socket) : Type 0 where
  pub bound : t.bound ≡ true
  pub same_type : t.type ≡ s.type
  pub same_port : t.local_addr.port ≡ s.local_addr.port
  pub port : s.local_addr.port ≢ 0
  pub address :
      (s.local_addr.ip ≡ 0) ⊎ ((t.local_addr.ip ≡ 0) ⊎ (s.local_addr.ip ≡ t.local_addr.ip))

abbrev pub bound_at : SockAddr → Socket → Socket
bound_at a s = record s { bound = true; local_addr = a }

clashes-Overlap :
    (fd j : ℕ) (s t : Socket) (a : SockAddr)
    → j ≢ fd
    → clashes fd s.type a j t ≡ false
    → ¬ Overlap (bound_at a s) t
clashes-Overlap fd j s t a n c o =
    let bound = o.bound in
    let same_type = o.same_type in
    let same_port = o.same_port in
    let port = o.port in
    elim o.address [
      | inl e ↦ ground arith
      | inr e ↦ elim e [ inl f ↦ ground arith | inr f ↦ ground arith ]
    ]

overlaps_address : (x y : ℕ) → (x == 0 || y == 0 || x == y) ≡ true → (x ≡ 0) ⊎ ((y ≡ 0) ⊎ (x ≡ y))
overlaps_address x y h = elim (Bool-cases (x == 0)) [
  | inl e ↦ inl (ground arith)
  | inr e ↦ elim (Bool-cases (y == 0)) [
    | inl f ↦ inr (inl (ground arith))
    | inr f ↦ inr (inr (ground arith))
  ]
]

Overlap-clashes :
    (fd j : ℕ) (s t : Socket) (a : SockAddr)
    → clashes fd s.type a j t ≡ true
    → (j ≢ fd) × Overlap (bound_at a s) t
Overlap-clashes fd j s t a c = (
  ground arith,
  record {
    bound = ground arith;
    same_type = ground arith;
    same_port = ground arith;
    port = ground arith;
    address = overlaps_address a.ip t.local_addr.ip (ground arith);
  },
)

-- Another socket of the table that overlaps.
pub record Taker (fd : ℕ) (s : Socket) (m : Map Socket) : Type 0 where
  pub key : ℕ
  pub socket : Socket
  pub there : find key m ≡ some socket
  pub other : key ≢ fd
  pub overlap : Overlap s socket

in_use-Taker :
    (fd lo : ℕ) (s : Socket) (a : SockAddr) (m : Map Socket)
    → From lo m
    → in_use fd s.type a m ≡ true
    → (x : Taker fd (bound_at a s) m) × (lo ≤ x.key)
unfolding in_use find
in_use-Taker fd lo s a [] o u = absurd (ground arith)
in_use-Taker fd lo s a ((k, t) ∷ m) o u = elim (Bool-cases (clashes fd s.type a k t)) [
  | inl c ↦
      let (other, overlap) = Overlap-clashes fd k s t a c in
      let itself : k == k ≡ true = ground arith in
      (
        record { key = k; socket = t; there = rw itself refl; other = other; overlap = overlap },
        o.0,
      )
  | inr c ↦
      let (x, behind) = in_use-Taker fd (suc k) s a m o.1 (rw c at u) in
      let apart : k == x.key ≡ false = ground arith in
      (
        record {
          key = x.key;
          socket = x.socket;
          there = rw apart x.there;
          other = x.other;
          overlap = x.overlap;
        },
        omega (arith, o.0, behind),
      )
]

-- What a bind of the socket `s` to `a`, of which `n` bytes were given, answers and leaves.
pub data Binds (h : Host) (fd : ℕ) (s : Socket) (a : SockAddr) (n : ℕ)
    : SysResult × Host → Type 0 where
  already_bound : s.bound ≡ true → Binds h fd s a n (errno einval, h)
  cut_short : n < 16 → Binds h fd s a n (errno einval, h)
  other_family : a.family ≢ 2 → Binds h fd s a n (errno eafnosupport, h)
  taken : Taker fd (bound_at a s) h.sockets → Binds h fd s a n (errno eaddrinuse, h)
  entered :
      (g : Host)
      → s.bound ≡ false
      → 16 ≤ n
      → a.family ≡ 2
      → find fd g.sockets ≡ some (record s { bound = true; local_addr = a })
      → ((j : ℕ) → j ≢ fd → find j g.sockets ≡ find j h.sockets)
      → ((j : ℕ) (t : Socket) → j ≢ fd → find j h.sockets ≡ some t → ¬ Overlap (bound_at a s) t)
      → Binds h fd s a n (ret 0, g)

-- A bind of a socket to an address that the guest gives, on sockets in order, enters the address exactly
-- when nothing is against it: the socket is bound already, the address is cut short or of another
-- family, or another socket overlaps, which is bound with the same type and the same port, not 0, and
-- has the same address or 0.0.0.0 on either side. When it enters it every other socket is as it was;
-- when it does not the host is.
pub do_bind-clashes :
    (h : Host) (fd : ℕ) (s : Socket) (a : SockAddr) (n : ℕ)
    → Ordered h.sockets
    → find fd h.sockets ≡ some s
    → Binds h fd s a n (do_bind h fd (some a) n)
unfolding do_bind bind_read
do_bind-clashes h fd s a n o e =
    let P = Binds h fd s a n in
    rw (e, do_bind)
      (by_test P s.bound (λ b. already_bound b)
        (λ free.
          by_test P (ltb n sockaddr_size) (λ b. cut_short (ground arith))
            (λ long.
              by_test P (not (a.family == af_inet)) (λ b. other_family (ground arith))
                (λ inet.
                  by_test P (in_use fd s.type a h.sockets)
                    (λ u. taken (in_use-Taker fd 0 s a h.sockets o u).0)
                    (λ u.
                      entered (record h { sockets = modify fd (bound_to a) h.sockets }) free
                        (ground arith) (ground arith)
                        (ground (arith, find-modify fd fd (bound_to a) h.sockets))
                        (λ j ne. ground (arith, find-modify fd j (bound_to a) h.sockets))
                        (λ j t ne g.
                          clashes-Overlap fd j s t a ne
                            (in_use-find fd s.type a h.sockets j t u g)))))))

-- A port in host order stands, its two bytes exchanged, among ports in network order, or it does not.
abbrev pub Taken : ℕ → List ℕ → Type 0
Taken port [] = ⊥
Taken port (p ∷ ps) = (p % 256 * 256 + p / 256 % 256 ≡ port) ⊎ Taken port ps

abbrev pub Free : ℕ → List ℕ → Type 0
Free port [] = Unit {0}
Free port (p ∷ ps) = (p % 256 * 256 + p / 256 % 256 ≢ port) × Free port ps

is_used-Taken : (port : ℕ) (used : List ℕ) → is_used port used ≡ true → Taken port used
unfolding is_used
is_used-Taken port [] h = ground arith
is_used-Taken port (p ∷ ps) h = elim (ℕ_discrete (p % 256 * 256 + p / 256 % 256) port) [
  | yes e ↦ inl e
  | no n ↦ inr (is_used-Taken port ps (ground arith))
]

is_used-Free : (port : ℕ) (used : List ℕ) → is_used port used ≡ false → Free port used
unfolding is_used
is_used-Free port [] h = tt
is_used-Free port (p ∷ ps) h = (ground arith, is_used-Free port ps (ground arith))

-- The search gives the smallest free port of its `n` candidates; it gives none only if all are taken.
abbrev pub Searched : ℕ → ℕ → List ℕ → Option ℕ → Type 0
Searched n port used none = (q : ℕ) → port ≤ q → q < port + n → Taken q used
Searched n port used (some p) =
    (port ≤ p) × (p < port + n) × Free p used × ((q : ℕ) → port ≤ q → q < p → Taken q used)

-- The search for a port, over any number of candidates and any ports in use, gives the smallest
-- candidate that is not among them, and gives none only if every candidate is. The ports in use are in
-- network order: a candidate is compared with their bytes exchanged.
pub next_port-Searched : (n port : ℕ) (used : List ℕ) → Searched n port used (next_port n port used)
unfolding next_port
next_port-Searched zero port used = λ q a b. absurd (omega arith)
next_port-Searched (suc n) port used = elim (Bool-cases (is_used port used)) [
  | inr h ↦
      rw h ((omega arith, omega arith, is_used-Free port used h, λ q a b. absurd (omega arith)))
  | inl h ↦ rw h (
      later (is_used-Taken port used h) (next_port n (port + 1) used)
        (next_port-Searched n (port + 1) used))
]
  where
    at : Taken port used → (q : ℕ) → port ≤ q → (port + 1 ≤ q → Taken q used) → Taken q used
    at h q a k = elim (ℕ_discrete port q) [
      | yes e ↦ subst (λ x. Taken x used) e h
      | no ne ↦ k (omega arith)
    ]

    later :
        Taken port used
        → (o : Option ℕ) → Searched n (port + 1) used o
        → Searched (suc n) port used o
    later h none s = λ q a b. at h q a (λ c. s q c (omega arith))
    later h (some p) s = (omega arith, omega arith, s.2, λ q a b. at h q a (λ c. s.3 q c b))
