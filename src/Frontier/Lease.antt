-- ===== src/Frontier/Lease.antt =====
-- The two Frontier::lease functions and Frontier::finalize_lease: which pending state is dispatched.
use det_sim.Base.{
  ℕ, zero, suc, ◌+◌, Bool, true, false, Option, none, some, List, [], ◌∷◌, ltb, ltb_ℤ, ◌==◌, ℤ, pos,
  if◌then◌else◌, ok, throws, ◌||◌,
}
use det_sim.Base.Map.{Map, find}
use det_sim.Frontier.State.{
  StateKey, WorkerId, Policy, dfs, bfs, by_priority, Node, NodePhase, Ticket, Frontier, Call,
  guarded, Layers, u64, u64_max, update, write_node, ensure_healthy, leases_exhausted, bad_window,
  undefined,
}

-- `rbegin()->second`.
unfoldable pub last_key : Map StateKey → Option StateKey
last_key [] = none
last_key ((s, key) ∷ []) = some key
last_key ((s, key) ∷ (t, k) ∷ m) = last_key ((t, k) ∷ m)

-- The first key of the first BFS layer, if the first active layer is that layer.
unfoldable pub first_of_layer : Layers → Map ℕ → Option StateKey
first_of_layer ((d, s, key) ∷ m) ((e, n) ∷ a) = if d == e then some key else none
first_of_layer _ _ = none

depth_of : Frontier → StateKey → ℕ
depth_of f key = elim (find key f.nodes) [ none ↦ 0 | some n ↦ n.depth ]

-- The scan of the pending states: the best key and score so far, and the candidates seen.
unfoldable pub best_priority :
    (StateKey → ℕ → ℤ) → Frontier → Map StateKey → StateKey → ℤ → ℕ → StateKey × ℕ
unfolding depth_of
best_priority g f [] key best n = (key, n)
best_priority g f ((s, k) ∷ m) key best n =
    let score = g k (depth_of f k) in
    let better = ltb_ℤ score best in
    best_priority g f m (if better then k else key) (if better then score else best) (n + 1)

scan_pending : (StateKey → ℕ → ℤ) → Frontier → Map StateKey → Option (StateKey × ℕ)
unfolding depth_of best_priority
scan_pending g f [] = none
scan_pending g f ((s, k) ∷ m) = some (best_priority g f m k (g k (depth_of f k)) 1)

-- The selected key and the number of candidates; `none` where `lease` returns no ticket.
unfoldable pub select : Frontier → Policy → Option (StateKey × ℕ)
unfolding last_key first_of_layer scan_pending
select f dfs = elim (last_key f.pending) [ none ↦ none | some k ↦ some (k, 1) ]
select f bfs = elim (first_of_layer f.bfs_pending f.active_layers) [
  | none ↦ none
  | some k ↦ some (k, 1)
]
select f by_priority = elim f.priority [ none ↦ none | some g ↦ scan_pending g f f.pending ]

abbrev pub ticket_for : Frontier → WorkerId → StateKey → Node → Ticket
ticket_for f worker key node = record {
  state = key;
  worker = worker;
  lease_id = f.next_lease + 1;
  depth = node.depth;
  may_expand = ltb node.depth f.limit;
}

abbrev pub hold : Ticket → Node → Node
hold t n = record n { ticket = some t }

-- The node leaves the pending states and holds the ticket.
unfoldable pub dispatch : Frontier → StateKey → Node → Ticket → ℕ → Frontier
dispatch f key node t candidates =
    let g =
      update (record f { next_lease = f.next_lease + 1 }) key node NodePhase.inflight node.depth in
    let h = write_node g key (hold t) in
    record h {
      counters = record (h.counters) {
        dispatch_candidates = u64 (h.counters.dispatch_candidates + candidates);
        leased = u64 (h.counters.leased + 1);
      };
    }

unfoldable pub finalize_lease : Frontier → WorkerId → StateKey → ℕ → Call Ticket
unfolding dispatch
finalize_lease f worker key candidates = elim (find key f.nodes) [
  | none ↦ (f, throws undefined)
  | some node ↦ if f.next_lease == u64_max then (f, throws leases_exhausted) else (
    dispatch f key node (ticket_for f worker key node) candidates,
    ok (ticket_for f worker key node),
  )
]

-- A ticket or none.
abbrev pub present : Call Ticket → Call (Option Ticket)
present (f, ok t) = (f, ok (some t))
present (f, throws e) = (f, throws e)

unfoldable pub lease_selected : Frontier → WorkerId → Option (StateKey × ℕ) → Call (Option Ticket)
unfolding finalize_lease
lease_selected f worker none = (f, ok none)
lease_selected f worker (some (key, n)) = present (finalize_lease f worker key n)

unfoldable pub lease : Frontier → WorkerId → Call (Option Ticket)
unfolding lease_selected select
lease f worker = guarded (ensure_healthy f) f λ u. lease_selected f worker (select f f.policy)

-- `consider`, over the candidates in dispatch order, within the window.
unfoldable pub consider : (StateKey → ℤ) → ℕ → List StateKey → StateKey → ℤ → ℕ → StateKey × ℕ
consider scorer zero keys key best n = (key, n)
consider scorer (suc w) [] key best n = (key, n)
consider scorer (suc w) (k ∷ keys) key best n =
    let score = scorer k in
    let better = n == 0 || ltb_ℤ best score in
    consider scorer w keys (if better then k else key) (if better then score else best) (n + 1)

-- The pending keys, latest first.
unfoldable pub latest_first : Map StateKey → List StateKey → List StateKey
latest_first [] acc = acc
latest_first ((s, k) ∷ m) acc = latest_first m (k ∷ acc)

-- The keys of the first BFS layer, while it lasts.
unfoldable pub layer_keys : ℕ → Layers → List StateKey
layer_keys d [] = []
layer_keys d ((e, s, k) ∷ m) = let rest = layer_keys d m in if e == d then k ∷ rest else []

unfoldable pub local_candidates : Frontier → Policy → List StateKey
local_candidates f bfs = elim f.active_layers [ [] ↦ [] | (d, n) ∷ a ↦ layer_keys d f.bfs_pending ]
local_candidates f _ = latest_first f.pending []

unfoldable pub select_local : (StateKey → ℤ) → ℕ → List StateKey → Option (StateKey × ℕ)
select_local scorer window [] = none
select_local scorer window (k ∷ keys) = some (consider scorer window (k ∷ keys) 0 (pos 0) 0)

unfoldable pub lease_near : Frontier → WorkerId → Option (StateKey → ℤ) → ℕ → Call (Option Ticket)
unfolding lease_selected local_candidates select_local
lease_near f worker none window = (f, throws bad_window)
lease_near f worker (some g) window =
    if window == 0
    then (f, throws bad_window)
    else lease_selected f worker (select_local g window (local_candidates f f.policy))

abbrev pub is_by_priority : Policy → Bool
is_by_priority by_priority = true
is_by_priority _ = false

unfoldable pub lease_local : Frontier → WorkerId → Option (StateKey → ℤ) → ℕ → Call (Option Ticket)
unfolding lease_near
lease_local f worker scorer window =
    guarded (ensure_healthy f) f
      λ u. if is_by_priority f.policy then lease f worker else lease_near f worker scorer window
