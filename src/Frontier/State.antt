-- ===== src/Frontier/State.antt =====
-- The search frontier, src/core/search/frontier.{h,cpp}: states that were admitted, leased to a worker,
-- and committed. An exception leaves the frontier as it then is: a call gives the frontier and an
-- outcome. Allocation failures are left out, so `poisoned` is only ever read.
use det_sim.Base.{
  ℕ, ◌+◌, ◌%◌, Bool, true, false, ◌&&◌, ◌||◌, not, Option, none, some, List, [], ◌∷◌, ltb, ◌==◌,
  if◌then◌else◌, ℤ, Outcome, ok, throws, throw_if, ◌>>◌,
}
use det_sim.Base.Map.{Map, find, put, emplace, modify, erase}

abbrev pub StateKey : Type 0
StateKey = ℕ

abbrev pub WorkerId : Type 0
WorkerId = ℕ

pub data Policy : Type 0 where
  dfs bfs by_priority : Policy

pub data NodePhase : Type 0 where
  pending inflight expanded terminal depth_cut model_budget failure : NodePhase

pub data Status : Type 0 where
  running complete bounded failed : Status

pub record Ticket : Type 0 where
  pub state : StateKey
  pub worker : WorkerId
  pub lease_id : ℕ
  pub depth : ℕ
  pub may_expand : Bool

-- `kind` takes the names of the phases that a result leads to.
pub data ResultKind : Type 0 where
  expanded terminal depth_cut model_budget failure : ResultKind

pub record Expansion : Type 0 where
  pub kind : ResultKind
  pub successors : List StateKey
  pub reason : List ℕ

pub record Node : Type 0 where
  pub depth : ℕ
  pub phase : NodePhase
  pub sequence : ℕ
  pub ticket : Option Ticket
  pub successors : List StateKey
  pub reason : List ℕ

pub record Counters : Type 0 where
  pub admitted : ℕ
  pub duplicates : ℕ
  pub improvements : ℕ
  pub leased : ℕ
  pub committed : ℕ
  pub requeued : ℕ
  pub dispatch_candidates : ℕ

pub data FrontierError : Type 0 where
  unknown_policy priority_mismatch zero_capacity poisoned_frontier beyond_limit capacity_exceeded
        sequence_exhausted leases_exhausted stale_lease probe_mismatch stray_successors
        missing_reason bad_window undefined no_fuel :
      FrontierError

-- The std::map<std::pair<uint64_t, uint64_t>, StateKey> of BFS, in order.
abbrev pub Layers : Type 0
Layers = List (ℕ × ℕ × StateKey)

pub record Frontier : Type 0 where
  pub limit : ℕ
  pub next_sequence : ℕ
  pub next_lease : ℕ
  pub policy : Policy
  pub priority : Option (StateKey → ℕ → ℤ)
  pub max_states : ℕ
  pub poisoned : Bool
  pub nodes : Map Node
  pub pending : Map StateKey
  pub bfs_pending : Layers
  pub active_layers : Map ℕ
  pub phase_counts : NodePhase → ℕ
  pub counters : Counters

-- What a member function leaves and gives.
abbrev pub Call : Type 0 → Type 0
Call A = Frontier × Outcome FrontierError A

-- The next call, unless this one threw.
abbrev pub chain : {A B : Type 0} → Call A → (A → Frontier → Call B) → Call B
chain (f, ok a) k = k a f
chain (f, throws e) k = (f, throws e)

-- A call behind checks that may throw and change nothing.
abbrev pub guarded : {A B : Type 0} → Outcome FrontierError B → Frontier → (B → Call A) → Call A
guarded (ok b) f k = k b
guarded (throws e) f k = (f, throws e)

abbrev pub u64_max : ℕ
u64_max = 18446744073709551615

abbrev pub u64 : ℕ → ℕ
u64 n = n % 18446744073709551616

-- `--n` on an unsigned word.
abbrev pub dec64 : ℕ → ℕ
dec64 n = u64 (n + u64_max)

-- static_cast<size_t>(phase).
abbrev pub phase_index : NodePhase → ℕ
phase_index NodePhase.pending = 0
phase_index NodePhase.inflight = 1
phase_index NodePhase.expanded = 2
phase_index NodePhase.terminal = 3
phase_index NodePhase.depth_cut = 4
phase_index NodePhase.model_budget = 5
phase_index NodePhase.failure = 6

infix 50 ◌==ᴾ◌
abbrev pub ◌==ᴾ◌ : NodePhase → NodePhase → Bool
p ==ᴾ q = phase_index p == phase_index q

abbrev pub is_bfs : Policy → Bool
is_bfs bfs = true
is_bfs _ = false

abbrev pub at_phase : NodePhase → (ℕ → ℕ) → (NodePhase → ℕ) → NodePhase → ℕ
at_phase p g counts q = if p ==ᴾ q then g (counts q) else counts q

unfoldable pub emplace_layer : ℕ → ℕ → StateKey → Layers → Layers
emplace_layer d s key [] = (d, s, key) ∷ []
emplace_layer d s key ((e, t, k) ∷ m) =
    if e == d && t == s
    then (e, t, k) ∷ m
    else if ltb d e || (d == e && ltb s t)
    then (d, s, key) ∷ (e, t, k) ∷ m
    else (e, t, k) ∷ emplace_layer d s key m

unfoldable pub erase_layer : ℕ → ℕ → Layers → Layers
erase_layer d s [] = []
erase_layer d s ((e, t, k) ∷ m) =
    let rest = erase_layer d s m in if e == d && t == s then rest else (e, t, k) ∷ rest

abbrev zero_or : Option ℕ → ℕ
zero_or none = 0
zero_or (some n) = n

-- `++active_layers_[depth]`.
unfoldable pub enter_layer : ℕ → Map ℕ → Map ℕ
enter_layer d m = put d (u64 (zero_or (find d m) + 1)) m

-- `if (--layer->second == 0) erase(layer)`; the source reads no missing layer.
unfoldable pub leave_layer : ℕ → Map ℕ → Map ℕ
leave_layer d m = elim (find d m) [
  | none ↦ m
  | some n ↦ if dec64 n == 0 then erase d m else modify d dec64 m
]

abbrev is_live : NodePhase → Bool
is_live p = p ==ᴾ NodePhase.pending || p ==ᴾ NodePhase.inflight

unfoldable pub index_add : Frontier → StateKey → Node → Frontier
index_add f key node = record f {
  phase_counts = at_phase node.phase (λ n. u64 (n + 1)) f.phase_counts;
  pending =
      if node.phase ==ᴾ NodePhase.pending then emplace node.sequence key f.pending else f.pending;
  bfs_pending =
      if node.phase ==ᴾ NodePhase.pending && is_bfs f.policy
      then emplace_layer node.depth node.sequence key f.bfs_pending
      else f.bfs_pending;
  active_layers =
      if is_bfs f.policy && is_live node.phase
      then enter_layer node.depth f.active_layers
      else f.active_layers;
}

unfoldable pub index_remove : Frontier → Node → Frontier
index_remove f node = record f {
  phase_counts = at_phase node.phase dec64 f.phase_counts;
  pending = if node.phase ==ᴾ NodePhase.pending then erase node.sequence f.pending else f.pending;
  bfs_pending =
      if node.phase ==ᴾ NodePhase.pending && is_bfs f.policy
      then erase_layer node.depth node.sequence f.bfs_pending
      else f.bfs_pending;
  active_layers =
      if is_bfs f.policy && is_live node.phase
      then leave_layer node.depth f.active_layers
      else f.active_layers;
}

abbrev pub moved : NodePhase → ℕ → Node → Node
moved phase depth node = record node { phase = phase; depth = depth }

-- A write through the reference into `nodes_`.
unfoldable pub write_node : Frontier → StateKey → (Node → Node) → Frontier
write_node f key g = record f { nodes = modify key g f.nodes }

unfoldable pub update : Frontier → StateKey → Node → NodePhase → ℕ → Frontier
unfolding write_node index_add index_remove
update f key node phase depth =
    index_add (write_node (index_remove f node) key (moved phase depth)) key
      (moved phase depth node)

unfoldable pub ensure_healthy : Frontier → Outcome FrontierError (Unit {0})
ensure_healthy f = throw_if f.poisoned poisoned_frontier

abbrev pub wants_priority : Policy → Bool
wants_priority by_priority = true
wants_priority _ = false

abbrev pub has_priority : Option (StateKey → ℕ → ℤ) → Bool
has_priority none = false
has_priority (some g) = true

abbrev pub differ : Bool → Bool → Bool
differ true b = not b
differ false b = b

abbrev pub no_counts : Counters
no_counts = record {
  admitted = 0;
  duplicates = 0;
  improvements = 0;
  leased = 0;
  committed = 0;
  requeued = 0;
  dispatch_candidates = 0;
}

unfoldable pub construct :
    ℕ → Policy → Option (StateKey → ℕ → ℤ) → ℕ → Outcome FrontierError Frontier
construct limit policy priority max_states = do
  throw_if (differ (wants_priority policy) (has_priority priority)) priority_mismatch
  throw_if (max_states == 0) zero_capacity
  ok (record {
    limit = limit;
    next_sequence = 0;
    next_lease = 0;
    policy = policy;
    priority = priority;
    max_states = max_states;
    poisoned = false;
    nodes = [];
    pending = [];
    bfs_pending = [];
    active_layers = [];
    phase_counts = λ p. 0;
    counters = no_counts;
  })
