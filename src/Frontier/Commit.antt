-- ===== src/Frontier/Commit.antt =====
-- Frontier::commit, Frontier::worker_lost and Frontier::status.
use det_sim.Base.{
  ℕ, ◌+◌, ◌-◌, Bool, true, false, Option, none, some, List, [], ◌∷◌, ltb, ◌==◌, if◌then◌else◌,
  Outcome, ok, throws, throw_if, ◌>>=◌, ◌>>◌, ◌&&◌, ◌||◌, not, length,
}
use det_sim.Base.Map.{Map, find, contains}
use det_sim.Frontier.State.{
  StateKey, WorkerId, Node, NodePhase, Ticket, Expansion, ResultKind, Status, Frontier,
  FrontierError, Call, chain, guarded, u64, u64_max, ◌==ᴾ◌, update, write_node, ensure_healthy,
  capacity_exceeded, sequence_exhausted, stale_lease, probe_mismatch, stray_successors,
  missing_reason,
}
use det_sim.Frontier.Propagate.{propagate}

abbrev pub beq : Bool → Bool → Bool
beq true b = b
beq false b = not b

-- The node that an unexpired ticket leases; an exception otherwise.
holds_ticket : Ticket → Node → Option Ticket → Bool
holds_ticket t n none = false
holds_ticket t n (some u) =
    n.phase ==ᴾ NodePhase.inflight
    && u.worker == t.worker
    && u.lease_id == t.lease_id
    && u.depth == t.depth
    && beq u.may_expand t.may_expand

unfoldable pub leased_node : Frontier → Ticket → Outcome FrontierError Node
unfolding holds_ticket
leased_node f t = elim (find t.state f.nodes) [
  | none ↦ throws stale_lease
  | some n ↦ if holds_ticket t n n.ticket then ok n else throws stale_lease
]

abbrev pub phase_of : ResultKind → NodePhase
phase_of ResultKind.expanded = NodePhase.expanded
phase_of ResultKind.terminal = NodePhase.terminal
phase_of ResultKind.depth_cut = NodePhase.depth_cut
phase_of ResultKind.model_budget = NodePhase.model_budget
phase_of ResultKind.failure = NodePhase.failure

abbrev pub is_empty : List ℕ → Bool
is_empty [] = true
is_empty (x ∷ xs) = false

-- The tests of a result against its ticket.
unfoldable pub check_expansion : Ticket → Expansion → Outcome FrontierError (Unit {0})
check_expansion t x = do
  throw_if
      (not t.may_expand && phase_of x.kind ==ᴾ NodePhase.expanded
        || t.may_expand && phase_of x.kind ==ᴾ NodePhase.depth_cut)
      probe_mismatch
  throw_if (not (phase_of x.kind ==ᴾ NodePhase.expanded) && not (is_empty x.successors))
      stray_successors
  throw_if
      ((phase_of x.kind ==ᴾ NodePhase.model_budget || phase_of x.kind ==ᴾ NodePhase.failure)
        && is_empty x.reason)
      missing_reason

unfoldable pub member : ℕ → List ℕ → Bool
member k [] = false
member k (x ∷ xs) = x == k || member k xs

-- The std::set of the successors that are no nodes yet, as a list without repetition.
unfoldable pub missing : Frontier → List StateKey → List StateKey
unfolding member
missing f [] = []
missing f (k ∷ keys) =
    let rest = missing f keys in if contains k f.nodes || member k rest then rest else k ∷ rest

unfoldable pub check_room : Frontier → List StateKey → Outcome FrontierError (Unit {0})
unfolding missing
check_room f keys = do
  throw_if (ltb (f.max_states - length f.nodes) (length (missing f keys))) capacity_exceeded
  throw_if (ltb (u64_max - f.next_sequence) (length (missing f keys))) sequence_exhausted

abbrev pub depth_at : Frontier → StateKey → ℕ
depth_at f key = elim (find key f.nodes) [ none ↦ 0 | some n ↦ n.depth ]

-- `for (auto key : node.successors) propagate(key, node.depth + 1)`: the depth is read each round.
unfoldable pub propagate_all : Frontier → StateKey → List StateKey → Call (Unit {0})
propagate_all f state [] = (f, ok tt)
propagate_all f state (k ∷ keys) =
    chain (propagate f k (u64 (depth_at f state + 1))) (λ u g. propagate_all g state keys)

abbrev pub with_result : Expansion → Node → Node
with_result x n = record n { successors = x.successors; reason = x.reason }

abbrev pub without_ticket : Node → Node
without_ticket n = record n { ticket = none }

-- A cut node that was meanwhile reached within the limit is pending again.
abbrev pub committed_phase : Frontier → Node → NodePhase → NodePhase
committed_phase f node phase =
    if phase ==ᴾ NodePhase.depth_cut && ltb node.depth f.limit then NodePhase.pending else phase

-- The node takes the result, and gives its ticket back.
unfoldable pub settle : Frontier → StateKey → Node → Expansion → Frontier
settle f key node x =
    let g = write_node f key (with_result x) in
    let h =
      update g key (with_result x node) (committed_phase f node (phase_of x.kind)) node.depth in
    write_node h key without_ticket

abbrev pub count_commit : Call (Unit {0}) → Call (Unit {0})
count_commit (f, ok u) = (
  record f { counters = record (f.counters) { committed = u64 (f.counters.committed + 1) } },
  ok tt,
)
count_commit (f, throws e) = (f, throws e)

unfoldable pub check_commit : Frontier → Ticket → Expansion → Outcome FrontierError Node
unfolding check_expansion check_room leased_node
check_commit f t x = do
  ensure_healthy f
  node ← leased_node f t
  check_expansion t x
  check_room f x.successors
  ok node

unfoldable pub commit : Frontier → Ticket → Expansion → Call (Unit {0})
commit f t x =
    guarded (check_commit f t x) f
      λ node. count_commit (propagate_all (settle f t.state node x) t.state x.successors)

abbrev pub held_by : WorkerId → Option Ticket → Bool
held_by w none = false
held_by w (some t) = t.worker == w

-- One node of the loop of `worker_lost`.
unfoldable pub lose : WorkerId → StateKey → Node → Frontier × ℕ → Frontier × ℕ
lose w key node (f, count) =
    if held_by w node.ticket
    then (write_node (update f key node NodePhase.pending node.depth) key without_ticket, count + 1)
    else (f, count)

unfoldable pub lose_all : WorkerId → Map Node → Frontier × ℕ → Frontier × ℕ
unfolding lose
lose_all w [] s = s
lose_all w ((key, node) ∷ m) s = lose_all w m (lose w key node s)

abbrev pub count_requeued : Frontier × ℕ → Call ℕ
count_requeued (f, n) =
    (record f { counters = record (f.counters) { requeued = u64 (f.counters.requeued + n) } }, ok n)

unfoldable pub worker_lost : Frontier → WorkerId → Call ℕ
unfolding lose_all
worker_lost f w = guarded (ensure_healthy f) f λ u. count_requeued (lose_all w f.nodes (f, 0))

abbrev pub some_in : Frontier → NodePhase → Bool
some_in f p = not (f.phase_counts p == 0)

unfoldable pub status : Frontier → Status
status f =
    if f.poisoned
    then Status.failed
    else if some_in f NodePhase.failure
    then Status.failed
    else if some_in f NodePhase.pending || some_in f NodePhase.inflight
    then Status.running
    else if some_in f NodePhase.depth_cut || some_in f NodePhase.model_budget
    then Status.bounded
    else Status.complete
