-- ===== src/Frontier/Propagate.antt =====
-- Frontier::propagate and Frontier::admit: a distance is entered for a state, and passed on along the
-- successors of expanded nodes while it improves them. The work vector is a list, its back first.
use det_sim.Base.{
  ℕ, zero, suc, ◌+◌, ◌*◌, Bool, true, false, none, some, List, [], ◌∷◌, ◌++◌, map, leb, ltb, ◌==◌,
  if◌then◌else◌, length, ok, throws, ◌&&◌,
}
use det_sim.Base.Map.{Map, find, put}
use det_sim.Frontier.State.{
  StateKey, Node, NodePhase, Frontier, Call, chain, guarded, u64, u64_max, ◌==ᴾ◌, index_add, update,
  ensure_healthy, capacity_exceeded, sequence_exhausted, no_fuel, beyond_limit,
}

abbrev pub Work : Type 0
Work = List (StateKey × ℕ)

abbrev pub after_cut : NodePhase → NodePhase
after_cut phase = if phase ==ᴾ NodePhase.depth_cut then NodePhase.pending else phase

-- The node of a state that is met for the first time.
abbrev pub new_node : Frontier → ℕ → Node
new_node f distance = record {
  depth = distance;
  phase = NodePhase.pending;
  sequence = f.next_sequence;
  ticket = none;
  successors = [];
  reason = [];
}

unfoldable pub insert_node : Frontier → StateKey → ℕ → Frontier
insert_node f key distance =
    let node = new_node f distance in
    let g =
      index_add (record f { next_sequence = f.next_sequence + 1; nodes = put key node f.nodes }) key
        node in
    record g { counters = record (g.counters) { admitted = u64 (f.counters.admitted + 1) } }

unfoldable pub count_duplicate : Frontier → Frontier
count_duplicate f = record f {
  counters = record (f.counters) { duplicates = u64 (f.counters.duplicates + 1) };
}

unfoldable pub improve : Frontier → StateKey → Node → ℕ → Frontier
improve f key node distance =
    let g = update f key node (after_cut node.phase) distance in
    record g { counters = record (g.counters) { improvements = u64 (g.counters.improvements + 1) } }

-- The work that the improvement of an expanded node pushes.
abbrev pub push_successors : Node → ℕ → Work
push_successors node distance =
    if node.phase ==ᴾ NodePhase.expanded
    then map (λ s. (s, u64 (distance + 1))) node.successors
    else []

-- One round of the loop: the frontier, and what it pushes.
unfoldable pub visit_found : Frontier → StateKey → ℕ → Node → Call Work
visit_found f key distance node =
    if leb node.depth distance
    then (count_duplicate f, ok [])
    else (improve (count_duplicate f) key node distance, ok (push_successors node distance))

unfoldable pub visit_new : Frontier → StateKey → ℕ → Call Work
visit_new f key distance =
    if length f.nodes == f.max_states
    then (f, throws capacity_exceeded)
    else if f.next_sequence == u64_max
    then (f, throws sequence_exhausted)
    else (insert_node f key distance, ok [])

unfoldable pub visit : Frontier → StateKey → ℕ → Call Work
unfolding visit_found visit_new
visit f key distance = elim (find key f.nodes) [
  | none ↦ visit_new f key distance
  | some node ↦ visit_found f key distance node
]

unfoldable pub propagate_loop : ℕ → Work → Frontier → Call (Unit {0})
propagate_loop fuel [] f = (f, ok tt)
propagate_loop zero (w ∷ work) f = (f, throws no_fuel)
propagate_loop (suc fuel) ((key, distance) ∷ work) f =
    chain (visit f key distance) (λ pushed. propagate_loop fuel (pushed ++ work))

-- What is left to do at most: each improvement of a node lowers its depth, and pushes its successors.
unfoldable pub potential : Map Node → ℕ
potential [] = 0
potential ((key, node) ∷ m) = node.depth * length node.successors + potential m

unfoldable pub propagate : Frontier → StateKey → ℕ → Call (Unit {0})
propagate f state depth = propagate_loop (potential f.nodes + 1) ((state, depth) ∷ []) f

-- `changed` of `admit`.
abbrev pub changes : Frontier → StateKey → ℕ → Bool
changes f state depth = elim (find state f.nodes) [ none ↦ true | some n ↦ ltb depth n.depth ]

abbrev pub is_new : Frontier → StateKey → Bool
is_new f state = elim (find state f.nodes) [ none ↦ true | some n ↦ false ]

unfoldable pub admit : Frontier → StateKey → ℕ → Call Bool
admit f state depth = guarded (ensure_healthy f) f λ u.
    if ltb f.limit depth
    then (f, throws beyond_limit)
    else if is_new f state && length f.nodes == f.max_states
    then (f, throws capacity_exceeded)
    else chain (propagate f state depth) (λ v g. (g, ok (changes f state depth)))
